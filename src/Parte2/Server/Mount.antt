-- ===== src/Parte2/Server/Mount.antt =====
-- A client's first request on its way through Parte2/tecnicofs_ex2/fs/tfs_server.c: it names no
-- session, and is given the first that is free.
use so_file_system.Common.{
  ℕ, suc, ◌+◌, ◌<◌, ◌≡◌, refl, sym, ap, ◌∙◌, List, [], ◌∷◌, some, true, false, arith, ◌==◌, ==_iff,
  ltb, lt→ltb, pos, length, get_or, slice, update, update-update,
}
use so_file_system.Memory.{Bytes, load_int, store_int, store_byte}
use so_file_system.Memory.Laws.{
  memcpy_inside, memcpy_outside, load_int-memcpy, load_int-store_int, store_int_outside,
}
use so_file_system.Memory.Wide.{c_string, copy_bytes, strcpy}
use so_file_system.Memory.Wide.Laws.{Agrees, load_int-Agrees, c_string-text}
use so_file_system.Directory.Names.{IsText}
use so_file_system.Parte2.Server.State.{Server, sessions, input_buffer_size, wrote, Os, done}
use so_file_system.Parte2.Server.Sessions.{reserved, open_client_session}
use so_file_system.Parte2.Server.Sessions.Laws.{IsFirst, get_available_session-first}
use so_file_system.Parte2.Server.Handlers.{int_bytes, answer, handle_tfs_mount}
use so_file_system.Parte2.Server.Threads.{
  get_client_info_max_size, get_client_request_info, write_to_buffer, mount_buffer, new_session,
  Receiver, request, dispatch, receive_round, run_client_request, read_from_buffer, serve_round,
}
use so_file_system.Parte2.Server.Delivery.{
  served_by, received, received-Agrees, read_round, buffer-Agrees,
}
use so_file_system.Parte2.Server.Answers.{answer_sent}

-- A name behind the start of a message.
pub named_byte :
    (m : Bytes) (a : ℕ) (name : List ℕ) (j : ℕ)
    → j < suc (length name)
    → strcpy m a name (a + j) ≡ get_or name j 0
named_byte m a name j lt =
    memcpy_inside m a name 0 (suc (length name)) (a + j) (omega arith) (omega arith)
    ∙ ap (λ q. get_or name q 0) (omega arith)

dispatch_mount :
    (os : Os) (stack : Bytes) (s : Server) (r : Receiver) (op_code : ℕ)
    → op_code ≡ 1
    → dispatch os stack s r op_code ≡ new_session os stack s r op_code
unfolding dispatch get_client_request_info
dispatch_mount os stack s r op_code e =
    let is : (op_code == 1) ≡ true = (==_iff op_code 1).1 e in
    rw (dispatch, get_client_request_info, is) refl

module _ (os : Os) (stack : Bytes) (s : Server) (r : Receiver) (old : Bytes) (k fd : ℕ)
    (first : IsFirst 0 sessions k s.clients) (name : List ℕ) (text : IsText name)
    (short : length name < 40) (opened : os.open_pipe name ≡ pos fd)
    (writable : (bytes : List ℕ) → os.write_succeeds (pos fd) bytes ≡ true) (m : Bytes) (n : ℕ)
    (size : n ≡ 40) (code : m 0 ≡ 1)
    (holds : (j : ℕ) → j < suc (length name) → m (1 + j) ≡ get_or name j 0) where
  abbrev buffer : Bytes
  buffer = received r.buffer_in m n

  abbrev after : Receiver
  after = record { buffer_in = buffer; bytes_to_read = n }

  abbrev given : Server
  given = record s { clients = update s.clients k reserved }

  read_name : c_string 40 buffer 1 ≡ some name
  read_name =
      c_string-text 40 buffer 1 name text short
        (λ j lt. received-Agrees r.buffer_in m n (1 + j) (omega arith) ∙ holds j lt)

  abbrev message : Bytes
  message = mount_buffer stack (m 0) k name

  abbrev at_session : Server
  at_session = write_to_buffer given message k 45

  accepted : new_session os stack s after (m 0) ≡ request given after message k 45
  unfolding new_session
  accepted = rw (new_session, read_name, get_available_session-first s k first) refl

  handed : receive_round os stack s r (slice m 0 (suc n)) ≡ request given after message k 45
  unfolding get_client_info_max_size
  handed =
      let whole : get_client_info_max_size (m 0) r.bytes_to_read true ≡ n =
        rw (code, get_client_info_max_size) (sym size) in
      read_round os stack s r m n whole (omega arith)
      ∙ dispatch_mount os stack s after (m 0) code
      ∙ accepted

  abbrev memory : Bytes
  memory = copy_bytes old 0 (at_session.info k) 0 input_buffer_size

  same : Agrees 45 message memory
  same = buffer-Agrees old message given k 45 (omega arith)

  start : Bytes
  start = store_int (store_byte stack 0 (m 0)) 1 (pos k)

  memory_code : memory 0 ≡ 1
  unfolding mount_buffer store_byte start
  memory_code =
      same 0 (omega arith)
      ∙ memcpy_outside start 5 name 0 (suc (length name)) 0 (omega arith)
      ∙ store_int_outside (store_byte stack 0 (m 0)) 1 (pos k) 0 (omega arith)
      ∙ code

  memory_session : load_int memory 1 ≡ pos k
  unfolding mount_buffer start
  memory_session =
      load_int-Agrees 45 message memory 1 same (omega arith)
      ∙ load_int-memcpy start 5 name 0 (suc (length name)) 1 (omega arith)
      ∙ load_int-store_int (store_byte stack 0 (m 0)) 1 (pos k) (omega (arith, first.inside))

  memory_name : c_string 40 memory 5 ≡ some name
  unfolding mount_buffer start
  memory_name =
      c_string-text 40 memory 5 name text short
        (λ j lt. same (5 + j) (omega arith) ∙ named_byte start 5 name j lt)

  -- The session's pipe is open.
  abbrev pub mounted : Server
  mounted = record s {
    clients = update s.clients k (pos fd);
    readable = update at_session.readable k false;
    info = at_session.info;
  }

  opens_pipe :
      open_client_session os
        (record at_session { readable = update at_session.readable k false })
        name
        k
      ≡ some (mounted, pos fd)
  unfolding open_client_session write_to_buffer
  opens_pipe =
      rw (open_client_session, opened)
        (ap (λ t. some (record mounted { clients = t }, pos fd))
          (update-update s.clients k reserved (pos fd)))

  mount_handled :
      handle_tfs_mount os
        (record at_session { readable = update at_session.readable k false })
        memory
        1
      ≡ answer os mounted k (pos fd) (int_bytes (pos k))
  unfolding handle_tfs_mount
  mount_handled =
      let small : ltb k sessions ≡ true = lt→ltb k sessions first.inside in
      rw (handle_tfs_mount, memory_name, memory_session, small, opens_pipe, memory_session) refl

  pub mount_served :
      served_by os stack s r old (slice m 0 (suc n))
      ≡ done mounted (wrote (pos fd) (int_bytes (pos k)) ∷ [])
  unfolding served_by serve_round read_from_buffer run_client_request
  mount_served =
      rw
        (
          served_by, handed, serve_round, read_from_buffer, run_client_request, memory_code,
          mount_handled,
        )
        (answer_sent os mounted k (pos fd) (int_bytes (pos k)) (writable (int_bytes (pos k))))
