-- ===== src/Parte2/Remote/Transfers.antt =====
-- A transfer of bytes by a call of Parte2/tecnicofs_ex2/client/tecnicofs_client_api.c by a mounted client, through the request
-- that it writes, Parte2/tecnicofs_ex2/fs/tfs_server.c that serves it, and the answer that it reads.
use so_file_system.Common.{
  ℕ, ◌+◌, ◌<◌, ◌≤◌, ◌≡◌, refl, ◌∙◌, List, [], ◌∷◌, some, true, false, arith, ℤ, pos, length, slice,
  sym, FitsInt, ap, ◌^◌, subst, lt→ltb, ltb,
}
use so_file_system.Memory.{Bytes, memcpy}
use so_file_system.Memory.Wide.Laws.{Agrees, load_int-Agrees, load_size-Agrees}
use so_file_system.Parte2.State.{State}
use so_file_system.Parte2.Transfer.{tfs_write, tfs_read}
use so_file_system.Parte2.Server.State.{Server, sessions, wrote, Os, done, Event}
use so_file_system.Parte2.Server.Handlers.{int_bytes, to_int, read_answer}
use so_file_system.Parte2.Server.Threads.{Receiver, get_client_info_max_size}
use so_file_system.Parte2.Server.Delivery.{served_by, IsSessionRequest}
use so_file_system.Parte2.Client.{
  op_write, op_read, Exchange, write_request, read_request, client_write, client_read,
}
use so_file_system.Memory.Laws.{memcpy_outside}
use so_file_system.Parte2.Remote.Replies.{Answered, write_reply, read_reply}
use so_file_system.Parte2.Remote.Results.{to_int-FitsInt, tfs_read-ReadResult}
use so_file_system.Parte2.Remote.Content.{slice-memcpy, read_content, length-read_answer}
use so_file_system.Parte2.Client.Requests.{
  read_memory, read_code, read_session, read_handle, read_length,
}
use so_file_system.Parte2.Remote.Link.{pipe_buf, fits_as, client, asked, session_fits}

read_fits : IsSessionRequest op_read 16
unfolding get_client_info_max_size
read_fits = (λ len. refl, refl, refl, omega arith, omega arith)

write_fits : IsSessionRequest op_write 1040
unfolding get_client_info_max_size
write_fits = (λ len. refl, refl, refl, omega arith, omega arith)

module _ (os : Os) (stack : Bytes) (s : Server) (r : Receiver) (old : Bytes) (k : ℕ)
    (valid : k < sessions)
    (writable : (bytes : List ℕ) → os.write_succeeds (s.clients k) bytes ≡ true) (junk : Bytes)
    (io : Exchange)
    (pipes : (l bytes : List ℕ) (s' : Server) (rest : List Event)
      → served_by os stack s r old l ≡ done s' (wrote (s.clients k) bytes ∷ rest)
      → length bytes ≤ pipe_buf
      → io l (length bytes) ≡ some (memcpy junk 0 bytes 0 (length bytes)))
    (cstack : Bytes) where
  read_request-slice :
      (fhandle : ℤ) (small : FitsInt fhandle) (len : ℕ) (bounded : len < 2 ^ 64)
      → read_request cstack (pos k) fhandle len
        ≡ slice
            (read_memory cstack (pos k) (session_fits k valid) fhandle small op_read len bounded)
            0
            17
  unfolding read_request
  read_request-slice fhandle small len bounded = refl

  -- A client of Parte2 is mounted as session k, the server can write to the pipe of that session,
  -- and the pipes carry whole what is written to them, up to PIPE_BUF (4096) bytes. Let it read
  -- at most 4092 bytes through an int handle, the stacks of both sides have room for the array of
  -- the answer, and tfs_read have a result on the server's file system. Then its message makes
  -- the server carry out that call, and the client's call returns its result and the same bytes.
  pub remote_read :
      (fhandle : ℤ) (len room : ℕ) (fs : State) (out : ℤ) (bytes : List ℕ)
      → FitsInt fhandle
      → len + 4 ≤ pipe_buf
      → len + 4 ≤ os.stack_room
      → len + 4 ≤ room
      → tfs_read s.fs fhandle len ≡ some (fs, (out, bytes))
      → Answered s k
          (read_answer stack len out bytes)
          fs
          (served_by os stack s r old (read_request cstack (pos k) fhandle len))
        × (client_read room io cstack (client k) fhandle len ≡ some (out, bytes))
  unfolding client_read
  remote_read fhandle len room fs out bytes small whole stacked held e =
      let lt : len < 2 ^ 31 = omega arith in
      let inside : ltb room (len + 4) ≡ false = ground arith in
      let bounded : len < 2 ^ 64 = omega arith in
      let m = read_memory cstack (pos k) (session_fits k valid) fhandle small op_read len bounded in
      let code =
        read_code cstack (pos k) (session_fits k valid) fhandle small op_read len bounded in
      let sent = read_request-slice fhandle small len bounded in
      let a =
        read_reply os stack s r old k valid writable m 16 (fits_as op_read (m 0) 16 code read_fits)
          (omega arith)
          (read_session cstack (pos k) (session_fits k valid) fhandle small op_read len bounded)
          fhandle out len bytes fs code (omega arith)
          (read_handle cstack (pos k) (session_fits k valid) fhandle small op_read len bounded)
          (read_length cstack (pos k) (session_fits k valid) fhandle small op_read len bounded)
          stacked e in
      let content =
        read_content stack junk out len bytes lt
          (tfs_read-ReadResult s.fs fhandle len fs out bytes e lt) in
      let size : length (read_answer stack len out bytes) ≡ len + 4 =
        length-read_answer stack len out bytes in
      let arrives =
        ap (io (slice m 0 17)) (sym size)
        ∙ pipes (slice m 0 17) (read_answer stack len out bytes) a.after [] a.ends
            (omega (arith, size)) in
      (
        subst
            (λ l. Answered s k (read_answer stack len out bytes) fs (served_by os stack s r old l))
            (sym sent) a,
        rw (client_read, inside, sent, arrives, content.0, content.1) refl,
      )

  module _ (fhandle : ℤ) (small : FitsInt fhandle) (buffer : List ℕ)
      (short : length buffer ≤ 1024) where
    bounded : length buffer < 2 ^ 64
    bounded = omega arith

    abbrev fields : Bytes
    fields =
        read_memory cstack (pos k) (session_fits k valid) fhandle small op_write (length buffer)
          bounded

    abbrev write_memory : Bytes
    write_memory = memcpy fields 17 buffer 0 (length buffer)

    same_fields : Agrees 17 fields write_memory
    same_fields q lt = memcpy_outside fields 17 buffer 0 (length buffer) q (omega arith)

    write_code : write_memory 0 ≡ op_write
    write_code =
        same_fields 0 (omega arith)
        ∙ read_code cstack (pos k) (session_fits k valid) fhandle small op_write (length buffer)
            bounded

    write_request-slice :
        write_request cstack (pos k) fhandle buffer (length buffer)
        ≡ some (slice write_memory 0 1041)
    unfolding write_request
    write_request-slice =
        let room : ltb (17 + length buffer) 1042 ≡ true = lt→ltb _ 1042 (omega arith) in
        rw (write_request, room) refl

    -- A client of Parte2 is mounted as session k, the server can write to the pipe of that
    -- session, and the pipes carry whole what is written to them, up to PIPE_BUF (4096) bytes.
    -- Let it write a buffer of at most 1024 bytes through an int handle, where tfs_write with the
    -- whole buffer has a result on the server's file system. Then the message that it sends makes
    -- the server carry out that call and send its result as an int, and the client's call returns
    -- the result as an int.
    pub remote_write :
        (fs : State) (out : ℤ)
        → tfs_write s.fs fhandle buffer (length buffer) ≡ some (fs, out)
        → (l : List ℕ) × (write_request cstack (pos k) fhandle buffer (length buffer) ≡ some l)
          × Answered s k (int_bytes (to_int out)) fs (served_by os stack s r old l)
          × (client_write io cstack (client k) fhandle buffer (length buffer) ≡ some (to_int out))
    unfolding client_write
    remote_write fs out e =
        let a =
          write_reply os stack s r old k valid writable write_memory 1040
            (fits_as op_write (write_memory 0) 1040 write_code write_fits) (omega arith)
            (load_int-Agrees 17 fields write_memory 1 same_fields (omega arith)
              ∙ read_session cstack (pos k) (session_fits k valid) fhandle small op_write
                  (length buffer) bounded)
            fhandle out buffer (length buffer) fs write_code (omega arith) short
            (load_int-Agrees 17 fields write_memory 5 same_fields (omega arith)
              ∙ read_handle cstack (pos k) (session_fits k valid) fhandle small op_write
                  (length buffer) bounded)
            (load_size-Agrees 17 fields write_memory 9 same_fields (omega arith)
              ∙ read_length cstack (pos k) (session_fits k valid) fhandle small op_write
                  (length buffer) bounded)
            (slice-memcpy fields 17 buffer) e in
        let l = slice write_memory 0 1041 in
        (
          l,
          write_request-slice,
          a,
          rw (client_write, write_request-slice)
              (ap some (
                asked os stack s r old k valid writable junk io pipes l (to_int out) fs
                  (to_int-FitsInt out) a)),
        )
