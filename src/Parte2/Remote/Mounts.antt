-- ===== src/Parte2/Remote/Mounts.antt =====
-- tfs_mount of Parte2/tecnicofs_ex2/client/tecnicofs_client_api.c, served by
-- Parte2/tecnicofs_ex2/fs/tfs_server.c.
use so_file_system.Common.{
  ℕ, suc, ◌<◌, ◌≤◌, ◌≡◌, refl, List, [], ◌∷◌, some, true, arith, pos, lt→ltb, length, slice, update,
}
use so_file_system.Memory.{Bytes, load_int, store_byte, memcpy}
use so_file_system.Memory.Laws.{memcpy_outside}
use so_file_system.Memory.Wide.{strcpy}
use so_file_system.Directory.Names.{IsText}
use so_file_system.Parte2.Server.State.{Server, sessions, wrote, Event, Os, done}
use so_file_system.Parte2.Server.Sessions.Laws.{IsFirst}
use so_file_system.Parte2.Server.Handlers.{int_bytes}
use so_file_system.Parte2.Server.Threads.{Receiver}
use so_file_system.Parte2.Server.Delivery.{served_by}
use so_file_system.Parte2.Server.Answers.{load_int-int_bytes}
use so_file_system.Parte2.Server.Mount.{named_byte, mounted, mount_served}
use so_file_system.Parte2.Client.{Client, Exchange, op_mount, mount_request, client_mount}
use so_file_system.Parte2.Remote.Link.{pipe_buf, client, session_fits}

module _ (os : Os) (stack : Bytes) (s : Server) (r : Receiver) (old : Bytes) (k fd : ℕ)
    (first : IsFirst 0 sessions k s.clients) (name : List ℕ) (text : IsText name)
    (short : length name < 40) (opened : os.open_pipe name ≡ pos fd)
    (writable : (bytes : List ℕ) → os.write_succeeds (pos fd) bytes ≡ true) (junk : Bytes)
    (io : Exchange)
    (pipes : (l bytes : List ℕ) (s' : Server) (rest : List Event)
      → served_by os stack s r old l ≡ done s' (wrote (pos fd) bytes ∷ rest)
      → length bytes ≤ pipe_buf
      → io l (length bytes) ≡ some (memcpy junk 0 bytes 0 (length bytes)))
    (cstack : Bytes) where
  abbrev start : Bytes
  start = store_byte cstack 0 op_mount

  abbrev message : Bytes
  message = strcpy start 1 name

  mount_request-slice : mount_request cstack name ≡ some (slice message 0 41)
  unfolding mount_request
  mount_request-slice = rw (mount_request, lt→ltb (length name) 40 short) refl

  message_code : message 0 ≡ op_mount
  unfolding store_byte
  message_code = memcpy_outside start 1 name 0 (suc (length name)) 0 (omega arith)

  -- Let k be the first free session of a server of Parte2, a client's pipe have a name of less
  -- than 40 characters and open with descriptor fd, to which the server can write, and the pipes
  -- carry whole what is written to them, up to PIPE_BUF (4096) bytes. Then the client's first
  -- message makes the server give it session k with descriptor fd and leave the file system, and
  -- its tfs_mount returns 0 with the client mounted as session k.
  pub remote_mount :
      (c : Client)
      → (l : List ℕ) × (mount_request cstack name ≡ some l)
        × ((after : Server) × (served_by os stack s r old l
              ≡ done after (wrote (pos fd) (int_bytes (pos k)) ∷ []))
            × (after.clients ≡ update s.clients k (pos fd))
            × (after.fs ≡ s.fs))
        × (client_mount io cstack true true c name ≡ some (client k, pos 0))
  unfolding client_mount
  remote_mount c =
      let served =
        mount_served os stack s r old k fd first name text short opened writable message 40 refl
          message_code (named_byte start 1 name) in
      let after =
        mounted os stack s r old k fd first name text short opened writable message 40 refl
          message_code (named_byte start 1 name) in
      let answer = int_bytes (pos k) in
      let l = slice message 0 41 in
      let arrives = pipes l answer after [] served (omega arith) in
      let id : load_int (memcpy junk 0 answer 0 4) 0 ≡ pos k =
        load_int-int_bytes junk (pos k) (session_fits k first.inside) in
      (
        l,
        mount_request-slice,
        (after, served, refl, refl),
        rw (client_mount, mount_request-slice, arrives, id) refl,
      )
