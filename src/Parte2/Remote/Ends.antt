-- ===== src/Parte2/Remote/Ends.antt =====
-- The last calls of a client of Parte2/tecnicofs_ex2/client/tecnicofs_client_api.c:
-- tfs_unmount and tfs_shutdown_after_all_closed, served by Parte2/tecnicofs_ex2/fs/tfs_server.c.
use so_file_system.Common.{
  ℕ, suc, ◌<◌, ◌≤◌, ◌≡◌, refl, sym, subst, ◌∙◌, List, ◌∷◌, some, true, false, arith, pos, ltb,
  lt→ltb, length, slice,
}
use so_file_system.Memory.{Bytes, load_int, memcpy}
use so_file_system.Parte2.State.{State}
use so_file_system.Parte2.Operations.{destroy_begin, destroy_end}
use so_file_system.Parte2.Server.State.{Server, sessions, wrote, Event, Os, done}
use so_file_system.Parte2.Server.Handlers.{
  int_bytes, shutdown_end, handle_tfs_shutdown_after_all_closed,
}
use so_file_system.Parte2.Server.Threads.{Receiver, run_client_request, get_client_info_max_size}
use so_file_system.Parte2.Server.Delivery.{served_by, IsSessionRequest}
use so_file_system.Parte2.Client.{Exchange, header, op_shutdown, shutdown_request, client_shutdown}
use so_file_system.Parte2.Client.Requests.{header_code, header_session}
use so_file_system.Parte2.Remote.Replies.{Answered, server, memory, code, named, reply}
use so_file_system.Parte2.Remote.Link.{pipe_buf, fits_as, client, asked, session_fits}

shutdown_fits : IsSessionRequest op_shutdown 4
unfolding get_client_info_max_size
shutdown_fits = (λ len. refl, refl, refl, omega arith, omega arith)

module _ (os : Os) (stack : Bytes) (s : Server) (r : Receiver) (old : Bytes) (k : ℕ)
    (valid : k < sessions)
    (writable : (bytes : List ℕ) → os.write_succeeds (s.clients k) bytes ≡ true) where
  module _ (m : Bytes) (n : ℕ) (fits : IsSessionRequest (m 0) n) (large : 5 ≤ suc n)
      (names : load_int m 1 ≡ pos k) where
    abbrev at : Server
    at = server os stack s r old k valid writable m n fits large names

    abbrev bytes : Bytes
    bytes = memory os stack s r old k valid writable m n fits large names

    shutdown_reply :
        (fs : State)
        → m 0 ≡ op_shutdown
        → destroy_begin s.fs ≡ some (fs, false)
        → Answered s k
            (int_bytes (pos 0))
            (destroy_end fs).0
            (served_by os stack s r old (slice m 0 (suc n)))
    unfolding run_client_request handle_tfs_shutdown_after_all_closed shutdown_end destroy_end
    shutdown_reply fs c e =
        let op = code os stack s r old k valid writable m n fits large names ∙ c in
        let name = named os stack s r old k valid writable m n fits large names in
        let small : ltb k sessions ≡ true = lt→ltb k sessions valid in
        reply os stack s r old k valid writable m n fits large names (int_bytes (pos 0))
          (destroy_end fs).0
          (rw (run_client_request, op, handle_tfs_shutdown_after_all_closed, name, small, e, name)
            refl)

module _ (os : Os) (stack : Bytes) (s : Server) (r : Receiver) (old : Bytes) (k : ℕ)
    (valid : k < sessions)
    (writable : (bytes : List ℕ) → os.write_succeeds (s.clients k) bytes ≡ true) (junk : Bytes)
    (io : Exchange)
    (pipes : (l bytes : List ℕ) (s' : Server) (rest : List Event)
      → served_by os stack s r old l ≡ done s' (wrote (s.clients k) bytes ∷ rest)
      → length bytes ≤ pipe_buf
      → io l (length bytes) ≡ some (memcpy junk 0 bytes 0 (length bytes)))
    (cstack : Bytes) where
  shutdown_request-slice :
      shutdown_request cstack (pos k) ≡ slice (header cstack op_shutdown (pos k)) 0 5
  unfolding shutdown_request
  shutdown_request-slice = refl

  -- A client of Parte2 is mounted as session k, the server can write to the pipe of that session,
  -- and the pipes carry whole what is written to them, up to PIPE_BUF (4096) bytes. Let
  -- tfs_destroy_after_all_closed need no wait on the server's file system. Then the client's
  -- tfs_shutdown_after_all_closed makes the server end its file system, answer 0 and leave the
  -- sessions, and it returns 0.
  pub remote_shutdown :
      (fs : State)
      → destroy_begin s.fs ≡ some (fs, false)
      → Answered s k
          (int_bytes (pos 0))
          (destroy_end fs).0
          (served_by os stack s r old (shutdown_request cstack (pos k)))
        × (client_shutdown io cstack (client k) ≡ pos 0)
  unfolding client_shutdown
  remote_shutdown fs e =
      let m = header cstack op_shutdown (pos k) in
      let c = header_code cstack op_shutdown (pos k) in
      let fits = fits_as op_shutdown (m 0) 4 c shutdown_fits in
      let names = header_session cstack op_shutdown (pos k) (session_fits k valid) in
      let after = (destroy_end fs).0 in
      let sent = shutdown_request-slice in
      let a =
        shutdown_reply os stack s r old k valid writable m 4 fits (omega arith) names fs c e in
      (
        subst (λ l. Answered s k (int_bytes (pos 0)) after (served_by os stack s r old l))
            (sym sent) a,
        rw (client_shutdown, sent)
            (asked os stack s r old k valid writable junk io pipes (slice m 0 5) (pos 0) after
              (omega arith) a),
      )
