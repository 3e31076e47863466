-- ===== src/Parte2/Remote/Calls.antt =====
-- A call of Parte2/tecnicofs_ex2/client/tecnicofs_client_api.c by a mounted client, through the request
-- that it writes, Parte2/tecnicofs_ex2/fs/tfs_server.c that serves it, and the answer that it reads.
use so_file_system.Common.{
  ℕ, ◌<◌, ◌≤◌, ◌≡◌, refl, List, ◌∷◌, some, Bool, true, arith, ℤ, pos, to_word, length, slice, sym,
  FitsInt, ap, subst, lt→ltb,
}
use so_file_system.Memory.{Bytes, memcpy}
use so_file_system.Directory.Names.{IsText}
use so_file_system.Parte2.State.{State}
use so_file_system.Parte2.Operations.{tfs_open, tfs_close}
use so_file_system.Parte2.Server.State.{Server, sessions, wrote, Os, done, Event}
use so_file_system.Parte2.Server.Handlers.{int_bytes}
use so_file_system.Parte2.Server.Threads.{Receiver, get_client_info_max_size}
use so_file_system.Parte2.Server.Delivery.{served_by, IsSessionRequest}
use so_file_system.Parte2.Client.{
  op_open, op_close, Exchange, open_request, close_request, client_open, client_close,
}
use so_file_system.Parte2.Remote.Replies.{Answered, open_reply, close_reply}
use so_file_system.Parte2.Remote.Results.{tfs_open-FitsInt, tfs_close-FitsInt}
use so_file_system.Parte2.Client.Requests.{
  open_memory, open_code, open_session, open_name, open_flags, close_memory, close_code,
  close_session, close_handle,
}
use so_file_system.Parte2.Remote.Link.{pipe_buf, fits_as, client, asked, session_fits}

open_fits : IsSessionRequest op_open 48
unfolding get_client_info_max_size
open_fits = (λ len. refl, refl, refl, omega arith, omega arith)

close_fits : IsSessionRequest op_close 8
unfolding get_client_info_max_size
close_fits = (λ len. refl, refl, refl, omega arith, omega arith)

module _ (os : Os) (stack : Bytes) (s : Server) (r : Receiver) (old : Bytes) (k : ℕ)
    (valid : k < sessions)
    (writable : (bytes : List ℕ) → os.write_succeeds (s.clients k) bytes ≡ true) (junk : Bytes)
    (io : Exchange)
    (pipes : (l bytes : List ℕ) (s' : Server) (rest : List Event)
      → served_by os stack s r old l ≡ done s' (wrote (s.clients k) bytes ∷ rest)
      → length bytes ≤ pipe_buf
      → io l (length bytes) ≡ some (memcpy junk 0 bytes 0 (length bytes)))
    (cstack : Bytes) where
  open_request-slice :
      (name : List ℕ) (flags : ℤ) (text : IsText name) (short : length name < 40)
      (small : FitsInt flags)
      → open_request cstack (pos k) name flags
        ≡ some (
            slice
              (open_memory cstack (pos k) (session_fits k valid) name flags text short small)
              0
              49)
  unfolding open_request
  open_request-slice name flags text short small =
      rw (open_request, lt→ltb (length name) 40 short) refl

  -- A client of Parte2 is mounted as session k, the server can write to the pipe of that session,
  -- and the pipes carry whole what is written to them, up to PIPE_BUF (4096) bytes. Let it open a
  -- name of less than 40 characters with int flags, where tfs_open of that name and the same
  -- flags has a result on the server's file system. Then its message makes the server carry out
  -- that call, and the client's call returns its result.
  pub remote_open :
      (name : List ℕ) (flags : ℤ) (fs : State) (out : ℤ)
      → IsText name
      → length name < 40
      → FitsInt flags
      → tfs_open s.fs (some name) (to_word flags) ≡ some (fs, out)
      → (l : List ℕ) × (open_request cstack (pos k) name flags ≡ some l)
        × Answered s k (int_bytes out) fs (served_by os stack s r old l)
        × (client_open io cstack (client k) name flags ≡ some out)
  unfolding client_open
  remote_open name flags fs out text short small e =
      let m = open_memory cstack (pos k) (session_fits k valid) name flags text short small in
      let code = open_code cstack (pos k) (session_fits k valid) name flags text short small in
      let sent = open_request-slice name flags text short small in
      let a =
        open_reply os stack s r old k valid writable m 48 (fits_as op_open (m 0) 48 code open_fits)
          (omega arith)
          (open_session cstack (pos k) (session_fits k valid) name flags text short small) name
          flags out fs code (omega arith) text short
          (open_name cstack (pos k) (session_fits k valid) name flags text short small)
          (open_flags cstack (pos k) (session_fits k valid) name flags text short small) e in
      (
        slice m 0 49,
        sent,
        a,
        rw (client_open, sent)
            (ap some (
              asked os stack s r old k valid writable junk io pipes (slice m 0 49) out fs
                (tfs_open-FitsInt s.fs (some name) (to_word flags) fs out e) a)),
      )

  close_request-slice :
      (fhandle : ℤ) (small : FitsInt fhandle)
      → close_request cstack (pos k) fhandle
        ≡ slice (close_memory cstack (pos k) (session_fits k valid) fhandle small op_close) 0 9
  unfolding close_request
  close_request-slice fhandle small = refl

  -- A client of Parte2 is mounted as session k, the server can write to the pipe of that session,
  -- and the pipes carry whole what is written to them, up to PIPE_BUF (4096) bytes. Let it close
  -- an int handle, where tfs_close of that handle has a result on the server's file system. Then
  -- its message makes the server carry out that call, and the client's call returns its result.
  pub remote_close :
      (fhandle : ℤ) (fs : State) (out : ℤ) (signal : Bool)
      → FitsInt fhandle
      → tfs_close s.fs fhandle ≡ some (fs, (out, signal))
      → Answered s k
          (int_bytes out)
          fs
          (served_by os stack s r old (close_request cstack (pos k) fhandle))
        × (client_close io cstack (client k) fhandle ≡ out)
  unfolding client_close
  remote_close fhandle fs out signal small e =
      let m = close_memory cstack (pos k) (session_fits k valid) fhandle small op_close in
      let code = close_code cstack (pos k) (session_fits k valid) fhandle small op_close in
      let sent = close_request-slice fhandle small in
      let a =
        close_reply os stack s r old k valid writable m 8 (fits_as op_close (m 0) 8 code close_fits)
          (omega arith) (close_session cstack (pos k) (session_fits k valid) fhandle small op_close)
          fhandle out signal fs code (omega arith)
          (close_handle cstack (pos k) (session_fits k valid) fhandle small op_close) e in
      (
        subst (λ l. Answered s k (int_bytes out) fs (served_by os stack s r old l)) (sym sent) a,
        rw (client_close, sent)
            (asked os stack s r old k valid writable junk io pipes (slice m 0 9) out fs
              (tfs_close-FitsInt s.fs fhandle fs out signal e) a),
      )
