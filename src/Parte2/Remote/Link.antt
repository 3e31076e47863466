-- ===== src/Parte2/Remote/Link.antt =====
-- A mounted client of Parte2/tecnicofs_ex2/client/tecnicofs_client_api.c on the pipes that join it to
-- Parte2/tecnicofs_ex2/fs/tfs_server.c.
use so_file_system.Common.{
  ℕ, ◌<◌, ◌≤◌, ◌≡◌, List, [], ◌∷◌, some, true, arith, ℤ, pos, length, sym, FitsInt, subst,
}
use so_file_system.Memory.{Bytes, memcpy}
use so_file_system.Parte2.State.{State}
use so_file_system.Parte2.Server.State.{Server, sessions, wrote, Os, done, Event}
use so_file_system.Parte2.Server.Handlers.{int_bytes}
use so_file_system.Parte2.Server.Threads.{Receiver}
use so_file_system.Parte2.Server.Delivery.{served_by, IsSessionRequest}
use so_file_system.Parte2.Server.Answers.{load_int-int_bytes}
use so_file_system.Parte2.Remote.Replies.{Answered}
use so_file_system.Parte2.Client.{Client, Exchange, ask}

-- PIPE_BUF of Linux: a pipe takes and gives so many bytes, or fewer, whole.
abbrev pub pipe_buf : ℕ
pipe_buf = 4096

-- A client that is mounted as session `k`.
abbrev pub client : ℕ → Client
client k = record { mounted = true; session_id = pos k }

pub session_fits : (k : ℕ) → k < sessions → FitsInt (pos k)
session_fits k valid = omega arith

pub fits_as : (op code n : ℕ) → code ≡ op → IsSessionRequest op n → IsSessionRequest code n
fits_as op code n e f = subst (λ c. IsSessionRequest c n) (sym e) f

module _ (os : Os) (stack : Bytes) (s : Server) (r : Receiver) (old : Bytes) (k : ℕ)
    (valid : k < sessions)
    (writable : (bytes : List ℕ) → os.write_succeeds (s.clients k) bytes ≡ true) (junk : Bytes)
    (io : Exchange)
    (pipes : (l bytes : List ℕ) (s' : Server) (rest : List Event)
      → served_by os stack s r old l ≡ done s' (wrote (s.clients k) bytes ∷ rest)
      → length bytes ≤ pipe_buf
      → io l (length bytes) ≡ some (memcpy junk 0 bytes 0 (length bytes))) where
  pub asked :
      (l : List ℕ) (out : ℤ) (fs : State)
      → FitsInt out
      → Answered s k (int_bytes out) fs (served_by os stack s r old l)
      → ask io l ≡ out
  unfolding ask
  asked l out fs fits a =
      rw (ask, pipes l (int_bytes out) a.after [] a.ends (omega arith))
        (load_int-int_bytes junk out fits)
