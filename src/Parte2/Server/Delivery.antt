-- ===== src/Parte2/Server/Delivery.antt =====
-- A request on its way through Parte2/tecnicofs_ex2/fs/tfs_server.c: from the server's pipe through the
-- receiver's buffer and the session's to the thread that serves it.
use so_file_system.Common.{
  suc_nonzero, ℕ, zero, suc, ◌+◌, ◌<◌, ◌≤◌, ◌≡◌, refl, ap, ◌∙◌, List, ◌∷◌, true, false, arith, ◌==◌,
  ==_iff, ◌-◌, leb, ltb, lt→ltb, pos, length, length-slice, slice, update,
}
use so_file_system.Memory.{Bytes, load_int, store_byte, memcpy}
use so_file_system.Memory.Laws.{memcpy_inside}
use so_file_system.Memory.Wide.{copy_bytes}
use so_file_system.Memory.Wide.Laws.{Agrees, load_int-Agrees, get_or-slice}
use so_file_system.Parte2.Server.State.{
  Server, sessions, input_buffer_size, Os, Outcome, done, exits, fault,
}
use so_file_system.Parte2.Server.Threads.{
  get_client_info_max_size, get_client_request_info, write_to_buffer, Receiver, Received, nothing,
  request, dispatch, read_from_pipe, receive_round, run_client_request, read_from_buffer,
  serve_round,
}

read-all : (m : Bytes) (a n : ℕ) → read_from_pipe (slice m a n) n ≡ slice m a n
read-all m a zero = refl
read-all m a (suc n) = ap (λ l. m a ∷ l) (read-all m (suc a) n)

-- The receiver's buffer after it has read a message that lies in `m`.
abbrev pub received : Bytes → Bytes → ℕ → Bytes
received old m n = store_byte (memcpy old 1 (slice m 1 n) 0 (length (slice m 1 n))) 0 (m 0)

pub received-Agrees : (old m : Bytes) (n : ℕ) → Agrees (suc n) m (received old m n)
unfolding store_byte
received-Agrees old m n zero lt = refl
received-Agrees old m n (suc q) lt =
    let inside : suc q < 1 + length (slice m 1 n) = omega (arith, length-slice m 1 n) in
    rw (store_byte, suc_nonzero q)
      (memcpy_inside old 1 (slice m 1 n) 0 (length (slice m 1 n)) (suc q) (omega arith) inside
        ∙ get_or-slice m 1 n (0 + (suc q - 1)) (omega arith)
        ∙ ap m (omega arith))

-- A message that is read whole.
pub read_round :
    (os : Os) (stack : Bytes) (s : Server) (r : Receiver) (m : Bytes) (n : ℕ)
    → get_client_info_max_size (m 0) r.bytes_to_read true ≡ n
    → 0 < n
    → receive_round os stack s r (slice m 0 (suc n))
      ≡ dispatch os stack s
          (record { buffer_in = received r.buffer_in m n; bytes_to_read = n })
          (m 0)
unfolding receive_round
read_round os stack s r m n size some_bytes =
    let filled : (length (slice m 1 n) == 0) ≡ false =
      ap (λ z. z == 0) (length-slice m 1 n) ∙ ground (arith, some_bytes) in
    rw (receive_round, size, read-all m 1 n, filled) refl

-- The bytes that a session's thread finds in its buffer, once a message of `n` bytes lies there.
pub copied_byte : (old src : Bytes) (size q : ℕ) → q < size → copy_bytes old 0 src 0 size q ≡ src q
unfolding copy_bytes
copied_byte old src size q lt =
    let e : 0 + (q - 0) ≡ q = omega arith in
    let low : leb 0 q ≡ true = ground arith in
    rw (low, lt→ltb q (0 + size) (omega arith)) (ap src e)

pub buffer-Agrees :
    (old m : Bytes) (s : Server) (k n : ℕ)
    → n ≤ input_buffer_size
    → Agrees n m (copy_bytes old 0 ((write_to_buffer s m k n).info k) 0 input_buffer_size)
unfolding write_to_buffer
buffer-Agrees old m s k n le q lt =
    let same : (k == k) ≡ true = (==_iff k k).1 refl in
    copied_byte old ((write_to_buffer s m k n).info k) input_buffer_size q (omega arith)
    ∙ rw same (copied_byte (s.info k) m n q lt)

-- A request of a mounted client, with its size.
abbrev pub IsSessionRequest : ℕ → ℕ → Type 0
IsSessionRequest op_code n =
    ((len : ℕ) → get_client_info_max_size op_code len true ≡ n)
    × (get_client_info_max_size op_code 0 false ≡ suc n)
    × ((op_code == 1) ≡ false)
    × (0 < n)
    × (n < input_buffer_size)

-- What becomes of a message: the receiver takes it, and the session that it is for serves it.
unfoldable pub served_by : Os → Bytes → Server → Receiver → Bytes → List ℕ → Outcome
served_by os stack s r old l = elim (receive_round os stack s r l) [
  | request s1 r1 m k n ↦ serve_round os stack (write_to_buffer s1 m k n) old k
  | nothing s1 r1 events ↦ done s1 events
  | Received.exits ↦ exits
  | Received.fault ↦ fault
]

module _ (os : Os) (stack : Bytes) (s : Server) (r : Receiver) (m : Bytes) (n k : ℕ)
    (fits : IsSessionRequest (m 0) n) (large : 5 ≤ suc n) (names : load_int m 1 ≡ pos k)
    (valid : k < sessions) where
  abbrev pub at_session : Server
  at_session = write_to_buffer s (received r.buffer_in m n) k (suc n)

  abbrev after : Receiver
  after = record { buffer_in = received r.buffer_in m n; bytes_to_read = n }

  named : load_int (received r.buffer_in m n) 1 ≡ pos k
  named =
      load_int-Agrees (suc n) m (received r.buffer_in m n) 1 (received-Agrees r.buffer_in m n)
        (omega arith)
      ∙ names

  dispatched : dispatch os stack s after (m 0) ≡ request s after after.buffer_in k (suc n)
  unfolding dispatch get_client_request_info
  dispatched =
      let small : ltb k sessions ≡ true = lt→ltb k sessions valid in
      rw (dispatch, get_client_request_info, fits.2, fits.1, named, small) refl

  pub received_round :
      receive_round os stack s r (slice m 0 (suc n)) ≡ request s after after.buffer_in k (suc n)
  received_round = read_round os stack s r m n (fits.0 r.bytes_to_read) fits.3 ∙ dispatched

  -- What the thread of the session serves.
  abbrev pub served : Bytes → Bytes
  served old = copy_bytes old 0 (at_session.info k) 0 input_buffer_size

  pub served-Agrees : (old : Bytes) → Agrees (suc n) m (served old)
  served-Agrees old q lt =
      buffer-Agrees old (received r.buffer_in m n) s k (suc n) (omega (arith, fits.4)) q lt
      ∙ received-Agrees r.buffer_in m n q lt

  abbrev pub serving : Server
  serving = record s {
    info = at_session.info;
    readable = update (update s.readable k true) k false;
  }

  -- The session's thread runs the request on the bytes of the message.
  pub delivered :
      (old : Bytes)
      → served_by os stack s r old (slice m 0 (suc n))
        ≡ run_client_request os stack serving (served old)
  unfolding served_by serve_round read_from_buffer write_to_buffer
  delivered old = rw (served_by, received_round) refl
