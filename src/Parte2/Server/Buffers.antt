-- ===== src/Parte2/Server/Buffers.antt =====
-- The producer-consumer buffers of Parte2/tecnicofs_ex2/fs/tfs_server.c under the code that runs
-- without a session's buffer: the handlers of requests and the receiver's round.
use so_file_system.Common.{
  ℕ, zero, suc, ◌+◌, ◌≤◌, ◌<◌, ◌≡◌, refl, ℤ, in_range, index, if◌then◌else◌, some, Bool, true,
  false, List, [], ◌∷◌, arith, Bool-cases, inl, inr,
}
use so_file_system.Memory.{Bytes}
use so_file_system.Parte2.Server.State.{
  Server, sessions, input_buffer_size, Os, Outcome, done, waits,
}
use so_file_system.Parte2.Server.Sessions.{
  get_available_session, first_session, finish_client_session, open_client_session,
  get_client_fhandle,
}
use so_file_system.Parte2.Server.Handlers.{
  answer, with_session, handle_tfs_mount, unmount_begin, unmount_end, handle_tfs_unmount,
  handle_tfs_open, handle_tfs_close, handle_tfs_write, handle_tfs_read, shutdown_end,
  handle_tfs_shutdown_after_all_closed,
}
use so_file_system.Parte2.Server.Threads.{
  get_client_info_max_size, get_client_request_info, Receiver, Received, nothing, request,
  send_full, new_session, dispatch, receive_round, run_client_request,
}

abbrev pub SameBuffers : Server → Server → Type 0
SameBuffers s s1 = (s1.readable ≡ s.readable) × (s1.info ≡ s.info)

abbrev pub Keeps : Server → Outcome → Type 0
Keeps s (done s1 events) = SameBuffers s s1
Keeps s (waits s1) = SameBuffers s s1
Keeps s _ = Unit

finish_client_session-Keeps :
    (s s1 : Server) (session r : ℤ)
    → finish_client_session s session ≡ some (s1, r)
    → SameBuffers s s1
unfolding finish_client_session
finish_client_session-Keeps s s1 session r e = ground arith

answer-Keeps :
    (os : Os) (s0 s : Server) (k : ℕ) (fclient : ℤ) (bytes : List ℕ)
    → SameBuffers s0 s
    → Keeps s0 (answer os s k fclient bytes)
unfolding answer finish_client_session
answer-Keeps os s0 s k fclient bytes h = ground arith

with_session-Keeps :
    (s : Server) (session : ℤ) (serve : ℕ → Outcome)
    → ((k : ℕ) → Keeps s (serve k))
    → Keeps s (with_session session serve)
with_session-Keeps s session serve h = elim (Bool-cases (in_range session sessions)) [
  | inl e ↦ rw e (h (index session))
  | inr e ↦ rw e tt
]

ruleset kept = (answer-Keeps, with_session-Keeps, finish_client_session-Keeps)

module _ (os : Os) (s : Server) (m : Bytes) (p : ℕ) where
  mount-Keeps : Keeps s (handle_tfs_mount os s m p)
  unfolding handle_tfs_mount open_client_session answer finish_client_session
  mount-Keeps = ground arith

  open-Keeps : Keeps s (handle_tfs_open os s m p)
  unfolding handle_tfs_open
  open-Keeps = grind (arith, kept)

  unmount-Keeps : Keeps s (handle_tfs_unmount os s m p)
  unfolding handle_tfs_unmount unmount_begin unmount_end finish_client_session get_client_fhandle
  unmount-Keeps = ground arith

  close-Keeps : Keeps s (handle_tfs_close os s m p)
  unfolding handle_tfs_close
  close-Keeps = grind (arith, kept)

  write-Keeps : Keeps s (handle_tfs_write os s m p)
  unfolding handle_tfs_write
  write-Keeps = grind (arith, kept)

  read-Keeps : (stack : Bytes) → Keeps s (handle_tfs_read os stack s m p)
  unfolding handle_tfs_read
  read-Keeps stack = grind (arith, kept)

  shutdown-Keeps : Keeps s (handle_tfs_shutdown_after_all_closed os s m p)
  unfolding handle_tfs_shutdown_after_all_closed shutdown_end
  shutdown-Keeps = grind (arith, kept)

pub shutdown_end-Keeps :
    (os : Os) (s : Server) (k : ℕ) (fclient : ℤ) → Keeps s (shutdown_end os s k fclient)
unfolding shutdown_end
shutdown_end-Keeps os s k fclient = grind (arith, kept)

pub run_client_request-Keeps :
    (os : Os) (stack : Bytes) (s : Server) (m : Bytes) → Keeps s (run_client_request os stack s m)
unfolding run_client_request
run_client_request-Keeps os stack s m = ground (
  arith,
  mount-Keeps os s m 1,
  unmount-Keeps os s m 1,
  open-Keeps os s m 1,
  close-Keeps os s m 1,
  write-Keeps os s m 1,
  read-Keeps os s m 1 stack,
  shutdown-Keeps os s m 1,
)

-- What a round of the receiver comes to: the buffers as they were, and a request that fits.
abbrev pub Rounds : Server → Received → Type 0
Rounds s (nothing s1 r events) = SameBuffers s s1
Rounds s (request s1 r m k n) = SameBuffers s s1 × (k < sessions) × (n ≤ input_buffer_size)
Rounds s _ = Unit

size-le : (op_code : ℕ) → get_client_info_max_size op_code 0 false ≤ input_buffer_size
unfolding get_client_info_max_size
size-le op_code = ground arith

first_session-lt : (n i : ℕ) (t : ℕ → ℤ) (k : ℕ) → first_session n i t ≡ some k → k < i + n
unfolding first_session
first_session-lt zero i t k e = ground arith
first_session-lt (suc n) i t k e = ground (arith, first_session-lt n (suc i) t k)

new_session-Rounds :
    (os : Os) (stack : Bytes) (s : Server) (r : Receiver) (op_code : ℕ)
    → Rounds s (new_session os stack s r op_code)
unfolding new_session get_available_session send_full
new_session-Rounds os stack s r op_code = grind (arith, first_session-lt sessions 0 s.clients)

dispatch-Rounds :
    (os : Os) (stack : Bytes) (s : Server) (r : Receiver) (op_code : ℕ)
    → Rounds s (dispatch os stack s r op_code)
unfolding dispatch get_client_request_info
dispatch-Rounds os stack s r op_code =
    ground (arith, new_session-Rounds os stack s r op_code, size-le op_code)

nothing_or-Rounds :
    (s : Server) (b : Bool) (r : Receiver) (x : Received)
    → Rounds s x
    → Rounds s (if b then nothing s r [] else x)
nothing_or-Rounds s true r x h = (refl, refl)
nothing_or-Rounds s false r x h = h

pub receive_round-Rounds :
    (os : Os) (stack : Bytes) (s : Server) (r : Receiver) (pipe : List ℕ)
    → Rounds s (receive_round os stack s r pipe)
unfolding receive_round
receive_round-Rounds os stack s r [] = (refl, refl)
receive_round-Rounds os stack s r (op_code ∷ pipe) =
    nothing_or-Rounds s _ _ _ (dispatch-Rounds os stack s _ op_code)
