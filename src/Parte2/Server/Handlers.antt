-- ===== src/Parte2/Server/Handlers.antt =====
-- The functions of Parte2/tecnicofs_ex2/fs/tfs_server.c that serve one request. A request lies in the
-- memory `m` from address `p` on, behind its operation code.
use so_file_system.Common.{
  ℕ, ◌+◌, ◌-◌, ◌%◌, ◌^◌, ℤ, pos, negsuc, minus_one, is_nonneg, in_range, index, to_word, of_word,
  Option, none, some, true, false, ltb, List, [], ◌∷◌, ◌++◌, if◌then◌else◌, length, slice,
}
use so_file_system.Memory.{Bytes, load_int, store_int, memcpy}
use so_file_system.Memory.Wide.{c_string, load_size}
use so_file_system.Parte2.Operations.{tfs_open, tfs_close, destroy_begin, destroy_end}
use so_file_system.Parte2.Transfer.{tfs_write, tfs_read}
use so_file_system.Parte2.Server.State.{
  Server, sessions, input_buffer_size, wrote, closed, Os, Outcome, done, blocked, waits, exits,
  fault,
}
use so_file_system.Parte2.Server.Sessions.{
  get_client_fhandle, finish_client_session, open_client_session,
}

-- The bytes of an int, as `write(fd, &i, sizeof(int))` sends them.
abbrev pub int_bytes : ℤ → List ℕ
int_bytes i = slice (store_int (λ q. 0) 0 i) 0 4

-- `(int) x` of a ssize_t.
abbrev pub to_int : ℤ → ℤ
to_int (pos n) = of_word (n % 2 ^ 32)
to_int (negsuc n) = of_word (2 ^ 32 - 1 - n % 2 ^ 32)

-- `if (write(fclient, …) < 0) { finishClientSession(session); close(fclient); }`
unfoldable pub answer : Os → Server → ℕ → ℤ → List ℕ → Outcome
answer os s session fclient bytes =
    if os.write_succeeds fclient bytes
    then done s (wrote fclient bytes ∷ [])
    else elim (finish_client_session s (pos session)) [
      | none ↦ fault
      | some (s1, r) ↦ done s1 (closed fclient ∷ [])
    ]

-- Each handler below reads its session's number and uses it as an index.
abbrev pub with_session : ℤ → (ℕ → Outcome) → Outcome
with_session session serve = if in_range session sessions then serve (index session) else fault

unfoldable pub handle_tfs_mount : Os → Server → Bytes → ℕ → Outcome
handle_tfs_mount os s m p = elim (c_string 40 m (p + 4)) [
  | none ↦ fault
  | some name ↦ with_session (load_int m p) λ session.
      elim (open_client_session os s name session) [
        | none ↦ exits
        | some (s1, fclient) ↦ answer os s1 session fclient (int_bytes (pos session))
      ]
]

-- `handle_tfs_unmount` up to the write, with what it writes: its first finishClientSession.
unfoldable pub unmount_begin : Server → ℤ → Option (Server × ℤ × ℤ)
unmount_begin s session = elim (get_client_fhandle s session) [
  | none ↦ none
  | some fclient ↦
      let done : Option (Server × ℤ × ℤ) = elim (finish_client_session s session) [
        | none ↦ none
        | some (s1, r) ↦ some (s1, fclient, if is_nonneg r then pos 0 else minus_one)
      ] in
      if is_nonneg fclient then done else some (s, fclient, minus_one)
]

-- The rest of it: the pipe is closed, written or not, and the session is finished again.
unfoldable pub unmount_end : Os → Server → ℤ → ℤ → ℤ → Outcome
unmount_end os s session fclient out =
    let events =
      (if os.write_succeeds fclient (int_bytes out) then wrote fclient (int_bytes out) ∷ [] else [])
      ++ (closed fclient ∷ []) in
    elim (finish_client_session s session) [ none ↦ fault | some (s1, r) ↦ done s1 events ]

unfoldable pub handle_tfs_unmount : Os → Server → Bytes → ℕ → Outcome
handle_tfs_unmount os s m p =
    let session = load_int m p in
    elim (unmount_begin s session) [
      | none ↦ fault
      | some (s1, fclient, out) ↦ unmount_end os s1 session fclient out
    ]

unfoldable pub handle_tfs_open : Os → Server → Bytes → ℕ → Outcome
handle_tfs_open os s m p = elim (c_string 41 m (p + 4)) [
  | none ↦ fault
  | some name ↦ with_session (load_int m p) λ session.
      let flags = to_word (load_int m (p + 4 + length name + 1)) in
      elim (tfs_open s.fs (some name) flags) [
        | none ↦ blocked
        | some (fs, out) ↦
            answer os (record s { fs = fs }) session (s.clients session) (int_bytes out)
      ]
]

unfoldable pub handle_tfs_close : Os → Server → Bytes → ℕ → Outcome
handle_tfs_close os s m p = with_session (load_int m p) λ session.
    elim (tfs_close s.fs (load_int m (p + 4))) [
      | none ↦ blocked
      | some (fs, (out, signal)) ↦
          answer os (record s { fs = fs }) session (s.clients session) (int_bytes out)
    ]

-- The copy of `len` bytes leaves the buffer where `len` is larger than what follows in it.
unfoldable pub handle_tfs_write : Os → Server → Bytes → ℕ → Outcome
handle_tfs_write os s m p =
    let len = load_size m (p + 8) in
    if ltb input_buffer_size (p + 16 + len)
    then fault
    else with_session (load_int m p) λ session.
      elim (tfs_write s.fs (load_int m (p + 4)) (slice m (p + 16) len) len) [
        | none ↦ blocked
        | some (fs, out) ↦
            answer os (record s { fs = fs }) session (s.clients session) (int_bytes (to_int out))
      ]

-- `bufferOut` starts as `stack`; tfs_read fills it from its fifth byte on, and the result is put
-- before. All of it is sent. The array of `len + 4` bytes has to fit on the thread's stack; where the
-- sum wraps, tfs_read writes behind the array.
unfoldable pub read_answer : Bytes → ℕ → ℤ → List ℕ → List ℕ
read_answer stack len out bytes =
    slice (store_int (memcpy stack 4 bytes 0 (length bytes)) 0 (to_int out)) 0 (len + 4)

unfoldable pub handle_tfs_read : Os → Bytes → Server → Bytes → ℕ → Outcome
handle_tfs_read os stack s m p =
    let len = load_size m (p + 8) in
    if ltb os.stack_room (len + 4)
    then fault
    else with_session (load_int m p) λ session. elim (tfs_read s.fs (load_int m (p + 4)) len) [
      | none ↦ blocked
      | some (fs, (out, bytes)) ↦
          answer os (record s { fs = fs }) session (s.clients session)
            (read_answer stack len out bytes)
    ]

-- After its wait, if it has to wait for condVar; `fclient` has been read before.
unfoldable pub shutdown_end : Os → Server → ℕ → ℤ → Outcome
shutdown_end os s session fclient =
    let (fs, out) = destroy_end s.fs in
    answer os (record s { fs = fs }) session fclient (int_bytes out)

unfoldable pub handle_tfs_shutdown_after_all_closed : Os → Server → Bytes → ℕ → Outcome
handle_tfs_shutdown_after_all_closed os s m p = with_session (load_int m p) λ session.
    elim (destroy_begin s.fs) [
      | none ↦ blocked
      | some (fs, true) ↦ waits (record s { fs = fs })
      | some (fs, false) ↦ shutdown_end os (record s { fs = fs }) session (s.clients session)
    ]
