-- ===== src/Parte2/Server/Sessions.antt =====
-- The table of sessions of Parte2/tecnicofs_ex2/fs/tfs_server.c.
pub mod Laws
use so_file_system.Common.{
  ℕ, zero, suc, ◌+◌, ℤ, pos, negsuc, minus_one, is_minus_one, is_nonneg, in_range, index, Option,
  none, some, Bool, true, false, List, [], ◌∷◌, ltb, if◌then◌else◌, update,
}
use so_file_system.Parte2.Server.State.{Server, sessions, Os}

-- What getAvailableSession puts in the table until openClientSession has the descriptor.
abbrev pub reserved : ℤ
reserved = negsuc 1

-- The loops have run over all sessions.
unfoldable pub init_pc_buffers : Server → Server
init_pc_buffers s = record s { readable = λ i. if ltb i sessions then false else s.readable i }

unfoldable pub init_clients_fhandle : Server → Server
init_clients_fhandle s = record s {
  clients = λ i. if ltb i sessions then minus_one else s.clients i;
}

-- `sessionId >= S`
abbrev pub past_table : ℤ → Bool
past_table (pos n) = if ltb n sessions then false else true
past_table (negsuc n) = false

-- `none` where a negative number is taken for an index.
unfoldable pub get_client_fhandle : Server → ℤ → Option ℤ
get_client_fhandle s session =
    if past_table session
    then some minus_one
    else if is_nonneg session
    then some (s.clients (index session))
    else none

-- `for (i = …; rounds are left; i++) if (clientsFHandle[i] == -1) return i;`
unfoldable pub first_session : ℕ → ℕ → (ℕ → ℤ) → Option ℕ
first_session zero i t = none
first_session (suc k) i t =
    let rest = first_session k (suc i) t in if is_minus_one (t i) then some i else rest

unfoldable pub get_available_session : Server → Server × ℤ
get_available_session s = elim (first_session sessions 0 s.clients) [
  | none ↦ (s, minus_one)
  | some i ↦ (record s { clients = update s.clients i reserved }, pos i)
]

-- `none` where a negative number is taken for an index.
unfoldable pub finish_client_session : Server → ℤ → Option (Server × ℤ)
finish_client_session s session =
    if past_table session
    then some (s, minus_one)
    else if is_nonneg session
    then some (record s { clients = update s.clients (index session) minus_one }, pos 0)
    else none

-- `none` where the pipe cannot be opened, which ends the process.
unfoldable pub open_client_session : Os → Server → List ℕ → ℕ → Option (Server × ℤ)
open_client_session os s name session =
    let fhandle = os.open_pipe name in
    if is_nonneg fhandle
    then some (record s { clients = update s.clients session fhandle }, fhandle)
    else none
