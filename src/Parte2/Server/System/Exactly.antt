-- ===== src/Parte2/Server/System/Exactly.antt =====
-- Each request that Parte2/tecnicofs_ex2/fs/tfs_server.c accepts reaches its session's thread once and
-- in order, where every client waits for an answer before it sends its next request.
use so_file_system.Common.{
  ℕ, ◌<◌, ◌≤◌, ◌≡◌, refl, subst, sym, ◌∙◌, ◌==◌, ==_iff, pos, ◌⊎◌, inl, inr, Bool, true, false,
  List, [], ◌∷◌, some, arith, update,
}
use so_file_system.Memory.{Bytes}
use so_file_system.Memory.Wide.{copy_bytes}
use so_file_system.Memory.Wide.Laws.{Agrees}
use so_file_system.Parte2.Operations.{tfs_init}
use so_file_system.Parte2.State.{State}
use so_file_system.Table.{first_free, free_all}
use so_file_system.Parte2.Tables.{
  inode_create, state_init, create_directory, data_block_alloc, data_block_get,
}
use so_file_system.Parte2.Server.State.{Server, sessions, input_buffer_size}
use so_file_system.Parte2.Server.Sessions.{init_pc_buffers, init_clients_fhandle}
use so_file_system.Parte2.Server.Threads.{Receiver, read_from_buffer}
use so_file_system.Parte2.Server.System.{
  spawned, reading, serving, asleep, woken, wake, System, Step, signals, awakes, fetch,
  start_server,
}
use so_file_system.Parte2.Server.System.Invariant.{
  Each, no_message, Delivered, Inv, Polite, fits, signals_to, Step-Inv, copied_out, wake_cases,
}

-- The states that the threads reach from `s` while the clients wait for their answers.
pub data PoliteRun (s : System) : System → Type 0 where
  at_start : PoliteRun s s
  after_step : {t u : System} → PoliteRun s t → Polite t → Step t u → PoliteRun s u

-- `threadBuffers` has no cells from `S` on.
abbrev pub NoneBeyond : Server → Type 0
NoneBeyond s = (k : ℕ) → sessions ≤ k → s.readable k ≡ false

spawned-Inv :
    (s : Server) (r : Receiver) (buffers : ℕ → Bytes)
    → ((k : ℕ) → s.readable k ≡ false)
    → Inv (spawned s r buffers)
spawned-Inv s r buffers empty = record {
  delivered = λ k. rw (empty k) no_message;
  fitting = λ k. rw (empty k) refl;
  in_bounds = tt;
}

tfs_init_lem : (s : State) → (tfs_init s).1 ≡ pos 0
unfolding tfs_init inode_create state_init create_directory data_block_alloc data_block_get
    first_free free_all
tfs_init_lem s = refl

-- The server starts, and its threads find no request.
pub start_server-spawned :
    (s0 : Server) (r : Receiver) (buffers : ℕ → Bytes)
    → start_server s0 r buffers
      ≡ some (
          spawned
            (record (init_pc_buffers (init_clients_fhandle s0)) { fs = (tfs_init s0.fs).0 })
            r
            buffers)
unfolding start_server init_pc_buffers init_clients_fhandle
start_server-spawned s0 r buffers = rw (start_server, tfs_init_lem s0.fs) refl

only_some : {s t : System} → some s ≡ some t → s ≡ t
only_some e = cc

start_server-Inv :
    (s0 : Server) (r : Receiver) (buffers : ℕ → Bytes) (s : System)
    → NoneBeyond s0
    → start_server s0 r buffers ≡ some s
    → Inv s
unfolding init_pc_buffers init_clients_fhandle
start_server-Inv s0 r buffers s beyond e =
    subst Inv (only_some (sym (start_server-spawned s0 r buffers) ∙ e))
      (spawned-Inv _ r buffers (λ k. ground (arith, beyond k)))

-- Two steps of the threads, or one.
abbrev pub Soon : System → System → Type 0
Soon s u = Step s u ⊎ ((t : System) × Step s t × Step t u)

pub PoliteRun-Inv : {s t : System} → Inv s → PoliteRun s t → Inv t
PoliteRun-Inv inv at_start = inv
PoliteRun-Inv inv (after_step run polite st) = Step-Inv (PoliteRun-Inv inv run) polite st

-- Where a session's messages are.
abbrev pub Accounted : System → ℕ → Type 0
Accounted t k =
    ((t.server.readable k ≡ false) × Each (t.handed k) (t.fetched k))
    ⊎ ((m : Bytes) × (n : ℕ) × (hs : List (Bytes × ℕ)) × (t.server.readable k ≡ true)
        × (t.handed k ≡ (m, n) ∷ hs)
        × Each hs (t.fetched k)
        × Agrees n m (t.server.info k))

accounted :
    (readable : Bool) (hs : List (Bytes × ℕ)) (bs : List Bytes) (info : Bytes)
    → Delivered readable hs bs info
    → ((readable ≡ false) × Each hs bs)
      ⊎ ((m : Bytes) × (n : ℕ) × (old : List (Bytes × ℕ)) × (readable ≡ true)
          × (hs ≡ (m, n) ∷ old)
          × Each old bs
          × Agrees n m info)
accounted false hs bs info d = inl (refl, d)
accounted true [] bs info d = elim d [ ]
accounted true ((m, n) ∷ hs) bs info (each, same, le) = inr (m, n, hs, refl, refl, each, same)

-- Sender `k` takes out what lies in its buffer.
module _ (t : System) (k : ℕ) (b : Bytes) where
  abbrev out : Bytes
  out = copy_bytes b 0 (t.server.info k) 0 input_buffer_size

  fetch_lem :
      ((fetch t k b).fetched k ≡ out ∷ t.fetched k) × ((fetch t k b).senders k ≡ serving out)
  unfolding fetch read_from_buffer
  fetch_lem = let same : (k == k) ≡ true = (==_iff k k).1 refl in rw same (refl, refl)

abbrev pub woken_at : System → ℕ → System
woken_at t k = record t { receiver_pc = reading; senders = update t.senders k (wake (t.senders k)) }

woken_at_lem :
    (t : System) (k : ℕ) (b : Bytes) → t.senders k ≡ asleep b → (woken_at t k).senders k ≡ woken b
unfolding wake
woken_at_lem t k b e = let same : (k == k) ≡ true = (==_iff k k).1 refl in rw (same, e) refl

abbrev pub Taken : System → ℕ → System → Type 0
Taken t k u =
    (b : Bytes) × (u.fetched k ≡ b ∷ t.fetched k)
    × (u.senders k ≡ serving b)
    × Each (t.handed k) (b ∷ t.fetched k)

woken-Taken :
    {t : System}
    → Inv t
    → (k : ℕ) → k < sessions
    → t.server.readable k ≡ true
    → (u : System) × Soon t u × Taken t k u
woken-Taken {t} inv k lt e =
    let here =
      subst (λ r. Delivered r (t.handed k) (t.fetched k) (t.server.info k)) e (inv.delivered k) in
    elim (wake_cases t.receiver_pc k (t.senders k)
      (subst (λ r. fits (signals_to t.receiver_pc k) r (t.senders k) ≡ true) e (inv.fitting k))) [
        | inl (b, w) ↦ (
          fetch t k b,
          inl (awakes k lt w),
          (
            out t k b,
            (fetch_lem t k b).0,
            (fetch_lem t k b).1,
            copied_out (t.handed k) (t.fetched k) (t.server.info k) b here,
          ),
        )
        | inr (b, w, g) ↦ (
          fetch (woken_at t k) k b,
          inr (woken_at t k, signals g, awakes k lt (woken_at_lem t k b w)),
          (
            out t k b,
            (fetch_lem (woken_at t k) k b).0,
            (fetch_lem (woken_at t k) k b).1,
            copied_out (t.handed k) (t.fetched k) (t.server.info k) b here,
          ),
        )
      ]

module _ (s0 : Server) (r : Receiver) (buffers : ℕ → Bytes) (s t : System) (beyond : NoneBeyond s0)
    (e : start_server s0 r buffers ≡ some s) (run : PoliteRun s t) where
  inv : Inv t
  inv = PoliteRun-Inv (start_server-Inv s0 r buffers s beyond e) run

  -- Let the server start, no buffer beyond its 20 sessions being readable, and let it have a
  -- request to hand over to a session only once the session's thread has locked its mutex and has
  -- taken out every message before. Then at each point of any run of its threads, and in each
  -- session, either every message put into the session's buffer has been taken out once and in
  -- order, what was taken out beginning with the message's bytes; or this holds of all but the
  -- last message, and the last one lies whole in the buffer, which is readable.
  pub exactly_once : (k : ℕ) → Accounted t k
  exactly_once k =
      accounted (t.server.readable k) (t.handed k) (t.fetched k) (t.server.info k) (inv.delivered k)

  -- Let the server start, no buffer beyond its 20 sessions being readable, and let it have a
  -- request to hand over to a session only once the session's thread has locked its mutex and has
  -- taken out every message before. Then wherever a session's buffer is readable, at most two
  -- steps of the threads lead to a state in which its thread is about to run a request that it
  -- has taken out of the buffer, and the messages taken out are those put in, once and in order.
  pub readable-Taken :
      (k : ℕ) → k < sessions → t.server.readable k ≡ true → (u : System) × Soon t u × Taken t k u
  readable-Taken k lt readable = woken-Taken inv k lt readable
