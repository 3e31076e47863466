-- ===== src/Parte2/Shutdown.antt =====
-- The shutdown of Parte2/tecnicofs_ex2/fs/operations.c: threads' calls in any order, one of them to
-- tfs_destroy_after_all_closed, which waits for condVar to be signalled.
pub mod Steps
pub mod Reached
pub mod Progress
use so_file_system.Common.{
  ℕ, zero, suc, ◌+◌, ◌<◌, ◌≡◌, refl, sym, ap, subst, ◌∙◌, ◌⊎◌, inl, inr, ◌≢◌, ℤ, pos, negsuc,
  minus_one, is_minus_one, Option, none, some, List, Bool, true, false, Bool-cases, arith,
  if◌then◌else◌, ltb, ◌==◌, lt→ltb,
}
use so_file_system.Parte2.State.{State}
use so_file_system.Parte2.Operations.{
  synchronized, tfs_lookup, lookup_unsynchronized, tfs_open, tfs_close, destroy_begin,
}
use so_file_system.Parte2.Transfer.{tfs_write, tfs_read, write_unsynchronized, read_unsynchronized}
use so_file_system.Parte2.Counter.{open_count, IsCounted, StaysCounted}
use so_file_system.Parte2.Counter.Opens.{Same, tfs_open_running, tfs_open_refused}
use so_file_system.Parte2.Counter.Closes.{Closed, tfs_close-Closed, destroy_begin-waits}
use so_file_system.Parte2.Counter.Transfers.{write-Same, read-Same}
use so_file_system.Parte2.Blocking.{AllBlocked, held-AllBlocked}

-- Where tfs_destroy_after_all_closed is: not called, waiting for condVar, or past its wait.
pub data Phase : Type 0 where
  running : Phase
  waiting : Phase
  past : Phase

-- A signal ends the wait.
abbrev pub wake : Phase → Bool → Phase
wake waiting true = past
wake waiting false = waiting
wake running signal = running
wake past signal = past

-- The states that calls reach from one in which openFiles is the number of open handles, with the
-- phase that the shutdown is in.
pub data Reachable (s0 : State) : State → Phase → Type 0 where
  start : Reachable s0 s0 running
  opens :
      (s s1 : State) (p : Phase) (name : Option (List ℕ)) (flags : ℕ) (r : ℤ)
      → Reachable s0 s p
      → tfs_open s name flags ≡ some (s1, r)
      → Reachable s0 s1 p
  closes :
      (s s1 : State) (p : Phase) (fhandle r : ℤ) (signal : Bool)
      → Reachable s0 s p
      → tfs_close s fhandle ≡ some (s1, (r, signal))
      → Reachable s0 s1 (wake p signal)
  writes :
      (s s1 : State) (p : Phase) (fhandle : ℤ) (buf : List ℕ) (n : ℕ) (r : ℤ)
      → Reachable s0 s p
      → tfs_write s fhandle buf n ≡ some (s1, r)
      → Reachable s0 s1 p
  reads :
      (s s1 : State) (p : Phase) (fhandle : ℤ) (n : ℕ) (r : ℤ) (out : List ℕ)
      → Reachable s0 s p
      → tfs_read s fhandle n ≡ some (s1, (r, out))
      → Reachable s0 s1 p
  looks_up :
      (s s1 : State) (p : Phase) (name : Option (List ℕ)) (r : ℤ)
      → Reachable s0 s p
      → tfs_lookup s name ≡ some (s1, r)
      → Reachable s0 s1 p
  begins :
      (s s1 : State) (waits : Bool)
      → Reachable s0 s running
      → destroy_begin s ≡ some (s1, waits)
      → Reachable s0 s1 (if waits then waiting else past)

-- What openFiles says in each phase.
abbrev pub CountedIn : Phase → State → Type 0
CountedIn running s = s.open_files ≡ pos (open_count s)
CountedIn waiting s = (s.open_files ≡ negsuc (open_count s)) × (0 < open_count s)
CountedIn past s = (s.open_files ≡ negsuc (open_count s)) × (open_count s ≡ 0)
