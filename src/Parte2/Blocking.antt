-- ===== src/Parte2/Blocking.antt =====
-- The calls of Parte2/tecnicofs_ex2/fs/operations.c while single_global_lock is held.
use so_file_system.Common.{
  ℕ, ℤ, negsuc, minus_one, ◌≡◌, refl, Option, some, none, List, true, false,
}
use so_file_system.Parte2.State.{State}
use so_file_system.Parte2.Operations.{synchronized, tfs_lookup, tfs_open, tfs_close, destroy_begin}
use so_file_system.Parte2.Transfer.{tfs_write, tfs_read}
use so_file_system.Parte2.Counter.Opens.{tfs_open_refused}

-- No call returns.
pub record AllBlocked (s : State) : Type 0 where
  pub lookup : (name : Option (List ℕ)) → tfs_lookup s name ≡ none
  pub open_file : (name : Option (List ℕ)) (flags : ℕ) → tfs_open s name flags ≡ none
  pub close : (fhandle : ℤ) → tfs_close s fhandle ≡ none
  pub write : (fhandle : ℤ) (buf : List ℕ) (n : ℕ) → tfs_write s fhandle buf n ≡ none
  pub read : (fhandle : ℤ) (n : ℕ) → tfs_read s fhandle n ≡ none
  pub destroy : destroy_begin s ≡ none

pub held-AllBlocked : (s : State) → s.locked ≡ true → AllBlocked s
unfolding tfs_lookup tfs_open tfs_close tfs_write tfs_read destroy_begin synchronized
held-AllBlocked s h = record {
  lookup = λ name. rw (h, tfs_lookup, synchronized) refl;
  open_file = λ name flags. rw (h, tfs_open) refl;
  close = λ fhandle. rw (h, tfs_close, synchronized) refl;
  write = λ fhandle buf n. rw (h, tfs_write, synchronized) refl;
  read = λ fhandle n. rw (h, tfs_read, synchronized) refl;
  destroy = rw (h, destroy_begin) refl;
}

-- Once openFiles of Parte2 is negative, tfs_open with the lock free returns -1 and leaves a state
-- in which no call of tfs_lookup, tfs_open, tfs_close, tfs_write, tfs_read or
-- tfs_destroy_after_all_closed returns, since the lock is still held.
pub tfs_open-AllBlocked :
    (s : State) (name : Option (List ℕ)) (flags n : ℕ)
    → s.open_files ≡ negsuc n
    → s.locked ≡ false
    → (s1 : State) × (tfs_open s name flags ≡ some (s1, minus_one)) × AllBlocked s1
tfs_open-AllBlocked s name flags n e unlocked = (
  record s { locked = true },
  tfs_open_refused s name flags n e unlocked,
  held-AllBlocked (record s { locked = true }) refl,
)
