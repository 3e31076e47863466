-- ===== src/Parte1/Transfer/Closed.antt =====
-- Handles that are not open, in Parte1/tecnicofs-v2/fs/operations.c.
use so_file_system.Common.{
  ℕ, ◌<◌, ◌≡◌, refl, ℤ, pos, negsuc, minus_one, List, [], some, none, arith, lt→ltb, ap, update,
  false,
}
use so_file_system.Config.{max_open_files}
use so_file_system.Table.{free, is_free}
use so_file_system.Parte1.State.{State}
use so_file_system.Parte1.OpenFiles.{remove_from_open_file_table, get_open_file_entry}
use so_file_system.Parte1.Operations.{tfs_close}
use so_file_system.Parte1.Transfer.{tfs_write, tfs_read}

-- Every call through the handle fails and changes nothing.
pub record Refused (s : State) (fhandle : ℤ) : Type 0 where
  pub close : tfs_close s fhandle ≡ (s, minus_one)
  pub write : (buf : List ℕ) (n : ℕ) → tfs_write s fhandle buf n ≡ some (s, minus_one)
  pub read : (n : ℕ) → tfs_read s fhandle n ≡ some (s, minus_one, [])

remove_none :
    (s : State) (fhandle : ℤ)
    → get_open_file_entry s fhandle ≡ none
    → remove_from_open_file_table s fhandle ≡ (s, minus_one)
unfolding get_open_file_entry remove_from_open_file_table
remove_none s (negsuc h) e = refl
remove_none s (pos h) e = ground arith

pub none-Refused :
    (s : State) (fhandle : ℤ) → get_open_file_entry s fhandle ≡ none → Refused s fhandle
unfolding tfs_close tfs_write tfs_read
none-Refused s fhandle e = record {
  close = remove_none s fhandle e;
  write = λ buf n. rw (e, tfs_write) refl;
  read = λ n. rw (e, tfs_read) refl;
}

-- The state with the entry of a handle free.
abbrev pub without_handle : State → ℕ → State
without_handle s h = record s { free_open_file_entries = update s.free_open_file_entries h free }

pub open_number :
    (s : State) (i h : ℕ)
    → get_open_file_entry s (pos i) ≡ some h
    → (i < max_open_files) × (is_free (s.free_open_file_entries i) ≡ false) × (i ≡ h)
unfolding get_open_file_entry
open_number s i h e = (ground arith, ground arith, ground arith)

closing :
    (s : State) (fhandle : ℤ) (h : ℕ)
    → get_open_file_entry s fhandle ≡ some h
    → (remove_from_open_file_table s fhandle ≡ (without_handle s h, pos 0))
      × (get_open_file_entry (without_handle s h) fhandle ≡ none)
unfolding get_open_file_entry remove_from_open_file_table
closing s (negsuc i) h e = absurd cc
closing s (pos i) h e =
    let (lt, open_now, same) = open_number s i h e in
    (
      rw (lt→ltb i max_open_files lt, open_now) (ap (λ j. (without_handle s j, pos 0)) same),
      ground (arith, same),
    )

-- In Parte1 tfs_close of an open handle returns 0 and only frees the handle's entry, and after it
-- every tfs_close, tfs_write and tfs_read of that handle returns -1, reads nothing and changes
-- nothing.
pub tfs_close-Refused :
    (s : State) (fhandle : ℤ) (h : ℕ)
    → get_open_file_entry s fhandle ≡ some h
    → (tfs_close s fhandle ≡ (without_handle s h, pos 0)) × Refused (without_handle s h) fhandle
unfolding tfs_close
tfs_close-Refused s fhandle h e =
    let c = closing s fhandle h e in (c.0, none-Refused (without_handle s h) fhandle c.1)
