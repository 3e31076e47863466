-- ===== src/Parte2/Counter.antt =====
-- The counter openFiles of Parte2/tecnicofs_ex2/fs/operations.c against the open file table.
pub mod Opens
pub mod Closes
pub mod Transfers
use so_file_system.Common.{
  ℕ, zero, suc, ◌+◌, ◌<◌, ◌≤◌, ◌≡◌, refl, sym, ap, ◌∙◌, ◌⊎◌, inl, inr, ℤ, pos, negsuc, minus_one,
  is_minus_one, is_nonneg, has_flag, Option, some, Option-cases, Bool-cases, dec_lt, ℕ_discrete,
  List, Bool, true, false, arith, if◌then◌else◌, update, ◌==◌, ltb, lt→ltb,
}
use so_file_system.Config.{root_dir_inum, tfs_o_creat, max_open_files, inode_table_size}
use so_file_system.Table.{Table, free, taken, is_free, first_free}
use so_file_system.Table.Laws.{is_free-taken, first_free-Found}
use so_file_system.Parte2.State.{State, file}
use so_file_system.Parte2.Tables.{
  data_block_free, data_block_get, inode_get, inode_create, inode_delete, add_dir_entry,
  add_to_open_file_table, remove_from_open_file_table,
}
use so_file_system.Parte2.Operations.{
  truncate, lookup_unsynchronized, open_existing, open_new, open_unsynchronized, tfs_open,
  close_counted, tfs_close, destroy_begin, synchronized, increment, decrement, is_positive,
}

-- How many of the first entries are taken.
abbrev pub count_taken : ℕ → Table → ℕ
count_taken zero t = 0
count_taken (suc n) t = count_taken n t + (if is_free (t n) then 0 else 1)

count_outside :
    (n : ℕ) (t : Table) (i : ℕ) (a : _) → n ≤ i → count_taken n (update t i a) ≡ count_taken n t
count_outside zero t i a le = refl
count_outside (suc n) t i a le = ground (arith, count_outside n t i a (omega arith))

pub count-take :
    (n : ℕ) (t : Table) (i : ℕ)
    → i < n
    → t i ≡ free
    → count_taken n (update t i taken) ≡ suc (count_taken n t)
count-take zero t i lt f = absurd (omega arith)
count-take (suc n) t i lt f = elim (ℕ_discrete i n) [
  | yes e ↦ ground (arith, e, f, count_outside n t i taken (omega (arith, e)))
  | no ne ↦ ground (arith, count-take n t i (omega (arith, ne)) f)
]

pub count-release :
    (n : ℕ) (t : Table) (i : ℕ)
    → i < n
    → t i ≡ taken
    → suc (count_taken n (update t i free)) ≡ count_taken n t
count-release zero t i lt f = absurd (omega arith)
count-release (suc n) t i lt f = elim (ℕ_discrete i n) [
  | yes e ↦ ground (arith, e, f, count_outside n t i free (omega (arith, e)))
  | no ne ↦ ground (arith, count-release n t i (omega (arith, ne)) f)
]

-- `n` open files are counted as `n`, and as -(n + 1) once tfs_destroy_after_all_closed has begun.
abbrev pub open_count : State → ℕ
open_count s = count_taken max_open_files s.free_open_file_entries

abbrev pub IsCounted : State → Type 0
IsCounted s = (s.open_files ≡ pos (open_count s)) ⊎ (s.open_files ≡ negsuc (open_count s))

-- The counter stands for the open handles in the same way in both states.
abbrev pub StaysCounted : State → State → Type 0
StaysCounted s t =
    ((s.open_files ≡ pos (open_count s)) × (t.open_files ≡ pos (open_count t)))
    ⊎ ((s.open_files ≡ negsuc (open_count s)) × (t.open_files ≡ negsuc (open_count t)))
