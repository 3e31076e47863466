-- ===== src/Parte1/Tests.antt =====
-- Runs of the file system of Parte1 on small inputs, and examples of its theorems.
mod Sample
mod Calls
mod Reached
mod External
use so_file_system.Common.{
  ℕ, zero, suc, ◌+◌, ◌-◌, ◌*◌, ◌/◌, ◌%◌, ◌<◌, ◌≤◌, ◌≡◌, refl, sym, ap, ◌∙◌, ◌⊎◌, inl, inr, ◌≢◌, ℤ,
  pos, minus_one, arith, List, [], ◌∷◌, ◌++◌, Option, none, some, Bool, true, false, if◌then◌else◌,
  ltb, ◌==◌, slice, get_or, min, length,
}
use so_file_system.Config.{block_size, data_blocks, max_inode_blocks}
use so_file_system.Table.{free, taken, first_free}
use so_file_system.Table.Laws.{Found}
use so_file_system.Memory.{strncpy, strncmp_eq, load_int, store_int}
use so_file_system.Directory.{first_empty, find_entry, count_entries, fill_entry}
use so_file_system.Directory.Search.{find-fill_short}
use so_file_system.Directory.Names.{IsText}
use so_file_system.Parte1.State.{State, file, directory}
use so_file_system.Parte1.Blocks.{
  data_block_alloc, data_block_free, data_block_get, get_nth_data_block, alloc_nth_data_block,
  alloc_necessary_blocks, delete_inode_data_blocks, div_ceil,
}
use so_file_system.Parte1.Blocks.Alloc.{AllTaken, data_block_alloc_cases, free-alloc, take_block}
use so_file_system.Parte1.OpenFiles.{get_open_file_entry}
use so_file_system.Parte1.Inodes.{find_in_dir}
use so_file_system.Parte1.Inodes.Lookup.{HasRoot}
use so_file_system.Parte1.Operations.{tfs_init, tfs_lookup, tfs_open, slash, truncate, tfs_close}
use so_file_system.Parte1.Operations.Create.{created}
use so_file_system.Parte1.Operations.NewFile.{Created, tfs_open-Created, tfs_open-forgets}
use so_file_system.Parte1.Operations.Truncates.{Truncated, tfs_open-Truncated}
use so_file_system.Parte1.Ownership.{InUse, Holds, IsWf}
use so_file_system.Parte1.Ownership.AllocNth.{Allocates, alloc_nth-Allocates}
use so_file_system.Parte1.Ownership.AllocNecessary.{Sized, alloc_necessary-Sized}
use so_file_system.Parte1.Ownership.GetNth.{get_nth-Holds}
use so_file_system.Parte1.Ownership.Truncate.{Deletes, delete-Deletes}
use so_file_system.Parte1.Transfer.{
  stop, write_loop, read_loop, ReadEnd, smaller, tfs_write, tfs_read,
}
use so_file_system.Parte1.Transfer.WriteLoop.{Stops, write_loop-Stops}
use so_file_system.Parte1.Transfer.Write.{Wrote}
use so_file_system.Parte1.Transfer.TfsWrite.{write_count, tfs_write-Wrote}
use so_file_system.Parte1.Transfer.Read.{after_read, bytes_from, read_loop-stop, tfs_read_lem}
use so_file_system.Parte1.Transfer.RoundTrip.{buffer_bytes, tfs_write-tfs_read}
use so_file_system.Parte1.Tests.Sample.{f1, sample, sample-IsWf, sample_root}
use so_file_system.Parte1.Operations.Init.{Initialised, tfs_init-Initialised}
use so_file_system.Parte1.Transfer.Closed.{Refused, without_handle, tfs_close-Refused}
use so_file_system.Parte1.Operations.Full.{tfs_open-full}

-- Bytes to write.
abbrev two : List ℕ
two = 5 ∷ 6 ∷ []

f1_live : InUse sample 1
f1_live = (omega arith, refl)

pub root_live : InUse sample 0
root_live = (omega arith, refl)

pub opened : (h : ℕ) → h < 2 → get_open_file_entry sample (pos h) ≡ some h
unfolding get_open_file_entry
opened h lt = ground arith

tfs_write-tfs_read_example :
    (s1 s2 : State) × (n : ℕ) × (tfs_write sample (pos 0) two 2 ≡ some (s1, pos n))
    × (tfs_read s1 (pos 1) n ≡ some (s2, pos n, buffer_bytes two n))
tfs_write-tfs_read_example =
    tfs_write-tfs_read sample (pos 0) (pos 1) two 2 0 1 1 sample-IsWf (opened 0 (omega arith)) refl
      f1_live (omega arith) (omega arith) (omega arith) (omega arith) (opened 1 (omega arith))
      (λ e. cc) refl refl refl

tfs_write-Wrote_example : Wrote sample 0 1 1 (write_count 2 1) two (tfs_write sample (pos 0) two 2)
tfs_write-Wrote_example =
    tfs_write-Wrote sample (pos 0) two 2 0 1 sample-IsWf (opened 0 (omega arith)) refl f1_live
      (omega arith) (omega arith) (omega arith)

tfs_read_lem_example :
    tfs_read sample (pos 1) 10 ≡ some (after_read sample 1 (1 + 2), pos 2, bytes_from sample 1 1 2)
tfs_read_lem_example =
    tfs_read_lem sample (pos 1) 10 1 1 sample-IsWf (opened 1 (omega arith)) refl refl f1_live
      (omega arith) (omega arith)

alloc_necessary-Sized_example : Sized sample 1 5000 (alloc_necessary_blocks sample 1 5000)
alloc_necessary-Sized_example =
    alloc_necessary-Sized sample 1 5000 sample-IsWf f1_live (omega arith)

delete-Deletes_example : Deletes sample 1 (delete_inode_data_blocks sample (sample.inode_table 1))
delete-Deletes_example = delete-Deletes sample 1 sample-IsWf f1_live

-- "g"
abbrev pub name_g : List ℕ
name_g = 103 ∷ []

absent_g : tfs_lookup sample (slash ∷ name_g) ≡ minus_one
unfolding tfs_lookup find_in_dir data_block_get find_entry load_int strncmp_eq
absent_g = refl

pub inode_two : first_free 50 0 sample.freeinode_ts ≡ some 2
unfolding first_free
inode_two = refl

pub entry_one : first_empty 23 0 sample.fs_data (0 * block_size) ≡ some 1
unfolding first_empty load_int
entry_one = refl

handle_two : first_free 20 0 sample.free_open_file_entries ≡ some 2
unfolding first_free
handle_two = refl

tfs_open-Created_example :
    Created sample (slash ∷ name_g) name_g 2 2 (tfs_open sample (some (slash ∷ name_g)) 1)
tfs_open-Created_example =
    tfs_open-Created sample 0 2 1 2 name_g 1 sample-IsWf sample_root root_live (omega arith)
      (omega arith) (λ e. cc, tt) refl absent_g inode_two entry_one handle_two

-- A name of 40 letters.
unfoldable letters : ℕ → List ℕ
letters zero = []
letters (suc n) = 97 ∷ letters n

letters-IsText : (n : ℕ) → IsText (letters n)
unfolding letters
letters-IsText zero = tt
letters-IsText (suc n) = (λ e. cc, letters-IsText n)

absent_letters : tfs_lookup sample (slash ∷ letters 40) ≡ minus_one
unfolding tfs_lookup find_in_dir data_block_get find_entry load_int strncmp_eq letters
absent_letters = refl

forty : length (letters 40) ≡ 40
unfolding letters
forty = refl

tfs_open-forgets_example :
    (s1 : State) × (tfs_open sample (some (slash ∷ letters 40)) 1 ≡ (s1, pos 2))
    × (tfs_lookup s1 (slash ∷ letters 40) ≡ minus_one)
tfs_open-forgets_example =
    tfs_open-forgets sample 0 2 1 2 (letters 40) 1 sample-IsWf sample_root root_live
      (omega (arith, forty)) (letters-IsText 40) refl absent_letters inode_two entry_one handle_two

-- "/f1" leads to the file.
found_f1 : tfs_lookup sample (slash ∷ f1) ≡ pos 1
unfolding tfs_lookup find_in_dir data_block_get find_entry load_int strncmp_eq
found_f1 = refl

tfs_open-Truncated_example : Truncated sample 1 2 (tfs_open sample (some (slash ∷ f1)) 2)
tfs_open-Truncated_example =
    tfs_open-Truncated sample 1 f1 2 sample-IsWf f1_live (omega arith) found_f1 refl (omega arith)
