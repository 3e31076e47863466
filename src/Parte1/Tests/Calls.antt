-- ===== src/Parte1/Tests/Calls.antt =====
-- Examples of calls of Parte1 that find no handle, no entry or nothing to do.
use so_file_system.Common.{
  ℕ, ◌*◌, ◌≡◌, refl, ◌≢◌, ℤ, pos, minus_one, arith, List, [], ◌∷◌, Option, none, some,
}
use so_file_system.Config.{block_size}
use so_file_system.Table.{free, taken, first_free}
use so_file_system.Memory.{strncmp_eq, load_int}
use so_file_system.Directory.{first_empty, find_entry}
use so_file_system.Directory.Names.{IsText}
use so_file_system.Parte1.State.{State}
use so_file_system.Parte1.Blocks.{data_block_get}
use so_file_system.Parte1.Inodes.{find_in_dir}
use so_file_system.Parte1.Inodes.Lookup.{HasRoot}
use so_file_system.Parte1.Operations.{tfs_init, tfs_lookup, tfs_open, slash, tfs_close}
use so_file_system.Parte1.Operations.NewFile.{Unopened, tfs_open-Unopened}
use so_file_system.Parte1.Ownership.{IsWf}
use so_file_system.Parte1.Transfer.{tfs_write, tfs_read}
use so_file_system.Parte1.Tests.Sample.{f1, sample, sample-IsWf}
use so_file_system.Parte1.Operations.Init.{Initialised, tfs_init-Initialised}
use so_file_system.Parte1.Transfer.Closed.{Refused, without_handle, tfs_close-Refused}
use so_file_system.Parte1.Operations.Full.{tfs_open-full}
use so_file_system.Parte1.Tests.{name_g, inode_two, entry_one, root_live, opened}

-- The same file system with every handle open.
abbrev all_open : State
all_open = record sample { free_open_file_entries = λ h. taken }

all_open-IsWf : IsWf all_open
all_open-IsWf = record {
  exclusive = sample-IsWf.exclusive;
  bounded = sample-IsWf.bounded;
  filled = sample-IsWf.filled;
}

all_open_full : first_free 20 0 all_open.free_open_file_entries ≡ none
unfolding first_free
all_open_full = refl

all_open_root : HasRoot all_open 0
all_open_root = record { kind = refl; block = refl; within = omega arith; some_block = omega arith }

absent_all_open : tfs_lookup all_open (slash ∷ name_g) ≡ minus_one
unfolding tfs_lookup find_in_dir data_block_get find_entry load_int strncmp_eq
absent_all_open = refl

name_g-IsText : IsText name_g
name_g-IsText = (λ e. cc, tt)

tfs_open-Unopened_example :
    Unopened all_open (slash ∷ name_g) name_g 2 (tfs_open all_open (some (slash ∷ name_g)) 1)
tfs_open-Unopened_example =
    tfs_open-Unopened all_open 0 2 1 name_g 1 all_open-IsWf all_open_root root_live (omega arith)
      (omega arith) name_g-IsText refl absent_all_open inode_two entry_one all_open_full

-- A file written and read again through the calls alone, from static storage that is zero.
abbrev blank : State
blank = record sample {
  freeinode_ts = λ i. free;
  free_blocks = λ b. free;
  free_open_file_entries = λ h. free;
  fs_data = λ a. 0;
}

abbrev run : Option (ℤ × ℤ × List ℕ)
run =
    let (s0, r0) = tfs_init blank in
    let (s1, h) = tfs_open s0 (some (slash ∷ f1)) 1 in
    elim (tfs_write s1 h (1 ∷ 2 ∷ 3 ∷ []) 3) [
      | none ↦ none
      | some (s2, w) ↦
          let (s3, g) = tfs_open s2 (some (slash ∷ f1)) 0 in
          elim (tfs_read s3 g 10) [ none ↦ none | some (s4, n, out) ↦ some (n, w, out) ]
    ]

tfs_init-Initialised_example : Initialised sample (tfs_init sample)
tfs_init-Initialised_example = tfs_init-Initialised sample

tfs_close-Refused_example :
    (tfs_close sample (pos 0) ≡ (without_handle sample 0, pos 0))
    × Refused (without_handle sample 0) (pos 0)
tfs_close-Refused_example = tfs_close-Refused sample (pos 0) 0 (opened 0 (omega arith))

-- A directory of which every entry is used.
abbrev full : State
full = record sample { fs_data = λ a. 0 }

full_root : HasRoot full 0
full_root = record { kind = refl; block = refl; within = omega arith; some_block = omega arith }

absent_full : tfs_lookup full (slash ∷ name_g) ≡ minus_one
unfolding tfs_lookup find_in_dir data_block_get find_entry load_int strncmp_eq
absent_full = refl

no_entry : first_empty 23 0 full.fs_data (0 * block_size) ≡ none
unfolding first_empty load_int
no_entry = refl

tfs_open-full_example :
    (s1 : State) × (tfs_open full (some (slash ∷ name_g)) 1 ≡ (s1, minus_one))
    × (s1.freeinode_ts ≡ full.freeinode_ts)
    × (s1.fs_data ≡ full.fs_data)
    × (s1.free_blocks ≡ full.free_blocks)
    × (s1.free_open_file_entries ≡ full.free_open_file_entries)
    × (s1.open_file_table ≡ full.open_file_table)
    × ((j : ℕ) → j ≢ 2 → s1.inode_table j ≡ full.inode_table j)
tfs_open-full_example =
    tfs_open-full full 0 2 name_g 1 full_root root_live (omega arith) refl absent_full inode_two
      no_entry
