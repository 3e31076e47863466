-- ===== src/Parte1/Tests/External.antt =====
-- Examples of tfs_copy_to_external_fs of Parte1: a file of three bytes, and one of 300.
use so_file_system.Common.{
  ℕ, zero, suc, ◌+◌, ◌<◌, ◌≤◌, ◌≡◌, ◌≢◌, refl, pos, arith, ◌∷◌, some, true, if◌then◌else◌, ◌==◌,
  slice,
}
use so_file_system.Config.{max_open_files, block_size, buffer_size}
use so_file_system.Memory.{Bytes, load_int, strncmp_eq}
use so_file_system.Table.{first_free}
use so_file_system.Directory.{find_entry}
use so_file_system.Directory.Names.{IsText}
use so_file_system.Parte1.State.{State}
use so_file_system.Parte1.Blocks.{data_block_get}
use so_file_system.Parte1.Inodes.{find_in_dir}
use so_file_system.Parte1.Operations.{tfs_lookup, slash}
use so_file_system.Parte1.Ownership.{InUse, IsWf, byte_at}
use so_file_system.Parte1.Transfer.Read.{bytes_from}
use so_file_system.Parte1.External.{returned, overrun, tfs_copy_to_external_fs}
use so_file_system.Parte1.External.Copied.{
  copied, tfs_copy_to_external_fs-copied, tfs_copy_to_external_fs-overrun,
}
use so_file_system.Parte1.Tests.Sample.{f1, sample, sample-IsWf}

abbrev buffer : Bytes
buffer = λ q. 85

finds_f1 : tfs_lookup sample (slash ∷ f1) ≡ pos 1
unfolding tfs_lookup find_in_dir data_block_get find_entry load_int strncmp_eq
finds_f1 = refl

handle_two : first_free max_open_files 0 sample.free_open_file_entries ≡ some 2
unfolding first_free
handle_two = refl

f1_live : InUse sample 1
f1_live = (omega arith, refl)

f1_byte : (q : ℕ) → q < block_size → byte_at sample 1 q ≢ 0
f1_byte q lt = ground arith

slice-IsText :
    (f : ℕ → ℕ) (a n : ℕ)
    → a + n ≤ block_size
    → ((q : ℕ) → q < block_size → f q ≢ 0)
    → IsText (slice f a n)
slice-IsText f a zero le ne = tt
slice-IsText f a (suc n) le ne = (ne a (omega arith), slice-IsText f (suc a) n (omega arith) ne)

tfs_copy_to_external_fs-copied_example :
    tfs_copy_to_external_fs 2 sample (some (slash ∷ f1)) true buffer
    ≡ returned
        (copied sample
          (slash ∷ f1)
          2
          1
          sample-IsWf
          refl
          finds_f1
          f1_live
          handle_two
          (omega arith)
          buffer)
        (pos 0)
        (bytes_from sample 1 0 3)
tfs_copy_to_external_fs-copied_example =
    tfs_copy_to_external_fs-copied sample (slash ∷ f1) 2 1 sample-IsWf refl finds_f1 f1_live
      handle_two (omega arith) buffer 0 (omega arith)
      (slice-IsText (byte_at sample 1) 0 3 (omega arith) f1_byte)

-- "f1" has 300 bytes.
abbrev large : State
large = record sample {
  inode_table = λ i. record (sample.inode_table i) { i_size = if i == 0 then 1024 else 300 };
}

large-IsWf : IsWf large
large-IsWf = record {
  exclusive = sample-IsWf.exclusive;
  bounded = sample-IsWf.bounded;
  filled = sample-IsWf.filled;
}

finds_large : tfs_lookup large (slash ∷ f1) ≡ pos 1
unfolding tfs_lookup find_in_dir data_block_get find_entry load_int strncmp_eq
finds_large = refl

tfs_copy_to_external_fs-overrun_example :
    tfs_copy_to_external_fs 1 large (some (slash ∷ f1)) true buffer ≡ overrun
tfs_copy_to_external_fs-overrun_example =
    tfs_copy_to_external_fs-overrun large (slash ∷ f1) 2 1 large-IsWf refl finds_large f1_live
      handle_two (omega arith) buffer 0 (omega arith)
      (slice-IsText (byte_at large 1) 0 buffer_size (omega arith) f1_byte)
