-- ===== src/Parte1/Transfer/Advance.antt =====
-- The end of `tfs_write`: the offset of the handle and the size of the file.
use so_file_system.Common.{ℕ, ◌+◌, ◌^◌, ◌<◌, ◌≡◌, inl, ◌≢◌, arith, if◌then◌else◌, ltb}
use so_file_system.Parte1.State.{State}
use so_file_system.Parte1.Ownership.{number_of, Used, InUse, Holds, IsWf, byte_at}
use so_file_system.Parte1.Ownership.Grow.{grow-IsWf}
use so_file_system.Parte1.Transfer.{advance}

-- The greater of two sizes.
abbrev pub larger : ℕ → ℕ → ℕ
larger a b = if ltb a b then b else a

module _ (s : State) (h ino n : ℕ) where
  numbers_stand :
      (i k : ℕ)
      → number_of (advance s h ino n).fs_data ((advance s h ino n).inode_table i) k
        ≡ number_of s.fs_data (s.inode_table i) k
  unfolding advance
  numbers_stand i k = ground arith

  pub blocks-advance :
      (i : ℕ) → ((advance s h ino n).inode_table i).blocks_alloc ≡ (s.inode_table i).blocks_alloc
  unfolding advance
  blocks-advance i = ground arith

  pub use-advance : (advance s h ino n).freeinode_ts ≡ s.freeinode_ts
  unfolding advance
  use-advance = ground arith

  pub free-advance : (advance s h ino n).free_blocks ≡ s.free_blocks
  unfolding advance
  free-advance = ground arith

  pub handles-advance : (advance s h ino n).free_open_file_entries ≡ s.free_open_file_entries
  unfolding advance
  handles-advance = ground arith

  data-advance : (advance s h ino n).fs_data ≡ s.fs_data
  unfolding advance
  data-advance = ground arith

  pub offset-advance :
      (s.open_file_table h).of_offset + n < 2 ^ 64
      → ((advance s h ino n).open_file_table h).of_offset ≡ (s.open_file_table h).of_offset + n
  unfolding advance
  offset-advance lt = ground arith

  pub entries-advance :
      (g : ℕ) → g ≢ h → (advance s h ino n).open_file_table g ≡ s.open_file_table g
  unfolding advance
  entries-advance g ne = ground arith

  pub size-advance :
      (s.open_file_table h).of_offset + n < 2 ^ 64
      → ((advance s h ino n).inode_table ino).i_size
        ≡ larger (s.inode_table ino).i_size ((s.open_file_table h).of_offset + n)
  unfolding advance
  size-advance lt = ground arith

  pub inodes-advance : (i : ℕ) → i ≢ ino → (advance s h ino n).inode_table i ≡ s.inode_table i
  unfolding advance
  inodes-advance i ne = ground arith

  pub byte_at-advance : (i q : ℕ) → byte_at (advance s h ino n) i q ≡ byte_at s i q
  unfolding advance
  byte_at-advance i q = ground arith

  Used-before : (i k : ℕ) → Used ((advance s h ino n).inode_table i) k → Used (s.inode_table i) k
  Used-before i k u = omega (arith, blocks-advance i)

  pub advance-IsWf : InUse s ino → IsWf s → IsWf (advance s h ino n)
  advance-IsWf live wf =
      grow-IsWf s (advance s h ino n) ino (Holds s) wf
        (record {
          same_use = use-advance;
          others = inodes-advance;
          bound = omega (arith, blocks-advance ino, wf.bounded ino live);
          kept = λ i k _ _. numbers_stand i k;
          old = λ i k b r. r;
          new = λ k u. inl (Used-before ino k u);
        })
        (rw free-advance wf.exclusive)
