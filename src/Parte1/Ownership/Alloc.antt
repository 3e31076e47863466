-- ===== src/Parte1/Ownership/Alloc.antt =====
-- `allocNthDataBlock` keeps the file system well formed, and leaves every file its bytes.
use so_file_system.Common.{ℕ, ◌<◌, ◌≡◌, refl, ◌⊎◌, inl, inr, pos, arith, ℕ_discrete}
use so_file_system.Config.{data_blocks}
use so_file_system.Table.{free}
use so_file_system.Exclusive.{Owning, Extended, extend-IsExclusive}
use so_file_system.Parte1.State.{State}
use so_file_system.Parte1.Blocks.Alloc.{take_block, fill_direct}
use so_file_system.Parte1.Ownership.{number_of, Used, InUse, Holds, IsWf}
use so_file_system.Parte1.Ownership.Grow.{Grows, grow-IsWf}
use so_file_system.Parte1.Ownership.Keeps.{Keeps, bytes_stand}

-- A free block holds nothing.
pub fresh-unheld :
    (s : State) (b : ℕ) → IsWf s → s.free_blocks b ≡ free → (i k : ℕ) → ¬ Holds s i k b
fresh-unheld s b wf f i k h = ground (arith, wf.exclusive.allocated i k b h)

module _ (s : State) (ino k b : ℕ) (wf : IsWf s) (live : InUse s ino)
    (at_end : (s.inode_table ino).blocks_alloc ≡ k) (within : b < data_blocks)
    (unused : s.free_blocks b ≡ free) where
  abbrev pub R : Owning
  R = Extended (Holds s) ino k b

  abbrev pub direct : State
  direct = fill_direct (take_block s b) ino k b

  direct_kept :
      (i j : ℕ)
      → Used (s.inode_table i) j
      → number_of s.fs_data (direct.inode_table i) j ≡ number_of s.fs_data (s.inode_table i) j
  direct_kept i j u = ground arith

  direct_new :
      k < 10
      → (j : ℕ) → Used (direct.inode_table ino) j
      → Used (s.inode_table ino) j
        ⊎ ((c : ℕ) × (number_of s.fs_data (direct.inode_table ino) j ≡ pos c) × R ino j c)
  direct_new lt j u = elim (ℕ_discrete j k) [
    | yes e ↦ inr (b, ground arith, inr (refl, e, refl))
    | no ne ↦ inl (inl (ground arith))
  ]

  direct-Grows : k < 10 → Grows s direct ino R
  direct-Grows lt = record {
    same_use = refl;
    others = λ i ne. ground arith;
    bound = ground arith;
    kept = λ i j _ u. direct_kept i j u;
    old = λ i j c h. inl h;
    new = direct_new lt;
  }

  pub direct-IsWf : k < 10 → IsWf direct
  direct-IsWf lt =
      grow-IsWf s direct ino R wf (direct-Grows lt)
        (extend-IsExclusive data_blocks (Holds s) s.free_blocks ino k b wf.exclusive within unused)

  pub direct-Keeps : k < 10 → Keeps s direct
  direct-Keeps lt = record {
    same_use = refl;
    same_files = refl;
    same_handles = refl;
    same_size = λ i. ground arith;
    same_kind = λ i. ground arith;
    longer = λ i. ground arith;
    same_bytes = λ i q live h.
        bytes_stand s direct b i q wf live h (direct_kept i) (λ a _. refl)
          (λ i k _. fresh-unheld s b wf unused i k);
  }
