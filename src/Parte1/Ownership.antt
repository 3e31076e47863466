-- ===== src/Parte1/Ownership.antt =====
-- Who owns which data block in Parte1/tecnicofs-v2: the well-formedness of the i-node table against
-- the table of free blocks, and what an operation must leave alone.
pub mod Places
pub mod Grow
pub mod Keeps
pub mod Alloc
pub mod AllocIndirect
pub mod AllocNth
pub mod AllocNecessary
pub mod GetNth
pub mod Writes
pub mod Truncate
pub mod Emptied
pub mod Create
use so_file_system.Common.{
  ℕ, ◌+◌, ◌-◌, ◌*◌, ◌/◌, ◌%◌, ◌<◌, ◌≤◌, ◌≡◌, ◌⊎◌, ℤ, pos, index, ltb, if◌then◌else◌,
}
use so_file_system.Config.{
  block_size, data_blocks, inode_table_size, direct_block_count, max_inode_blocks,
}
use so_file_system.Memory.{Bytes, load_int}
use so_file_system.Table.{taken}
use so_file_system.Exclusive.{IsExclusive}
use so_file_system.Parte1.State.{State, Inode}
use so_file_system.Parte1.Blocks.{entry_at}

-- Place `k` of an i-node: its `k`-th data block, or the indirection block for `k` = max_inode_blocks.
abbrev pub number_of : Bytes → Inode → ℕ → ℤ
number_of m n k =
    if ltb k direct_block_count
    then n.i_data_block k
    else if ltb k max_inode_blocks
    then load_int m (entry_at (index n.indirect_data_block * block_size) (k - 10))
    else n.indirect_data_block

-- The places of an i-node that are in use.
abbrev pub Used : Inode → ℕ → Type 0
Used n k = (k < n.blocks_alloc) ⊎ ((k ≡ max_inode_blocks) × (direct_block_count < n.blocks_alloc))

abbrev pub InUse : State → ℕ → Type 0
InUse s i = (i < inode_table_size) × (s.freeinode_ts i ≡ taken)

-- Place `k` of the i-node `i` holds block `b`.
abbrev pub Holds : State → ℕ → ℕ → ℕ → Type 0
Holds s i k b =
    InUse s i × Used (s.inode_table i) k × (number_of s.fs_data (s.inode_table i) k ≡ pos b)

-- Every place in use holds a block, which is allocated, and no two places hold the same block.
pub record IsWf (s : State) : Type 0 where
  pub exclusive : IsExclusive data_blocks (Holds s) s.free_blocks
  pub bounded : (i : ℕ) → InUse s i → (s.inode_table i).blocks_alloc ≤ max_inode_blocks
  pub filled :
      (i k : ℕ)
      → InUse s i
      → Used (s.inode_table i) k
      → (b : ℕ) × (number_of s.fs_data (s.inode_table i) k ≡ pos b)

-- The byte at position `q` of a file.
abbrev pub byte_at : State → ℕ → ℕ → ℕ
byte_at s i q =
    s.fs_data
      (index (number_of s.fs_data (s.inode_table i) (q / block_size)) * block_size + q % block_size)
