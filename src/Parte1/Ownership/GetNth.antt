-- ===== src/Parte1/Ownership/GetNth.antt =====
-- `getNthDataBlock` in a well-formed file system, and a write inside one data block.
use so_file_system.Common.{
  ℕ, suc, ◌-◌, ◌*◌, ◌<◌, ◌≤◌, ◌≡◌, refl, sym, ap, ◌∙◌, inr, pos, index, true, false, some, none,
  arith, dec_lt,
}
use so_file_system.Config.{block_size, data_blocks, max_inode_blocks}
use so_file_system.Memory.{load_int}
use so_file_system.Parte1.State.{State, Inode}
use so_file_system.Parte1.Blocks.{get_nth_data_block, data_block_get, entry_at}
use so_file_system.Parte1.Ownership.{Used, Holds, IsWf}

get_block : (b : ℕ) → b < data_blocks → data_block_get (pos b) ≡ some (b * block_size)
unfolding data_block_get
get_block b h = ground arith

get_nth_direct :
    (s : State) (n : Inode) (k b : ℕ)
    → k < n.blocks_alloc
    → k < 10
    → b < data_blocks
    → n.i_data_block k ≡ pos b
    → get_nth_data_block s n (suc k) ≡ (false, some (b * block_size))
unfolding get_nth_data_block
get_nth_direct s n k b lt low within e = ground (arith, get_block b within)

get_nth_indirect :
    (s : State) (n : Inode) (k b d : ℕ)
    → k < n.blocks_alloc
    → 10 ≤ k
    → k < max_inode_blocks
    → b < data_blocks
    → d < data_blocks
    → n.indirect_data_block ≡ pos d
    → load_int s.fs_data (entry_at (d * block_size) (k - 10)) ≡ pos b
    → get_nth_data_block s n (suc k) ≡ (false, some (b * block_size))
unfolding get_nth_data_block
get_nth_indirect s n k b d lt high room within within' e e' =
    ground (arith, get_block b within, get_block d within')

-- A block that the file does not have, of a number that a file may have.
pub get_nth_missing :
    (s : State) (n : Inode) (k : ℕ)
    → n.blocks_alloc ≤ k
    → k < max_inode_blocks
    → get_nth_data_block s n (suc k) ≡ (true, none)
unfolding get_nth_data_block
get_nth_missing s n k le lt = ground arith

-- In a well-formed file system getNthDataBlock, asked for a data block that a file has, returns
-- without an error the address of the block that the file holds in that place, whether the number
-- stands in the i-node or in its indirection block.
pub get_nth-Holds :
    (s : State) (ino k b : ℕ)
    → IsWf s
    → Holds s ino k b
    → k < (s.inode_table ino).blocks_alloc
    → get_nth_data_block s (s.inode_table ino) (suc k) ≡ (false, some (b * block_size))
get_nth-Holds s ino k b wf (live, u, e) lt = elim (dec_lt k 10) [
  | yes low ↦ get_nth_direct s (s.inode_table ino) k b lt low within (ground arith)
  | no high ↦
      let v : Used (s.inode_table ino) max_inode_blocks = inr (refl, omega arith) in
      let (d, e') = wf.filled ino max_inode_blocks live v in
      let room : k < max_inode_blocks = omega (arith, wf.bounded ino live) in
      let table : load_int s.fs_data
            (entry_at (index (s.inode_table ino).indirect_data_block * block_size) (k - 10))
          ≡ pos b =
        ground arith in
      get_nth_indirect s (s.inode_table ino) k b d lt (omega arith) room within
        (wf.exclusive.allocated ino max_inode_blocks d (live, v, e')).0 e'
        (sym (ap (λ z. load_int s.fs_data (entry_at (index z * block_size) (k - 10))) e') ∙ table)
]
  where
    within : b < data_blocks
    within = (wf.exclusive.allocated ino k b (live, u, e)).0
