-- ===== src/Parte1/Inodes/Lookup.antt =====
-- `add_dir_entry` and `find_in_dir` of Parte1/tecnicofs-v2/fs/state.c against one another.
use so_file_system.Common.{
  ℕ, ◌*◌, ◌<◌, ◌≡◌, refl, ℤ, pos, minus_one, List, arith, length, some, none,
}
use so_file_system.Config.{
  block_size, data_blocks, inode_table_size, max_dir_entries, root_dir_inum,
}
use so_file_system.Directory.{first_empty, fill_entry, find_entry, count_entries}
use so_file_system.Parte1.State.{State, directory}
use so_file_system.Parte1.Blocks.{data_block_get}
use so_file_system.Parte1.Inodes.{add_dir_entry, find_in_dir, test1}

-- The root directory is there, with its entries in block `b`.
pub record HasRoot (s : State) (b : ℕ) : Type 0 where
  pub kind : (s.inode_table root_dir_inum).i_node_type ≡ directory
  pub block : (s.inode_table root_dir_inum).i_data_block 0 ≡ pos b
  pub within : b < data_blocks
  pub some_block : 0 < (s.inode_table root_dir_inum).blocks_alloc

pub root_block :
    (s : State) (b : ℕ)
    → HasRoot s b
    → data_block_get ((s.inode_table root_dir_inum).i_data_block 0) ≡ some (b * block_size)
unfolding data_block_get
root_block s b r = rw r.block (ground (arith, r.within))

pub find_in_dir_eq :
    (s : State) (b : ℕ) (name : List ℕ)
    → HasRoot s b
    → find_in_dir s (pos root_dir_inum) name
      ≡ find_entry max_dir_entries 0 s.fs_data (b * block_size) name
unfolding find_in_dir
find_in_dir_eq s b name r = rw (r.kind, find_in_dir, root_block s b r) refl

pub test1_eq :
    (s : State) (b : ℕ) (name : List ℕ)
    → HasRoot s b
    → test1 s name ≡ pos (count_entries max_dir_entries 0 s.fs_data (b * block_size) name)
unfolding test1
test1_eq s b name r = rw (root_block s b r, test1) refl

-- The state with entry `j` of the root directory filled.
abbrev pub with_entry : State → ℕ → ℕ → ℤ → List ℕ → State
with_entry s b j d name = record s { fs_data = fill_entry s.fs_data (b * block_size) j d name }

pub add_dir_entry_eq :
    (s : State) (b i j : ℕ) (name : List ℕ)
    → HasRoot s b
    → i < inode_table_size
    → 0 < length name
    → first_empty max_dir_entries 0 s.fs_data (b * block_size) ≡ some j
    → add_dir_entry s (pos root_dir_inum) (pos i) name ≡ (with_entry s b j (pos i) name, pos 0)
unfolding add_dir_entry
add_dir_entry_eq s b i j name r lt some_name e = ground (arith, r.kind, root_block s b r)

pub add_dir_entry_full :
    (s : State) (b : ℕ) (d : ℤ) (name : List ℕ)
    → HasRoot s b
    → first_empty max_dir_entries 0 s.fs_data (b * block_size) ≡ none
    → add_dir_entry s (pos root_dir_inum) d name ≡ (s, minus_one)
unfolding add_dir_entry
add_dir_entry_full s b d name r e = ground (arith, r.kind, root_block s b r)
