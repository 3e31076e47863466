-- ===== src/Parte1/State.antt =====
-- The state of Parte1/tecnicofs-v2/fs/state.c: its static arrays, with the types of state.h. Arrays
-- are functions on indices, and a pointer to an element is the element's index.
use so_file_system.Common.{ℕ, ℤ, Bool, update}
use so_file_system.Memory.{Bytes}
use so_file_system.Table.{Table}

pub data InodeType : Type 0 where
  file directory : InodeType

-- `inode_t`, without its lock.
pub record Inode : Type 0 where
  pub i_node_type : InodeType
  pub i_size : ℕ
  pub i_data_block : ℕ → ℤ
  pub indirect_data_block : ℤ
  pub blocks_alloc : ℕ

-- `open_file_entry_t`, without its lock.
pub record OpenFileEntry : Type 0 where
  pub of_inumber : ℤ
  pub of_offset : ℕ
  pub is_appending : Bool

pub record State : Type 0 where
  pub inode_table : ℕ → Inode
  pub freeinode_ts : Table
  pub fs_data : Bytes
  pub free_blocks : Table
  pub open_file_table : ℕ → OpenFileEntry
  pub free_open_file_entries : Table

-- `inode_table[i] = node` and `open_file_table[i] = entry`.
abbrev pub put_inode : State → ℕ → Inode → State
put_inode s i node = record s { inode_table = update s.inode_table i node }

abbrev pub put_entry : State → ℕ → OpenFileEntry → State
put_entry s i entry = record s { open_file_table = update s.open_file_table i entry }
