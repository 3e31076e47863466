-- ===== src/Parte2/State.antt =====
-- The data of Parte2/tecnicofs_ex2/fs/state.h and the static variables of fs/state.c and
-- fs/operations.c.
use so_file_system.Common.{ℕ, ℤ, Bool, update}
use so_file_system.Memory.{Bytes}
use so_file_system.Table.{Table}

pub data InodeType : Type 0 where
  file : InodeType
  directory : InodeType

pub record Inode : Type 0 where
  pub i_node_type : InodeType
  pub i_size : ℕ
  pub i_data_block : ℤ

pub record OpenFileEntry : Type 0 where
  pub of_inumber : ℤ
  pub of_offset : ℕ

-- `locked` says whether single_global_lock is held.
pub record State : Type 0 where
  pub inode_table : ℕ → Inode
  pub freeinode_ts : Table
  pub fs_data : Bytes
  pub free_blocks : Table
  pub open_file_table : ℕ → OpenFileEntry
  pub free_open_file_entries : Table
  pub open_files : ℤ
  pub locked : Bool

abbrev pub put_inode : State → ℕ → Inode → State
put_inode s i inode = record s { inode_table = update s.inode_table i inode }

abbrev pub put_entry : State → ℕ → OpenFileEntry → State
put_entry s i entry = record s { open_file_table = update s.open_file_table i entry }
