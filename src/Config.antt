-- ===== src/Config.antt =====
-- The constants of fs/config.h in Parte1/tecnicofs-v2 and Parte2/tecnicofs_ex2 (the second has the
-- same values, and neither the indirect blocks nor the copy buffer), of the flags of `tfs_open`,
-- and the sizes of `int` and of a directory entry, which is 40 bytes of name and an `int`.
use so_file_system.Common.{ℕ, ◌+◌, ◌*◌, ◌/◌}

abbrev pub root_dir_inum : ℕ
root_dir_inum = 0

abbrev pub block_size : ℕ
block_size = 1024

abbrev pub data_blocks : ℕ
data_blocks = 1024

abbrev pub inode_table_size : ℕ
inode_table_size = 50

abbrev pub max_open_files : ℕ
max_open_files = 20

abbrev pub max_file_name : ℕ
max_file_name = 40

abbrev pub direct_block_count : ℕ
direct_block_count = 10

abbrev pub int_size : ℕ
int_size = 4

abbrev pub max_inode_blocks : ℕ
max_inode_blocks = direct_block_count + block_size / int_size

abbrev pub max_file_size : ℕ
max_file_size = block_size * max_inode_blocks

abbrev pub buffer_size : ℕ
buffer_size = 256

abbrev pub dir_entry_size : ℕ
dir_entry_size = max_file_name + int_size

abbrev pub max_dir_entries : ℕ
max_dir_entries = block_size / dir_entry_size

abbrev pub tfs_o_creat : ℕ
tfs_o_creat = 1

abbrev pub tfs_o_trunc : ℕ
tfs_o_trunc = 2

abbrev pub tfs_o_append : ℕ
tfs_o_append = 4
