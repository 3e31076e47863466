-- ===== src/Parte1/Inodes.antt =====
-- The i-node table and the directory of Parte1/tecnicofs-v2/fs/state.c.
pub mod Lookup
use so_file_system.Common.{
  ℕ, zero, suc, ◌+◌, ◌*◌, ℤ, pos, minus_one, is_minus_one, in_range, index, List, [], ◌∷◌, Option,
  none, some, Bool, true, false, not, ltb, ◌==◌, ◌&&◌, if◌then◌else◌, update, length,
}
use so_file_system.Config.{
  block_size, data_blocks, inode_table_size, max_open_files, max_dir_entries, root_dir_inum,
}
use so_file_system.Table.{free, taken, is_free, first_free, free_all}
use so_file_system.Directory.{init_entries, first_empty, fill_entry, find_entry, count_entries}
use so_file_system.Parte1.State.{State, Inode, InodeType, file, directory, put_inode}
use so_file_system.Parte1.Blocks.{data_block_alloc, data_block_get, delete_inode_data_blocks}

abbrev pub valid_inumber : ℤ → Bool
valid_inumber i = in_range i inode_table_size

-- The three loops of `state_init`; those of `state_destroy` leave the tables the same.
unfoldable pub state_init : State → State
state_init s = record s {
  freeinode_ts = free_all inode_table_size s.freeinode_ts;
  free_blocks = free_all data_blocks s.free_blocks;
  free_open_file_entries = free_all max_open_files s.free_open_file_entries;
}

-- `if (freeinode_ts[i] == TAKEN) freeinode_ts[i] = FREE;` has no other effect than the assignment.
unfoldable pub state_destroy : State → State
state_destroy s = record s {
  freeinode_ts = free_all inode_table_size s.freeinode_ts;
  free_blocks = free_all data_blocks s.free_blocks;
  free_open_file_entries = free_all max_open_files s.free_open_file_entries;
}

abbrev pub is_directory : InodeType → Bool
is_directory directory = true
is_directory file = false

-- The branch of `inode_create` for a directory, once `freeinode_ts[i] = TAKEN` and the type are set.
unfoldable pub create_directory : State → ℕ → State × ℤ
create_directory s i =
    let (s1, b) = data_block_alloc s in
    let inode = s1.inode_table i in
    let s2 = put_inode s1 i (record inode {
      i_size = block_size;
      i_data_block = update inode.i_data_block 0 b;
      blocks_alloc = 1;
    }) in
    if is_minus_one b
    then (record s1 { freeinode_ts = update s1.freeinode_ts i free }, minus_one)
    else elim (data_block_get b) [
      | none ↦ (record s2 { freeinode_ts = update s2.freeinode_ts i free }, minus_one)
      | some p ↦ (record s2 { fs_data = init_entries max_dir_entries 0 s2.fs_data p }, pos i)
    ]

unfoldable pub inode_create : State → InodeType → State × ℤ
inode_create s n_type = elim (first_free inode_table_size 0 s.freeinode_ts) [
  | none ↦ (s, minus_one)
  | some i ↦
      let inode = record (s.inode_table i) { i_node_type = n_type } in
      let s1 = put_inode (record s { freeinode_ts = update s.freeinode_ts i taken }) i inode in
      if is_directory n_type
      then create_directory s1 i
      else (put_inode s1 i (record inode { i_size = 0; blocks_alloc = 0 }), pos i)
]

unfoldable pub inode_delete : State → ℤ → State × ℤ
inode_delete s inumber =
    if valid_inumber inumber
    then (let i = index inumber in
        let inode = s.inode_table i in
        let s1 = record s { freeinode_ts = update s.freeinode_ts i free } in
        if is_free (s.freeinode_ts i)
        then (s, minus_one)
        else if ltb 0 inode.i_size
        then (let (s2, r) = delete_inode_data_blocks s1 inode in
            if is_minus_one r then (s2, minus_one) else (s2, pos 0))
        else (s1, pos 0))
    else (s, minus_one)

-- The index of the i-node, `none` for NULL.
unfoldable pub inode_get : ℤ → Option ℕ
inode_get inumber = if valid_inumber inumber then some (index inumber) else none

unfoldable pub add_dir_entry : State → ℤ → ℤ → List ℕ → State × ℤ
add_dir_entry s inumber sub_inumber sub_name =
    let inode = s.inode_table (index inumber) in
    if valid_inumber inumber
      && valid_inumber sub_inumber
      && is_directory inode.i_node_type
      && not (length sub_name == 0)
    then elim (data_block_get (inode.i_data_block 0)) [
      | none ↦ (s, minus_one)
      | some p ↦ elim (first_empty max_dir_entries 0 s.fs_data p) [
        | none ↦ (s, minus_one)
        | some i ↦ (record s { fs_data = fill_entry s.fs_data p i sub_inumber sub_name }, pos 0)
      ]
    ]
    else (s, minus_one)

unfoldable pub find_in_dir : State → ℤ → List ℕ → ℤ
find_in_dir s inumber sub_name =
    let inode = s.inode_table (index inumber) in
    if valid_inumber inumber && is_directory inode.i_node_type
    then elim (data_block_get (inode.i_data_block 0)) [
      | none ↦ minus_one
      | some p ↦ find_entry max_dir_entries 0 s.fs_data p sub_name
    ]
    else minus_one

-- `filename` without its first character.
unfoldable pub test1 : State → List ℕ → ℤ
test1 s filename = elim (data_block_get ((s.inode_table root_dir_inum).i_data_block 0)) [
  | none ↦ minus_one
  | some p ↦ pos (count_entries max_dir_entries 0 s.fs_data p filename)
]
