-- ===== src/Parte2/Tables.antt =====
-- The functions of Parte2/tecnicofs_ex2/fs/state.c: i-nodes, data blocks, directories and the open
-- file table.
pub mod Directories
use so_file_system.Common.{
  ℕ, ◌+◌, ◌-◌, ◌*◌, ℤ, pos, minus_one, is_minus_one, in_range, index, Option, none, some, Bool,
  true, false, not, ◌&&◌, ltb, ◌==◌, if◌then◌else◌, update, List, length,
}
use so_file_system.Config.{
  block_size, data_blocks, inode_table_size, max_open_files, max_file_name, max_dir_entries,
}
use so_file_system.Memory.{Bytes, store_int, store_byte, strncpy}
use so_file_system.Table.{free, taken, is_free, first_free, free_all}
use so_file_system.Directory.{name_at, inumber_at, init_entries, first_empty, find_entry}
use so_file_system.Parte2.State.{State, InodeType, file, directory, put_inode, put_entry}

abbrev pub valid_inumber : ℤ → Bool
valid_inumber i = in_range i inode_table_size

abbrev pub valid_block_number : ℤ → Bool
valid_block_number b = in_range b data_blocks

abbrev pub valid_file_handle : ℤ → Bool
valid_file_handle h = in_range h max_open_files

abbrev pub is_directory : InodeType → Bool
is_directory directory = true
is_directory file = false

unfoldable pub state_init : State → State
state_init s = record s {
  freeinode_ts = free_all inode_table_size s.freeinode_ts;
  free_blocks = free_all data_blocks s.free_blocks;
  free_open_file_entries = free_all max_open_files s.free_open_file_entries;
}

-- `state_destroy` has no statements.
unfoldable pub state_destroy : State → State
state_destroy s = s

unfoldable pub data_block_alloc : State → State × ℤ
data_block_alloc s = elim (first_free data_blocks 0 s.free_blocks) [
  | none ↦ (s, minus_one)
  | some i ↦ (record s { free_blocks = update s.free_blocks i taken }, pos i)
]

unfoldable pub data_block_free : State → ℤ → State × ℤ
data_block_free s b =
    if valid_block_number b
    then (record s { free_blocks = update s.free_blocks (index b) free }, pos 0)
    else (s, minus_one)

-- The address of a block's first byte, `none` for NULL.
unfoldable pub data_block_get : ℤ → Option ℕ
data_block_get b = if valid_block_number b then some (index b * block_size) else none

-- The branch of `inode_create` for a directory, once `freeinode_ts[i] = TAKEN` and the type are set.
unfoldable pub create_directory : State → ℕ → State × ℤ
create_directory s i =
    let (s1, b) = data_block_alloc s in
    let s2 = put_inode s1 i (record (s1.inode_table i) { i_size = block_size; i_data_block = b }) in
    if is_minus_one b
    then (record s1 { freeinode_ts = update s1.freeinode_ts i free }, minus_one)
    else elim (data_block_get b) [
      | none ↦ (record s2 { freeinode_ts = update s2.freeinode_ts i free }, minus_one)
      | some p ↦ (record s2 { fs_data = init_entries max_dir_entries 0 s2.fs_data p }, pos i)
    ]

unfoldable pub inode_create : State → InodeType → State × ℤ
inode_create s n_type = elim (first_free inode_table_size 0 s.freeinode_ts) [
  | none ↦ (s, minus_one)
  | some i ↦
      let inode = record (s.inode_table i) { i_node_type = n_type } in
      let s1 = put_inode (record s { freeinode_ts = update s.freeinode_ts i taken }) i inode in
      if is_directory n_type
      then create_directory s1 i
      else (put_inode s1 i (record inode { i_size = 0; i_data_block = minus_one }), pos i)
]

unfoldable pub inode_delete : State → ℤ → State × ℤ
inode_delete s inumber =
    if valid_inumber inumber
    then (let i = index inumber in
        let inode = s.inode_table i in
        let s1 = record s { freeinode_ts = update s.freeinode_ts i free } in
        let (s2, r) = data_block_free s1 inode.i_data_block in
        if is_free (s.freeinode_ts i)
        then (s, minus_one)
        else if ltb 0 inode.i_size
        then (if is_minus_one r then (s2, minus_one) else (s2, pos 0))
        else (s1, pos 0))
    else (s, minus_one)

-- The index of the i-node, `none` for NULL.
unfoldable pub inode_get : ℤ → Option ℕ
inode_get inumber = if valid_inumber inumber then some (index inumber) else none

-- The three assignments that fill entry `i` of the directory at `p`, in this version's order.
unfoldable pub put_dir_entry : Bytes → ℕ → ℕ → ℤ → List ℕ → Bytes
put_dir_entry m p i sub_inumber sub_name =
    store_byte
      (strncpy (store_int m (inumber_at p i) sub_inumber) (name_at p i) sub_name
        (max_file_name - 1))
      (name_at p i + (max_file_name - 1)) 0

unfoldable pub add_dir_entry : State → ℤ → ℤ → List ℕ → State × ℤ
add_dir_entry s inumber sub_inumber sub_name =
    let inode = s.inode_table (index inumber) in
    if valid_inumber inumber
      && valid_inumber sub_inumber
      && is_directory inode.i_node_type
      && not (length sub_name == 0)
    then elim (data_block_get inode.i_data_block) [
      | none ↦ (s, minus_one)
      | some p ↦ elim (first_empty max_dir_entries 0 s.fs_data p) [
        | none ↦ (s, minus_one)
        | some i ↦ (record s { fs_data = put_dir_entry s.fs_data p i sub_inumber sub_name }, pos 0)
      ]
    ]
    else (s, minus_one)

unfoldable pub find_in_dir : State → ℤ → List ℕ → ℤ
find_in_dir s inumber sub_name =
    let inode = s.inode_table (index inumber) in
    if valid_inumber inumber && is_directory inode.i_node_type
    then elim (data_block_get inode.i_data_block) [
      | none ↦ minus_one
      | some p ↦ find_entry max_dir_entries 0 s.fs_data p sub_name
    ]
    else minus_one

unfoldable pub add_to_open_file_table : State → ℤ → ℕ → State × ℤ
add_to_open_file_table s inumber offset =
    elim (first_free max_open_files 0 s.free_open_file_entries) [
      | none ↦ (s, minus_one)
      | some i ↦ (
        put_entry (record s { free_open_file_entries = update s.free_open_file_entries i taken }) i
            (record { of_inumber = inumber; of_offset = offset }),
        pos i,
      )
    ]

unfoldable pub remove_from_open_file_table : State → ℤ → State × ℤ
remove_from_open_file_table s fhandle =
    if valid_file_handle fhandle
    then (if is_free (s.free_open_file_entries (index fhandle)) then (s, minus_one) else (
      record s { free_open_file_entries = update s.free_open_file_entries (index fhandle) free },
      pos 0,
    ))
    else (s, minus_one)

-- The index of the entry, `none` for NULL. A closed handle has its entry all the same.
unfoldable pub get_open_file_entry : ℤ → Option ℕ
get_open_file_entry fhandle = if valid_file_handle fhandle then some (index fhandle) else none
