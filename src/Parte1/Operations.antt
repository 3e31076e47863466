-- ===== src/Parte1/Operations.antt =====
-- Parte1/tecnicofs-v2/fs/operations.c, run one call at a time: the locks are left out. A path is
-- `none` for NULL. `flags` is the bit pattern of the C argument.
pub mod Create
pub mod NewFile
pub mod Init
pub mod Full
pub mod Truncates
use so_file_system.Common.{
  ℕ, zero, suc, ◌+◌, ◌-◌, ◌*◌, ◌/◌, ◌%◌, ◌^◌, ℤ, pos, negsuc, minus_one, is_minus_one, is_nonneg,
  index, sub_size, add_size, size_mod, has_flag, List, [], ◌∷◌, ◌++◌, Option, none, some, Bool,
  true, false, not, ltb, leb, ◌==◌, ◌&&◌, ◌||◌, if◌then◌else◌, update, length, slice,
}
use so_file_system.Config.{
  block_size, max_file_size, root_dir_inum, buffer_size, tfs_o_creat, tfs_o_trunc, tfs_o_append,
}
use so_file_system.Memory.{memcpy}
use so_file_system.Parte1.State.{
  State, Inode, InodeType, file, directory, OpenFileEntry, put_inode, put_entry,
}
use so_file_system.Parte1.Blocks.{
  get_nth_data_block, alloc_necessary_blocks, delete_inode_data_blocks, div_ceil_rw,
}
use so_file_system.Parte1.OpenFiles.{
  add_to_open_file_table, remove_from_open_file_table, get_open_file_entry,
}
use so_file_system.Parte1.Inodes.{
  state_init, state_destroy, inode_create, inode_delete, inode_get, add_dir_entry, find_in_dir,
}

unfoldable pub tfs_init : State → State × ℤ
tfs_init s =
    let (s1, root) = inode_create (state_init s) directory in
    elim root [ pos zero ↦ (s1, pos 0) | _ ↦ (s1, minus_one) ]

unfoldable pub tfs_destroy : State → State × ℤ
tfs_destroy s = (state_destroy s, pos 0)

-- The character `/`.
abbrev pub slash : ℕ
slash = 47

-- `name[0]`, 0 at the end of the text.
abbrev pub first_char : List ℕ → ℕ
first_char [] = 0
first_char (c ∷ name) = c

-- `name + 1`
abbrev pub skip : List ℕ → List ℕ
skip [] = []
skip (c ∷ name) = name

abbrev pub valid_pathname : List ℕ → Bool
valid_pathname name = ltb 1 (length name) && first_char name == slash

unfoldable pub tfs_lookup : State → List ℕ → ℤ
tfs_lookup s name = find_in_dir s (pos root_dir_inum) (skip name)

-- What `open_existing_file` leaves in `*isAppending` and `*offset` (0 for both, where it does not
-- assign them), beside its result.
pub record Opened : Type 0 where
  pub state : State
  pub result : ℤ
  pub appending : Bool
  pub offset : ℕ

-- `if (flags & TFS_O_TRUNC) …`, with the result of deleteInodeDataBlocks.
unfoldable pub truncate : State → ℕ → ℕ → State × ℤ
truncate s flags i =
    let inode = s.inode_table i in
    let (s1, r) = delete_inode_data_blocks s inode in
    if has_flag flags tfs_o_trunc && ltb 0 inode.i_size
    then (if is_minus_one r
        then (s1, minus_one)
        else (put_inode s1 i (record (s1.inode_table i) { i_size = 0; blocks_alloc = 0 }), pos 0))
    else (s, pos 0)

unfoldable pub open_existing_file : State → ℕ → ℤ → Opened
open_existing_file s flags inum = elim (inode_get inum) [
  | none ↦ record { state = s; result = minus_one; appending = false; offset = 0 }
  | some i ↦
      let (s1, r) = truncate s flags i in
      if is_minus_one r
      then record { state = s1; result = minus_one; appending = false; offset = 0 }
      else if has_flag flags tfs_o_append
      then record {
        state = s1;
        result = pos 0;
        appending = true;
        offset = (s1.inode_table i).i_size;
      }
      else record { state = s1; result = pos 0; appending = false; offset = 0 }
]

-- The last step of `tfs_open` for a file that exists.
unfoldable pub open_found : State → ℕ → ℤ → State × ℤ
open_found s flags inum =
    let o = open_existing_file s flags inum in
    if is_minus_one o.result
    then (o.state, minus_one)
    else add_to_open_file_table o.state inum o.offset o.appending

-- What `tfs_open` does for TFS_O_CREAT while it holds newFileMutex, and after.
unfoldable pub open_new : State → List ℕ → ℕ → State × ℤ
open_new s name flags =
    let inum = tfs_lookup s name in
    let (s1, created) = inode_create s file in
    let (s2, added) = add_dir_entry s1 (pos root_dir_inum) created (skip name) in
    if is_nonneg inum
    then open_found s flags inum
    else if is_minus_one created
    then (s1, minus_one)
    else if is_minus_one added
    then ((inode_delete s2 created).0, minus_one)
    else add_to_open_file_table s2 created 0 false

unfoldable pub open_path : State → List ℕ → ℕ → State × ℤ
open_path s name flags =
    let inum = tfs_lookup s name in
    if is_nonneg inum
    then open_found s flags inum
    else if has_flag flags tfs_o_creat
    then open_new s name flags
    else (s, minus_one)

unfoldable pub tfs_open : State → Option (List ℕ) → ℕ → State × ℤ
tfs_open s none flags = (s, minus_one)
tfs_open s (some name) flags =
    if valid_pathname name then open_path s name flags else (s, minus_one)

unfoldable pub tfs_close : State → ℤ → State × ℤ
tfs_close s fhandle = remove_from_open_file_table s fhandle

-- The cast to `ssize_t`.
abbrev pub to_ssize : ℕ → ℤ
to_ssize n = if ltb n (2 ^ 63) then pos n else negsuc (size_mod - 1 - n)
