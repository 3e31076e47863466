-- ===== src/Parte1/Transfer.antt =====
-- `tfs_write` and `tfs_read` of Parte1/tecnicofs-v2/fs/operations.c, run one call at a time: the locks
-- are left out. `none` as a whole result means that the call has not returned within its fuel.
pub mod WriteLoop
pub mod Advance
pub mod Write
pub mod TfsWrite
pub mod Read
pub mod RoundTrip
pub mod Closed
use so_file_system.Common.{
  ℕ, zero, suc, ◌+◌, ◌-◌, ◌*◌, ◌/◌, ◌%◌, ◌^◌, ℤ, pos, negsuc, minus_one, is_minus_one, is_nonneg,
  index, sub_size, add_size, size_mod, has_flag, List, [], ◌∷◌, ◌++◌, Option, none, some, Bool,
  true, false, not, ltb, leb, ◌==◌, ◌&&◌, ◌||◌, if◌then◌else◌, update, length, slice,
}
use so_file_system.Config.{block_size, max_file_size, buffer_size, tfs_o_creat}
use so_file_system.Memory.{memcpy}
use so_file_system.Parte1.State.{State, Inode, OpenFileEntry, put_inode, put_entry}
use so_file_system.Parte1.Blocks.{get_nth_data_block, alloc_necessary_blocks, div_ceil_rw}
use so_file_system.Parte1.OpenFiles.{get_open_file_entry}
use so_file_system.Parte1.Inodes.{inode_get}
use so_file_system.Parte1.Operations.{tfs_open, tfs_close, tfs_lookup, valid_pathname, to_ssize}

-- `a < b ? a : b`
abbrev pub smaller : ℕ → ℕ → ℕ
smaller a b = if ltb a b then a else b

-- How a loop over blocks ends: by its test or `break`, by `return -1`, or without fuel.
pub data WriteEnd : Type 0 where
  stop : State → ℕ → WriteEnd
  fail : State → WriteEnd
  hang : WriteEnd

-- `while (to_write > 0)`: its variables are to_write, blockWriting, blockOffset, toWriteInBlock and
-- bufferOffset.
unfoldable pub write_loop : ℕ → State → ℕ → List ℕ → ℕ → ℕ → ℕ → ℕ → ℕ → WriteEnd
write_loop zero s ino buf to_write number block_offset in_block from = hang
write_loop (suc fuel) s ino buf to_write number block_offset in_block from =
    let (missing, block) = get_nth_data_block s (s.inode_table ino) number in
    let left = sub_size to_write in_block in
    let round : WriteEnd = elim block [
      | none ↦ fail s
      | some p ↦
          write_loop fuel
            (record s { fs_data = memcpy s.fs_data (p + block_offset) buf from in_block }) ino buf
            left (add_size number 1) 0 (smaller block_size left) (add_size from in_block)
    ] in
    if to_write == 0 then stop s to_write else if missing then stop s to_write else round

-- `file->of_offset += n; if (file->of_offset > inode->i_size) inode->i_size = file->of_offset;`
unfoldable pub advance : State → ℕ → ℕ → ℕ → State
advance s h ino n =
    let entry = s.open_file_table h in
    let inode = s.inode_table ino in
    let offset = add_size entry.of_offset n in
    let s1 = put_entry s h (record entry { of_offset = offset }) in
    if ltb inode.i_size offset then put_inode s1 ino (record inode { i_size = offset }) else s1

-- What follows the loop, with `to_write` the count that it began with (saveToWrite).
unfoldable pub finish_write : ℕ → ℕ → ℕ → WriteEnd → Option (State × ℤ)
finish_write h ino to_write hang = none
finish_write h ino to_write (fail s) = some (s, minus_one)
finish_write h ino to_write (stop s left) =
    some (advance s h ino (sub_size to_write left), to_ssize (sub_size to_write left))

-- The block `if (to_write > 0)` and the return, once the sizes are known.
unfoldable pub write_blocks : State → ℕ → ℕ → List ℕ → ℕ → ℕ → Option (State × ℤ)
write_blocks s h ino buf size_needed to_write =
    let offset = (s.open_file_table h).of_offset in
    let (s1, r) = alloc_necessary_blocks s ino size_needed in
    let number = div_ceil_rw offset block_size in
    let block_offset = sub_size offset (sub_size number 1 * block_size) in
    let in_block = smaller (sub_size block_size block_offset) to_write in
    if is_minus_one r
    then some (s1, minus_one)
    else finish_write h ino to_write
        (write_loop (suc to_write) s1 ino buf to_write number block_offset in_block 0)

-- `if (file->isAppending) file->of_offset = inode->i_size;`
unfoldable pub seek_end : State → ℕ → ℕ → State
seek_end s h ino =
    let entry = s.open_file_table h in
    if entry.is_appending
    then put_entry s h (record entry { of_offset = (s.inode_table ino).i_size })
    else s

-- `sizeNeeded`, the end of the write within the largest file.
unfoldable pub clamp_size : ℕ → ℕ → ℕ
clamp_size to_write offset =
    let needed = add_size to_write offset in
    if ltb max_file_size needed then max_file_size else needed

-- The critical section.
unfoldable pub write_locked : State → ℕ → ℕ → List ℕ → ℕ → Option (State × ℤ)
write_locked s h ino buf to_write =
    let s1 = seek_end s h ino in
    let offset = (s1.open_file_table h).of_offset in
    let size_needed = clamp_size to_write offset in
    let count = sub_size size_needed offset in
    if ltb 0 count then write_blocks s1 h ino buf size_needed count else some (s1, pos 0)

unfoldable pub tfs_write : State → ℤ → List ℕ → ℕ → Option (State × ℤ)
tfs_write s fhandle buf to_write = elim (get_open_file_entry s fhandle) [
  | none ↦ some (s, minus_one)
  | some h ↦ elim (inode_get (s.open_file_table h).of_inumber) [
    | none ↦ some (s, minus_one)
    | some ino ↦ write_locked s h ino buf to_write
  ]
]

-- The bytes read are what the loop has put at the start of the caller's buffer.
pub data ReadEnd : Type 0 where
  stop : List ℕ → ℕ → ReadEnd
  fail : List ℕ → ReadEnd
  hang : ReadEnd

-- `while (to_read > 0)`: its variables are the bytes so far, to_read, blockReading, blockOffset and
-- toReadInBlock; bufferOffset is the number of the bytes so far.
unfoldable pub read_loop : ℕ → State → Inode → List ℕ → ℕ → ℕ → ℕ → ℕ → ReadEnd
read_loop zero s inode out to_read number block_offset in_block = ReadEnd.hang
read_loop (suc fuel) s inode out to_read number block_offset in_block =
    let (missing, block) = get_nth_data_block s inode number in
    let left = sub_size to_read in_block in
    let round : ReadEnd = elim block [
      | none ↦ ReadEnd.fail out
      | some p ↦
          read_loop fuel s inode (out ++ slice s.fs_data (p + block_offset) in_block) left
            (add_size number 1) 0 (smaller block_size left)
    ] in
    if to_read == 0 then ReadEnd.stop out to_read else if missing then ReadEnd.fail out else round

-- What follows the loop, with `to_read` the count that it began with (toReadSave).
unfoldable pub finish_read : State → ℕ → ℕ → ReadEnd → Option (State × ℤ × List ℕ)
finish_read s h to_read ReadEnd.hang = none
finish_read s h to_read (ReadEnd.fail out) = some (s, minus_one, out)
finish_read s h to_read (ReadEnd.stop out left) =
    let entry = s.open_file_table h in
    let n = sub_size to_read left in
    some (put_entry s h (record entry { of_offset = add_size entry.of_offset n }), to_ssize n, out)

-- The block `if (to_read > 0)` and the return.
unfoldable pub read_blocks : State → ℕ → Inode → ℕ → Option (State × ℤ × List ℕ)
read_blocks s h inode to_read =
    let entry = s.open_file_table h in
    let number = div_ceil_rw entry.of_offset block_size in
    let block_offset = sub_size entry.of_offset (sub_size number 1 * block_size) in
    let in_block = smaller (sub_size block_size block_offset) to_read in
    finish_read s h to_read
      (read_loop (suc to_read) s inode [] to_read number block_offset in_block)

-- The critical section.
unfoldable pub read_locked : State → ℕ → ℕ → ℕ → Option (State × ℤ × List ℕ)
read_locked s h ino len =
    let inode = s.inode_table ino in
    let left = sub_size inode.i_size (s.open_file_table h).of_offset in
    let to_read = if ltb len left then len else left in
    if ltb 0 to_read then read_blocks s h inode to_read else some (s, pos 0, [])

unfoldable pub tfs_read : State → ℤ → ℕ → Option (State × ℤ × List ℕ)
tfs_read s fhandle len = elim (get_open_file_entry s fhandle) [
  | none ↦ some (s, minus_one, [])
  | some h ↦ elim (inode_get (s.open_file_table h).of_inumber) [
    | none ↦ some (s, minus_one, [])
    | some ino ↦
        if (s.open_file_table h).is_appending then some (s, pos 0, []) else read_locked s h ino len
  ]
]
