-- ===== src/Parte2/Transfer.antt =====
-- `tfs_write` and `tfs_read` of Parte2/tecnicofs_ex2/fs/operations.c.
pub mod Read
pub mod Write
pub mod RoundTrip
use so_file_system.Common.{
  ℕ, ◌+◌, ℤ, pos, minus_one, add_size, sub_size, List, [], Option, none, some, Bool, true, false,
  ltb, ◌==◌, if◌then◌else◌, slice,
}
use so_file_system.Config.{block_size}
use so_file_system.Memory.{memcpy}
use so_file_system.Parte1.Operations.{to_ssize}
use so_file_system.Parte2.State.{State, Inode, OpenFileEntry, put_inode, put_entry}
use so_file_system.Parte2.Tables.{data_block_alloc, data_block_get, inode_get, get_open_file_entry}
use so_file_system.Parte2.Operations.{synchronized}

-- `if (to_write + of_offset > BLOCK_SIZE) to_write = BLOCK_SIZE - of_offset;`
unfoldable pub clamp_write : ℕ → ℕ → ℕ
clamp_write to_write offset =
    if ltb block_size (add_size to_write offset) then sub_size block_size offset else to_write

-- `if (inode->i_size == 0) inode->i_data_block = data_block_alloc();`
unfoldable pub ensure_block : State → ℕ → State
ensure_block s i =
    let (s1, b) = data_block_alloc s in
    if (s.inode_table i).i_size == 0
    then put_inode s1 i (record (s1.inode_table i) { i_data_block = b })
    else s

-- The copy to the block at address `p`, with the new offset and size.
unfoldable pub write_at : State → ℕ → ℕ → ℕ → List ℕ → ℕ → State
write_at s h i p buf n =
    let entry = s.open_file_table h in
    let inode = s.inode_table i in
    let offset = add_size entry.of_offset n in
    let s1 =
      put_entry (record s { fs_data = memcpy s.fs_data (p + entry.of_offset) buf 0 n }) h
        (record entry { of_offset = offset }) in
    if ltb inode.i_size offset then put_inode s1 i (record inode { i_size = offset }) else s1

unfoldable pub write_file : State → ℕ → ℕ → List ℕ → ℕ → State × ℤ
write_file s h i buf to_write =
    let n = clamp_write to_write (s.open_file_table h).of_offset in
    let s1 = ensure_block s i in
    let written : State × ℤ = elim (data_block_get (s1.inode_table i).i_data_block) [
      | none ↦ (s1, minus_one)
      | some p ↦ (write_at s1 h i p buf n, to_ssize n)
    ] in
    if ltb 0 n then written else (s, pos 0)

unfoldable pub write_unsynchronized : State → ℤ → List ℕ → ℕ → State × ℤ
write_unsynchronized s fhandle buf to_write = elim (get_open_file_entry fhandle) [
  | none ↦ (s, minus_one)
  | some h ↦ elim (inode_get (s.open_file_table h).of_inumber) [
    | none ↦ (s, minus_one)
    | some i ↦ write_file s h i buf to_write
  ]
]

unfoldable pub tfs_write : State → ℤ → List ℕ → ℕ → Option (State × ℤ)
tfs_write s fhandle buf to_write = synchronized (λ s. write_unsynchronized s fhandle buf to_write) s

-- The bytes read are what memcpy has put at the start of the caller's buffer.
unfoldable pub read_file : State → ℕ → ℕ → ℕ → State × (ℤ × List ℕ)
read_file s h i len =
    let inode = s.inode_table i in
    let entry = s.open_file_table h in
    let left = sub_size inode.i_size entry.of_offset in
    let n = if ltb len left then len else left in
    let done : State × (ℤ × List ℕ) = elim (data_block_get inode.i_data_block) [
      | none ↦ (s, (minus_one, []))
      | some p ↦ (
        put_entry s h (record entry { of_offset = add_size entry.of_offset n }),
        (to_ssize n, slice s.fs_data (p + entry.of_offset) n),
      )
    ] in
    if ltb 0 n then done else (s, (pos 0, []))

unfoldable pub read_unsynchronized : State → ℤ → ℕ → State × (ℤ × List ℕ)
read_unsynchronized s fhandle len = elim (get_open_file_entry fhandle) [
  | none ↦ (s, (minus_one, []))
  | some h ↦ elim (inode_get (s.open_file_table h).of_inumber) [
    | none ↦ (s, (minus_one, []))
    | some i ↦ read_file s h i len
  ]
]

unfoldable pub tfs_read : State → ℤ → ℕ → Option (State × (ℤ × List ℕ))
tfs_read s fhandle len = synchronized {A = ℤ × List ℕ} (λ s. read_unsynchronized s fhandle len) s
