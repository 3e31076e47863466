-- ===== src/Parte1/Blocks.antt =====
-- Data blocks of Parte1/tecnicofs-v2/fs/state.c: their allocation, and the blocks of an i-node, of
-- which the eleventh and later ones are found through a block of block numbers.
pub mod Alloc
pub mod Free
use so_file_system.Common.{
  ℕ, zero, suc, ◌+◌, ◌-◌, ◌*◌, ◌/◌, ◌%◌, ℤ, pos, minus_one, is_minus_one, in_range, index, sub_size,
  add_size, Option, none, some, Bool, true, false, ◌&&◌, ltb, leb, ◌==◌, if◌then◌else◌, update,
}
use so_file_system.Config.{block_size, data_blocks, direct_block_count, int_size, max_inode_blocks}
use so_file_system.Memory.{load_int, store_int}
use so_file_system.Table.{Table, free, taken, first_free}
use so_file_system.Parte1.State.{State, Inode, put_inode}

abbrev pub valid_block_number : ℤ → Bool
valid_block_number b = in_range b data_blocks

abbrev pub valid_inode_block_number : ℕ → Bool
valid_inode_block_number n = leb 1 n && leb n max_inode_blocks

unfoldable pub data_block_alloc : State → State × ℤ
data_block_alloc s = elim (first_free data_blocks 0 s.free_blocks) [
  | none ↦ (s, minus_one)
  | some i ↦ (record s { free_blocks = update s.free_blocks i taken }, pos i)
]

unfoldable pub data_block_free : State → ℤ → State × ℤ
data_block_free s b =
    if valid_block_number b
    then (record s { free_blocks = update s.free_blocks (index b) free }, pos 0)
    else (s, minus_one)

-- The address of a block's first byte, `none` for NULL.
unfoldable pub data_block_get : ℤ → Option ℕ
data_block_get b = if valid_block_number b then some (index b * block_size) else none

-- The `k`-th of the block numbers that an indirection block at address `p` holds.
abbrev pub entry_at : ℕ → ℕ → ℕ
entry_at p k = p + k * int_size

-- The result is `*errorHandler` and the address.
unfoldable pub get_nth_data_block : State → Inode → ℕ → Bool × Option ℕ
get_nth_data_block s inode nth =
    if ltb inode.blocks_alloc nth
    then (valid_inode_block_number nth, none)
    else (let n = sub_size nth 1 in
        if ltb 9 n
        then (
          false,
          elim (data_block_get inode.indirect_data_block) [
            | none ↦ none
            | some p ↦ data_block_get (load_int s.fs_data (entry_at p (sub_size n 10)))
          ],
        )
        else (false, data_block_get (inode.i_data_block n)))

-- The end of allocNthDataBlock for an indirect block: `n` counts from 0, `b` is the new block.
unfoldable pub put_indirect : State → ℕ → ℕ → ℤ → State × ℤ
put_indirect s ino n b =
    let inode = s.inode_table ino in
    elim (data_block_get inode.indirect_data_block) [
      | none ↦ (s, minus_one)
      | some p ↦ (
        put_inode (record s { fs_data = store_int s.fs_data (entry_at p (sub_size n 10)) b }) ino
            (record inode { blocks_alloc = add_size inode.blocks_alloc 1 }),
        pos 0,
      )
    ]

-- `blockNumber == 10`: the block `b` becomes the indirection block, and another one holds the data.
unfoldable pub open_indirection : State → ℕ → ℕ → ℤ → State × ℤ
open_indirection s ino n b =
    let s1 = put_inode s ino (record (s.inode_table ino) { indirect_data_block = b }) in
    let (s2, b') = data_block_alloc s1 in
    if is_minus_one b'
    then (let (s3, r) = data_block_free s2 b in
        if is_minus_one r then (s3, minus_one) else (s3, pos 1))
    else put_indirect s2 ino n b'

unfoldable pub alloc_nth_data_block : State → ℕ → ℕ → State × ℤ
alloc_nth_data_block s ino number =
    if valid_inode_block_number number
    then (let (s1, b) = data_block_alloc s in
        let n = sub_size number 1 in
        let inode = s1.inode_table ino in
        if is_minus_one b
        then (s1, pos 1)
        else if ltb 9 n
        then (if n == 10 then open_indirection s1 ino n b else put_indirect s1 ino n b)
        else (
          put_inode s1 ino (record inode {
            i_data_block = update inode.i_data_block n b;
            blocks_alloc = add_size inode.blocks_alloc 1;
          }),
          pos 0,
        ))
    else (s, minus_one)

-- `divCeil` and `divCeilRW`.
unfoldable pub div_ceil : ℕ → ℕ → ℕ
div_ceil a b = if a % b == 0 then a / b else a / b + 1

unfoldable pub div_ceil_rw : ℕ → ℕ → ℕ
div_ceil_rw a b = a / b + 1

-- The loop of allocNecessaryBlocks, with `rounds` = blockNeeded - blockOcc.
unfoldable pub alloc_blocks_loop : ℕ → State → ℕ → ℕ → State × ℤ
alloc_blocks_loop zero s ino occ = (s, pos 0)
alloc_blocks_loop (suc rounds) s ino occ =
    let (s1, control) = alloc_nth_data_block s ino (occ + 1) in
    let rest = alloc_blocks_loop rounds s1 ino (occ + 1) in
    if is_minus_one control
    then (s1, minus_one)
    else elim control [ pos (suc zero) ↦ (s1, pos 0) | _ ↦ rest ]

unfoldable pub alloc_necessary_blocks : State → ℕ → ℕ → State × ℤ
alloc_necessary_blocks s ino size_needed =
    let occ = (s.inode_table ino).blocks_alloc in
    alloc_blocks_loop (div_ceil size_needed block_size - occ) s ino occ

-- `for (; i < …; i++) if (data_block_free(number i) == -1) return -1;`
unfoldable pub free_blocks_loop : ℕ → (ℕ → ℤ) → ℕ → State → State × ℤ
free_blocks_loop zero number i s = (s, pos 0)
free_blocks_loop (suc rounds) number i s =
    let (s1, r) = data_block_free s (number i) in
    let rest = free_blocks_loop rounds number (suc i) s1 in
    if is_minus_one r then (s1, minus_one) else rest

-- freeIndirectBlocks once the address `p` of the indirection block is known; `table` is its number.
unfoldable pub free_entries : State → ℕ → ℤ → ℕ → State × ℤ
free_entries s j table p =
    let (s1, r) = free_blocks_loop (sub_size j 10) (λ i. load_int s.fs_data (entry_at p i)) 0 s in
    let (s2, r') = data_block_free s1 table in
    if is_minus_one r
    then (s1, minus_one)
    else if is_minus_one r'
    then (s2, minus_one)
    else (s2, pos 0)

unfoldable pub free_indirect_blocks : State → Inode → ℕ → State × ℤ
free_indirect_blocks s inode j = elim (data_block_get inode.indirect_data_block) [
  | none ↦ (s, minus_one)
  | some p ↦ free_entries s j inode.indirect_data_block p
]

unfoldable pub delete_inode_data_blocks : State → Inode → State × ℤ
delete_inode_data_blocks s inode =
    if ltb 10 inode.blocks_alloc
    then (let (s1, r) = free_indirect_blocks s inode inode.blocks_alloc in
        if is_minus_one r then (s1, minus_one) else free_blocks_loop 10 inode.i_data_block 0 s1)
    else free_blocks_loop inode.blocks_alloc inode.i_data_block 0 s
