-- ===== src/Parte1/Sound/Untouched.antt =====
-- What a write of Parte1/tecnicofs-v2 leaves alone: the i-nodes of other files, and which i-node a
-- handle is on.
use so_file_system.Common.{
  ℕ, zero, suc, ◌+◌, ◌≡◌, refl, ◌∙◌, ◌≢◌, ℤ, pos, List, Option, none, some, Bool, arith, true,
  false, if◌then◌else◌, add_size, sub_size, ◌==◌, ltb, ◌-◌, ◌*◌, minus_one, is_minus_one,
}
use so_file_system.Config.{block_size}
use so_file_system.Memory.{memcpy}
use so_file_system.Parte1.State.{State}
use so_file_system.Parte1.Blocks.{
  data_block_alloc, data_block_free, get_nth_data_block, put_indirect, open_indirection, div_ceil,
  div_ceil_rw, alloc_nth_data_block, alloc_blocks_loop, alloc_necessary_blocks,
}
use so_file_system.Parte1.Transfer.{
  WriteEnd, stop, fail, hang, write_loop, advance, finish_write, write_blocks, seek_end, clamp_size,
  write_locked, smaller,
}

abbrev pub Leaves : ℕ → ℕ → State → State → Type 0
Leaves i g s s' =
    (s'.inode_table i ≡ s.inode_table i)
    × ((s'.open_file_table g).of_inumber ≡ (s.open_file_table g).of_inumber)

module _ (i g ino : ℕ) (ne : i ≢ ino) where
  abbrev LeavesEnd : State → WriteEnd → Type 0
  LeavesEnd s (stop s' left) = Leaves i g s s'
  LeavesEnd s (fail s') = Leaves i g s s'
  LeavesEnd s hang = Unit

  abbrev pub LeavesResult : State → Option (State × ℤ) → Type 0
  LeavesResult s none = Unit
  LeavesResult s (some (s', r)) = Leaves i g s s'

  alloc_nth-Leaves : (s : State) (number : ℕ) → Leaves i g s (alloc_nth_data_block s ino number).0
  unfolding alloc_nth_data_block data_block_alloc data_block_free put_indirect open_indirection
  alloc_nth-Leaves s number = ground arith

  loop-Leaves :
      (rounds : ℕ) (s : State) (occ : ℕ) → Leaves i g s (alloc_blocks_loop rounds s ino occ).0
  unfolding alloc_blocks_loop
  loop-Leaves zero s occ = (refl, refl)
  loop-Leaves (suc rounds) s occ = ground (
    arith,
    alloc_nth-Leaves s (occ + 1),
    loop-Leaves rounds (alloc_nth_data_block s ino (occ + 1)).0 (occ + 1),
  )

  Leaves-trans : (s s' s'' : State) → Leaves i g s s' → Leaves i g s' s'' → Leaves i g s s''
  Leaves-trans s s' s'' (a, b) (c, d) = (c ∙ a, d ∙ b)

  if-LeavesEnd :
      (s : State) (b : Bool) (x y : WriteEnd)
      → LeavesEnd s x
      → LeavesEnd s y
      → LeavesEnd s (if b then x else y)
  if-LeavesEnd s true x y hx hy = hx
  if-LeavesEnd s false x y hx hy = hy

  block-LeavesEnd :
      (s : State) (o : Option ℕ) (f : ℕ → WriteEnd)
      → ((p : ℕ) → LeavesEnd s (f p))
      → LeavesEnd s (elim o [ none ↦ fail s | some p ↦ f p ])
  block-LeavesEnd s none f h = (refl, refl)
  block-LeavesEnd s (some p) f h = h p

  write_loop-Leaves :
      (fuel : ℕ) (s : State) (buf : List ℕ) (to_write number block_offset in_block from : ℕ)
      → LeavesEnd s (write_loop fuel s ino buf to_write number block_offset in_block from)
  unfolding write_loop
  write_loop-Leaves zero s buf to_write number block_offset in_block from = tt
  write_loop-Leaves (suc fuel) s buf to_write number block_offset in_block from =
      let round =
        block-LeavesEnd s (get_nth_data_block s (s.inode_table ino) number).1
          (λ p.
            write_loop fuel
              (record s { fs_data = memcpy s.fs_data (p + block_offset) buf from in_block }) ino buf
              (sub_size to_write in_block) (add_size number 1) 0
              (smaller block_size (sub_size to_write in_block)) (add_size from in_block))
          (λ p.
            write_loop-Leaves fuel
              (record s { fs_data = memcpy s.fs_data (p + block_offset) buf from in_block }) buf
              (sub_size to_write in_block) (add_size number 1) 0
              (smaller block_size (sub_size to_write in_block)) (add_size from in_block)) in
      if-LeavesEnd s (to_write == 0) (stop s to_write) _ (refl, refl)
        (if-LeavesEnd s (get_nth_data_block s (s.inode_table ino) number).0 (stop s to_write) _
          (refl, refl) round)

  advance-Leaves : (s : State) (h n : ℕ) → Leaves i g s (advance s h ino n)
  unfolding advance
  advance-Leaves s h n = ground arith

  finish-Leaves :
      (s : State) (h to_write : ℕ) (out : WriteEnd)
      → LeavesEnd s out
      → LeavesResult s (finish_write h ino to_write out)
  unfolding finish_write
  finish-Leaves s h to_write (stop s' left) l =
      Leaves-trans s s' (advance s' h ino (sub_size to_write left)) l
        (advance-Leaves s' h (sub_size to_write left))
  finish-Leaves s h to_write (fail s') l = l
  finish-Leaves s h to_write hang l = tt

  if-LeavesResult :
      (s : State) (b : Bool) (x y : Option (State × ℤ))
      → LeavesResult s x
      → LeavesResult s y
      → LeavesResult s (if b then x else y)
  if-LeavesResult s true x y hx hy = hx
  if-LeavesResult s false x y hx hy = hy

  after-LeavesResult :
      (s s1 : State) (out : Option (State × ℤ))
      → Leaves i g s s1
      → LeavesResult s1 out
      → LeavesResult s out
  after-LeavesResult s s1 none l h = tt
  after-LeavesResult s s1 (some (s2, r)) l h = Leaves-trans s s1 s2 l h

  alloc_necessary-Leaves :
      (s : State) (size_needed : ℕ) → Leaves i g s (alloc_necessary_blocks s ino size_needed).0
  unfolding alloc_necessary_blocks
  alloc_necessary-Leaves s size_needed =
      loop-Leaves (div_ceil size_needed block_size - (s.inode_table ino).blocks_alloc) s
        (s.inode_table ino).blocks_alloc

  write_blocks-Leaves :
      (s : State) (h : ℕ) (buf : List ℕ) (size_needed to_write : ℕ)
      → LeavesResult s (write_blocks s h ino buf size_needed to_write)
  unfolding write_blocks
  write_blocks-Leaves s h buf size_needed to_write =
      let (s1, r) = alloc_necessary_blocks s ino size_needed in
      let offset = (s.open_file_table h).of_offset in
      let number = div_ceil_rw offset block_size in
      let block_offset = sub_size offset (sub_size number 1 * block_size) in
      let in_block = smaller (sub_size block_size block_offset) to_write in
      let grown = alloc_necessary-Leaves s size_needed in
      let loop = write_loop (suc to_write) s1 ino buf to_write number block_offset in_block 0 in
      if-LeavesResult s (is_minus_one r) (some (s1, minus_one)) (finish_write h ino to_write loop)
        grown
        (after-LeavesResult s s1 (finish_write h ino to_write loop) grown (
          finish-Leaves s1 h to_write loop
            (write_loop-Leaves (suc to_write) s1 buf to_write number block_offset in_block 0)))

  seek_end-Leaves : (s : State) (h : ℕ) → Leaves i g s (seek_end s h ino)
  unfolding seek_end
  seek_end-Leaves s h = ground arith

  pub write_locked-Leaves :
      (s : State) (h : ℕ) (buf : List ℕ) (to_write : ℕ)
      → LeavesResult s (write_locked s h ino buf to_write)
  unfolding write_locked
  write_locked-Leaves s h buf to_write =
      let s1 = seek_end s h ino in
      let offset = (s1.open_file_table h).of_offset in
      let size_needed = clamp_size to_write offset in
      let count = sub_size size_needed offset in
      let moved = seek_end-Leaves s h in
      if-LeavesResult s (ltb 0 count) (write_blocks s1 h ino buf size_needed count)
        (some (s1, pos 0))
        (after-LeavesResult s s1 (write_blocks s1 h ino buf size_needed count) moved
          (write_blocks-Leaves s1 h buf size_needed count))
        moved
