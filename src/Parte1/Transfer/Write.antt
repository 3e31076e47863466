-- ===== src/Parte1/Transfer/Write.antt =====
-- `tfs_write` in a well-formed file system.
use so_file_system.Common.{
  ℕ, suc, ◌+◌, ◌-◌, ◌*◌, ◌/◌, ◌%◌, ◌^◌, ◌<◌, ◌≤◌, ◌≡◌, refl, sym, ap, ap₂, subst, ◌∙◌, ◌⊎◌, inl,
  inr, ◌≢◌, ℤ, pos, Option, some, arith, sub_size, List, get_or,
}
use so_file_system.Config.{block_size, max_file_size}
use so_file_system.Parte1.State.{State}
use so_file_system.Parte1.Blocks.{alloc_necessary_blocks, div_ceil, div_ceil_rw}
use so_file_system.Parte1.Operations.{to_ssize}
use so_file_system.Parte1.Ownership.{InUse, IsWf, byte_at}
use so_file_system.Parte1.Ownership.Keeps.{live_after}
use so_file_system.Parte1.Ownership.AllocNth.{AlmostFull}
use so_file_system.Parte1.Ownership.AllocNecessary.{
  Allocated, alloc_necessary-Allocated, le-div_ceil,
}
use so_file_system.Parte1.Transfer.WriteLoop.{Stops, write_loop-Stops}
use so_file_system.Parte1.Transfer.Advance.{
  larger, blocks-advance, use-advance, free-advance, handles-advance, offset-advance,
  entries-advance, size-advance, inodes-advance, byte_at-advance, advance-IsWf,
}
use so_file_system.Parte1.Transfer.{finish_write, stop, write_loop, smaller, advance, write_blocks}

-- A write of `count` bytes of `buf` at offset `start` of the file `ino` through the handle `h` has
-- returned: the first `written` of them are in the file, all of them unless at most one block is
-- left, the offset and the size have moved with them, and every other byte that a file had is there.
pub record Wrote (s : State) (h ino start count : ℕ) (buf : List ℕ) (out : Option (State × ℤ))
    : Type 0 where
  pub after : State
  pub written : ℕ
  pub returns : out ≡ some (after, pos written)
  pub within : written ≤ count
  pub complete : (written ≡ count) ⊎ AlmostFull after
  pub wf : IsWf after
  pub inside : (j : ℕ) → j < written → byte_at after ino (start + j) ≡ get_or buf j 0
  pub outside :
      (i q : ℕ)
      → InUse s i
      → q < (s.inode_table i).blocks_alloc * block_size
      → (i ≢ ino) ⊎ ((q < start) ⊎ (start + written ≤ q))
      → byte_at after i q ≡ byte_at s i q
  pub offset : (after.open_file_table h).of_offset ≡ start + written
  pub size : (after.inode_table ino).i_size ≡ larger (s.inode_table ino).i_size (start + written)
  pub other_sizes : (i : ℕ) → i ≢ ino → (after.inode_table i).i_size ≡ (s.inode_table i).i_size
  pub other_entries : (g : ℕ) → g ≢ h → after.open_file_table g ≡ s.open_file_table g
  pub same_use : after.freeinode_ts ≡ s.freeinode_ts
  pub same_handles : after.free_open_file_entries ≡ s.free_open_file_entries
  pub longer : (i : ℕ) → (s.inode_table i).blocks_alloc ≤ (after.inode_table i).blocks_alloc
  pub room : start + written ≤ (after.inode_table ino).blocks_alloc * block_size ⊎ (written ≡ 0)

-- The call goes on to the loop, which stops as given.
write_blocks_eq :
    (s s1 s2 : State) (h ino : ℕ) (buf : List ℕ) (start count left : ℕ)
    → (s.open_file_table h).of_offset ≡ start
    → start + count ≤ max_file_size
    → left ≤ count
    → alloc_necessary_blocks s ino (start + count) ≡ (s1, pos 0)
    → write_loop
        (suc count)
        s1
        ino
        buf
        count
        (suc (start / block_size))
        (start % block_size)
        (smaller (block_size - start % block_size) count)
        0
      ≡ stop s2 left
    → write_blocks s h ino buf (start + count) count
      ≡ some (advance s2 h ino (count - left), pos (count - left))
unfolding write_blocks div_ceil_rw finish_write
write_blocks_eq s s1 s2 h ino buf start count left e fits le a l =
    let number : start / block_size + 1 ≡ suc (start / block_size) = omega arith in
    let at : sub_size start (sub_size (suc (start / block_size)) 1 * block_size)
        ≡ start % block_size =
      omega arith in
    let space : sub_size block_size (start % block_size) ≡ block_size - start % block_size =
      omega arith in
    let ssize : to_ssize (count - left) ≡ pos (count - left) = ground arith in
    let n : sub_size count left ≡ count - left = omega arith in
    rw (a, e, number, at, space, l, n, ssize) refl

module _ (s : State) (h ino : ℕ) (buf : List ℕ) (start count : ℕ) (wf : IsWf s) (live : InUse s ino)
    (at_start : (s.open_file_table h).of_offset ≡ start)
    (fits : start + count ≤ max_file_size) where
  allocated :
      Allocated s ino
        (div_ceil (start + count) block_size)
        (alloc_necessary_blocks s ino (start + count))
  allocated = alloc_necessary-Allocated s ino (start + count) wf live fits

  s1 : State
  s1 = (alloc_necessary_blocks s ino (start + count)).0

  position : start / block_size * block_size + start % block_size ≡ start
  position = omega arith

  stopped : Stops s1 ino start count buf 0 (
      write_loop
        (suc count)
        s1
        ino
        buf
        count
        (suc (start / block_size))
        (start % block_size)
        (smaller (block_size - start % block_size) count)
        0)
  unfolding s1
  stopped =
      subst
        (λ q. Stops s1 ino q count buf 0 (
          write_loop (suc count) s1 ino buf count (suc (start / block_size)) (start % block_size)
            (smaller (block_size - start % block_size) count) 0))
        position
        (write_loop-Stops (suc count) s1 ino buf count (start / block_size) (start % block_size) 0
          allocated.wf (live_after s s1 allocated.keeps ino live) (omega arith) (omega arith)
          (omega arith) (omega arith))

  s2 : State
  s2 = stopped.after

  written : ℕ
  written = count - stopped.left

  same_files : s2.open_file_table ≡ s.open_file_table
  unfolding s1 s2
  same_files = stopped.writes.same_files ∙ allocated.keeps.same_files

  same_blocks : (i : ℕ) → (s2.inode_table i).blocks_alloc ≡ (s1.inode_table i).blocks_alloc
  unfolding s2
  same_blocks i = ap (λ f. (f i).blocks_alloc) stopped.writes.same_inodes

  same_size : (i : ℕ) → (s2.inode_table i).i_size ≡ (s.inode_table i).i_size
  unfolding s1 s2
  same_size i = ap (λ f. (f i).i_size) stopped.writes.same_inodes ∙ allocated.keeps.same_size i

  offset_s2 : (s2.open_file_table h).of_offset ≡ start
  offset_s2 = ap (λ f. (f h).of_offset) same_files ∙ at_start

  small : (s2.open_file_table h).of_offset + written < 2 ^ 64
  unfolding written
  small = omega (arith, offset_s2)

  complete : (written ≡ count) ⊎ AlmostFull s2
  unfolding s1 s2 written
  complete = elim allocated.enough [
    | inl enough ↦ inl (omega (arith, stopped.short, stopped.within, le-div_ceil (start + count)))
    | inr full ↦ inr (λ b c lb lc fb fc. full b c lb lc (sym (blocks b) ∙ fb) (sym (blocks c) ∙ fc))
  ]
    where
      blocks :
          (b : ℕ)
          → stopped.after.free_blocks b
            ≡ (alloc_necessary_blocks s ino (start + count)).0.free_blocks b
      blocks b = ap (λ f. f b) stopped.writes.same_blocks

  live2 : InUse s2 ino
  unfolding s1 s2
  live2 = (live.0, ap (λ f. f ino) (stopped.writes.same_use ∙ allocated.keeps.same_use) ∙ live.1)

  final : State
  final = advance s2 h ino written

  pub write_blocks-Wrote :
      Wrote s h ino start count buf (write_blocks s h ino buf (start + count) count)
  unfolding s1 s2 written final
  write_blocks-Wrote = record {
    after = final;
    written = written;
    returns =
        write_blocks_eq s s1 s2 h ino buf start count stopped.left at_start fits stopped.within
          (ap (λ r. (s1, r)) allocated.succeeds) stopped.ends;
    within = omega arith;
    complete = elim complete [
      | inl e ↦ inl e
      | inr full ↦ inr (rw (free-advance s2 h ino written) full)
    ];
    wf = advance-IsWf s2 h ino written live2 stopped.writes.wf;
    inside = λ j lt.
        byte_at-advance s2 h ino written ino (start + j)
        ∙ stopped.writes.inside j lt
        ∙ ap (λ a. get_or buf a 0) (omega arith);
    outside = λ i q live' lt off.
        byte_at-advance s2 h ino written i q
        ∙ stopped.writes.outside i q (live_after s s1 allocated.keeps i live')
            (grind (arith, allocated.keeps.longer i)) off
        ∙ allocated.keeps.same_bytes i q live' lt;
    offset = offset-advance s2 h ino written small ∙ omega (arith, offset_s2);
    size =
        size-advance s2 h ino written small ∙ ap₂ larger (same_size ino) (omega (arith, offset_s2));
    other_sizes = λ i ne. ap (λ n. n.i_size) (inodes-advance s2 h ino written i ne) ∙ same_size i;
    other_entries = λ g ne. entries-advance s2 h ino written g ne ∙ ap (λ f. f g) same_files;
    same_use = use-advance s2 h ino written ∙ stopped.writes.same_use ∙ allocated.keeps.same_use;
    same_handles =
        handles-advance s2 h ino written
        ∙ stopped.writes.same_handles
        ∙ allocated.keeps.same_handles;
    longer = λ i.
        omega (arith, blocks-advance s2 h ino written i, same_blocks i, allocated.keeps.longer i);
    room = omega (arith, blocks-advance s2 h ino written ino, same_blocks ino, stopped.covered);
  }
