-- ===== src/Parte1/Transfer/WriteLoop.antt =====
-- The loop of `tfs_write` over the blocks of a file.
use so_file_system.Common.{
  ℕ, zero, suc, ◌+◌, ◌-◌, ◌*◌, ◌^◌, ◌<◌, ◌≤◌, ◌≡◌, refl, ap, subst, ◌⊎◌, inl, inr, ◌≢◌, true, false,
  some, none, arith, dec_lt, List, sub_size, add_size,
}
use so_file_system.Config.{block_size, max_inode_blocks, max_file_size}
use so_file_system.Memory.{memcpy}
use so_file_system.Parte1.State.{State}
use so_file_system.Parte1.Blocks.{get_nth_data_block}
use so_file_system.Parte1.Ownership.{InUse, Holds, IsWf}
use so_file_system.Parte1.Ownership.GetNth.{get_nth-Holds, get_nth_missing}
use so_file_system.Parte1.Ownership.Writes.{Writes, Writes-nothing, Writes-append, copied-Writes}
use so_file_system.Parte1.Transfer.{WriteEnd, stop, write_loop, smaller}

-- The loop has stopped with `left` of `count` bytes to write, the others are written inside the blocks
-- of the file, and some are left only where it has no more blocks.
pub record Stops (s : State) (ino start count : ℕ) (buf : List ℕ) (from : ℕ) (out : WriteEnd)
    : Type 0 where
  pub after : State
  pub left : ℕ
  pub ends : out ≡ stop after left
  pub within : left ≤ count
  pub writes : Writes s after ino start (count - left) buf from
  pub short : (left ≡ 0) ⊎ ((s.inode_table ino).blocks_alloc * block_size ≤ start + (count - left))
  pub covered :
      (start + (count - left) ≤ (s.inode_table ino).blocks_alloc * block_size) ⊎ (count - left ≡ 0)

-- One round: `n` bytes go to the block `b` at offset `at`.
round :
    (fuel : ℕ) (s : State) (ino : ℕ) (buf : List ℕ) (count k b at n from : ℕ)
    → count ≢ 0
    → n ≤ count
    → from + count < 2 ^ 32
    → k < max_inode_blocks
    → get_nth_data_block s (s.inode_table ino) (suc k) ≡ (false, some (b * block_size))
    → write_loop (suc fuel) s ino buf count (suc k) at n from
      ≡ write_loop fuel
          (record s { fs_data = memcpy s.fs_data (b * block_size + at) buf from n })
          ino
          buf
          (count - n)
          (suc (suc k))
          0
          (smaller block_size (count - n))
          (from + n)
unfolding write_loop
round fuel s ino buf count k b at n from ne le small room e =
    let left : sub_size count n ≡ count - n = omega arith in
    let next : add_size (suc k) 1 ≡ suc (suc k) = omega arith in
    let moved : add_size from n ≡ from + n = omega arith in rw (e, left, next, moved) (ground arith)

finished :
    (fuel : ℕ) (s : State) (ino : ℕ) (buf : List ℕ) (number at n from : ℕ)
    → write_loop (suc fuel) s ino buf 0 number at n from ≡ stop s 0
unfolding write_loop
finished fuel s ino buf number at n from = refl

broken :
    (fuel : ℕ) (s : State) (ino : ℕ) (buf : List ℕ) (count number at n from : ℕ)
    → get_nth_data_block s (s.inode_table ino) number ≡ (true, none)
    → write_loop (suc fuel) s ino buf count number at n from ≡ stop s count
unfolding write_loop
broken fuel s ino buf count number at n from e = rw e (ground arith)

-- The size of a round: it fits in the block and the count, and fills one of them.
pub chunk :
    (at count : ℕ)
    → at < block_size
    → let n = smaller (block_size - at) count in
      (n ≤ count) × (at + n ≤ block_size) × ((at + n ≡ block_size) ⊎ (count ≡ n))
chunk at count h = (ground arith, ground arith, ground arith)

-- A round makes progress.
pub chunk_down :
    (at count fuel : ℕ)
    → at < block_size
    → 0 < count
    → count < suc fuel
    → count - smaller (block_size - at) count < fuel
chunk_down at count fuel h some_left lt = ground arith

Writes-at :
    (s t : State) (ino a b m : ℕ) (buf : List ℕ) (from : ℕ)
    → (a ≡ b) ⊎ (m ≡ 0)
    → Writes s t ino a m buf from
    → Writes s t ino b m buf from
Writes-at s t ino a b m buf from (inl e) w = subst (λ q. Writes s t ino q m buf from) e w
Writes-at s t ino a b m buf from (inr e) w = record {
  wf = w.wf;
  same_inodes = w.same_inodes;
  same_use = w.same_use;
  same_blocks = w.same_blocks;
  same_files = w.same_files;
  same_handles = w.same_handles;
  inside = λ j h. absurd (omega arith);
  outside = λ i q live h _. w.outside i q live h (inr (omega arith));
}

-- A round before the rest of the loop.
extend-Stops :
    (s s1 : State) (ino k at n count : ℕ) (buf : List ℕ) (from : ℕ) (out : WriteEnd)
    → InUse s ino
    → k < (s.inode_table ino).blocks_alloc
    → (n ≤ count) × (at + n ≤ block_size) × ((at + n ≡ block_size) ⊎ (count ≡ n))
    → Writes s s1 ino (k * block_size + at) n buf from
    → Stops s1 ino (suc k * block_size + 0) (count - n) buf (from + n) out
    → Stops s ino (k * block_size + at) count buf from out
extend-Stops s s1 ino k at n count buf from out live has sizes w rest = record {
  after = rest.after;
  left = rest.left;
  ends = rest.ends;
  within = omega (arith, rest.within);
  writes =
      subst (λ m. Writes s rest.after ino (k * block_size + at) m buf from) total
        (Writes-append s s1 rest.after ino (k * block_size + at) n (count - n - rest.left) buf from
          live (omega arith) w
          (Writes-at s1 rest.after ino (suc k * block_size + 0) (k * block_size + at + n)
            (count - n - rest.left) buf (from + n) (omega arith) rest.writes));
  short = omega (arith, rest.short, rest.within, same_size);
  covered = omega (arith, rest.covered, rest.within, same_size);
}
  where
    total : n + (count - n - rest.left) ≡ count - rest.left
    total = omega (arith, rest.within)

    same_size : (s1.inode_table ino).blocks_alloc ≡ (s.inode_table ino).blocks_alloc
    same_size = ap (λ f. (f ino).blocks_alloc) w.same_inodes

-- In a well-formed file system the loop of tfs_write, with fuel above its count, inside the
-- largest file and with buffer positions below 2^32, stops. The bytes that it does not count as
-- left are in the file from the given position on, within the file's blocks, other bytes are as
-- before, and some are left only where the file has no more blocks.
pub write_loop-Stops :
    (fuel : ℕ) (s : State) (ino : ℕ) (buf : List ℕ) (count k at from : ℕ)
    → IsWf s
    → InUse s ino
    → count < fuel
    → at < block_size
    → k * block_size + at + count ≤ max_file_size
    → from + count < 2 ^ 32
    → Stops s ino
        (k * block_size + at)
        count
        buf
        from
        (write_loop fuel s ino buf count (suc k) at (smaller (block_size - at) count) from)
write_loop-Stops zero s ino buf count k at from wf live lt inb fits small = absurd (omega arith)
write_loop-Stops (suc fuel) s ino buf zero k at from wf live lt inb fits small = record {
  after = s;
  left = 0;
  ends = finished fuel s ino buf (suc k) at _ from;
  within = omega arith;
  writes = Writes-nothing s ino _ buf from wf;
  short = inl refl;
  covered = inr (omega arith);
}
write_loop-Stops (suc fuel) s ino buf (suc count) k at from wf live lt inb fits small =
    elim (dec_lt k (s.inode_table ino).blocks_alloc) [
      | yes has ↦
          let (b, e) = wf.filled ino k live (inl has) in
          let held : Holds s ino k b = (live, inl has, e) in
          let n = smaller (block_size - at) (suc count) in
          let sizes = chunk at (suc count) inb in
          let w =
            copied-Writes s ino k b at n buf from wf held (omega (arith, wf.bounded ino live))
              sizes.1 in
          let s1 = record s { fs_data = memcpy s.fs_data (b * block_size + at) buf from n } in
          let get = get_nth-Holds s ino k b wf held has in
          rw
            (round fuel s ino buf (suc count) k b at n from (λ e. cc) sizes.0 small (omega arith)
              get)
            (extend-Stops s s1 ino k at n (suc count) buf from _ live has sizes w (
              write_loop-Stops fuel s1 ino buf (suc count - n) (suc k) 0 (from + n) w.wf live
                (chunk_down at (suc count) fuel inb (omega arith) lt) (omega arith)
                (omega (arith, sizes)) (omega (arith, sizes))))
      | no lacks ↦ record {
        after = s;
        left = suc count;
        ends =
            broken fuel s ino buf (suc count) (suc k) at _ from
              (get_nth_missing s (s.inode_table ino) k (omega arith) (omega arith));
        within = omega arith;
        writes =
            subst (λ m. Writes s s ino (k * block_size + at) m buf from) zero_left
              (Writes-nothing s ino (k * block_size + at) buf from wf);
        short = inr (omega arith);
        covered = inr (omega arith);
      }
    ]
  where
    zero_left : 0 ≡ suc count - suc count
    zero_left = omega arith
