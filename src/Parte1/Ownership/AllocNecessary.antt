-- ===== src/Parte1/Ownership/AllocNecessary.antt =====
-- `allocNecessaryBlocks` in a well-formed file system.
use so_file_system.Common.{
  ℕ, zero, suc, ◌+◌, ◌-◌, ◌*◌, ◌≤◌, ◌≡◌, refl, subst, ◌<◌, ◌⊎◌, inl, inr, ℤ, pos, arith,
}
use so_file_system.Config.{block_size, max_inode_blocks, max_file_size}
use so_file_system.Parte1.State.{State}
use so_file_system.Parte1.Blocks.{
  alloc_nth_data_block, alloc_blocks_loop, alloc_necessary_blocks, div_ceil,
}
use so_file_system.Parte1.Ownership.{InUse, IsWf}
use so_file_system.Parte1.Ownership.Keeps.{Keeps, Keeps-refl, Keeps-trans, live_after}
use so_file_system.Parte1.Ownership.AllocNth.{Allocates, AlmostFull, alloc_nth-Allocates}

-- The file `ino` has `n` blocks, or the more that it had, or fewer only if at most one block is
-- free.
pub record Allocated (s : State) (ino n : ℕ) (out : State × ℤ) : Type 0 where
  pub wf : IsWf out.0
  pub keeps : Keeps s out.0
  pub succeeds : out.1 ≡ pos 0
  pub most :
      ((out.0.inode_table ino).blocks_alloc ≤ n)
      ⊎ ((out.0.inode_table ino).blocks_alloc ≡ (s.inode_table ino).blocks_alloc)
  pub enough : (n ≤ (out.0.inode_table ino).blocks_alloc) ⊎ AlmostFull out.0

loop_step :
    (rounds : ℕ) (s : State) (ino occ : ℕ)
    → (alloc_nth_data_block s ino (occ + 1)).1 ≡ pos 0
    → alloc_blocks_loop (suc rounds) s ino occ
      ≡ alloc_blocks_loop rounds (alloc_nth_data_block s ino (occ + 1)).0 ino (occ + 1)
unfolding alloc_blocks_loop
loop_step rounds s ino occ e = ground arith

loop_break :
    (rounds : ℕ) (s : State) (ino occ : ℕ)
    → (alloc_nth_data_block s ino (occ + 1)).1 ≡ pos 1
    → alloc_blocks_loop (suc rounds) s ino occ ≡ ((alloc_nth_data_block s ino (occ + 1)).0, pos 0)
unfolding alloc_blocks_loop
loop_break rounds s ino occ e = ground arith

loop-Allocated :
    (rounds : ℕ) (s : State) (ino occ : ℕ)
    → IsWf s
    → InUse s ino
    → (s.inode_table ino).blocks_alloc ≡ occ
    → occ + rounds ≤ max_inode_blocks
    → Allocated s ino (occ + rounds) (alloc_blocks_loop rounds s ino occ)
unfolding alloc_blocks_loop
loop-Allocated zero s ino occ wf live e le = record {
  wf = wf;
  keeps = Keeps-refl s;
  succeeds = refl;
  most = inr refl;
  enough = inl (omega arith);
}
loop-Allocated (suc rounds) s ino occ wf live e le =
    let once : Allocates s ino (alloc_nth_data_block s ino (occ + 1)) =
      subst (λ n. Allocates s ino (alloc_nth_data_block s ino (n + 1))) e
        (alloc_nth-Allocates s ino wf live (omega arith)) in
    let s1 = (alloc_nth_data_block s ino (occ + 1)).0 in
    elim once.counted [
      | inl (r, n) ↦
          let rest =
            loop-Allocated rounds s1 ino (occ + 1) once.wf (live_after s s1 once.keeps ino live)
              (omega arith) (omega arith) in
          rw (loop_step rounds s ino occ r) (record {
            wf = rest.wf;
            keeps = Keeps-trans s s1 _ once.keeps rest.keeps;
            succeeds = rest.succeeds;
            most = elim rest.most [ inl le ↦ inl (omega arith) | inr same ↦ inl (omega arith) ];
            enough = elim rest.enough [ inl le ↦ inl (omega arith) | inr full ↦ inr full ];
          })
      | inr (r, n, full) ↦ rw (loop_break rounds s ino occ r) (record {
        wf = once.wf;
        keeps = once.keeps;
        succeeds = refl;
        most = inr n;
        enough = inr full;
      })
    ]

div_ceil-le : (n : ℕ) → n ≤ max_file_size → div_ceil n block_size ≤ max_inode_blocks
unfolding div_ceil
div_ceil-le n h = ground arith

pub le-div_ceil : (n : ℕ) → n ≤ div_ceil n block_size * block_size
unfolding div_ceil
le-div_ceil n = ground arith

pub alloc_necessary-Allocated :
    (s : State) (ino size_needed : ℕ)
    → IsWf s
    → InUse s ino
    → size_needed ≤ max_file_size
    → Allocated s ino (div_ceil size_needed block_size) (alloc_necessary_blocks s ino size_needed)
unfolding alloc_necessary_blocks
alloc_necessary-Allocated s ino size_needed wf live h =
    let occ = (s.inode_table ino).blocks_alloc in
    let needed = div_ceil size_needed block_size in
    let few_or_many : (needed ≤ occ) ⊎ (occ < needed) = omega arith in
    let all =
      loop-Allocated (needed - occ) s ino occ wf live refl
        (omega (arith, wf.bounded ino live, div_ceil-le size_needed h)) in
    record {
      wf = all.wf;
      keeps = all.keeps;
      succeeds = all.succeeds;
      most = elim all.most [
        | inl le ↦ elim few_or_many [
          | inl few ↦ inr (omega (arith, all.keeps.longer ino))
          | inr many ↦ inl (omega arith)
        ]
        | inr same ↦ inr same
      ];
      enough = elim all.enough [
        | inl le ↦ inl (omega (arith, wf.bounded ino live))
        | inr full ↦ inr full
      ];
    }

div_ceil-tight : (n : ℕ) → div_ceil n block_size * block_size < n + block_size
unfolding div_ceil
div_ceil-tight n = ground arith

-- What a file of `size` bytes needs, by its bytes: its blocks hold them unless at most one block
-- is free, and a file that has got a block needed it.
pub record Sized (s : State) (ino size : ℕ) (out : State × ℤ) : Type 0 where
  pub wf : IsWf out.0
  pub keeps : Keeps s out.0
  pub succeeds : out.1 ≡ pos 0
  pub covers : (size ≤ (out.0.inode_table ino).blocks_alloc * block_size) ⊎ AlmostFull out.0
  pub needed :
      ((out.0.inode_table ino).blocks_alloc ≡ (s.inode_table ino).blocks_alloc)
      ⊎ ((out.0.inode_table ino).blocks_alloc * block_size < size + block_size)

-- In a well-formed file system allocNecessaryBlocks for at most the largest size returns 0, keeps
-- the file system well-formed and every byte, size and handle of every file, and leaves the file
-- with blocks that hold the size, unless at most one block is free; a file whose number of blocks
-- has changed has less than one block more than the size fills.
pub alloc_necessary-Sized :
    (s : State) (ino size_needed : ℕ)
    → IsWf s
    → InUse s ino
    → size_needed ≤ max_file_size
    → Sized s ino size_needed (alloc_necessary_blocks s ino size_needed)
alloc_necessary-Sized s ino size_needed wf live h =
    let all = alloc_necessary-Allocated s ino size_needed wf live h in
    record {
      wf = all.wf;
      keeps = all.keeps;
      succeeds = all.succeeds;
      covers = elim all.enough [
        | inl le ↦ inl (omega (arith, le, le-div_ceil size_needed))
        | inr full ↦ inr full
      ];
      needed = elim all.most [
        | inl le ↦ inr (omega (arith, le, div_ceil-tight size_needed))
        | inr same ↦ inl same
      ];
    }
