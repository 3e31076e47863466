-- ===== src/Parte1/Blocks/Alloc.antt =====
-- What `data_block_alloc` and `allocNthDataBlock` do, branch by branch.
use so_file_system.Common.{
  ℕ, suc, ◌+◌, ◌-◌, ◌*◌, ◌<◌, ◌≡◌, ap, ◌∙◌, ◌⊎◌, inl, inr, ℤ, pos, minus_one, index, Option-cases,
  arith, update, fun_ext, lt→ltb, sym,
}
use so_file_system.Config.{block_size, data_blocks}
use so_file_system.Memory.{store_int}
use so_file_system.Table.{Table, free, taken, first_free}
use so_file_system.Table.Laws.{Found, first_free-Found, first_free-all_taken}
use so_file_system.Parte1.State.{State, put_inode}
use so_file_system.Parte1.Blocks.{
  data_block_alloc, data_block_free, data_block_get, entry_at, put_indirect, open_indirection,
  alloc_nth_data_block,
}

-- The state in which block `b` is taken.
abbrev pub take_block : State → ℕ → State
take_block s b = record s { free_blocks = update s.free_blocks b taken }

abbrev pub AllTaken : State → Type 0
AllTaken s = (b : ℕ) → b < data_blocks → s.free_blocks b ≡ taken

-- data_block_alloc takes the lowest free block and changes nothing else, and it fails, changing
-- nothing, only where every block is taken.
pub data_block_alloc_cases :
    (s : State)
    → ((data_block_alloc s ≡ (s, minus_one)) × AllTaken s)
      ⊎ ((b : ℕ) × (data_block_alloc s ≡ (take_block s b, pos b))
          × Found s.free_blocks data_blocks b)
unfolding data_block_alloc
data_block_alloc_cases s = elim (Option-cases (first_free data_blocks 0 s.free_blocks)) [
  | inl e ↦
      inl (rw (e, data_block_alloc), λ b h. first_free-all_taken data_blocks s.free_blocks b e h)
  | inr (b, e) ↦ inr (b, rw (e, data_block_alloc), first_free-Found data_blocks s.free_blocks b e)
]

retake : (t : Table) (b : ℕ) → t b ≡ free → update (update t b taken) b free ≡ t
retake t b h = fun_ext λ i. ground arith

free_taken :
    (s : State) (b : ℕ)
    → Found s.free_blocks data_blocks b
    → data_block_free (take_block s b) (pos b) ≡ (s, pos 0)
unfolding data_block_free
free_taken s b f =
    rw (lt→ltb b 1024 f.within)
      (ap (λ t. (record s { free_blocks = t }, pos 0)) (retake s.free_blocks b f.was_free))

-- Freeing the block that data_block_alloc has just returned succeeds and restores the state
-- before the allocation.
pub free-alloc :
    (s s' : State) (b : ℕ)
    → data_block_alloc s ≡ (s', pos b)
    → data_block_free s' (pos b) ≡ (s, pos 0)
free-alloc s s' b h = elim (data_block_alloc_cases s) [
  | inl (e, full) ↦ cc
  | inr (c, e, found) ↦
      let both : ◌≡◌ {A = State × ℤ} (s', pos b) (take_block s c, pos c) = sym h ∙ e in
      let same : b ≡ c = ap (λ r. index r.1) both in
      rw (ap (λ r. r.0) both, same) (free_taken s c found)
]

-- The states that `allocNthDataBlock` leaves where it gives an i-node block `b` for place `k`.
abbrev pub fill_direct : State → ℕ → ℕ → ℕ → State
fill_direct s ino k b = put_inode s ino (record (s.inode_table ino) {
  i_data_block = update (s.inode_table ino).i_data_block k (pos b);
  blocks_alloc = suc k;
})

abbrev pub fill_indirect : State → ℕ → ℕ → ℕ → ℕ → State
fill_indirect s ino p k b =
    put_inode
      (record s { fs_data = store_int s.fs_data (entry_at (p * block_size) (k - 10)) (pos b) }) ino
      (record (s.inode_table ino) { blocks_alloc = suc k })

abbrev pub set_indirection : State → ℕ → ℕ → State
set_indirection s ino b =
    put_inode s ino (record (s.inode_table ino) { indirect_data_block = pos b })

module _ (s : State) (ino k : ℕ) (at_end : (s.inode_table ino).blocks_alloc ≡ k)
    (le : k < 266) where
  pub alloc_nth_none :
      data_block_alloc s ≡ (s, minus_one) → alloc_nth_data_block s ino (k + 1) ≡ (s, pos 1)
  unfolding alloc_nth_data_block
  alloc_nth_none e = rw e (ground arith)

  pub alloc_nth_direct :
      (b : ℕ)
      → k < 10
      → data_block_alloc s ≡ (take_block s b, pos b)
      → alloc_nth_data_block s ino (k + 1) ≡ (fill_direct (take_block s b) ino k b, pos 0)
  unfolding alloc_nth_data_block
  alloc_nth_direct b lt e = rw e (ground arith)

  pub alloc_nth_indirect :
      (b p : ℕ)
      → 10 < k
      → p < data_blocks
      → (s.inode_table ino).indirect_data_block ≡ pos p
      → data_block_alloc s ≡ (take_block s b, pos b)
      → alloc_nth_data_block s ino (k + 1) ≡ (fill_indirect (take_block s b) ino p k b, pos 0)
  unfolding alloc_nth_data_block put_indirect data_block_get
  alloc_nth_indirect b p lt q i e = rw e (ground arith)

  pub alloc_nth_open :
      (b c : ℕ)
      → k ≡ 10
      → b < data_blocks
      → data_block_alloc s ≡ (take_block s b, pos b)
      → let s1 = set_indirection (take_block s b) ino b in
        data_block_alloc s1 ≡ (take_block s1 c, pos c)
        → alloc_nth_data_block s ino (k + 1) ≡ (fill_indirect (take_block s1 c) ino b k c, pos 0)
  unfolding alloc_nth_data_block open_indirection put_indirect data_block_get
  alloc_nth_open b c ten q e e' = rw e (ground arith)

  pub alloc_nth_open_full :
      (b : ℕ)
      → k ≡ 10
      → s.free_blocks b ≡ free
      → b < data_blocks
      → data_block_alloc s ≡ (take_block s b, pos b)
      → let s1 = set_indirection (take_block s b) ino b in
        data_block_alloc s1 ≡ (s1, minus_one)
        → alloc_nth_data_block s ino (k + 1) ≡ (set_indirection s ino b, pos 1)
  unfolding alloc_nth_data_block open_indirection data_block_free
  alloc_nth_open_full b ten f q e e' = rw e (ground (arith, retake s.free_blocks b))
