-- ===== src/Parte1/Blocks/Free.antt =====
-- What the loops of `deleteInodeDataBlocks` free.
use so_file_system.Common.{
  ℕ, zero, suc, ◌+◌, ◌-◌, ◌*◌, ◌<◌, ◌≤◌, ◌≡◌, refl, sym, ap, ◌∙◌, ◌≢◌, ℤ, pos, index, sub_size,
  arith, update, lt→ltb, ℕ_discrete,
}
use so_file_system.Config.{block_size, data_blocks}
use so_file_system.Memory.{load_int}
use so_file_system.Table.{Table, free}
use so_file_system.Parte1.State.{State, Inode}
use so_file_system.Parte1.Blocks.{
  data_block_free, data_block_get, entry_at, free_blocks_loop, free_indirect_blocks, free_entries,
  delete_inode_data_blocks,
}

-- The state with the table of free blocks replaced.
abbrev pub with_blocks : State → Table → State
with_blocks s t = record s { free_blocks = t }

pub data_block_free_eq :
    (s : State) (b : ℕ)
    → b < data_blocks
    → data_block_free s (pos b) ≡ (with_blocks s (update s.free_blocks b free), pos 0)
unfolding data_block_free
data_block_free_eq s b h = ground arith

-- The blocks with numbers `number i`, …, `number (i + rounds - 1)` are free after the loop, the
-- others are as before.
pub record Frees (s : State) (number : ℕ → ℤ) (i rounds : ℕ) (out : State × ℤ) : Type 0 where
  pub table : Table
  pub ends : out ≡ (with_blocks s table, pos 0)
  pub freed : (k b : ℕ) → i ≤ k → k < i + rounds → number k ≡ pos b → table b ≡ free
  pub others :
      (b : ℕ) → ((k : ℕ) → i ≤ k → k < i + rounds → number k ≢ pos b) → table b ≡ s.free_blocks b
  pub only_frees : (b : ℕ) → s.free_blocks b ≡ free → table b ≡ free

pub update_other : (t : Table) (b c : ℕ) → c ≢ b → update t b free c ≡ t c
update_other t b c ne = ground arith

loop_step :
    (rounds : ℕ) (number : ℕ → ℤ) (i : ℕ) (s : State) (b : ℕ)
    → number i ≡ pos b
    → b < data_blocks
    → free_blocks_loop (suc rounds) number i s
      ≡ free_blocks_loop rounds number (suc i) (with_blocks s (update s.free_blocks b free))
unfolding free_blocks_loop
loop_step rounds number i s b e h = rw (e, data_block_free_eq s b h) refl

pub free_blocks_loop-Frees :
    (rounds : ℕ) (number : ℕ → ℤ) (i : ℕ) (s : State)
    → ((k : ℕ) → i ≤ k → k < i + rounds → (b : ℕ) × (number k ≡ pos b) × (b < data_blocks))
    → Frees s number i rounds (free_blocks_loop rounds number i s)
unfolding free_blocks_loop
free_blocks_loop-Frees zero number i s valid = record {
  table = s.free_blocks;
  ends = refl;
  freed = λ k b p q. absurd (omega arith);
  others = λ b _. refl;
  only_frees = λ b e. e;
}
free_blocks_loop-Frees (suc rounds) number i s valid =
    let (b, e, h) = valid i (omega arith) (omega arith) in
    let s1 = with_blocks s (update s.free_blocks b free) in
    let rest =
      free_blocks_loop-Frees rounds number (suc i) s1
        (λ k p q. valid k (omega arith) (omega arith)) in
    record {
      table = rest.table;
      ends = loop_step rounds number i s b e h ∙ rest.ends;
      freed = λ k c p q e'. elim (ℕ_discrete k i) [
        | yes same ↦
            let eq : c ≡ b = ap index (sym e' ∙ ap number same ∙ e) in
            rest.only_frees c (ground arith)
        | no ne ↦ rest.freed k c (omega arith) (omega arith) e'
      ];
      others = λ c none.
          rest.others c (λ k p q. none k (omega arith) (omega arith))
          ∙ update_other s.free_blocks b c
              (λ eq. none i (omega arith) (omega arith) (e ∙ ap pos (sym eq)));
      only_frees = λ c f. rest.only_frees c (ground arith);
    }

-- `deleteInodeDataBlocks` in the branch of a file with direct blocks only.
pub delete_direct :
    (s : State) (n : Inode)
    → n.blocks_alloc ≤ 10
    → delete_inode_data_blocks s n ≡ free_blocks_loop n.blocks_alloc n.i_data_block 0 s
unfolding delete_inode_data_blocks
delete_direct s n h = ground arith

free_entries_eq :
    (s : State) (j p : ℕ) (t : Table)
    → 10 < j
    → j ≤ 266
    → p < data_blocks
    → free_blocks_loop (j - 10) (λ i. load_int s.fs_data (entry_at (p * block_size) i)) 0 s
      ≡ (with_blocks s t, pos 0)
    → free_entries s j (pos p) (p * block_size) ≡ (with_blocks s (update t p free), pos 0)
unfolding free_entries
free_entries_eq s j p t high room h l =
    let count : sub_size j 10 ≡ j - 10 = omega arith in
    rw (count, l, data_block_free_eq (with_blocks s t) p h) refl

free_indirect_eq :
    (s : State) (n : Inode) (j p : ℕ) (out : State × ℤ)
    → n.indirect_data_block ≡ pos p
    → p < data_blocks
    → free_entries s j (pos p) (p * block_size) ≡ out
    → free_indirect_blocks s n j ≡ out
unfolding free_indirect_blocks data_block_get
free_indirect_eq s n j p out e h r =
    ap (λ z. free_indirect_blocks s (record n { indirect_data_block = z }) j) e
    ∙ rw (lt→ltb p data_blocks h, free_indirect_blocks) r

-- In the branch of a file with indirect blocks, with the tables that its two loops leave.
pub delete_indirect :
    (s : State) (n : Inode) (p : ℕ) (t u : Table)
    → 10 < n.blocks_alloc
    → n.blocks_alloc ≤ 266
    → n.indirect_data_block ≡ pos p
    → p < data_blocks
    → free_blocks_loop
        (n.blocks_alloc - 10)
        (λ i. load_int s.fs_data (entry_at (p * block_size) i))
        0
        s
      ≡ (with_blocks s t, pos 0)
    → free_blocks_loop 10 n.i_data_block 0 (with_blocks s (update t p free))
      ≡ (with_blocks s u, pos 0)
    → delete_inode_data_blocks s n ≡ (with_blocks s u, pos 0)
unfolding delete_inode_data_blocks
delete_indirect s n p t u high room e h l l' =
    let entries =
      free_indirect_eq s n n.blocks_alloc p _ e h
        (free_entries_eq s n.blocks_alloc p t high room h l) in
    rw (entries, lt→ltb 10 n.blocks_alloc high, l') refl
