-- ===== src/Parte1/Ownership/Truncate.antt =====
-- `deleteInodeDataBlocks` and the truncation of `open_existing_file` in a well-formed file system.
use so_file_system.Common.{
  ℕ, ◌+◌, ◌-◌, ◌*◌, ◌<◌, ◌≤◌, ◌≡◌, refl, sym, ap, ap₂, ◌∙◌, inl, inr, ℤ, pos, index, arith, update,
  ℕ_discrete, dec_lt,
}
use so_file_system.Config.{block_size, data_blocks, max_inode_blocks}
use so_file_system.Memory.{load_int}
use so_file_system.Table.{Table, free}
use so_file_system.Parte1.State.{State, Inode}
use so_file_system.Parte1.Blocks.{entry_at, delete_inode_data_blocks}
use so_file_system.Parte1.Blocks.Free.{
  with_blocks, free_blocks_loop-Frees, delete_direct, delete_indirect, update_other,
}
use so_file_system.Parte1.Ownership.{number_of, Used, InUse, Holds, IsWf}

-- Exactly the blocks of the file `ino` have been freed, and nothing else has changed.
pub record Deletes (s : State) (ino : ℕ) (out : State × ℤ) : Type 0 where
  pub table : Table
  pub ends : out ≡ (with_blocks s table, pos 0)
  pub freed : (k b : ℕ) → Holds s ino k b → table b ≡ free
  pub others : (b : ℕ) → ((k : ℕ) → ¬ Holds s ino k b) → table b ≡ s.free_blocks b

module _ (s : State) (ino : ℕ) (wf : IsWf s) (live : InUse s ino) where
  abbrev node : Inode
  node = s.inode_table ino

  valid : (k : ℕ) → Used node k → (b : ℕ) × (number_of s.fs_data node k ≡ pos b) × (b < data_blocks)
  valid k u =
      let (b, e) = wf.filled ino k live u in (b, e, (wf.exclusive.allocated ino k b (live, u, e)).0)

  low_number : (k : ℕ) → k < 10 → node.i_data_block k ≡ number_of s.fs_data node k
  low_number k h = ground arith

  direct_valid :
      (k : ℕ)
      → k < node.blocks_alloc
      → k < 10
      → (b : ℕ) × (node.i_data_block k ≡ pos b) × (b < data_blocks)
  direct_valid k h low = let (b, e, v) = valid k (inl h) in (b, low_number k low ∙ e, v)

  few : node.blocks_alloc ≤ 10 → Deletes s ino (delete_inode_data_blocks s node)
  few le =
      let f =
        free_blocks_loop-Frees node.blocks_alloc node.i_data_block 0 s
          (λ k _ lt. direct_valid k (omega arith) (omega arith)) in
      record {
        table = f.table;
        ends = delete_direct s node le ∙ f.ends;
        freed = λ k b h.
            f.freed k b (omega arith) (omega (arith, h.1))
              (low_number k (omega (arith, h.1)) ∙ h.2);
        others = λ b none.
            f.others b
              (λ k _ lt e. none k (live, inl (omega arith), sym (low_number k (omega arith)) ∙ e));
      }

  entry_number :
      (p i : ℕ)
      → i < 256
      → node.indirect_data_block ≡ pos p
      → load_int s.fs_data (entry_at (p * block_size) i) ≡ number_of s.fs_data node (i + 10)
  entry_number p i h e =
      let place : i + 10 - 10 ≡ i = omega arith in
      let table : number_of s.fs_data node (i + 10)
          ≡ load_int s.fs_data
              (entry_at (index node.indirect_data_block * block_size) (i + 10 - 10)) =
        ground arith in
      sym (table ∙ ap₂ (λ z l. load_int s.fs_data (entry_at (index z * block_size) l)) e place)

  many : 10 < node.blocks_alloc → Deletes s ino (delete_inode_data_blocks s node)
  many high =
      let room = wf.bounded ino live in
      let (p, e, h) = valid max_inode_blocks (inr (refl, high)) in
      let f =
        free_blocks_loop-Frees (node.blocks_alloc - 10)
          (λ i. load_int s.fs_data (entry_at (p * block_size) i)) 0 s
          (λ i _ lt.
            let (b, e', v) = valid (i + 10) (inl (omega arith)) in
            (b, entry_number p i (omega arith) e ∙ e', v)) in
      let g =
        free_blocks_loop-Frees 10 node.i_data_block 0 (with_blocks s (update f.table p free))
          (λ k _ lt. direct_valid k (omega arith) (omega arith)) in
      record {
        table = g.table;
        ends = delete_indirect s node p f.table g.table high room e h f.ends g.ends;
        freed = λ k b held. elim (dec_lt k 10) [
          | yes low ↦ g.freed k b (omega arith) (omega arith) (low_number k low ∙ held.2)
          | no ge ↦ elim (ℕ_discrete k max_inode_blocks) [
            | yes top ↦
                let same : b ≡ p = ap index (sym held.2 ∙ ap (number_of s.fs_data node) top ∙ e) in
                g.only_frees b (ground arith)
            | no ne ↦
                let back : k - 10 + 10 ≡ k = omega arith in
                let gone : f.table b ≡ free =
                  f.freed (k - 10) b (omega arith) (omega (arith, held.1)) (
                    entry_number p (k - 10) (omega (arith, held.1)) e
                    ∙ ap (number_of s.fs_data node) back
                    ∙ held.2) in
                g.only_frees b (ground arith)
          ]
        ];
        others = λ b none.
            g.others b
              (λ k _ lt e'. none k (live, inl (omega arith), sym (low_number k (omega arith)) ∙ e'))
            ∙ update_other f.table p b
                (λ same. none max_inode_blocks (live, inr (refl, high), e ∙ ap pos (sym same)))
            ∙ f.others b (λ i _ lt e'.
              none (i + 10) (live, inl (omega arith), sym (entry_number p i (omega arith) e) ∙ e'));
      }

  -- In a well-formed file system deleteInodeDataBlocks of a file in use returns 0, frees every
  -- block that the file holds, its indirection block included, and changes no other block's state
  -- and nothing else.
  pub delete-Deletes : Deletes s ino (delete_inode_data_blocks s node)
  delete-Deletes = elim (dec_lt 10 node.blocks_alloc) [
    | yes high ↦ many high
    | no low ↦ few (omega arith)
  ]
