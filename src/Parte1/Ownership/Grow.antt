-- ===== src/Parte1/Ownership/Grow.antt =====
-- Well-formedness when one i-node is given more blocks.
use so_file_system.Common.{
  ℕ, ◌≤◌, ◌≡◌, refl, sym, ap, subst, ◌∙◌, ◌⊎◌, inl, inr, ◌≢◌, pos, ℕ_discrete,
}
use so_file_system.Config.{data_blocks, max_inode_blocks}
use so_file_system.Exclusive.{Owning, IsExclusive, shrink-IsExclusive}
use so_file_system.Parte1.State.{State}
use so_file_system.Parte1.Ownership.{number_of, Used, InUse, Holds, IsWf}
use so_file_system.Parte1.Ownership.Places.{pos-injective}

-- From `s` to `s'` only the i-node `ino` has changed; the places that were in use have the numbers
-- they had, and `R` owns what the new places of `ino` hold.
pub record Grows (s s' : State) (ino : ℕ) (R : Owning) : Type 0 where
  pub same_use : s'.freeinode_ts ≡ s.freeinode_ts
  pub others : (i : ℕ) → i ≢ ino → s'.inode_table i ≡ s.inode_table i
  pub bound : (s'.inode_table ino).blocks_alloc ≤ max_inode_blocks
  pub kept :
      (i k : ℕ)
      → InUse s i
      → Used (s.inode_table i) k
      → number_of s'.fs_data (s'.inode_table i) k ≡ number_of s.fs_data (s.inode_table i) k
  pub old : (i k b : ℕ) → Holds s i k b → R i k b
  pub new :
      (k : ℕ)
      → Used (s'.inode_table ino) k
      → Used (s.inode_table ino) k
        ⊎ ((b : ℕ) × (number_of s'.fs_data (s'.inode_table ino) k ≡ pos b) × R ino k b)

module _ (s s' : State) (ino : ℕ) (R : Owning) (wf : IsWf s) (g : Grows s s' ino R)
    (x : IsExclusive data_blocks R s'.free_blocks) where
  was_live : (i : ℕ) → InUse s' i → InUse s i
  was_live i live = (live.0, sym (ap (λ f. f i) g.same_use) ∙ live.1)

  -- What a place in use held before, or what a new one holds.
  origin :
      (i k : ℕ)
      → InUse s' i
      → Used (s'.inode_table i) k
      → Used (s.inode_table i) k
        ⊎ ((b : ℕ) × (number_of s'.fs_data (s'.inode_table i) k ≡ pos b) × R i k b)
  origin i k live u = elim (ℕ_discrete i ino) [
    | yes e ↦ go i e u
    | no ne ↦ inl (subst (λ n. Used n k) (g.others i ne) u)
  ]
    where
      go :
          (i : ℕ)
          → i ≡ ino
          → Used (s'.inode_table i) k
          → Used (s.inode_table i) k
            ⊎ ((b : ℕ) × (number_of s'.fs_data (s'.inode_table i) k ≡ pos b) × R i k b)
      go i e =
          subst
            (λ j.
              Used (s'.inode_table j) k
              → Used (s.inode_table j) k
                ⊎ ((b : ℕ) × (number_of s'.fs_data (s'.inode_table j) k ≡ pos b) × R j k b))
            (sym e) (g.new k)

  holds_owned : (i k b : ℕ) → Holds s' i k b → R i k b
  holds_owned i k b (live, u, e) = elim (origin i k live u) [
    | inl v ↦ g.old i k b (was_live i live, v, sym (g.kept i k (was_live i live) v) ∙ e)
    | inr (c, e', r) ↦ subst (λ d. R i k d) (pos-injective c b (sym e' ∙ e)) r
  ]

  filled_after :
      (i k : ℕ)
      → InUse s' i
      → Used (s'.inode_table i) k
      → (b : ℕ) × (number_of s'.fs_data (s'.inode_table i) k ≡ pos b)
  filled_after i k live u = elim (origin i k live u) [
    | inl v ↦
        let (b, e) = wf.filled i k (was_live i live) v in (b, g.kept i k (was_live i live) v ∙ e)
    | inr (c, e', r) ↦ (c, e')
  ]

  bounded_after : (i : ℕ) → InUse s' i → (s'.inode_table i).blocks_alloc ≤ max_inode_blocks
  bounded_after i live = elim (ℕ_discrete i ino) [
    | yes e ↦ subst (λ j. (s'.inode_table j).blocks_alloc ≤ max_inode_blocks) (sym e) g.bound
    | no ne ↦ rw (g.others i ne) (wf.bounded i (was_live i live))
  ]

  pub grow-IsWf : IsWf s'
  grow-IsWf = record {
    exclusive =
        shrink-IsExclusive data_blocks R (Holds s') s'.free_blocks s'.free_blocks x holds_owned
          (λ i k b h. refl);
    bounded = bounded_after;
    filled = filled_after;
  }
