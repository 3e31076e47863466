-- ===== src/Parte1/Ownership/Create.antt =====
-- A new empty file, and a write into a data block, keep the file system well formed.
use so_file_system.Common.{
  ℕ, ◌<◌, ◌≤◌, ◌≡◌, refl, sym, ap, subst, ◌∙◌, inl, ◌≢◌, arith, update, ℕ_discrete,
}
use so_file_system.Config.{data_blocks, max_inode_blocks}
use so_file_system.Memory.{Bytes}
use so_file_system.Table.{taken}
use so_file_system.Exclusive.{shrink-IsExclusive}
use so_file_system.Parte1.State.{State, file, put_inode}
use so_file_system.Parte1.Ownership.{number_of, Used, InUse, Holds, IsWf}
use so_file_system.Parte1.Ownership.Places.{AgreesOff, number-AgreesOff}
use so_file_system.Parte1.Ownership.Grow.{grow-IsWf}

-- What `inode_create` leaves for a new file.
abbrev pub with_file : State → ℕ → State
with_file s i =
    put_inode (record s { freeinode_ts = update s.freeinode_ts i taken }) i
      (record (s.inode_table i) { i_node_type = file; i_size = 0; blocks_alloc = 0 })

module _ (s : State) (i : ℕ) (wf : IsWf s) where
  not_new : (l k : ℕ) → Used ((with_file s i).inode_table l) k → l ≢ i
  not_new l k u e = ground arith

  other_inode : (l : ℕ) → l ≢ i → (with_file s i).inode_table l ≡ s.inode_table l
  other_inode l ne = ground arith

  was_live : (l : ℕ) → l ≢ i → InUse (with_file s i) l → InUse s l
  was_live l ne live = (live.0, ground arith)

  before : (l k b : ℕ) → Holds (with_file s i) l k b → Holds s l k b
  before l k b (live, u, e) =
      let ne = not_new l k u in
      (
        was_live l ne live,
        subst (λ n. Used n k) (other_inode l ne) u,
        sym (ap (λ n. number_of s.fs_data n k) (other_inode l ne)) ∙ e,
      )

  pub with_file-IsWf : IsWf (with_file s i)
  with_file-IsWf = record {
    exclusive =
        shrink-IsExclusive data_blocks (Holds s) (Holds (with_file s i)) s.free_blocks s.free_blocks
          wf.exclusive before (λ _ _ _ _. refl);
    bounded = λ l live. elim (ℕ_discrete l i) [
      | yes e ↦ ground arith
      | no ne ↦
          subst (λ n. n.blocks_alloc ≤ max_inode_blocks) (sym (other_inode l ne))
            (wf.bounded l (was_live l ne live))
    ];
    filled = λ l k live u.
        let ne = not_new l k u in
        let (b, e) =
          wf.filled l k (was_live l ne live) (subst (λ n. Used n k) (other_inode l ne) u) in
        (b, ap (λ n. number_of s.fs_data n k) (other_inode l ne) ∙ e);
  }

-- Memory may change inside a block that holds data of a file.
pub data_write-IsWf :
    (s : State) (m' : Bytes) (i k c : ℕ)
    → IsWf s
    → Holds s i k c
    → k < max_inode_blocks
    → AgreesOff s.fs_data m' c
    → IsWf (record s { fs_data = m' })
data_write-IsWf s m' i k c wf held low agree =
    grow-IsWf s (record s { fs_data = m' }) i (Holds s) wf
      (record {
        same_use = refl;
        others = λ l ne. refl;
        bound = wf.bounded i held.0;
        kept = λ l j live u.
            number-AgreesOff s m' c l j wf live u agree
              (λ h. omega (arith, (wf.exclusive.unique l max_inode_blocks i k c h held).1));
        old = λ l j b h. h;
        new = λ j u. inl u;
      })
      wf.exclusive
