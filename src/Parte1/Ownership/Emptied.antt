-- ===== src/Parte1/Ownership/Emptied.antt =====
-- A file that has been truncated.
use so_file_system.Common.{
  ℕ, ◌<◌, ◌≤◌, ◌≡◌, refl, sym, ap, subst, ◌∙◌, ◌≢◌, ℤ, pos, arith, lt→ltb, ℕ_discrete, has_flag,
  true,
}
use so_file_system.Config.{data_blocks, max_inode_blocks, tfs_o_trunc}
use so_file_system.Table.{Table, free}
use so_file_system.Exclusive.{shrink-IsExclusive}
use so_file_system.Parte1.State.{State, put_inode}
use so_file_system.Parte1.Blocks.{delete_inode_data_blocks}
use so_file_system.Parte1.Blocks.Free.{with_blocks}
use so_file_system.Parte1.Operations.{truncate}
use so_file_system.Parte1.Ownership.{number_of, Used, InUse, Holds, IsWf, byte_at}
use so_file_system.Parte1.Ownership.Truncate.{delete-Deletes}

-- The file `ino` is empty, its blocks are free, every other block and every other file is as before.
pub record Emptied (s : State) (ino : ℕ) (out : State × ℤ) : Type 0 where
  pub after : State
  pub ends : out ≡ (after, pos 0)
  pub wf : IsWf after
  pub size : (after.inode_table ino).i_size ≡ 0
  pub blocks : (after.inode_table ino).blocks_alloc ≡ 0
  pub freed : (k b : ℕ) → Holds s ino k b → after.free_blocks b ≡ free
  pub others : (b : ℕ) → ((k : ℕ) → ¬ Holds s ino k b) → after.free_blocks b ≡ s.free_blocks b
  pub other_files : (i : ℕ) → i ≢ ino → after.inode_table i ≡ s.inode_table i
  pub other_bytes : (i q : ℕ) → i ≢ ino → byte_at after i q ≡ byte_at s i q
  pub same_use : after.freeinode_ts ≡ s.freeinode_ts
  pub same_files : after.open_file_table ≡ s.open_file_table
  pub same_handles : after.free_open_file_entries ≡ s.free_open_file_entries

truncate_eq :
    (s : State) (flags ino : ℕ) (t : Table)
    → has_flag flags tfs_o_trunc ≡ true
    → 0 < (s.inode_table ino).i_size
    → delete_inode_data_blocks s (s.inode_table ino) ≡ (with_blocks s t, pos 0)
    → truncate s flags ino ≡ (
      put_inode (with_blocks s t) ino (record (s.inode_table ino) { i_size = 0; blocks_alloc = 0 }),
      pos 0,
    )
unfolding truncate
truncate_eq s flags ino t f h e = rw (e, f, lt→ltb 0 (s.inode_table ino).i_size h) refl

module _ (s : State) (ino : ℕ) (wf : IsWf s) (live : InUse s ino) (t : Table)
    (others : (b : ℕ) → ((k : ℕ) → ¬ Holds s ino k b) → t b ≡ s.free_blocks b) where
  abbrev emptied : State
  emptied =
      put_inode (with_blocks s t) ino (record (s.inode_table ino) { i_size = 0; blocks_alloc = 0 })

  other_inode : (i : ℕ) → i ≢ ino → emptied.inode_table i ≡ s.inode_table i
  other_inode i ne = ground arith

  not_ino : (i k : ℕ) → Used (emptied.inode_table i) k → i ≢ ino
  not_ino i k u e = ground arith

  before : (i k b : ℕ) → Holds emptied i k b → Holds s i k b
  before i k b (live', u, e) =
      let ne = not_ino i k u in
      (
        live',
        subst (λ n. Used n k) (other_inode i ne) u,
        sym (ap (λ n. number_of s.fs_data n k) (other_inode i ne)) ∙ e,
      )

  untouched : (i k b : ℕ) → Holds emptied i k b → t b ≡ s.free_blocks b
  untouched i k b (live', u, e) =
      others b
        (λ l h. not_ino i k u (wf.exclusive.unique i k ino l b (before i k b (live', u, e)) h).0)

  emptied-IsWf : IsWf emptied
  emptied-IsWf = record {
    exclusive =
        shrink-IsExclusive data_blocks (Holds s) (Holds emptied) s.free_blocks t wf.exclusive before
          untouched;
    bounded = λ i live'. elim (ℕ_discrete i ino) [
      | yes e ↦ ground arith
      | no ne ↦
          subst (λ n. n.blocks_alloc ≤ max_inode_blocks) (sym (other_inode i ne))
            (wf.bounded i live')
    ];
    filled = λ i k live' u.
        let ne = not_ino i k u in
        let (b, e) = wf.filled i k live' (subst (λ n. Used n k) (other_inode i ne) u) in
        (b, ap (λ n. number_of s.fs_data n k) (other_inode i ne) ∙ e);
  }

pub truncate-Emptied :
    (s : State) (flags ino : ℕ)
    → IsWf s
    → InUse s ino
    → has_flag flags tfs_o_trunc ≡ true
    → 0 < (s.inode_table ino).i_size
    → Emptied s ino (truncate s flags ino)
truncate-Emptied s flags ino wf live flag some_size =
    let d = delete-Deletes s ino wf live in
    record {
      after = emptied s ino wf live d.table d.others;
      ends = truncate_eq s flags ino d.table flag some_size d.ends;
      wf = emptied-IsWf s ino wf live d.table d.others;
      size = ground arith;
      blocks = ground arith;
      freed = d.freed;
      others = d.others;
      other_files = λ i ne. ground arith;
      other_bytes = λ i q ne. ground arith;
      same_use = refl;
      same_files = refl;
      same_handles = refl;
    }
