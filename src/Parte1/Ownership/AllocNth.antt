-- ===== src/Parte1/Ownership/AllocNth.antt =====
-- `allocNthDataBlock` for the next block of a file in a well-formed file system, on every branch.
use so_file_system.Common.{
  ℕ, suc, ◌+◌, ◌<◌, ◌≡◌, refl, sym, ◌∙◌, ◌⊎◌, inl, inr, ℤ, pos, arith, ℕ_discrete, dec_lt,
}
use so_file_system.Config.{data_blocks, max_inode_blocks}
use so_file_system.Table.{Table, free}
use so_file_system.Exclusive.{Owning, IsExclusive, Extended, extend-IsExclusive, shrink-IsExclusive}
use so_file_system.Parte1.State.{State}
use so_file_system.Parte1.Blocks.{data_block_alloc, alloc_nth_data_block}
use so_file_system.Parte1.Blocks.Alloc.{
  AllTaken, take_block, fill_indirect, set_indirection, data_block_alloc_cases, alloc_nth_none,
  alloc_nth_direct, alloc_nth_indirect, alloc_nth_open, alloc_nth_open_full,
}
use so_file_system.Parte1.Ownership.{number_of, Used, InUse, Holds, IsWf}
use so_file_system.Parte1.Ownership.Grow.{Grows, grow-IsWf}
use so_file_system.Parte1.Ownership.Keeps.{Keeps, Keeps-refl, Keeps-trans, NotData, bytes_stand}
use so_file_system.Parte1.Ownership.Alloc.{fresh-unheld, direct-IsWf, direct-Keeps}
use so_file_system.Parte1.Ownership.AllocIndirect.{indirect-IsWf, indirect-Keeps}

-- At most one block is free.
abbrev pub AlmostFull : State → Type 0
AlmostFull s =
    (b c : ℕ)
    → b < data_blocks
    → c < data_blocks
    → s.free_blocks b ≡ free
    → s.free_blocks c ≡ free
    → b ≡ c

full-AlmostFull : (s : State) → AllTaken s → AlmostFull s
full-AlmostFull s full b c lb lc fb fc = ground (arith, full b lb)

-- All blocks are taken once `b` is.
last-AlmostFull : (s : State) (b : ℕ) → AllTaken (take_block s b) → AlmostFull s
last-AlmostFull s b full c d lc ld fc fd = ground (arith, full c lc, full d ld)

-- The file `ino` has one block more and the result is 0, or as many as before and the result
-- is 1, which happens only with at most one block free.
pub record Allocates (s : State) (ino : ℕ) (out : State × ℤ) : Type 0 where
  pub wf : IsWf out.0
  pub keeps : Keeps s out.0
  pub counted :
      ((out.1 ≡ pos 0)
        × ((out.0.inode_table ino).blocks_alloc ≡ suc (s.inode_table ino).blocks_alloc))
      ⊎ ((out.1 ≡ pos 1)
          × ((out.0.inode_table ino).blocks_alloc ≡ (s.inode_table ino).blocks_alloc)
          × AlmostFull out.0)

-- An indirection block is chosen for an i-node that uses none yet.
module _ (s : State) (ino b : ℕ) (fb : Table) (wf : IsWf s) (live : InUse s ino)
    (ten : (s.inode_table ino).blocks_alloc ≡ 10)
    (same : (i k c : ℕ) → Holds s i k c → fb c ≡ s.free_blocks c) where
  abbrev chosen : State
  chosen = set_indirection (record s { free_blocks = fb }) ino b

  chosen_kept :
      (i k : ℕ)
      → Used (s.inode_table i) k
      → number_of s.fs_data (chosen.inode_table i) k ≡ number_of s.fs_data (s.inode_table i) k
  chosen_kept i k u = ground arith

  chosen-Grows : Grows s chosen ino (Holds s)
  chosen-Grows = record {
    same_use = refl;
    others = λ i ne. ground arith;
    bound = ground arith;
    kept = λ i k _ u. chosen_kept i k u;
    old = λ i k c h. h;
    new = λ k u. inl (ground arith);
  }

  chosen-IsWf : IsWf chosen
  chosen-IsWf = grow-IsWf s chosen ino (Holds s) wf chosen-Grows (
      shrink-IsExclusive data_blocks (Holds s) (Holds s) s.free_blocks fb wf.exclusive
        (λ i k c h. h) same)

  chosen-Keeps : (c : ℕ) → NotData s c → Keeps s chosen
  chosen-Keeps c none = record {
    same_use = refl;
    same_files = refl;
    same_handles = refl;
    same_size = λ i. ground arith;
    same_kind = λ i. ground arith;
    longer = λ i. ground arith;
    same_bytes =
        λ i q live h. bytes_stand s chosen c i q wf live h (chosen_kept i) (λ a _. refl) none;
  }

  chosen-Holds : (i k c : ℕ) → Holds chosen i k c → Holds s i k c
  chosen-Holds i k c (live, u, e) =
      let v : Used (s.inode_table i) k = ground arith in (live, v, sym (chosen_kept i k v) ∙ e)

module _ (s : State) (ino : ℕ) (wf : IsWf s) (live : InUse s ino)
    (room : (s.inode_table ino).blocks_alloc < max_inode_blocks) where
  abbrev size : ℕ
  size = (s.inode_table ino).blocks_alloc

  -- The eleventh block: the indirection block is `b`.
  open_Allocates :
      (b : ℕ)
      → size ≡ 10
      → b < data_blocks
      → s.free_blocks b ≡ free
      → data_block_alloc s ≡ (take_block s b, pos b)
      → Allocates s ino (alloc_nth_data_block s ino (size + 1))
  open_Allocates b ten within unused e = elim (data_block_alloc_cases s1) [
    | inl (e', full) ↦
        rw (alloc_nth_open_full s ino size refl room b ten unused within e e') (record {
          wf = chosen-IsWf s ino b s.free_blocks wf live ten (λ i k c h. refl);
          keeps = chosen-Keeps s ino b s.free_blocks wf live ten (λ i k c h. refl) b none;
          counted = inr (refl, ground arith, last-AlmostFull s b full);
        })
    | inr (c, e', found) ↦ rw (alloc_nth_open s ino size refl room b c ten within e e') (record {
      wf =
          indirect-IsWf s1 ino size c b R s1_wf live (ground arith) (omega arith) room found.within
            found.was_free exclusive old table (ground arith);
      keeps =
          Keeps-trans s s1 (fill_indirect (take_block s1 c) ino b size c)
            (chosen-Keeps s ino b s1.free_blocks wf live ten same b none)
            (indirect-Keeps s1 ino size c b R s1_wf live (ground arith) (omega arith) room
              found.within found.was_free exclusive old table (ground arith));
      counted = inl (refl, ground arith);
    })
  ]
    where
      s1 : State
      s1 = set_indirection (take_block s b) ino b

      none : NotData s b
      none i k _ = fresh-unheld s b wf unused i k

      same : (i k c : ℕ) → Holds s i k c → s1.free_blocks c ≡ s.free_blocks c
      same i k c h = ground (arith, wf.exclusive.allocated i k c h)

      s1_wf : IsWf s1
      s1_wf = chosen-IsWf s ino b s1.free_blocks wf live ten same

      R : Owning
      R = Extended (Holds s) ino max_inode_blocks b

      exclusive : IsExclusive data_blocks R s1.free_blocks
      exclusive =
          extend-IsExclusive data_blocks (Holds s) s.free_blocks ino max_inode_blocks b wf.exclusive
            within unused

      old : (i k c : ℕ) → Holds s1 i k c → R i k c
      old i k c h = inl (chosen-Holds s ino b s1.free_blocks wf live ten same i k c h)

      table : R ino max_inode_blocks b
      table = inr (refl, refl, refl)

  -- In a well-formed file system allocNthDataBlock, asked for the next block of a file that has
  -- fewer than the most, keeps the file system well-formed and every byte, size and handle of
  -- every file. It returns 0 and the file has one block more, or it returns 1, the file has as
  -- many as before, and at most one block is free.
  pub alloc_nth-Allocates : Allocates s ino (alloc_nth_data_block s ino (size + 1))
  alloc_nth-Allocates = elim (data_block_alloc_cases s) [
    | inl (e, full) ↦ rw (alloc_nth_none s ino size refl room e) (record {
      wf = wf;
      keeps = Keeps-refl s;
      counted = inr (refl, refl, full-AlmostFull s full);
    })
    | inr (b, e, found) ↦ elim (dec_lt size 10) [
      | yes low ↦ rw (alloc_nth_direct s ino size refl room b low e) (record {
        wf = direct-IsWf s ino size b wf live refl found.within found.was_free low;
        keeps = direct-Keeps s ino size b wf live refl found.within found.was_free low;
        counted = inl (refl, ground arith);
      })
      | no high ↦ elim (ℕ_discrete size 10) [
        | yes ten ↦ open_Allocates b ten found.within found.was_free e
        | no ne ↦ beyond b (omega arith) found.within found.was_free e
      ]
    ]
  ]
    where
      beyond :
          (b : ℕ)
          → 10 < size
          → b < data_blocks
          → s.free_blocks b ≡ free
          → data_block_alloc s ≡ (take_block s b, pos b)
          → Allocates s ino (alloc_nth_data_block s ino (size + 1))
      beyond b high within unused e =
          let used : Used (s.inode_table ino) max_inode_blocks = inr (refl, high) in
          let (p, at) = wf.filled ino max_inode_blocks live used in
          let held : Holds s ino max_inode_blocks p = (live, used, at) in
          rw
            (alloc_nth_indirect s ino size refl room b p high
              (wf.exclusive.allocated ino max_inode_blocks p held).0 at e)
            (record {
              wf =
                  indirect-IsWf s ino size b p (Holds s) wf live refl (omega arith) room within
                    unused wf.exclusive (λ i k c h. h) held at;
              keeps =
                  indirect-Keeps s ino size b p (Holds s) wf live refl (omega arith) room within
                    unused wf.exclusive (λ i k c h. h) held at;
              counted = inl (refl, ground arith);
            })
