-- ===== src/Parte1/Ownership/AllocIndirect.antt =====
-- A block that `allocNthDataBlock` enters in the indirection block keeps the file system well formed.
use so_file_system.Common.{
  ℕ, ◌-◌, ◌*◌, ◌<◌, ◌≤◌, ◌≡◌, refl, ap, subst, ◌∙◌, ◌⊎◌, inl, inr, ◌≢◌, pos, index, arith,
  ℕ_discrete, dec_lt, sym,
}
use so_file_system.Config.{block_size, data_blocks, max_inode_blocks}
use so_file_system.Memory.{Bytes, store_int, load_int}
use so_file_system.Memory.Laws.{store_int_outside, load_int-store_int, load_int-store_int_ne}
use so_file_system.Table.{free}
use so_file_system.Exclusive.{Owning, IsExclusive, Extended, extend-IsExclusive}
use so_file_system.Parte1.State.{State, Inode}
use so_file_system.Parte1.Blocks.{entry_at}
use so_file_system.Parte1.Blocks.Alloc.{take_block, fill_indirect}
use so_file_system.Parte1.Ownership.{number_of, Used, InUse, Holds, IsWf}
use so_file_system.Parte1.Ownership.Places.{AgreesOff, number-AgreesOff}
use so_file_system.Parte1.Ownership.Grow.{Grows, grow-IsWf}
use so_file_system.Parte1.Ownership.Keeps.{Keeps, NotData, bytes_stand}

number_in_table :
    (m : Bytes) (n : Inode) (j p : ℕ)
    → 10 ≤ j
    → j < max_inode_blocks
    → n.indirect_data_block ≡ pos p
    → number_of m n j ≡ load_int m (entry_at (p * block_size) (j - 10))
number_in_table m n j p ge lt e =
    let table : number_of m n j
        ≡ load_int m (entry_at (index n.indirect_data_block * block_size) (j - 10)) =
      ground arith in
    table ∙ ap (λ z. load_int m (entry_at (index z * block_size) (j - 10))) e

-- `R` owns what the places of `s` hold, and the indirection block `p` of `ino`, whether or not
-- `ino` uses indirect blocks yet.
module _ (s : State) (ino k b p : ℕ) (R : Owning) (wf : IsWf s) (live : InUse s ino)
    (at_end : (s.inode_table ino).blocks_alloc ≡ k) (high : 10 ≤ k) (room : k < max_inode_blocks)
    (within : b < data_blocks) (unused : s.free_blocks b ≡ free)
    (exclusive : IsExclusive data_blocks R s.free_blocks)
    (old : (i j c : ℕ) → Holds s i j c → R i j c) (table_held : R ino max_inode_blocks p)
    (table_at : (s.inode_table ino).indirect_data_block ≡ pos p) where
  abbrev pub data_after : Bytes
  data_after = store_int s.fs_data (entry_at (p * block_size) (k - 10)) (pos b)

  abbrev pub indirect : State
  indirect = fill_indirect (take_block s b) ino p k b

  data_after-AgreesOff : AgreesOff s.fs_data data_after p
  data_after-AgreesOff a off =
      store_int_outside s.fs_data (entry_at (p * block_size) (k - 10)) (pos b) a (omega arith)

  table-NotData : NotData s p
  table-NotData i j lt h =
      omega (arith, (exclusive.unique i j ino max_inode_blocks p (old i j p h) table_held).1)

  other_entry :
      (j : ℕ)
      → 10 ≤ j
      → j < k
      → load_int data_after (entry_at (p * block_size) (j - 10))
        ≡ load_int s.fs_data (entry_at (p * block_size) (j - 10))
  other_entry j ge lt =
      load_int-store_int_ne s.fs_data (entry_at (p * block_size) (k - 10))
        (entry_at (p * block_size) (j - 10)) (pos b) (omega arith)

  -- The numbers of `ino` in terms of `p`.
  number_by_table :
      (m : Bytes) (j : ℕ)
      → 10 ≤ j
      → j < max_inode_blocks
      → number_of m (indirect.inode_table ino) j ≡ load_int m (entry_at (p * block_size) (j - 10))
  number_by_table m j ge lt = number_in_table m (indirect.inode_table ino) j p ge lt (ground arith)

  indirect_self :
      (j : ℕ)
      → Used (s.inode_table ino) j
      → number_of data_after (indirect.inode_table ino) j
        ≡ number_of s.fs_data (s.inode_table ino) j
  indirect_self j u = elim (dec_lt j 10) [
    | yes low ↦ ground arith
    | no ge ↦ elim (dec_lt j max_inode_blocks) [
      | yes lt ↦
          number_by_table data_after j (omega arith) lt
          ∙ other_entry j (omega arith) (omega arith)
          ∙ sym (number_in_table s.fs_data (s.inode_table ino) j p (omega arith) lt table_at)
      | no beyond ↦ ground arith
    ]
  ]

  others_same : (i : ℕ) → i ≢ ino → indirect.inode_table i ≡ s.inode_table i
  others_same i ne = ground arith

  indirect_kept :
      (i j : ℕ)
      → InUse s i
      → Used (s.inode_table i) j
      → number_of data_after (indirect.inode_table i) j ≡ number_of s.fs_data (s.inode_table i) j
  indirect_kept i j live u = elim (ℕ_discrete i ino) [
    | yes e ↦
        subst
          (λ l.
            Used (s.inode_table l) j
            → number_of data_after (indirect.inode_table l) j
              ≡ number_of s.fs_data (s.inode_table l) j)
          (sym e) (indirect_self j) u
    | no ne ↦
        ap (λ n. number_of data_after n j) (others_same i ne)
        ∙ number-AgreesOff s data_after p i j wf live u data_after-AgreesOff (λ h.
          ne
            (exclusive.unique i max_inode_blocks ino max_inode_blocks p (old i max_inode_blocks p h)
              table_held).0)
  ]

  indirect_new :
      (j : ℕ)
      → Used (indirect.inode_table ino) j
      → Used (s.inode_table ino) j
        ⊎ ((c : ℕ) × (number_of data_after (indirect.inode_table ino) j ≡ pos c)
            × Extended R ino k b ino j c)
  indirect_new j u = elim (ℕ_discrete j k) [
    | yes e ↦ inr (
      b,
      rw e (
          number_by_table data_after k high room
          ∙ load_int-store_int s.fs_data (entry_at (p * block_size) (k - 10)) (pos b)
              (omega arith)),
      inr (refl, e, refl),
    )
    | no ne ↦ elim (ℕ_discrete j max_inode_blocks) [
      | yes e ↦ inr (p, ground arith, inl (rw e table_held))
      | no low ↦ inl (inl (ground arith))
    ]
  ]

  indirect-Grows : Grows s indirect ino (Extended R ino k b)
  indirect-Grows = record {
    same_use = refl;
    others = others_same;
    bound = ground arith;
    kept = indirect_kept;
    old = λ i j c h. inl (old i j c h);
    new = indirect_new;
  }

  pub indirect-IsWf : IsWf indirect
  indirect-IsWf =
      grow-IsWf s indirect ino (Extended R ino k b) wf indirect-Grows
        (extend-IsExclusive data_blocks R s.free_blocks ino k b exclusive within unused)

  pub indirect-Keeps : Keeps s indirect
  indirect-Keeps = record {
    same_use = refl;
    same_files = refl;
    same_handles = refl;
    same_size = λ i. ground arith;
    same_kind = λ i. ground arith;
    longer = λ i. ground arith;
    same_bytes = λ i q live h.
        bytes_stand s indirect p i q wf live h (λ k. indirect_kept i k live) data_after-AgreesOff
          table-NotData;
  }
