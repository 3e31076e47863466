-- ===== src/Parte2/Counter/Transfers.antt =====
-- openFiles in the calls of Parte2/tecnicofs_ex2/fs/operations.c that open and close nothing.
use so_file_system.Common.{
  ℕ, refl, inl, inr, ℤ, pos, minus_one, Option-cases, List, Bool, true, false, arith, if◌then◌else◌,
  ltb, ◌==◌,
}
use so_file_system.Config.{data_blocks}
use so_file_system.Table.{first_free}
use so_file_system.Parte1.Operations.{to_ssize}
use so_file_system.Parte2.State.{State, put_inode}
use so_file_system.Parte2.Tables.{data_block_alloc, data_block_get, inode_get, get_open_file_entry}
use so_file_system.Parte2.Transfer.{
  ensure_block, clamp_write, write_at, write_file, write_unsynchronized, read_file,
  read_unsynchronized,
}
use so_file_system.Parte2.Counter.Opens.{Same, Same-trans}

if-Same : (s : State) (c : Bool) (t u : State) → Same s t → Same s u → Same s (if c then t else u)
if-Same s true t u k l = k
if-Same s false t u k l = l

alloc-Same : (s : State) → Same s (data_block_alloc s).0
unfolding data_block_alloc
alloc-Same s = elim (Option-cases (first_free data_blocks 0 s.free_blocks)) [
  | inl e ↦ rw (e, data_block_alloc) (refl, refl)
  | inr (j, e) ↦ rw (e, data_block_alloc) (refl, refl)
]

ensure-Same : (s : State) (i : ℕ) → Same s (ensure_block s i)
unfolding ensure_block
ensure-Same s i =
    if-Same s ((s.inode_table i).i_size == 0)
      (put_inode (data_block_alloc s).0 i
        (record ((data_block_alloc s).0.inode_table i) { i_data_block = (data_block_alloc s).1 }))
      s (alloc-Same s) (refl, refl)

write_at-Same : (s : State) (h i p : ℕ) (buf : List ℕ) (n : ℕ) → Same s (write_at s h i p buf n)
unfolding write_at
write_at-Same s h i p buf n = ground arith

pick-Same :
    (s : State) (c : Bool) (out : State × ℤ)
    → Same s out.0
    → Same s (if c then out else (s, pos 0)).0
pick-Same s true out k = k
pick-Same s false out k = (refl, refl)

write_file-Same : (s : State) (h i : ℕ) (buf : List ℕ) (n : ℕ) → Same s (write_file s h i buf n).0
unfolding write_file
write_file-Same s h i buf n =
    let s1 = ensure_block s i in
    elim (Option-cases (data_block_get (s1.inode_table i).i_data_block)) [
      | inl e ↦
          rw (write_file, e)
            (pick-Same s (ltb 0 (clamp_write n (s.open_file_table h).of_offset)) (s1, minus_one)
              (ensure-Same s i))
      | inr (p, e) ↦
          let m = clamp_write n (s.open_file_table h).of_offset in
          rw (write_file, e)
            (pick-Same s (ltb 0 m) (write_at s1 h i p buf m, to_ssize m)
              (Same-trans s s1 (write_at s1 h i p buf m) (ensure-Same s i)
                (write_at-Same s1 h i p buf m)))
    ]

pub write-Same :
    (s : State) (fhandle : ℤ) (buf : List ℕ) (n : ℕ)
    → Same s (write_unsynchronized s fhandle buf n).0
unfolding write_unsynchronized
write-Same s fhandle buf n = elim (Option-cases (get_open_file_entry fhandle)) [
  | inl e ↦ rw (write_unsynchronized, e) (refl, refl)
  | inr (h, e) ↦ elim (Option-cases (inode_get (s.open_file_table h).of_inumber)) [
    | inl f ↦ rw (write_unsynchronized, e, f) (refl, refl)
    | inr (i, f) ↦ rw (write_unsynchronized, e, f) (write_file-Same s h i buf n)
  ]
]

read_file-Same : (s : State) (h i n : ℕ) → Same s (read_file s h i n).0
unfolding read_file
read_file-Same s h i n = ground arith

pub read-Same : (s : State) (fhandle : ℤ) (n : ℕ) → Same s (read_unsynchronized s fhandle n).0
unfolding read_unsynchronized
read-Same s fhandle n = elim (Option-cases (get_open_file_entry fhandle)) [
  | inl e ↦ rw (read_unsynchronized, e) (refl, refl)
  | inr (h, e) ↦ elim (Option-cases (inode_get (s.open_file_table h).of_inumber)) [
    | inl f ↦ rw (read_unsynchronized, e, f) (refl, refl)
    | inr (i, f) ↦ rw (read_unsynchronized, e, f) (read_file-Same s h i n)
  ]
]
