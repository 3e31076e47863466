-- ===== src/Parte2/Remote/Results.antt =====
-- What the calls of Parte2/tecnicofs_ex2/fs/operations.c can return, for their results cross the pipes
-- as an int.
use so_file_system.Common.{
  ℕ, ◌+◌, ◌-◌, ◌^◌, ◌<◌, ◌≤◌, ◌≡◌, refl, sym, ap, subst, ◌⊎◌, inl, inr, List, [], Option, none,
  some, Bool, true, false, arith, if◌then◌else◌, ltb, lt→ltb, ℤ, pos, minus_one, FitsInt, length,
  length-slice, slice, negsuc, sub_size, is_nonneg, ◌%◌, Option-cases,
}
use so_file_system.Parte2.State.{State}
use so_file_system.Parte2.Operations.{
  tfs_open, tfs_close, synchronized, open_unsynchronized, close_counted,
}
use so_file_system.Parte2.Transfer.{tfs_read, read_file, read_unsynchronized}
use so_file_system.Parte2.Server.Handlers.{to_int}
use so_file_system.Parte2.Counter.Opens.{open-Opens}
use so_file_system.Memory.Wide.Laws.{of_word-FitsInt}
use so_file_system.Parte1.Operations.{to_ssize}
use so_file_system.Parte2.Tables.{
  data_block_get, get_open_file_entry, inode_get, remove_from_open_file_table,
}

value {ℓ} : {A : Type ℓ} → (x y : A) → some x ≡ some y → x ≡ y
value x y e = ap (λ o. elim o [ none ↦ x | some v ↦ v ]) e

picked {ℓ} :
    {A : Type ℓ}
    → (P : A → Type 0) (b c : Bool) (x y z : A)
    → (if b then none else if c then some x else some y) ≡ some z
    → P x
    → P y
    → P z
picked P true c x y z e f g = subst (λ o. elim o [ none ↦ P x | some v ↦ P z ]) e f
picked P false true x y z e f g = subst P (value x z e) f
picked P false false x y z e f g = subst P (value y z e) g

pub tfs_open-FitsInt :
    (s : State) (name : Option (List ℕ)) (flags : ℕ) (fs : State) (out : ℤ)
    → tfs_open s name flags ≡ some (fs, out)
    → FitsInt out
unfolding tfs_open
tfs_open-FitsInt s name flags fs out e =
    let held = record s { locked = true } in
    let result = open_unsynchronized held name flags in
    let opens = open-Opens held name flags in
    let fits : FitsInt result.1 = elim opens.outcome [
      | inl (q, d) ↦ subst FitsInt (sym q) (omega arith)
      | inr (i, lt, f, q, d) ↦ subst FitsInt (sym q) (omega arith)
    ] in
    picked (λ r. FitsInt r.1) s.locked (is_nonneg s.open_files) _ _ (fs, out) e fits (omega arith)

remove-FitsInt : (s : State) (h : ℤ) → FitsInt (remove_from_open_file_table s h).1
unfolding remove_from_open_file_table
remove-FitsInt s h = ground arith

close-FitsInt : (s : State) (h : ℤ) → FitsInt (close_counted s h).1.0
unfolding close_counted
close-FitsInt s h = ground (arith, remove-FitsInt s h)

pub tfs_close-FitsInt :
    (s : State) (fhandle : ℤ) (fs : State) (out : ℤ) (signal : Bool)
    → tfs_close s fhandle ≡ some (fs, (out, signal))
    → FitsInt out
unfolding tfs_close synchronized
tfs_close-FitsInt s fhandle fs out signal e =
    let held = record s { locked = true } in
    let r = close-FitsInt held fhandle in
    let body : State × (ℤ × Bool) = close_counted held fhandle in
    let x : State × (ℤ × Bool) = (record body.0 { locked = false }, body.1) in
    picked (λ r. FitsInt r.1.0) s.locked true x x (fs, (out, signal)) e r r

pub to_int-FitsInt : (i : ℤ) → FitsInt (to_int i)
to_int-FitsInt (pos n) = of_word-FitsInt (n % 2 ^ 32) (omega arith)
to_int-FitsInt (negsuc n) = of_word-FitsInt (2 ^ 32 - 1 - n % 2 ^ 32) (omega arith)

-- The result of `tfs_read` and the bytes that it has put into the caller's buffer.
abbrev pub ReadResult : ℕ → ℤ × List ℕ → Type 0
ReadResult len (out, bytes) =
    ((out ≡ minus_one) × (bytes ≡ [])) ⊎ ((out ≡ pos (length bytes)) × (length bytes ≤ len))

to_ssize-slice :
    (f : ℕ → ℕ) (a n len : ℕ) → n ≤ len → len < 2 ^ 31 → ReadResult len (to_ssize n, slice f a n)
to_ssize-slice f a n len le lt =
    let small : ltb n (2 ^ 63) ≡ true = lt→ltb n (2 ^ 63) (omega arith) in
    let e = length-slice f a n in rw small (inr (ap pos (sym e), omega arith))

if-ReadResult :
    (len : ℕ) (b : Bool) (x y : State × (ℤ × List ℕ))
    → ReadResult len x.1
    → ReadResult len y.1
    → ReadResult len (if b then x else y).1
if-ReadResult len true x y p q = p
if-ReadResult len false x y p q = q

read_file-ReadResult :
    (s : State) (h i len : ℕ) → len < 2 ^ 31 → ReadResult len (read_file s h i len).1
unfolding read_file
read_file-ReadResult s h i len lt =
    let entry = s.open_file_table h in
    let inode = s.inode_table i in
    let left = sub_size inode.i_size entry.of_offset in
    let n = if ltb len left then len else left in
    let le : n ≤ len = ground arith in
    elim (Option-cases (data_block_get inode.i_data_block)) [
      | inl e ↦
          rw (read_file, e)
            (if-ReadResult len (ltb 0 n) _ _ (inl (refl, refl)) (inr (refl, omega arith)))
      | inr (p, e) ↦
          rw (read_file, e)
            (if-ReadResult len (ltb 0 n) _ _
              (to_ssize-slice s.fs_data (p + entry.of_offset) n len le lt)
              (inr (refl, omega arith)))
    ]

read-ReadResult :
    (s : State) (fhandle : ℤ) (len : ℕ)
    → len < 2 ^ 31
    → ReadResult len (read_unsynchronized s fhandle len).1
unfolding read_unsynchronized
read-ReadResult s fhandle len lt = elim (Option-cases (get_open_file_entry fhandle)) [
  | inl e ↦ rw (read_unsynchronized, e) (inl (refl, refl))
  | inr (h, e) ↦ elim (Option-cases (inode_get (s.open_file_table h).of_inumber)) [
    | inl f ↦ rw (read_unsynchronized, e, f) (inl (refl, refl))
    | inr (i, f) ↦ rw (read_unsynchronized, e, f) (read_file-ReadResult s h i len lt)
  ]
]

pub tfs_read-ReadResult :
    (s : State) (fhandle : ℤ) (len : ℕ) (fs : State) (out : ℤ) (bytes : List ℕ)
    → tfs_read s fhandle len ≡ some (fs, (out, bytes))
    → len < 2 ^ 31
    → ReadResult len (out, bytes)
unfolding tfs_read synchronized
tfs_read-ReadResult s fhandle len fs out bytes e lt =
    let held = record s { locked = true } in
    let r = read-ReadResult held fhandle len lt in
    let body : State × (ℤ × List ℕ) = read_unsynchronized held fhandle len in
    let x : State × (ℤ × List ℕ) = (record body.0 { locked = false }, body.1) in
    picked (λ r. ReadResult len r.1) s.locked true x x (fs, (out, bytes)) e r r
