-- ===== src/Parte2/Counter/Opens.antt =====
-- openFiles in `tfs_open` of Parte2/tecnicofs_ex2/fs/operations.c.
use so_file_system.Common.{
  ℕ, suc, ◌<◌, ◌≡◌, refl, sym, ap, ◌∙◌, ◌⊎◌, inl, inr, ℤ, pos, negsuc, minus_one, is_minus_one,
  is_nonneg, has_flag, Option, some, Option-cases, List, Bool, true, false, arith, if◌then◌else◌,
  update,
}
use so_file_system.Config.{root_dir_inum, tfs_o_creat, max_open_files, inode_table_size}
use so_file_system.Table.{free, taken, first_free}
use so_file_system.Table.Laws.{first_free-Found}
use so_file_system.Parte2.State.{State, file}
use so_file_system.Parte2.Tables.{
  data_block_free, data_block_get, inode_get, inode_create, inode_delete, add_dir_entry,
  add_to_open_file_table,
}
use so_file_system.Parte2.Operations.{
  truncate, lookup_unsynchronized, open_existing, open_new, open_unsynchronized, tfs_open,
  increment,
}
use so_file_system.Parte2.Counter.{count_taken, count-take, open_count}

-- Neither the counter nor the open file table has changed.
abbrev pub Same : State → State → Type 0
Same s s' = (s'.open_files ≡ s.open_files) × (s'.free_open_file_entries ≡ s.free_open_file_entries)

truncate-Same : (s : State) (flags i : ℕ) → Same s (truncate s flags i).0
unfolding truncate data_block_free
truncate-Same s flags i = ground arith

inode_create-Same : (s : State) → Same s (inode_create s file).0
unfolding inode_create
inode_create-Same s = elim (Option-cases (first_free inode_table_size 0 s.freeinode_ts)) [
  | inl e ↦ rw (e, inode_create) (refl, refl)
  | inr (i, e) ↦ rw (e, inode_create) (refl, refl)
]

inode_delete-Same : (s : State) (i : ℤ) → Same s (inode_delete s i).0
unfolding inode_delete data_block_free
inode_delete-Same s i = ground arith

add_dir_entry-Same : (s : State) (i d : ℤ) (name : List ℕ) → Same s (add_dir_entry s i d name).0
unfolding add_dir_entry data_block_get
add_dir_entry-Same s i d name = ground arith

-- One more handle is taken, or the call has failed and the table is as before.
pub record Opens (s : State) (out : State × ℤ) : Type 0 where
  pub same_counter : out.0.open_files ≡ s.open_files
  pub outcome :
      ((out.1 ≡ minus_one) × (out.0.free_open_file_entries ≡ s.free_open_file_entries))
      ⊎ ((i : ℕ) × (i < max_open_files)
          × (s.free_open_file_entries i ≡ free)
          × (out.1 ≡ pos i)
          × (out.0.free_open_file_entries ≡ update s.free_open_file_entries i taken))

add-Opens : (s : State) (inum : ℤ) (offset : ℕ) → Opens s (add_to_open_file_table s inum offset)
unfolding add_to_open_file_table
add-Opens s inum offset =
    elim (Option-cases (first_free max_open_files 0 s.free_open_file_entries)) [
      | inl e ↦
          rw (e, add_to_open_file_table)
            (record { same_counter = refl; outcome = inl (refl, refl) })
      | inr (i, e) ↦
          let f = first_free-Found max_open_files s.free_open_file_entries i e in
          rw (e, add_to_open_file_table)
            (record { same_counter = refl; outcome = inr (i, f.within, f.was_free, refl, refl) })
    ]

Same-Opens : (s t : State) (out : State × ℤ) → Same s t → Opens t out → Opens s out
Same-Opens s t out (n, e) o = record {
  same_counter = o.same_counter ∙ n;
  outcome = elim o.outcome [
    | inl (q, d) ↦ inl (q, d ∙ e)
    | inr (i, lt, f, q, d) ↦
        inr (i, lt, sym (ap (λ t. t i) e) ∙ f, q, d ∙ ap (λ t. update t i taken) e)
  ];
}

fails-Opens : (s t : State) → Same s t → Opens s (t, minus_one)
fails-Opens s t (n, e) = record { same_counter = n; outcome = inl (refl, e) }

pub Same-trans : (s t u : State) → Same s t → Same t u → Same s u
Same-trans s t u (n, e) (m, d) = (m ∙ n, d ∙ e)

if-Opens :
    (s : State) (b : Bool) (x y : State × ℤ) → Opens s x → Opens s y → Opens s (if b then x else y)
if-Opens s true x y p q = p
if-Opens s false x y p q = q

open_existing-Opens : (s : State) (flags : ℕ) (inum : ℤ) → Opens s (open_existing s flags inum)
unfolding open_existing
open_existing-Opens s flags inum = elim (Option-cases (inode_get inum)) [
  | inl e ↦ rw (e, open_existing) (fails-Opens s s (refl, refl))
  | inr (i, e) ↦
      let same = truncate-Same s flags i in
      let s1 = (truncate s flags i).0 in
      rw (e, open_existing)
        (if-Opens s (is_minus_one (truncate s flags i).1) _ _ (fails-Opens s s1 same)
          (Same-Opens s s1 _ same (add-Opens s1 inum _)))
]

open_new-Opens : (s : State) (name : List ℕ) → Opens s (open_new s name)
unfolding open_new
open_new-Opens s name =
    let s1 = (inode_create s file).0 in
    let inum = (inode_create s file).1 in
    let created = inode_create-Same s in
    let s2 = (add_dir_entry s1 (pos root_dir_inum) inum name).0 in
    let added = Same-trans s s1 s2 created (add_dir_entry-Same s1 (pos root_dir_inum) inum name) in
    if-Opens s (is_minus_one inum) _ _ (fails-Opens s s1 created) (
      if-Opens s (is_minus_one (add_dir_entry s1 (pos root_dir_inum) inum name).1) _ _
        (fails-Opens s (inode_delete s2 inum).0
          (Same-trans s s2 (inode_delete s2 inum).0 added (inode_delete-Same s2 inum)))
        (Same-Opens s s2 _ added (add-Opens s2 inum 0)))

pub open-Opens :
    (s : State) (name : Option (List ℕ)) (flags : ℕ) → Opens s (open_unsynchronized s name flags)
unfolding open_unsynchronized
open-Opens s name flags =
    let inum = lookup_unsynchronized s name in
    if-Opens s (is_nonneg inum) _ _ (open_existing-Opens s flags inum) (
      if-Opens s (has_flag flags tfs_o_creat) _ _ (open_new-Opens s _)
        (fails-Opens s s (refl, refl)))

-- What `tfs_open` makes of the result of its body.
abbrev pub counted : State × ℤ → State
counted (s1, r) =
    record (if is_minus_one r then s1 else record s1 { open_files = increment s1.open_files }) {
      locked = false;
    }

open_count-counted :
    (s : State) (out : State × ℤ)
    → Opens s out
    → s.open_files ≡ pos (open_count s)
    → (counted out).open_files ≡ pos (open_count (counted out))
open_count-counted s out o e = elim o.outcome [
  | inl (q, d) ↦ rw q (o.same_counter ∙ e ∙ ap (λ t. pos (count_taken max_open_files t)) (sym d))
  | inr (i, lt, f, q, d) ↦
      let n : open_count out.0 ≡ suc (open_count s) =
        ap (count_taken max_open_files) d
        ∙ count-take max_open_files s.free_open_file_entries i lt f in
      rw q (ap increment (o.same_counter ∙ e) ∙ ap pos (sym n))
]

tfs_open_counts :
    (s : State) (name : Option (List ℕ)) (flags n : ℕ)
    → s.open_files ≡ pos n
    → s.locked ≡ false
    → let out = open_unsynchronized (record s { locked = true }) name flags in
      tfs_open s name flags ≡ some (counted out, out.1)
unfolding tfs_open
tfs_open_counts s name flags n e unlocked = rw (unlocked, e, tfs_open) refl

pub tfs_open_refused :
    (s : State) (name : Option (List ℕ)) (flags n : ℕ)
    → s.open_files ≡ negsuc n
    → s.locked ≡ false
    → tfs_open s name flags ≡ some (record s { locked = true }, minus_one)
unfolding tfs_open
tfs_open_refused s name flags n e unlocked = rw (unlocked, e, tfs_open) refl

-- Before the shutdown a call of `tfs_open` keeps the counter at the number of open handles.
pub tfs_open_running :
    (s : State) (name : Option (List ℕ)) (flags : ℕ)
    → s.open_files ≡ pos (open_count s)
    → s.locked ≡ false
    → (s1 : State) × (r : ℤ) × (tfs_open s name flags ≡ some (s1, r))
      × (s1.open_files ≡ pos (open_count s1))
tfs_open_running s name flags e unlocked =
    let held = record s { locked = true } in
    let out = open_unsynchronized held name flags in
    (
      counted out,
      out.1,
      tfs_open_counts s name flags (open_count s) e unlocked,
      open_count-counted held out (open-Opens held name flags) e,
    )
