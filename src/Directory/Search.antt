-- ===== src/Directory/Search.antt =====
-- The searches of a directory after one entry has been filled.
use so_file_system.Common.{
  ℕ, zero, suc, ◌+◌, ◌<◌, ◌≤◌, ◌≡◌, refl, ap, ◌∙◌, inl, inr, ◌≢◌, ℤ, minus_one, is_minus_one,
  FitsInt, List, Bool, true, false, not, ◌&&◌, arith, length, some, ℕ_discrete, Bool-cases,
}
use so_file_system.Config.{max_file_name, max_dir_entries}
use so_file_system.Memory.{Bytes, load_int}
use so_file_system.Directory.{
  inumber_at, fill_entry, entry_is, first_empty, find_entry, count_entries,
}
use so_file_system.Directory.Names.{IsText}
use so_file_system.Directory.Entries.{inumber-fill, is-fill_short, is-fill_long, others-fill}

pub first_empty-bounds :
    (k i : ℕ) (m : Bytes) (p j : ℕ)
    → first_empty k i m p ≡ some j
    → (i ≤ j) × (j < i + k) × (is_minus_one (load_int m (inumber_at p j)) ≡ true)
unfolding first_empty
first_empty-bounds zero i m p j h = cc
first_empty-bounds (suc k) i m p j h = ground (arith, first_empty-bounds k (suc i) m p j)

-- No entry of that name, from `i` on.
abbrev pub Absent : ℕ → ℕ → Bytes → ℕ → List ℕ → Type 0
Absent k i m p name = (l : ℕ) → i ≤ l → l < i + k → entry_is m p l name ≡ false

found_number : (z : ℤ) (b : Bool) → (not (is_minus_one z) && b) ≡ true → z ≢ minus_one
found_number z b h e = ground arith

pub find_entry-Absent :
    (k i : ℕ) (m : Bytes) (p : ℕ) (name : List ℕ)
    → find_entry k i m p name ≡ minus_one
    → Absent k i m p name
unfolding find_entry
find_entry-Absent zero i m p name h l ge lt = absurd (omega arith)
find_entry-Absent (suc k) i m p name h l ge lt = elim (Bool-cases (entry_is m p i name)) [
  | inl hit ↦ absurd (found_number (load_int m (inumber_at p i)) _ hit (rw hit at h))
  | inr miss ↦ elim (ℕ_discrete l i) [
    | yes e ↦ rw e miss
    | no ne ↦ find_entry-Absent k (suc i) m p name (rw miss at h) l (omega arith) (omega arith)
  ]
]

pub Absent-find_entry :
    (k i : ℕ) (m : Bytes) (p : ℕ) (name : List ℕ)
    → Absent k i m p name
    → (find_entry k i m p name ≡ minus_one) × (count_entries k i m p name ≡ 0)
unfolding find_entry count_entries
Absent-find_entry zero i m p name gone = (refl, refl)
Absent-find_entry (suc k) i m p name gone =
    let here = gone i (omega arith) (omega arith) in
    let rest =
      Absent-find_entry k (suc i) m p name (λ l ge lt. gone l (omega arith) (omega arith)) in
    (rw here rest.0, rw here (omega (arith, rest.1)))

-- One entry of that name, which is entry `j`.
pub single-find_entry :
    (k i j : ℕ) (m : Bytes) (p : ℕ) (name : List ℕ)
    → i ≤ j
    → j < i + k
    → entry_is m p j name ≡ true
    → ((l : ℕ) → i ≤ l → l < i + k → l ≢ j → entry_is m p l name ≡ false)
    → (find_entry k i m p name ≡ load_int m (inumber_at p j)) × (count_entries k i m p name ≡ 1)
unfolding find_entry count_entries
single-find_entry zero i j m p name ge lt here others = absurd (omega arith)
single-find_entry (suc k) i j m p name ge lt here others = elim (ℕ_discrete i j) [
  | yes e ↦
      let hit : entry_is m p i name ≡ true = ap (λ l. entry_is m p l name) e ∙ here in
      let rest =
        Absent-find_entry k (suc i) m p name
          (λ l ge lt. others l (omega arith) (omega arith) (omega arith)) in
      (rw hit (ap (λ l. load_int m (inumber_at p l)) e), rw hit (omega (arith, rest.1)))
  | no ne ↦
      let miss = others i (omega arith) (omega arith) ne in
      let rest =
        single-find_entry k (suc i) j m p name (omega arith) (omega arith) here
          (λ l ge lt. others l (omega arith) (omega arith)) in
      (rw miss rest.0, rw miss (omega (arith, rest.1)))
]

-- Filling the first empty entry of a directory that has no entry of that name.
module _ (m : Bytes) (p j : ℕ) (d : ℤ) (name : List ℕ) (text : IsText name) (fit : FitsInt d)
    (real : is_minus_one d ≡ false) (empty : first_empty max_dir_entries 0 m p ≡ some j)
    (new : find_entry max_dir_entries 0 m p name ≡ minus_one) where
  abbrev filled : Bytes
  filled = fill_entry m p j d name

  others_absent : (l : ℕ) → l < max_dir_entries → l ≢ j → entry_is filled p l name ≡ false
  others_absent l lt ne =
      (others-fill m p j d name l name ne).1
      ∙ find_entry-Absent max_dir_entries 0 m p name new l (omega arith) (omega arith)

  -- Filling the first empty entry of a directory that has no entry of a name of less than 40
  -- characters, with an i-node number other than -1 that fits an int, makes the name's search
  -- find that number, and just one entry has the name.
  pub find-fill_short :
      length name < max_file_name
      → (find_entry max_dir_entries 0 filled p name ≡ d)
        × (count_entries max_dir_entries 0 filled p name ≡ 1)
  find-fill_short short =
      let bounds = first_empty-bounds max_dir_entries 0 m p j empty in
      let number = inumber-fill m p j d name fit in
      let here : entry_is filled p j name ≡ true =
        ground (arith, number, is-fill_short m p j d name short) in
      let found =
        single-find_entry max_dir_entries 0 j filled p name (omega arith) bounds.1 here
          (λ l _ lt ne. others_absent l (omega arith) ne) in
      (found.0 ∙ number, found.1)

  -- A name that does not fit is not found.
  pub find-fill_long :
      max_file_name ≤ length name → find_entry max_dir_entries 0 filled p name ≡ minus_one
  find-fill_long long =
      let miss : entry_is filled p j name ≡ false =
        ground (arith, is-fill_long m p j d name text long) in
      (Absent-find_entry max_dir_entries 0 filled p name (λ l _ lt. elim (ℕ_discrete l j) [
        | yes e ↦ ap (λ l. entry_is filled p l name) e ∙ miss
        | no ne ↦ others_absent l (omega arith) ne
      ])).0
