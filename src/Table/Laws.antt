-- ===== src/Table/Laws.antt =====
-- What the search for a free entry finds: the first one, and none only if all are taken.
use so_file_system.Common.{
  ℕ, zero, suc, ◌+◌, ◌≤◌, ◌<◌, ◌≡◌, refl, inl, inr, none, some, true, false, arith, Option-cases,
}
use so_file_system.Table.{Allocation, free, taken, Table, is_free, first_free}

pub is_free-free : (a : Allocation) → is_free a ≡ true → a ≡ free
is_free-free free h = refl
is_free-free taken h = ground arith

pub is_free-taken : (a : Allocation) → is_free a ≡ false → a ≡ taken
is_free-taken free h = ground arith
is_free-taken taken h = refl

-- The entry found is free and within the limit, and all before it are taken.
pub record Found (t : Table) (limit : ℕ) (j : ℕ) : Type 0 where
  pub within : j < limit
  pub was_free : t j ≡ free
  pub lowest : (i : ℕ) → i < j → t i ≡ taken

first_free-bounds :
    (k i : ℕ) (t : Table) (j : ℕ) → first_free k i t ≡ some j → (i ≤ j) × (j < i + k) × (t j ≡ free)
unfolding first_free
first_free-bounds zero i t j h = cc
first_free-bounds (suc k) i t j h =
    ground (arith, is_free-free (t i), first_free-bounds k (suc i) t j)

first_free-lowest :
    (k i : ℕ) (t : Table) (j l : ℕ) → first_free k i t ≡ some j → i ≤ l → l < j → t l ≡ taken
unfolding first_free
first_free-lowest zero i t j l h p q = cc
first_free-lowest (suc k) i t j l h p q =
    ground (arith, is_free-taken (t i), first_free-lowest k (suc i) t j l)

first_free-none :
    (k i : ℕ) (t : Table) (l : ℕ) → first_free k i t ≡ none → i ≤ l → l < i + k → t l ≡ taken
unfolding first_free
first_free-none zero i t l h p q = absurd (omega arith)
first_free-none (suc k) i t l h p q =
    ground (arith, is_free-taken (t i), first_free-none k (suc i) t l)

pub first_free-Found :
    (limit : ℕ) (t : Table) (j : ℕ) → first_free limit 0 t ≡ some j → Found t limit j
first_free-Found limit t j h = record {
  within = omega (arith, (first_free-bounds limit 0 t j h).1);
  was_free = (first_free-bounds limit 0 t j h).2;
  lowest = λ i p. first_free-lowest limit 0 t j i h (omega arith) p;
}

pub first_free-all_taken :
    (limit : ℕ) (t : Table) (i : ℕ) → first_free limit 0 t ≡ none → i < limit → t i ≡ taken
first_free-all_taken limit t i h p = first_free-none limit 0 t i h (omega arith) (omega arith)

-- A search that some entry would satisfy succeeds.
pub first_free-succeeds :
    (limit : ℕ) (t : Table) (i : ℕ)
    → i < limit
    → t i ≡ free
    → (j : ℕ) × (first_free limit 0 t ≡ some j)
first_free-succeeds limit t i p f = elim (Option-cases (first_free limit 0 t)) [
  | inl e ↦ absurd (ground (arith, first_free-all_taken limit t i e p))
  | inr found ↦ found
]
