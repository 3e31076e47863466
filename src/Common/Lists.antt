-- ===== src/Common/Lists.antt =====
-- Lists measured and indexed by native numbers, under the library's names, and arrays as functions.
use Prim.Native.Nat.{ℕ, zero, suc, ◌+◌, ◌<◌}
use mathlib.Core.Path.{◌≡◌, refl, sym, ap, ap₂, fun_ext, ◌∙◌}
use mathlib.Core.Bool.{Bool, true, false}
use mathlib.Core.Logic.{inl, inr}
use mathlib.Core.List.{List, [], ◌∷◌, ◌++◌}
use native.Mathlib.Omega.{arith}
use so_file_system.Common.Tests.{if◌then◌else◌, ◌==◌, ==_iff, Bool-cases}

module _ {ℓ} {A : Type ℓ} where
  abbrev pub length : List A → ℕ
  length [] = 0
  length (x ∷ xs) = suc (length xs)

  abbrev pub get_or : List A → ℕ → A → A
  get_or [] i d = d
  get_or (x ∷ xs) zero d = x
  get_or (x ∷ xs) (suc i) d = get_or xs i d

  -- An array with one cell assigned.
  abbrev pub update : (ℕ → A) → ℕ → A → ℕ → A
  update f i v j = if j == i then v else f j

  pub update-update : (f : ℕ → A) (i : ℕ) (v w : A) → update (update f i v) i w ≡ update f i w
  update-update f i v w = fun_ext λ j. ground arith

  -- The cells `i`, `i + 1`, … of an array.
  abbrev pub slice : (ℕ → A) → ℕ → ℕ → List A
  slice f i zero = []
  slice f i (suc n) = f i ∷ slice f (suc i) n

  pub length-append : (xs ys : List A) → length (xs ++ ys) ≡ length xs + length ys
  length-append [] ys = omega arith
  length-append (x ∷ xs) ys = omega (arith, length-append xs ys)

  pub length-slice : (f : ℕ → A) (i n : ℕ) → length (slice f i n) ≡ n
  length-slice f i zero = refl
  length-slice f i (suc n) = ap suc (length-slice f (suc i) n)

  pub slice-congr :
      (f g : ℕ → A) (i j n : ℕ)
      → ((k : ℕ) → k < n → f (i + k) ≡ g (j + k))
      → slice f i n ≡ slice g j n
  slice-congr f g i j zero h = refl
  slice-congr f g i j (suc n) h =
      ap₂ ◌∷◌ (ap f (omega arith) ∙ h 0 (omega arith) ∙ ap g (omega arith)) (
        slice-congr f g (suc i) (suc j) n
          (λ k p. ap f (omega arith) ∙ h (suc k) (omega arith) ∙ ap g (omega arith)))

  pub slice-append : (f : ℕ → A) (i m n : ℕ) → slice f i m ++ slice f (i + m) n ≡ slice f i (m + n)
  slice-append f i zero n =
      let e : i + 0 ≡ i = omega arith in
      let e' : 0 + n ≡ n = omega arith in ap (λ k. slice f k n) e ∙ sym (ap (slice f i) e')
  slice-append f i (suc m) n =
      let e : i + suc m ≡ suc i + m = omega arith in
      let e' : suc (m + n) ≡ suc m + n = omega arith in
      ap (λ k. slice f i (suc m) ++ slice f k n) e
      ∙ ap (λ r. f i ∷ r) (slice-append f (suc i) m n)
      ∙ ap (slice f i) e'

-- A fact of every cell, after cell `k` alone has changed.
pub changed_at :
    (P : Bool → ℕ → Type 0) (k : ℕ) → P true k → ((j : ℕ) → P false j) → (j : ℕ) → P (j == k) j
changed_at P k here there j = elim (Bool-cases (j == k)) [
  | inl e ↦ rw (e, (==_iff j k).0 e) here
  | inr e ↦ rw e (there j)
]

pub update-all {ℓ} :
    {A : Type ℓ} (P : A → Type 0) (f : ℕ → A) (k : ℕ) (v : A)
    → P v
    → ((j : ℕ) → P (f j))
    → (j : ℕ) → P (update f k v j)
update-all P f k v here there = changed_at (λ b j. P (if b then v else f j)) k here there
