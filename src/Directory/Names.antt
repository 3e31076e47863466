-- ===== src/Directory/Names.antt =====
-- Comparing a stored name with a text.
use so_file_system.Common.{
  ℕ, zero, suc, ◌+◌, ◌<◌, ◌≤◌, ◌≡◌, refl, sym, ap, ◌∙◌, ◌≢◌, List, [], ◌∷◌, true, false, arith,
  length, get_or,
}
use so_file_system.Memory.{Bytes, strncmp_eq}

-- A C string: no byte of the text is the terminator.
abbrev pub IsText : List ℕ → Type 0
IsText [] = Unit {0}
IsText (c ∷ s) = (c ≢ 0) × IsText s

-- A name that is stored with its terminator, or up to the limit, compares equal.
pub strncmp-stored :
    (n : ℕ) (m : Bytes) (a : ℕ) (s : List ℕ)
    → ((j : ℕ) → j < n → m (a + j) ≡ get_or s j 0)
    → strncmp_eq n m a s ≡ true
unfolding strncmp_eq
strncmp-stored zero m a s h = refl
strncmp-stored (suc n) m a [] h =
    let e : m a ≡ 0 = ap m (omega arith) ∙ h 0 (omega arith) in ground arith
strncmp-stored (suc n) m a (c ∷ s) h =
    let e : m a ≡ c = ap m (omega arith) ∙ h 0 (omega arith) in
    ground
      (arith, strncmp-stored n m (suc a) s (λ j lt. ap m (omega arith) ∙ h (suc j) (omega arith)))

-- A text does not compare equal to a name that differs from it before its end.
pub strncmp-differs :
    (n : ℕ) (m : Bytes) (a : ℕ) (s : List ℕ) (j : ℕ)
    → j < n
    → j < length s
    → m (a + j) ≢ get_or s j 0
    → strncmp_eq n m a s ≡ false
unfolding strncmp_eq
strncmp-differs zero m a s j lt le ne = absurd (omega arith)
strncmp-differs (suc n) m a [] j lt le ne = absurd (omega arith)
strncmp-differs (suc n) m a (c ∷ s) zero lt le ne =
    let e : m a ≡ m (a + 0) = ap m (omega arith) in ground arith
strncmp-differs (suc n) m a (c ∷ s) (suc j) lt le ne =
    let e : m (suc a + j) ≡ m (a + suc j) = ap m (omega arith) in
    ground
      (arith, strncmp-differs n m (suc a) s j (omega arith) (omega arith) (λ r. ne (sym e ∙ r)))

-- The comparison sees only the first `n` bytes.
pub strncmp-congr :
    (n : ℕ) (m m' : Bytes) (a : ℕ) (s : List ℕ)
    → ((j : ℕ) → j < n → m' (a + j) ≡ m (a + j))
    → strncmp_eq n m' a s ≡ strncmp_eq n m a s
unfolding strncmp_eq
strncmp-congr zero m m' a s h = refl
strncmp-congr (suc n) m m' a [] h =
    let e : m' a ≡ m a = ap m' (omega arith) ∙ h 0 (omega arith) ∙ ap m (omega arith) in rw e refl
strncmp-congr (suc n) m m' a (c ∷ s) h =
    let e : m' a ≡ m a = ap m' (omega arith) ∙ h 0 (omega arith) ∙ ap m (omega arith) in
    rw
      (
        e,
        strncmp-congr n m m' (suc a) s
            (λ j lt. ap m' (omega arith) ∙ h (suc j) (omega arith) ∙ ap m (omega arith)),
      )
      refl

-- A text has no byte 0 before its end.
pub text_byte : (s : List ℕ) (j : ℕ) → IsText s → j < length s → get_or s j 0 ≢ 0
text_byte [] j t lt = absurd (omega arith)
text_byte (c ∷ s) zero t lt = t.0
text_byte (c ∷ s) (suc j) t lt = text_byte s j t.1 (omega arith)

pub get_or-beyond : (s : List ℕ) (j : ℕ) → length s ≤ j → get_or s j 0 ≡ 0
get_or-beyond [] j le = refl
get_or-beyond (c ∷ s) zero le = absurd (omega arith)
get_or-beyond (c ∷ s) (suc j) le = get_or-beyond s j (omega arith)
