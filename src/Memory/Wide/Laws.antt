-- ===== src/Memory/Wide/Laws.antt =====
-- What memories that agree on their first bytes hold, and texts and sizes that have been stored.
use so_file_system.Common.{
  ℕ, zero, suc, ◌+◌, ◌/◌, ◌%◌, ◌^◌, ◌<◌, ◌≤◌, ◌≡◌, refl, ap, ◌∙◌, List, [], ◌∷◌, some, false, arith,
  ◌==◌, FitsInt, to_word, of_word, length, get_or, slice,
}
use so_file_system.Memory.{Bytes, load_int, store_int}
use so_file_system.Memory.Laws.{load_int-store_int, load_int-store_int_ne, load_int-congr}
use so_file_system.Memory.Wide.{load_size, store_size, c_string}
use so_file_system.Directory.Names.{IsText}

-- The first `n` bytes are the same.
abbrev pub Agrees : ℕ → Bytes → Bytes → Type 0
Agrees n m m' = (q : ℕ) → q < n → m' q ≡ m q

pub load_int-Agrees :
    (n : ℕ) (m m' : Bytes) (a : ℕ) → Agrees n m m' → a + 4 ≤ n → load_int m' a ≡ load_int m a
load_int-Agrees n m m' a same le =
    load_int-congr m' m a (same a (omega arith)) (same (a + 1) (omega arith))
      (same (a + 2) (omega arith)) (same (a + 3) (omega arith))

pub load_size-Agrees :
    (n : ℕ) (m m' : Bytes) (a : ℕ) → Agrees n m m' → a + 8 ≤ n → load_size m' a ≡ load_size m a
unfolding load_size
load_size-Agrees n m m' a same le =
    rw
      (
        load_int-Agrees n m m' a same (omega arith),
        load_int-Agrees n m m' (a + 4) same (omega arith),
      )
      refl

to_word-of_word : (w : ℕ) → w < 2 ^ 32 → to_word (of_word w) ≡ w
to_word-of_word w h = ground arith

pub of_word-FitsInt : (w : ℕ) → w < 2 ^ 32 → FitsInt (of_word w)
of_word-FitsInt w h = ground arith

pub load_size-store_size : (m : Bytes) (a v : ℕ) → v < 2 ^ 64 → load_size (store_size m a v) a ≡ v
unfolding load_size store_size
load_size-store_size m a v h =
    let low = of_word (v % 2 ^ 32) in
    let high = of_word (v / 2 ^ 32) in
    let m1 = store_int m a low in
    rw
      (
        load_int-store_int_ne m1 (a + 4) a high (omega arith),
        load_int-store_int m a low (of_word-FitsInt (v % 2 ^ 32) (omega arith)),
        load_int-store_int m1 (a + 4) high (of_word-FitsInt (v / 2 ^ 32) (omega arith)),
        to_word-of_word (v % 2 ^ 32) (omega arith),
        to_word-of_word (v / 2 ^ 32) (omega arith),
      )
      (omega arith)

-- A text that lies in memory with its terminator is read back.
pub c_string-text :
    (limit : ℕ) (m : Bytes) (a : ℕ) (text : List ℕ)
    → IsText text
    → length text < limit
    → ((j : ℕ) → j < suc (length text) → m (a + j) ≡ get_or text j 0)
    → c_string limit m a ≡ some text
unfolding c_string
c_string-text zero m a text t lt h = absurd (omega arith)
c_string-text (suc limit) m a [] t lt h =
    let e : m a ≡ 0 = ap m (omega arith) ∙ h 0 (omega arith) in rw e refl
c_string-text (suc limit) m a (c ∷ text) t lt h =
    let e : m a ≡ c = ap m (omega arith) ∙ h 0 (omega arith) in
    let rest : c_string limit m (suc a) ≡ some text =
      c_string-text limit m (suc a) text t.1 (omega arith)
        (λ j l. ap m (omega arith) ∙ h (suc j) (omega arith)) in
    let ne : (c == 0) ≡ false = ground (arith, t.0) in
    rw (e, ne, rest) (ap (λ b. some (b ∷ text)) e)

pub get_or-slice : (f : ℕ → ℕ) (a n j : ℕ) → j < n → get_or (slice f a n) j 0 ≡ f (a + j)
get_or-slice f a zero j lt = absurd (omega arith)
get_or-slice f a (suc n) zero lt = ap f (omega arith)
get_or-slice f a (suc n) (suc j) lt = get_or-slice f (suc a) n j (omega arith) ∙ ap f (omega arith)
