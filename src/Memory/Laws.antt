-- ===== src/Memory/Laws.antt =====
-- Laws of the accesses to raw memory: what is read after a write, at the address and beside it.
use so_file_system.Common.{
  ℕ, ◌+◌, ◌-◌, ◌*◌, ◌/◌, ◌%◌, ◌^◌, ◌≤◌, ◌<◌, ◌≡◌, ap, ◌∙◌, ◌⊎◌, List, arith, get_or, ℤ, FitsInt,
  to_word, of_word, of_word-to_word, to_word-lt,
}
use so_file_system.Memory.{Bytes, memcpy, load_int, store_int}

pub memcpy_inside :
    (m : Bytes) (dst : ℕ) (src : List ℕ) (from n q : ℕ)
    → dst ≤ q
    → q < dst + n
    → memcpy m dst src from n q ≡ get_or src (from + (q - dst)) 0
unfolding memcpy
memcpy_inside m dst src from n q h k = ground arith

pub memcpy_outside :
    (m : Bytes) (dst : ℕ) (src : List ℕ) (from n q : ℕ)
    → (q < dst) ⊎ (dst + n ≤ q)
    → memcpy m dst src from n q ≡ m q
unfolding memcpy
memcpy_outside m dst src from n q h = ground arith

-- The four bytes of a word make up the word.
word_bytes :
    (w : ℕ)
    → w < 2 ^ 32
    → w % 256 + 256 * (w / 256 % 256) + 65536 * (w / 65536 % 256) + 16777216 * (w / 16777216 % 256)
      ≡ w
word_bytes w h = omega arith

store_int_bytes :
    (m : Bytes) (a : ℕ) (i : ℤ)
    → let w = to_word i in
      (store_int m a i a ≡ w % 256)
      × (store_int m a i (a + 1) ≡ w / 256 % 256)
      × (store_int m a i (a + 2) ≡ w / 65536 % 256)
      × (store_int m a i (a + 3) ≡ w / 16777216 % 256)
unfolding store_int
store_int_bytes m a i = (ground arith, ground arith, ground arith, ground arith)

pub load_int-store_int : (m : Bytes) (a : ℕ) (i : ℤ) → FitsInt i → load_int (store_int m a i) a ≡ i
unfolding load_int
load_int-store_int m a i h =
    let b = store_int_bytes m a i in
    rw (b.0, b.1, b.2, b.3)
      (ap of_word (word_bytes (to_word i) (to_word-lt i h)) ∙ of_word-to_word i h)

pub load_int-congr :
    (m m' : Bytes) (a : ℕ)
    → m a ≡ m' a
    → m (a + 1) ≡ m' (a + 1)
    → m (a + 2) ≡ m' (a + 2)
    → m (a + 3) ≡ m' (a + 3)
    → load_int m a ≡ load_int m' a
unfolding load_int
load_int-congr m m' a p q r s = rw (p, q, r, s)

pub store_int_outside :
    (m : Bytes) (a : ℕ) (i : ℤ) (q : ℕ) → (q < a) ⊎ (a + 4 ≤ q) → store_int m a i q ≡ m q
unfolding store_int
store_int_outside m a i q h = ground arith

-- An `int` that no byte of a written range belongs to.
pub load_int-memcpy :
    (m : Bytes) (dst : ℕ) (src : List ℕ) (from n a : ℕ)
    → (a + 4 ≤ dst) ⊎ (dst + n ≤ a)
    → load_int (memcpy m dst src from n) a ≡ load_int m a
load_int-memcpy m dst src from n a h =
    load_int-congr (memcpy m dst src from n) m a (memcpy_outside m dst src from n a (omega arith))
      (memcpy_outside m dst src from n (a + 1) (omega arith))
      (memcpy_outside m dst src from n (a + 2) (omega arith))
      (memcpy_outside m dst src from n (a + 3) (omega arith))

pub load_int-store_int_ne :
    (m : Bytes) (a b : ℕ) (i : ℤ)
    → (b + 4 ≤ a) ⊎ (a + 4 ≤ b)
    → load_int (store_int m a i) b ≡ load_int m b
load_int-store_int_ne m a b i h =
    load_int-congr (store_int m a i) m b (store_int_outside m a i b (omega arith))
      (store_int_outside m a i (b + 1) (omega arith))
      (store_int_outside m a i (b + 2) (omega arith))
      (store_int_outside m a i (b + 3) (omega arith))
