-- ===== src/Memory/Wide.antt =====
-- `size_t` values and texts in raw memory, and copies from one memory to another, as the messages of
-- Parte2/tecnicofs_ex2 hold and move them.
pub mod Laws
use so_file_system.Common.{
  ℕ, zero, suc, ◌+◌, ◌-◌, ◌*◌, ◌/◌, ◌%◌, ◌^◌, List, [], ◌∷◌, Bool, ◌&&◌, Option, none, some, ltb,
  leb, ◌==◌, if◌then◌else◌, to_word, of_word, length,
}
use so_file_system.Memory.{Bytes, load_int, store_int, memcpy}

-- `memcpy(&m[dst], &src[from], n)` from another memory.
unfoldable pub copy_bytes : Bytes → ℕ → Bytes → ℕ → ℕ → Bytes
copy_bytes m dst src from n q = if leb dst q && ltb q (dst + n) then src (from + (q - dst)) else m q

-- A `size_t` of 64 bits, little endian: two words of 32 bits.
unfoldable pub load_size : Bytes → ℕ → ℕ
load_size m a = to_word (load_int m a) + 2 ^ 32 * to_word (load_int m (a + 4))

unfoldable pub store_size : Bytes → ℕ → ℕ → Bytes
store_size m a v = store_int (store_int m a (of_word (v % 2 ^ 32))) (a + 4) (of_word (v / 2 ^ 32))

-- The text at an address, `none` where no terminator is among its first `limit` bytes.
unfoldable pub c_string : ℕ → Bytes → ℕ → Option (List ℕ)
c_string zero m a = none
c_string (suc limit) m a =
    let rest : Option (List ℕ) = elim (c_string limit m (suc a)) [
      | none ↦ none
      | some text ↦ some (m a ∷ text)
    ] in
    if m a == 0 then some [] else rest

-- `strcpy(&m[dst], text)`, the terminator included.
abbrev pub strcpy : Bytes → ℕ → List ℕ → Bytes
strcpy m dst text = memcpy m dst text 0 (suc (length text))
