-- ===== src/Memory.antt =====
-- Raw memory: an array of bytes with the accesses that the file systems make to `fs_data`
-- (Parte1/tecnicofs-v2/fs/state.c and Parte2/tecnicofs_ex2/fs/state.c), as bytes, as `int`s (32 bits,
-- little endian) and as names of directory entries. An address is an offset in the array.
pub mod Laws
pub mod Wide
use so_file_system.Common.{
  ℕ, zero, suc, ◌+◌, ◌-◌, ◌*◌, ◌/◌, ◌%◌, ◌^◌, List, [], ◌∷◌, Bool, true, ◌&&◌, ltb, leb, ◌==◌,
  if◌then◌else◌, get_or, ℤ, to_word, of_word,
}

abbrev pub Bytes : Type 0
Bytes = ℕ → ℕ

-- `memcpy(&m[dst], &src[from], n)`; a read past the end of `src` gives 0.
unfoldable pub memcpy : Bytes → ℕ → List ℕ → ℕ → ℕ → Bytes
memcpy m dst src from n q =
    if leb dst q && ltb q (dst + n) then get_or src (from + (q - dst)) 0 else m q

-- The `int` at an address, and the assignment of one.
unfoldable pub load_int : Bytes → ℕ → ℤ
load_int m a = of_word (m a + 256 * m (a + 1) + 65536 * m (a + 2) + 16777216 * m (a + 3))

unfoldable pub store_int : Bytes → ℕ → ℤ → Bytes
store_int m a i q =
    let w = to_word i in
    if q == a
    then w % 256
    else if q == a + 1
    then w / 256 % 256
    else if q == a + 2
    then w / 65536 % 256
    else if q == a + 3
    then w / 16777216 % 256
    else m q

-- `strncpy(&m[dst], src, n)`: the text is the list of its bytes before the terminator, and what is
-- left of the `n` bytes is filled with zeros.
unfoldable pub strncpy : Bytes → ℕ → List ℕ → ℕ → Bytes
strncpy m dst src n q = if leb dst q && ltb q (dst + n) then get_or src (q - dst) 0 else m q

-- `m[a] = v`
unfoldable pub store_byte : Bytes → ℕ → ℕ → Bytes
store_byte m a v q = if q == a then v else m q

-- `strncmp(&m[a], s, n) == 0`; the text `s` has no byte 0, so both end only where `s` does.
unfoldable pub strncmp_eq : ℕ → Bytes → ℕ → List ℕ → Bool
strncmp_eq zero m a s = true
strncmp_eq (suc n) m a [] = m a == 0
strncmp_eq (suc n) m a (c ∷ s) = m a == c && strncmp_eq n m (suc a) s
