-- ===== src/Parte1/External/Text.antt =====
-- What fputs finds in the buffer of tfs_copy_to_external_fs of
-- Parte1/tecnicofs-v2/fs/operations.c.
use so_file_system.Common.{
  ℕ, zero, suc, ◌+◌, ◌-◌, ◌<◌, ◌≤◌, ◌≡◌, refl, sym, ap, ◌∙◌, ◌≢◌, pos, none, some, false, arith,
  lt→ltb, ◌==◌, ℕ_discrete, List, length, get_or,
}
use so_file_system.Config.{buffer_size}
use so_file_system.Memory.{Bytes, memcpy, store_byte}
use so_file_system.Memory.Laws.{memcpy_inside}
use so_file_system.Memory.Wide.{c_string}
use so_file_system.Memory.Wide.Laws.{c_string-text}
use so_file_system.Directory.Names.{IsText, get_or-beyond, text_byte}
use so_file_system.Parte1.External.{read_into}

terminated :
    (buffer : Bytes) (bytes : List ℕ) (n j : ℕ)
    → length bytes ≡ n
    → j ≤ n
    → store_byte (memcpy buffer 0 bytes 0 (length bytes)) n 0 (0 + j) ≡ get_or bytes j 0
unfolding store_byte
terminated buffer bytes n j e le = elim (ℕ_discrete j n) [
  | yes q ↦ ground (arith, q, get_or-beyond bytes j (omega (arith, e)))
  | no ne ↦
      let inside =
        memcpy_inside buffer 0 bytes 0 (length bytes) (0 + j) (omega arith)
          (omega (arith, e, ne)) in
      let same : get_or bytes (0 + (0 + j - 0)) 0 ≡ get_or bytes j 0 =
        ap (λ i. get_or bytes i 0) (omega arith) in
      ground (arith, ne, inside, same)
]

-- What a buffer holds after a short read is a text.
pub short_text :
    (buffer : Bytes) (bytes : List ℕ) (n : ℕ)
    → length bytes ≡ n
    → n < buffer_size
    → IsText bytes
    → c_string buffer_size (read_into buffer (pos n) bytes) 0 ≡ some bytes
unfolding store_byte
short_text buffer bytes n e lt text =
    c_string-text buffer_size (read_into buffer (pos n) bytes) 0 bytes text (omega (arith, e))
      λ j l. rw (lt→ltb n buffer_size lt) (terminated buffer bytes n j e (omega (arith, e)))

c_string-none :
    (limit : ℕ) (m : Bytes) (a : ℕ)
    → ((j : ℕ) → j < limit → m (a + j) ≢ 0)
    → c_string limit m a ≡ none
unfolding c_string
c_string-none zero m a h = refl
c_string-none (suc limit) m a h =
    let ne : m a ≢ 0 = λ e. h 0 (omega arith) (ap m (omega arith) ∙ e) in
    let miss : (m a == 0) ≡ false = ground (arith, ne) in
    let rest =
      c_string-none limit m (suc a) (λ j lt e. h (suc j) (omega arith) (ap m (omega arith) ∙ e)) in
    rw (miss, rest) refl

-- What it holds after a full one is none.
pub overrun_text :
    (buffer : Bytes) (bytes : List ℕ)
    → length bytes ≡ buffer_size
    → IsText bytes
    → c_string buffer_size (read_into buffer (pos buffer_size) bytes) 0 ≡ none
overrun_text buffer bytes e text =
    c_string-none buffer_size (read_into buffer (pos buffer_size) bytes) 0 λ j lt q.
      text_byte bytes j text (omega (arith, e)) (
        ap (λ i. get_or bytes i 0) (omega arith)
        ∙ sym
            (memcpy_inside buffer 0 bytes 0 (length bytes) (0 + j) (omega arith) (omega (arith, e)))
        ∙ q)
