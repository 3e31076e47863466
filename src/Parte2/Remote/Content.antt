-- ===== src/Parte2/Remote/Content.antt =====
-- The bytes of a file on their way between a caller of
-- Parte2/tecnicofs_ex2/client/tecnicofs_client_api.c and Parte2/tecnicofs_ex2/fs/tfs_server.c.
use so_file_system.Common.{
  ℕ, suc, ◌+◌, ◌-◌, ◌^◌, ◌<◌, ◌≤◌, ◌≡◌, refl, ap, sym, ◌∙◌, inl, inr, List, [], ◌∷◌, arith,
  if◌then◌else◌, ℤ, pos, is_nonneg, index, length, length-slice, get_or, slice, slice-congr,
}
use so_file_system.Memory.{Bytes, load_int, store_int, memcpy}
use so_file_system.Memory.Laws.{load_int-store_int, store_int_outside, memcpy_inside}
use so_file_system.Memory.Wide.Laws.{Agrees, load_int-Agrees, get_or-slice}
use so_file_system.Parte2.Server.Handlers.{to_int, read_answer}
use so_file_system.Parte2.Remote.Results.{ReadResult, to_int-FitsInt}

next : (x : ℕ) (l : List ℕ) (j : ℕ) → get_or (x ∷ l) (1 + j) 0 ≡ get_or l (0 + j) 0
next x l j =
    let e : 1 + j ≡ suc j = omega arith in
    let e' : j ≡ 0 + j = omega arith in ap (λ i. get_or (x ∷ l) i 0) e ∙ ap (λ i. get_or l i 0) e'

slice-get_or : (l : List ℕ) → slice (λ j. get_or l j 0) 0 (length l) ≡ l
slice-get_or [] = refl
slice-get_or (x ∷ l) =
    ap (λ t. x ∷ t)
      (slice-congr (λ j. get_or (x ∷ l) j 0) (λ j. get_or l j 0) 1 0 (length l) (λ j lt. next x l j)
        ∙ slice-get_or l)

-- A buffer that has been copied whole.
pub slice-memcpy :
    (m : Bytes) (a : ℕ) (l : List ℕ) → slice (memcpy m a l 0 (length l)) a (length l) ≡ l
slice-memcpy m a l =
    slice-congr (memcpy m a l 0 (length l)) (λ j. get_or l j 0) a 0 (length l)
      (λ j lt.
        memcpy_inside m a l 0 (length l) (a + j) (omega arith) (omega arith)
        ∙ ap (λ q. get_or l q 0) (omega arith))
    ∙ slice-get_or l

pub length-read_answer :
    (stack : Bytes) (len : ℕ) (out : ℤ) (bytes : List ℕ)
    → length (read_answer stack len out bytes) ≡ len + 4
unfolding read_answer
length-read_answer stack len out bytes = length-slice _ 0 (len + 4)

to_int_small : (n : ℕ) → n < 2 ^ 31 → to_int (pos n) ≡ pos n
to_int_small n lt = ground arith

module _ (stack junk : Bytes) (out : ℤ) (len : ℕ) (bytes : List ℕ) (lt : len < 2 ^ 31)
    (q : ReadResult len (out, bytes)) where
  abbrev sent : Bytes
  sent = store_int (memcpy stack 4 bytes 0 (length bytes)) 0 (to_int out)

  abbrev answer : List ℕ
  answer = slice sent 0 (len + 4)

  abbrev arrived : Bytes
  arrived = memcpy junk 0 answer 0 (length answer)

  same : Agrees (len + 4) sent arrived
  same p h =
      memcpy_inside junk 0 answer 0 (length answer) p (omega arith)
        (omega (arith, length-slice sent 0 (len + 4)))
      ∙ get_or-slice sent 0 (len + 4) (0 + (p - 0)) (omega arith)
      ∙ ap sent (omega arith)

  result : to_int out ≡ out
  result = elim q [
    | inl (o, b) ↦ rw o refl
    | inr (o, le) ↦ ap to_int o ∙ to_int_small (length bytes) (omega arith) ∙ sym o
  ]

  content : length bytes ≤ len → slice arrived 4 (length bytes) ≡ bytes
  content le =
      slice-congr arrived (memcpy stack 4 bytes 0 (length bytes)) 4 4 (length bytes) (λ j h.
        same (4 + j) (omega arith)
        ∙ store_int_outside (memcpy stack 4 bytes 0 (length bytes)) 0 (to_int out) (4 + j)
            (omega arith))
      ∙ slice-memcpy stack 4 bytes

  kept :
      (i : ℤ)
      → ReadResult len (i, bytes)
      → (if is_nonneg i then slice arrived 4 (index i) else []) ≡ bytes
  kept i (inl (o, b)) = rw o (sym b)
  kept i (inr (o, le)) = rw o (content le)

  -- The memory that an answer of tfs_read is read into.
  pub read_content :
      let answer = read_answer stack len out bytes in
      let m = memcpy junk 0 answer 0 (length answer) in
      (load_int m 0 ≡ out) × ((if is_nonneg out then slice m 4 (index out) else []) ≡ bytes)
  unfolding read_answer
  read_content = (
    load_int-Agrees (len + 4) sent arrived 0 same (omega arith)
        ∙ load_int-store_int (memcpy stack 4 bytes 0 (length bytes)) 0 (to_int out)
            (to_int-FitsInt out)
        ∙ result,
    kept out q,
  )
