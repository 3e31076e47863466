-- ===== src/Common/Ints.antt =====
-- C integers: `int` as ℤ over the native numbers, `size_t` as a number below 2 ^ 64.
use Prim.Native.Nat.{ℕ, ◌+◌, ◌-◌, ◌%◌, ◌/◌, ◌^◌, ◌<◌}
use mathlib.Core.Path.{◌≡◌}
use mathlib.Core.Bool.{Bool, true, false}
use native.Mathlib.Omega.{arith}
use so_file_system.Common.Tests.{if◌then◌else◌, ltb, ◌==◌}

-- `negsuc n` is -(n + 1).
pub data ℤ : Type 0 where
  pos : ℕ → ℤ
  negsuc : ℕ → ℤ

-- What the functions of both parts return for an error, and store in an unused directory entry.
abbrev pub minus_one : ℤ
minus_one = negsuc 0

-- `x == -1`
abbrev pub is_minus_one : ℤ → Bool
is_minus_one (pos n) = false
is_minus_one (negsuc n) = n == 0

-- `x >= 0 && x < limit`
abbrev pub in_range : ℤ → ℕ → Bool
in_range (pos n) limit = ltb n limit
in_range (negsuc n) limit = false

-- `x >= 0`
abbrev pub is_nonneg : ℤ → Bool
is_nonneg (pos n) = true
is_nonneg (negsuc n) = false

-- The array index that a non-negative `int` stands for.
abbrev pub index : ℤ → ℕ
index (pos n) = n
index (negsuc n) = 0

abbrev pub size_mod : ℕ
size_mod = 2 ^ 64

-- `size_t` addition and subtraction wrap.
abbrev pub add_size : ℕ → ℕ → ℕ
add_size a b = (a + b) % size_mod

abbrev pub sub_size : ℕ → ℕ → ℕ
sub_size a b = (a + size_mod - b) % size_mod

-- The two's complement pattern of an `int` of 32 bits, and the `int` of a pattern.
abbrev pub to_word : ℤ → ℕ
to_word (pos n) = n
to_word (negsuc n) = 2 ^ 32 - 1 - n

abbrev pub of_word : ℕ → ℤ
of_word w = if ltb w (2 ^ 31) then pos w else negsuc (2 ^ 32 - 1 - w)

-- The range of `int`.
abbrev pub FitsInt : ℤ → Type 0
FitsInt (pos n) = n < 2 ^ 31
FitsInt (negsuc n) = n < 2 ^ 31

pub of_word-to_word : (i : ℤ) → FitsInt i → of_word (to_word i) ≡ i
of_word-to_word (pos n) h = ground arith
of_word-to_word (negsuc n) h = ground arith

pub to_word-lt : (i : ℤ) → FitsInt i → to_word i < 2 ^ 32
to_word-lt (pos n) h = omega arith
to_word-lt (negsuc n) h = omega arith

-- `flags & bit` for `bit` a power of two.
abbrev pub has_flag : ℕ → ℕ → Bool
has_flag flags bit = (flags / bit) % 2 == 1
