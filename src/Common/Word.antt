-- ===== src/Common/Word.antt =====
-- Go's `int` on a 64-bit platform: an integer, with the wrap-around of its arithmetic written out.
use web_novel.Common.Tests.{ltb, if◌then◌else◌}
use web_novel.Common.Int.{
  ℤ, pos, negsuc, pos_part, neg_part, ◌+ℤ◌, ◌-ℤ◌, ◌*ℤ◌, -ℤ◌, int_laws, part_zero,
}
use Prim.Native.Nat.{ℕ, ◌+◌, ◌-◌, ◌/◌, ◌%◌, ◌^◌, ◌≤◌, ◌<◌}
use mathlib.Core.Path.{◌≡◌}
use native.Mathlib.Omega.{arith}

-- An integer as a `w`-bit two's complement word keeps its residue modulo `m = 2 ^ w`.
wrap : ℕ → ℤ → ℤ
wrap m (pos n) = let r = n % m in if ltb r (m / 2) then pos r else negsuc (m - 1 - r)
wrap m (negsuc n) = let r = n % m in if ltb r (m / 2) then negsuc r else pos (m - 1 - r)

abbrev pub IsInt64 : ℤ → Type 0
IsInt64 a = (pos_part a < 2 ^ 63) × (neg_part a ≤ 2 ^ 63)

-- An amount that an INT column holds.
abbrev pub IsInt32 : ℤ → Type 0
IsInt32 a = (pos_part a < 2 ^ 31) × (neg_part a < 2 ^ 31 + 1)

-- The conversions `int64(x)`, which every operation of `int` ends with, and `int16(x)`.
unfoldable pub int64 : ℤ → ℤ
unfolding wrap
int64 = wrap (2 ^ 64)

unfoldable pub int16 : ℤ → ℤ
unfolding wrap
int16 = wrap (2 ^ 16)

unfoldable pub add64 : ℤ → ℤ → ℤ
add64 a b = int64 (a +ℤ b)

unfoldable pub sub64 : ℤ → ℤ → ℤ
sub64 a b = int64 (a -ℤ b)

unfoldable pub mul64 : ℤ → ℤ → ℤ
mul64 a b = int64 (a *ℤ b)

unfoldable pub neg64 : ℤ → ℤ
neg64 a = int64 (-ℤ◌ a)

-- Division and remainder truncate toward zero; the divisor is not zero where they are used.
unfoldable pub div64 : ℤ → ℕ → ℤ
div64 (pos n) d = pos (n / d)
div64 (negsuc n) d = int64 (-ℤ◌ (pos ((n + 1) / d)))

unfoldable pub rem64 : ℤ → ℕ → ℤ
rem64 (pos n) d = pos (n % d)
rem64 (negsuc n) d = int64 (-ℤ◌ (pos ((n + 1) % d)))

-- A value in range is its own word.
pub int64_exact : (a : ℤ) → pos_part a < 2 ^ 63 → neg_part a ≤ 2 ^ 63 → int64 a ≡ a
unfolding int64
int64_exact (pos n) h k = ground arith
int64_exact (negsuc n) h k = ground arith

-- Every word is in range.
pub int64-IsInt64 : (a : ℤ) → IsInt64 (int64 a)
unfolding int64
int64-IsInt64 (pos n) = ground arith
int64-IsInt64 (negsuc n) = ground arith

pub int16_exact : (a : ℤ) → pos_part a < 2 ^ 15 → neg_part a ≤ 2 ^ 15 → int16 a ≡ a
unfolding int16
int16_exact (pos n) h k = ground arith
int16_exact (negsuc n) h k = ground arith

-- Where the exact result is in range, so is every operation's.
pub add64_exact :
    (a b : ℤ)
    → pos_part a + pos_part b < 2 ^ 63
    → neg_part a + neg_part b ≤ 2 ^ 63
    → add64 a b ≡ a +ℤ b
unfolding add64
add64_exact a b h k =
    int64_exact (a +ℤ b) (omega (int_laws, part_zero (a +ℤ b)))
      (omega (int_laws, part_zero (a +ℤ b)))

pub sub64_exact :
    (a b : ℤ)
    → pos_part a + neg_part b < 2 ^ 63
    → neg_part a + pos_part b ≤ 2 ^ 63
    → sub64 a b ≡ a -ℤ b
unfolding sub64
sub64_exact a b h k =
    int64_exact (a -ℤ b) (omega (int_laws, part_zero (a -ℤ b)))
      (omega (int_laws, part_zero (a -ℤ b)))

pub neg64_exact : (a : ℤ) → neg_part a < 2 ^ 63 → pos_part a ≤ 2 ^ 63 → neg64 a ≡ -ℤ◌ a
unfolding neg64
neg64_exact a h k = int64_exact (-ℤ◌ a) (omega int_laws) (omega int_laws)
