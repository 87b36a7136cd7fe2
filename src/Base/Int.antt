-- ===== src/Base/Int.antt =====
-- Signed integers over the native numbers, under the library's names (its ℤ stands on the unary ℕ),
-- and the two's complement arithmetic of a 64-bit `long int` / `int64_t`.
use Prim.Native.Nat.{ℕ, suc, ◌+◌, ◌-◌, ◌*◌, ◌%◌, ◌^◌, ◌≤◌, ◌<◌}
use mathlib.Core.Path.{◌≡◌}
use mathlib.Core.Bool.{Bool}
use native.Mathlib.Omega.{arith}
use redisclient.Base.Tests.{ltb, leb, ◌==◌, if◌then◌else◌}

-- `negsuc n` is -(n + 1).
pub data ℤ : Type 0 where
  pos : ℕ → ℤ
  negsuc : ℕ → ℤ

abbrev pub pos_part : ℤ → ℕ
pos_part (pos n) = n
pos_part (negsuc n) = 0

abbrev pub neg_part : ℤ → ℕ
neg_part (pos n) = 0
neg_part (negsuc n) = suc n

-- a - b, as an integer.
abbrev pub sub_ℕ : ℕ → ℕ → ℤ
sub_ℕ a b = if leb b a then pos (a - b) else negsuc (b - a - 1)

infix 50 ◌==ℤ◌
abbrev pub ◌==ℤ◌ : ℤ → ℤ → Bool
a ==ℤ b = pos_part a + neg_part b == pos_part b + neg_part a

abbrev pub ltb_ℤ : ℤ → ℤ → Bool
ltb_ℤ a b = ltb (pos_part a + neg_part b) (pos_part b + neg_part a)

-- The residue of an integer modulo 2 ^ 64.
abbrev pub residue : ℤ → ℕ
residue (pos n) = n % 2 ^ 64
residue (negsuc n) = 2 ^ 64 - 1 - n % 2 ^ 64

-- The signed number that a 64-bit pattern stands for.
abbrev pub signed64 : ℕ → ℤ
signed64 w = if ltb w (2 ^ 63) then pos w else negsuc (2 ^ 64 - w - 1)

-- Arithmetic on `long int`, whose results wrap.
unfoldable pub wrap64 : ℤ → ℤ
wrap64 z = signed64 (residue z)

unfoldable pub add64 : ℤ → ℤ → ℤ
unfolding wrap64
add64 a b = wrap64 (sub_ℕ (pos_part a + pos_part b) (neg_part a + neg_part b))

unfoldable pub sub64 : ℤ → ℤ → ℤ
unfolding wrap64
sub64 a b = wrap64 (sub_ℕ (pos_part a + neg_part b) (neg_part a + pos_part b))

unfoldable pub mul64 : ℤ → ℤ → ℤ
unfolding wrap64
mul64 a b = wrap64 (
    sub_ℕ (pos_part a * pos_part b + neg_part a * neg_part b)
      (pos_part a * neg_part b + neg_part a * pos_part b))

unfoldable pub neg64 : ℤ → ℤ
unfolding wrap64
neg64 a = wrap64 (sub_ℕ (neg_part a) (pos_part a))

-- The range of `int64_t`.
abbrev pub IsInt64 : ℤ → Type 0
IsInt64 (pos n) = n < 2 ^ 63
IsInt64 (negsuc n) = n < 2 ^ 63

-- Taking off at most what a number holds does not wrap.
pub sub64_within :
    (z : ℤ) (k : ℕ)
    → IsInt64 z
    → k ≤ pos_part z
    → neg_part z ≡ 0
    → sub64 z (pos k) ≡ pos (pos_part z - k)
unfolding sub64
sub64_within (pos n) k h l s = ground arith
sub64_within (negsuc n) k h l s = absurd (omega arith)

pub mul64_ten : (n : ℕ) → n * 10 < 2 ^ 63 → mul64 (pos n) (pos 10) ≡ pos (n * 10)
unfolding mul64
mul64_ten n h = ground arith

pub add64-pos : (n k : ℕ) → n + k < 2 ^ 63 → add64 (pos n) (pos k) ≡ pos (n + k)
unfolding add64
add64-pos n k h = ground arith

-- Negation is exact on a positive number, also on 2 ^ 63, which stands for the least `int64_t`.
pub neg64-wrap64 : (n : ℕ) → n < 2 ^ 63 → neg64 (wrap64 (pos (suc n))) ≡ negsuc n
unfolding neg64
neg64-wrap64 n h = ground arith
