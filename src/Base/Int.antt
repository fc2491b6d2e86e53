-- ===== src/Base/Int.antt =====
-- Go's signed integers: the integers over the native numbers, and the wrap of `int32(x)`.
use Prim.Native.Nat.{ℕ, suc, ◌+◌, ◌-◌, ◌%◌, ◌^◌, ◌≤◌, ◌<◌}
use mathlib.Core.Path.{◌≡◌}
use mathlib.Core.Bool.{Bool, true, false}
use native.Mathlib.Omega.{arith}
use workspace_websocket_prox.Base.Tests.{ltb, leb, ◌==◌, if◌then◌else◌}

-- `negsuc n` is -(n + 1).
pub data ℤ : Type 0 where
  pos : ℕ → ℤ
  negsuc : ℕ → ℤ

abbrev pub pos_part : ℤ → ℕ
pos_part (pos n) = n
pos_part (negsuc n) = 0

abbrev pub neg_part : ℤ → ℕ
neg_part (pos n) = 0
neg_part (negsuc n) = suc n

-- The difference of two natural numbers.
abbrev pub sub_ℕ : ℕ → ℕ → ℤ
sub_ℕ a b = if leb b a then pos (a - b) else negsuc (b - a - 1)

infixl 65 ◌+ℤ◌
abbrev pub ◌+ℤ◌ : ℤ → ℤ → ℤ
a +ℤ b = sub_ℕ (pos_part a + pos_part b) (neg_part a + neg_part b)

infix 50 ◌≤ℤ◌
abbrev pub ◌≤ℤ◌ : ℤ → ℤ → Type 0
a ≤ℤ b = pos_part a + neg_part b ≤ pos_part b + neg_part a

infix 50 ◌<ℤ◌
abbrev pub ◌<ℤ◌ : ℤ → ℤ → Type 0
a <ℤ b = pos_part a + neg_part b < pos_part b + neg_part a

-- `a <= b` and `a < b` as tests.
abbrev pub leb_ℤ : ℤ → ℤ → Bool
leb_ℤ a b = leb (pos_part a + neg_part b) (pos_part b + neg_part a)

abbrev pub ltb_ℤ : ℤ → ℤ → Bool
ltb_ℤ a b = ltb (pos_part a + neg_part b) (pos_part b + neg_part a)

abbrev pub eqb_ℤ : ℤ → ℤ → Bool
eqb_ℤ (pos a) (pos b) = a == b
eqb_ℤ (negsuc a) (negsuc b) = a == b
eqb_ℤ (pos a) (negsuc b) = false
eqb_ℤ (negsuc a) (pos b) = false

abbrev residue32 : ℤ → ℕ
residue32 (pos n) = n % 2 ^ 32
residue32 (negsuc n) = 2 ^ 32 - 1 - n % 2 ^ 32

-- `int32(x)`: the low 32 bits, read in two's complement.
unfoldable pub int32 : ℤ → ℤ
int32 x = let u = residue32 x in if ltb u (2 ^ 31) then pos u else negsuc (2 ^ 32 - 1 - u)

-- Counting up by one below the largest `int32` does not wrap.
pub int32-succ : (k : ℕ) → k + 1 < 2 ^ 31 → int32 (pos k +ℤ pos 1) ≡ pos (k + 1)
unfolding int32
int32-succ k h = ground arith

pub int32-pred : (k : ℕ) → 0 < k → k < 2 ^ 31 → int32 (pos k +ℤ negsuc 0) ≡ pos (k - 1)
unfolding int32
int32-pred k p h = ground arith

-- No conversion yields more than the largest `int32`.
pub int32-lt : (x : ℤ) → pos_part (int32 x) < 2 ^ 31
unfolding int32
int32-lt x = ground arith

-- From 2^31 on, below 2^32, the conversion is negative.
pub int32-negative : (n : ℕ) → 2 ^ 31 ≤ n → n < 2 ^ 32 → pos_part (int32 (pos n)) ≡ 0
unfolding int32
int32-negative n h k = ground arith

pub eqb_ℤ-refl : (a : ℤ) → eqb_ℤ a a ≡ true
eqb_ℤ-refl (pos n) = ground arith
eqb_ℤ-refl (negsuc n) = ground arith
