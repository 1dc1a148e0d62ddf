-- ===== src/Base/Int.antt =====
-- Signed integers over the native numbers: Python's `int`, and `Decimal` in a fixed unit.
use Prim.Native.Nat.{ℕ, suc, ◌+◌, ◌-◌, ◌*◌}
use mathlib.Core.Bool.{Bool, true}
use mathlib.Core.Path.{◌≡◌}
use native.Mathlib.Omega.{arith}
use compute_weaver.Base.Tests.{ltb, leb, if◌then◌else◌}

-- `negsuc n` is -(n + 1).
pub data ℤ : Type 0 where
  pos : ℕ → ℤ
  negsuc : ℕ → ℤ

abbrev pub pos_part : ℤ → ℕ
pos_part (pos n) = n
pos_part (negsuc n) = 0

abbrev pub neg_part : ℤ → ℕ
neg_part (pos n) = 0
neg_part (negsuc n) = suc n

abbrev pub ltb_ℤ : ℤ → ℤ → Bool
ltb_ℤ a b = ltb (pos_part a + neg_part b) (pos_part b + neg_part a)

abbrev pub leb_ℤ : ℤ → ℤ → Bool
leb_ℤ a b = leb (pos_part a + neg_part b) (pos_part b + neg_part a)

abbrev pub is_negative : ℤ → Bool
is_negative a = ltb 0 (neg_part a)

-- `max(0, n - x)` for a stored number `n`, which is never negative
abbrev pub sub_floor : ℕ → ℤ → ℕ
sub_floor n (pos x) = n - x
sub_floor n (negsuc x) = n + suc x

-- a - b, as an integer
abbrev pub sub_ℕ : ℕ → ℕ → ℤ
sub_ℕ a b = if leb b a then pos (a - b) else negsuc (b - a - 1)

infixl 65 ◌+ℤ◌
unfoldable pub ◌+ℤ◌ : ℤ → ℤ → ℤ
a +ℤ b = sub_ℕ (pos_part a + pos_part b) (neg_part a + neg_part b)

-- `n * z` for a number `n` that is not negative
unfoldable pub scale : ℕ → ℤ → ℤ
scale n z = sub_ℕ (n * pos_part z) (n * neg_part z)

module _ (a b : ℤ) where
  -- to add what is not negative gives no less
  pub leb-add : leb_ℤ (pos 0) b ≡ true → leb_ℤ a (a +ℤ b) ≡ true
  unfolding ◌+ℤ◌
  leb-add h = ground arith

  pub leb_add_zero : leb_ℤ (pos 0) a ≡ true → leb_ℤ (pos 0) b ≡ true → leb_ℤ (pos 0) (a +ℤ b) ≡ true
  unfolding ◌+ℤ◌
  leb_add_zero h k = ground arith

  pub leb_trans : (c : ℤ) → leb_ℤ a b ≡ true → leb_ℤ b c ≡ true → leb_ℤ a c ≡ true
  leb_trans c h k = ground arith

pub leb-scale : (n : ℕ) (z : ℤ) → leb_ℤ (pos 0) z ≡ true → leb_ℤ (pos 0) (scale n z) ≡ true
unfolding scale
leb-scale n (pos m) h = ground arith
leb-scale n (negsuc m) h = ground arith
