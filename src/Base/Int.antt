-- ===== src/Base/Int.antt =====
-- Signed integers, `int` without overflow, with what the programs use of them.
use Prim.Native.Nat.{ℕ, suc, ◌+◌, ◌-◌}
use mathlib.Core.Path.{◌≡◌}
use mathlib.Core.Bool.{Bool}
use native.Mathlib.Omega.{arith}
use gameserver_hide.Base.Tests.{leb, if◌then◌else◌}

-- `negsuc n` is -(n + 1).
pub data ℤ : Type 0 where
  pos : ℕ → ℤ
  negsuc : ℕ → ℤ

abbrev pub pos_part : ℤ → ℕ
pos_part (pos n) = n
pos_part (negsuc n) = 0

abbrev pub neg_part : ℤ → ℕ
neg_part (pos n) = 0
neg_part (negsuc n) = suc n

-- a - b, as an integer.
abbrev pub sub_ℕ : ℕ → ℕ → ℤ
sub_ℕ a b = if leb b a then pos (a - b) else negsuc (b - a - 1)

infixl 65 ◌+ℤ◌ ◌-ℤ◌
unfoldable pub ◌+ℤ◌ : ℤ → ℤ → ℤ
a +ℤ b = sub_ℕ (pos_part a + pos_part b) (neg_part a + neg_part b)

unfoldable pub ◌-ℤ◌ : ℤ → ℤ → ℤ
a -ℤ b = sub_ℕ (pos_part a + neg_part b) (neg_part a + pos_part b)

-- a <= b
abbrev pub lebℤ : ℤ → ℤ → Bool
lebℤ a b = leb (pos_part a + neg_part b) (pos_part b + neg_part a)

-- std::abs
unfoldable pub abs : ℤ → ℤ
abs a = pos (pos_part a + neg_part a)

-- std::min
unfoldable pub minℤ : ℤ → ℤ → ℤ
minℤ a b = if lebℤ a b then a else b

pub abs-sub_comm : (a b : ℤ) → abs (a -ℤ b) ≡ abs (b -ℤ a)
unfolding ◌-ℤ◌ abs
abs-sub_comm a b = ground arith

pub minℤ_comm : (a b : ℤ) → minℤ a b ≡ minℤ b a
unfolding minℤ
minℤ_comm (pos a) (pos b) = ground arith
minℤ_comm (pos a) (negsuc b) = ground arith
minℤ_comm (negsuc a) (pos b) = ground arith
minℤ_comm (negsuc a) (negsuc b) = ground arith
