-- ===== src/Dungeon/Movement.antt =====
-- src/dungeon/authoritative_validation.h and authoritative_validation.cpp. `F` is float: `speed` is the
-- distance by the milliseconds, `exceeds` the comparison. The reason is that of a sample that is refused.
use gameserver_hide.Base.{
  ℕ, zero, suc, Bool, true, false, Option, none, some, Text, text, if◌then◌else◌,
}
use gameserver_hide.Base.Int.{ℤ, pos, negsuc}

pub record MovementSample (F : Type 0) : Type 0 where
  pub character_id : ℕ
  pub distance : F
  pub elapsed : ℤ

-- count() <= 0
abbrev is_not_positive : ℤ → Bool
is_not_positive (pos zero) = true
is_not_positive (pos (suc n)) = false
is_not_positive (negsuc n) = true

unfoldable pub validate :
    {F : Type 0} → (F → ℤ → F) → (F → F → Bool) → F → MovementSample F → Option Text
validate speed exceeds max_speed sample =
    if is_not_positive sample.elapsed
    then some (text "Invalid elapsed time")
    else if exceeds (speed sample.distance sample.elapsed) max_speed
    then some (text "Movement speed exceeds server limit")
    else none
