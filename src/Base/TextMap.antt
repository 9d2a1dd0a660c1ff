-- ===== src/Base/TextMap.antt =====
-- `std::unordered_map` with `std::string` keys, as an association list.
use mathlib.Core.Path.{◌≡◌, refl}
use mathlib.Core.Logic.{◌↔◌}
use mathlib.Core.Bool.{Bool, true, false}
use mathlib.Core.Option.{Option, none, some}
use mathlib.Core.List.{List, [], ◌∷◌}
use native.Mathlib.Omega.{arith}
use gameserver_hide.Base.Tests.{Text, ◌==◌, if◌then◌else◌}

-- std::string's ==
unfoldable pub same_text : Text → Text → Bool
same_text [] [] = true
same_text [] (y ∷ ys) = false
same_text (x ∷ xs) [] = false
same_text (x ∷ xs) (y ∷ ys) = let rest = same_text xs ys in if x == y then rest else false

pub same_text_iff : (a b : Text) → (same_text a b ≡ true) ↔ (a ≡ b)
unfolding same_text
same_text_iff [] [] = ground arith
same_text_iff [] (y ∷ ys) = ground arith
same_text_iff (x ∷ xs) [] = ground arith
same_text_iff (x ∷ xs) (y ∷ ys) = ground (arith, same_text_iff xs ys)

pub same_text_refl : (a : Text) → same_text a a ≡ true
same_text_refl a = (same_text_iff a a).1 refl

abbrev pub TextMap {ℓ} : Type ℓ → Type ℓ
TextMap V = List (Text × V)

module _ {ℓ} {V : Type ℓ} where
  -- m.find(k)
  unfoldable pub find_text : Text → TextMap V → Option V
  find_text k [] = none
  find_text k ((j, v) ∷ m) = if same_text j k then some v else find_text k m

  -- m[k] = v
  unfoldable pub put_text : Text → V → TextMap V → TextMap V
  put_text k v [] = (k, v) ∷ []
  put_text k v ((j, w) ∷ m) = if same_text j k then (k, v) ∷ m else (j, w) ∷ put_text k v m

  -- m.erase(k)
  unfoldable pub erase_text : Text → TextMap V → TextMap V
  erase_text k [] = []
  erase_text k ((j, v) ∷ m) =
      let rest = erase_text k m in if same_text j k then rest else (j, v) ∷ rest

  pub find_text-put_text :
      (k j : Text) (v : V) (m : TextMap V)
      → find_text j (put_text k v m) ≡ (if same_text k j then some v else find_text j m)
  unfolding find_text put_text
  find_text-put_text k j v [] = refl
  find_text-put_text k j v ((i, w) ∷ m) =
      ground
        (arith, find_text-put_text k j v m, same_text_iff k j, same_text_iff i j, same_text_iff i k)

  pub find_text-erase_text :
      (k j : Text) (m : TextMap V)
      → find_text j (erase_text k m) ≡ (if same_text k j then none else find_text j m)
  unfolding find_text erase_text
  find_text-erase_text k j [] = ground arith
  find_text-erase_text k j ((i, w) ∷ m) =
      ground
        (arith, find_text-erase_text k j m, same_text_iff k j, same_text_iff i j, same_text_iff i k)

  pub find_text-nil : (k : Text) → find_text k [] ≡ none
  unfolding find_text
  find_text-nil k = refl
