-- ===== src/Base/Map.antt =====
-- `std::unordered_map` with integer keys, as an association list. The order of the list stands
-- for the iteration order of the container, which the language leaves open.
use Prim.Native.Nat.{ℕ}
use mathlib.Core.Path.{◌≡◌, refl}
use mathlib.Core.Bool.{Bool, false, ◌||◌}
use mathlib.Core.Option.{Option, none, some}
use mathlib.Core.List.{List, [], ◌∷◌}
use native.Mathlib.Omega.{arith}
use gameserver_hide.Base.Tests.{◌==◌, if◌then◌else◌, is_some}

abbrev pub Map {ℓ} : Type ℓ → Type ℓ
Map V = List (ℕ × V)

-- `k` is among `ks`.
unfoldable pub elem : ℕ → List ℕ → Bool
elem k [] = false
elem k (j ∷ ks) = j == k || elem k ks

module _ {ℓ} {V : Type ℓ} where
  -- m.find(k)
  unfoldable pub find : ℕ → Map V → Option V
  find k [] = none
  find k ((j, v) ∷ m) = if j == k then some v else find k m

  -- m.count(k) > 0
  abbrev pub contains : ℕ → Map V → Bool
  contains k m = is_some (find k m)

  -- m[k] = v
  unfoldable pub put : ℕ → V → Map V → Map V
  put k v [] = (k, v) ∷ []
  put k v ((j, w) ∷ m) = if j == k then (k, v) ∷ m else (j, w) ∷ put k v m

  -- m.erase(k)
  unfoldable pub erase : ℕ → Map V → Map V
  erase k [] = []
  erase k ((j, v) ∷ m) = let rest = erase k m in if j == k then rest else (j, v) ∷ rest

  -- m.emplace(k, v): an entry that is there stays.
  unfoldable pub emplace : ℕ → V → Map V → Map V
  unfolding put
  emplace k v m = if contains k m then m else put k v m

  -- for (k : ks) m.erase(k)
  unfoldable pub erase_all : List ℕ → Map V → Map V
  unfolding erase
  erase_all [] m = m
  erase_all (k ∷ ks) m = erase_all ks (erase k m)

  -- The keys in iteration order.
  unfoldable pub keys : Map V → List ℕ
  keys [] = []
  keys ((k, v) ∷ m) = k ∷ keys m

  -- The values in iteration order.
  unfoldable pub values : Map V → List V
  values [] = []
  values ((k, v) ∷ m) = v ∷ values m

  -- The change of each value by a loop over the entries.
  unfoldable pub map_values : (ℕ → V → V) → Map V → Map V
  map_values f [] = []
  map_values f ((k, v) ∷ m) = (k, f k v) ∷ map_values f m

  pub find-nil : (k : ℕ) → find k [] ≡ none
  unfolding find
  find-nil k = refl

  pub find-put :
      (k j : ℕ) (v : V) (m : Map V) → find j (put k v m) ≡ (if k == j then some v else find j m)
  unfolding find put
  find-put k j v [] = refl
  find-put k j v ((i, w) ∷ m) = ground (arith, find-put k j v m)

  pub find-erase : (k j : ℕ) (m : Map V) → find j (erase k m) ≡ (if k == j then none else find j m)
  unfolding find erase
  find-erase k j [] = ground arith
  find-erase k j ((i, w) ∷ m) = ground (arith, find-erase k j m)

  pub find-emplace :
      (k j : ℕ) (v : V) (m : Map V)
      → find j (emplace k v m)
        ≡ (if k == j then (if contains k m then find j m else some v) else find j m)
  unfolding emplace
  find-emplace k j v m = ground (arith, find-put k j v m)

  pub find-map_values :
      (f : ℕ → V → V) (j : ℕ) (m : Map V)
      → find j (map_values f m) ≡ elim (find j m) [ none ↦ none | some v ↦ some (f j v) ]
  unfolding find map_values
  find-map_values f j [] = refl
  find-map_values f j ((i, w) ∷ m) = ground (arith, find-map_values f j m)

  pub find-erase_all :
      (ks : List ℕ) (j : ℕ) (m : Map V)
      → find j (erase_all ks m) ≡ (if elem j ks then none else find j m)
  unfolding erase_all elem
  find-erase_all [] j m = refl
  find-erase_all (k ∷ ks) j m = ground (arith, find-erase_all ks j (erase k m), find-erase k j m)

  pub elem-keys : (k : ℕ) (m : Map V) → elem k (keys m) ≡ contains k m
  unfolding elem keys find
  elem-keys k [] = refl
  elem-keys k ((j, v) ∷ m) = ground (arith, elem-keys k m)

pub ruleset map_laws = (find-nil, find-put, find-erase, find-emplace, find-erase_all, elem-keys)
