-- ===== src/Reward/Drops/Bounds.antt =====
-- What a roll of src/reward/drop_table.cpp yields.
use native.Mathlib.Omega.{arith}
use gameserver_hide.Base.{
  ℕ, ◌≤◌, Bool, true, false, Option, none, some, List, [], ◌∷◌, ◌≡◌, refl, min, max, if◌then◌else◌,
}
use gameserver_hide.Base.Map.{find}
use gameserver_hide.Reward.{RewardItem}
use gameserver_hide.Reward.Drops.{DropEntry, DropTable, entries_of, roll_entries, roll}

-- A number from the interval of an entry, whose bounds may stand in either order.
abbrev pub IsWithin : {P : Type 0} → DropEntry P → RewardItem → Type 0
IsWithin entry item =
    (item.item_id ≡ entry.item_id)
    × (min entry.min_quantity entry.max_quantity ≤ item.quantity)
    × (item.quantity ≤ max entry.min_quantity entry.max_quantity)

-- The items are drawn from the entries, in their order, each entry at most once.
pub data IsDrawn {P : Type 0} : List (DropEntry P) → List RewardItem → Type 0 where
  done : IsDrawn [] []
  missed :
      (entry : DropEntry P) (entries : List (DropEntry P)) (items : List RewardItem)
      → IsDrawn entries items
      → IsDrawn (entry ∷ entries) items
  dropped :
      (entry : DropEntry P) (entries : List (DropEntry P)) (item : RewardItem)
      (items : List RewardItem)
      → IsWithin entry item
      → IsDrawn entries items
      → IsDrawn (entry ∷ entries) (item ∷ items)

-- std::uniform_int_distribution yields a number of its interval.
abbrev pub DrawsWithin : {R : Type 0} → (ℕ → ℕ → R → R × ℕ) → Type 0
DrawsWithin {R = R} quantity =
    (low high : ℕ) (rng : R)
    → low ≤ high
    → (low ≤ (quantity low high rng).1) × ((quantity low high rng).1 ≤ high)

-- A property of both branches of a test.
either {ℓ} : {T : Type 0} (Q : T → Type ℓ) (b : Bool) (x y : T) → Q x → Q y → Q (if b then x else y)
either Q true x y p q = p
either Q false x y p q = q

module _ {P R : Type 0} (chance : P → R → R × Bool) (quantity : ℕ → ℕ → R → R × ℕ) where
  roll_entries-IsDrawn :
      (entries : List (DropEntry P)) (rng : R)
      → DrawsWithin quantity
      → IsDrawn entries (roll_entries chance quantity entries rng).1
  unfolding roll_entries
  roll_entries-IsDrawn [] rng within = done
  roll_entries-IsDrawn (entry ∷ entries) rng within =
      let drawn = (chance entry.probability rng).0 in
      let low = min entry.min_quantity entry.max_quantity in
      let high = max entry.min_quantity entry.max_quantity in
      let (rolled, number) = quantity low high drawn in
      let item : RewardItem = record { item_id = entry.item_id; quantity = number } in
      let rest = roll_entries chance quantity entries rolled in
      let without = roll_entries chance quantity entries drawn in
      either (λ r. IsDrawn (entry ∷ entries) r.1) (chance entry.probability rng).1
        (rest.0, item ∷ rest.1) without
        (dropped entry entries item rest.1
          (let (above, below) = within low high drawn (omega arith) in (refl, above, below))
          (roll_entries-IsDrawn entries rolled within))
        (missed entry entries without.1 (roll_entries-IsDrawn entries drawn within))

-- Where the draws of a quantity lie in the interval they are asked for, a roll of a table yields items of
-- its entries, in the order of the table and at most one for each entry, each with a quantity between
-- the bounds of the entry, in whichever order those are given; of a missing table it yields none.
pub roll-IsDrawn :
    {P R : Type 0} (chance : P → R → R × Bool) (quantity : ℕ → ℕ → R → R × ℕ) (table_id : ℕ)
    (tables : DropTable P) (rng : R)
    → DrawsWithin quantity
    → IsDrawn (entries_of (find table_id tables)) (roll chance quantity table_id tables rng).1
unfolding roll
roll-IsDrawn {P = P} {R = R} chance quantity table_id tables rng within =
    found (find table_id tables)
  where
    found :
        (entries : Option (List (DropEntry P)))
        → IsDrawn
            (entries_of entries)
            (elim entries as (λ e. R × List RewardItem) [
              | none ↦ (rng, [])
              | some es ↦ roll_entries chance quantity es rng
            ]).1
    found none = done
    found (some entries) = roll_entries-IsDrawn chance quantity entries rng within
