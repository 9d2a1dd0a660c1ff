-- ===== src/Reward/Drops.antt =====
-- src/reward/drop_table.h and drop_table.cpp, and grantFromTable of reward_service.cpp. `P` is float, the
-- type of a probability, and `R` the state of the random generator. `chance` draws whether a drop with a
-- probability takes place, `quantity` a number from an interval.
pub mod Bounds
use gameserver_hide.Base.{
  ℕ, Bool, Option, none, some, List, [], ◌∷◌, ◌++◌, min, max, is_some, if◌then◌else◌,
}
use gameserver_hide.Base.Map.{Map, find, put}
use gameserver_hide.Reward.{RewardItem, Inventory, grant_rewards}

pub record DropEntry (P : Type 0) : Type 0 where
  pub item_id : ℕ
  pub min_quantity : ℕ
  pub max_quantity : ℕ
  pub probability : P

abbrev pub DropTable : Type 0 → Type 0
DropTable P = Map (List (DropEntry P))

-- The entries of a table that may be missing.
abbrev pub entries_of : {P : Type 0} → Option (List (DropEntry P)) → List (DropEntry P)
entries_of none = []
entries_of (some entries) = entries

module _ {P : Type 0} where
  unfoldable pub add_entry : ℕ → DropEntry P → DropTable P → DropTable P
  add_entry table_id entry tables =
      put table_id (entries_of (find table_id tables) ++ entry ∷ []) tables

  -- The table that DropTable begins with, for the floats 0.75, 0.25 and 0.10.
  unfoldable pub new_table : P → P → P → DropTable P
  unfolding add_entry
  new_table often seldom rarely =
      add_entry 1
        (record { item_id = 3001; min_quantity = 2; max_quantity = 4; probability = rarely })
        (add_entry 1
          (record { item_id = 2001; min_quantity = 1; max_quantity = 1; probability = seldom })
          (add_entry 1
            (record { item_id = 1001; min_quantity = 1; max_quantity = 2; probability = often })
            []))

  abbrev pub has_table : ℕ → DropTable P → Bool
  has_table table_id tables = is_some (find table_id tables)

module _ {P R : Type 0} (chance : P → R → R × Bool) (quantity : ℕ → ℕ → R → R × ℕ) where
  -- The loop over the entries.
  unfoldable pub roll_entries : List (DropEntry P) → R → R × List RewardItem
  roll_entries [] rng = (rng, [])
  roll_entries (entry ∷ entries) rng =
      let (drawn, drops) = chance entry.probability rng in
      let (rolled, number) =
        quantity (min entry.min_quantity entry.max_quantity)
          (max entry.min_quantity entry.max_quantity) drawn in
      let without = roll_entries entries drawn in
      let (rng', rest) = roll_entries entries rolled in
      if drops
      then (rng', record { item_id = entry.item_id; quantity = number } ∷ rest)
      else without

  unfoldable pub roll : ℕ → DropTable P → R → R × List RewardItem
  unfolding roll_entries
  roll table_id tables rng = elim (find table_id tables) [
    | none ↦ (rng, [])
    | some entries ↦ roll_entries entries rng
  ]

  unfoldable pub grant_from_table : ℕ → ℕ → DropTable P → Inventory → R → R × (Inventory × Bool)
  unfolding roll
  grant_from_table grant_id table_id tables inventory rng =
      let (rng', rewards) = roll table_id tables rng in
      (rng', grant_rewards grant_id rewards inventory)
