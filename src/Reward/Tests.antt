-- ===== src/Reward/Tests.antt =====
-- Grants to a small inventory of src/reward, and what the theorems say of them.
use gameserver_hide.Base.{ℕ, ltb, Bool, ◌≤◌, ◌≡◌, refl, ◌↔◌, true, List, [], ◌∷◌, length, arith}
use gameserver_hide.Base.Map.{find, put}
use gameserver_hide.Reward.{
  RewardItem, Inventory, amount, grant_rewards_detailed, duplicate, validate_client_rewards,
  total_quantity,
}
use gameserver_hide.Reward.Amounts.{IsValid, sum_of}
use gameserver_hide.Reward.Grants.{Granted, grant_rewards_detailed_lem, grant_once, run}
use gameserver_hide.Reward.Drops.{DropTable, entries_of, roll, new_table}
use gameserver_hide.Reward.Drops.Bounds.{IsDrawn, roll-IsDrawn}
use gameserver_hide.Reward.Claims.{claimed, AllPositive, validate_client_rewards_iff}

abbrev small : Inventory
small = record { capacity = 10; items = (7, 4) ∷ []; grant_status = [] }

abbrev item : ℕ → ℕ → RewardItem
item id quantity = record { item_id = id; quantity = quantity }

-- The second item does not fit, so the first is rolled back.
abbrev too_much : List RewardItem
too_much = item 7 3 ∷ item 8 4 ∷ []

abbrev enough : List RewardItem
enough = item 7 3 ∷ item 8 3 ∷ []

grant_rewards_detailed_lem_example :
    Granted 4
      (sum_of 7 too_much)
      (amount 7 (grant_rewards_detailed 5 too_much small).0.items)
      (grant_rewards_detailed 5 too_much small).1
    × IsValid (grant_rewards_detailed 5 too_much small).0
unfolding sum_of amount find total_quantity
grant_rewards_detailed_lem_example =
    grant_rewards_detailed_lem 5 too_much small 7
      (record { within = ground arith; small = ground arith; positive = λ j. ground arith })

-- Another grant, and the same one, in between.
abbrev requests : List (ℕ × List RewardItem)
requests = (6, item 9 1 ∷ []) ∷ (5, too_much) ∷ []

grant_once_example :
    let later = run (grant_rewards_detailed 5 enough small).0 requests in
    grant_rewards_detailed 5 too_much later ≡ (later, duplicate)
unfolding grant_rewards_detailed find put total_quantity
grant_once_example = grant_once 5 enough too_much requests small (refl)

validate_client_rewards_iff_example :
    (validate_client_rewards enough 2 6 ≡ true)
    ↔ ((length enough ≤ 2) × AllPositive enough × (claimed enough ≤ 6))
validate_client_rewards_iff_example = validate_client_rewards_iff enough 2 6 (ground arith)

-- The table 1 of the source, where a drop takes place unless it is rare: 10 stands for the rarest.
abbrev table : DropTable ℕ
table = new_table 75 25 10

abbrev is_common : ℕ → ℕ → ℕ × Bool
is_common probability rng = (rng, ltb 10 probability)

abbrev lowest : ℕ → ℕ → ℕ → ℕ × ℕ
lowest low high rng = (rng, low)

roll-IsDrawn_example : IsDrawn (entries_of (find 1 table)) (roll is_common lowest 1 table 0).1
roll-IsDrawn_example = roll-IsDrawn is_common lowest 1 table 0 (λ low high rng h. (omega arith, h))
