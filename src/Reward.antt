-- ===== src/Reward.antt =====
-- src/reward: the bounded inventory, and the service that grants rewards to it. Item quantities are
-- 32 bits wide, totals 64 bits, which sums of quantities do not reach.
pub mod Amounts
pub mod Grants
pub mod Claims
pub mod Drops
pub mod Tests
use gameserver_hide.Base.{
  ℕ, zero, suc, ◌+◌, ◌-◌, ◌%◌, ◌^◌, Bool, true, false, not, ◌||◌, Option, none, some, List, [], ◌∷◌,
  ◌++◌, ◌==◌, ltb, leb, length, if◌then◌else◌,
}
use gameserver_hide.Base.Map.{Map, find, put, erase}

-- `absent` is the source's None.
pub data GrantStatus : Type 0 where
  absent pending completed failed : GrantStatus

pub record RewardItem : Type 0 where
  pub item_id : ℕ
  pub quantity : ℕ

pub record Inventory : Type 0 where
  pub capacity : ℕ
  pub items : Map ℕ
  pub grant_status : Map GrantStatus

abbrev pub init : ℕ → Inventory
init capacity = record { capacity = capacity; items = []; grant_status = [] }

-- grant_status_[grant_id], which is None where there is no entry.
unfoldable pub status_of : Option GrantStatus → GrantStatus
status_of none = absent
status_of (some s) = s

unfoldable pub grant_status : ℕ → Inventory → GrantStatus
unfolding status_of
grant_status grant_id i = status_of (find grant_id i.grant_status)

-- An entry that is Completed or Pending stays as it is.
unfoldable pub begin_grant : ℕ → Inventory → Inventory × Bool
unfolding grant_status
begin_grant grant_id i = elim (grant_status grant_id i) [
  | completed ↦ (i, false)
  | pending ↦ (i, false)
  | _ ↦ (record i { grant_status = put grant_id pending i.grant_status }, true)
]

unfoldable pub commit_grant : ℕ → Inventory → Inventory
commit_grant grant_id i = record i { grant_status = put grant_id completed i.grant_status }

unfoldable pub fail_grant : ℕ → Inventory → Inventory
fail_grant grant_id i = record i { grant_status = put grant_id failed i.grant_status }

unfoldable pub total_quantity : Map ℕ → ℕ
total_quantity [] = 0
total_quantity ((id, quantity) ∷ items) = quantity + total_quantity items

-- items_[item_id], which is 0 where there is no entry.
unfoldable pub amount : ℕ → Map ℕ → ℕ
amount item_id items = elim (find item_id items) [ none ↦ 0 | some quantity ↦ quantity ]

unfoldable pub add_item : ℕ → ℕ → Inventory → Inventory × Bool
unfolding amount
add_item item_id quantity i =
    if quantity == 0
    then (i, false)
    else if ltb i.capacity (total_quantity i.items + quantity)
    then (i, false)
    else (
      record i { items = put item_id ((amount item_id i.items + quantity) % 2 ^ 32) i.items },
      true,
    )

unfoldable pub remove_item : ℕ → ℕ → Inventory → Inventory
remove_item item_id quantity i = if quantity == 0 then i else elim (find item_id i.items) [
  | none ↦ i
  | some held ↦
      if leb held quantity
      then record i { items = erase item_id i.items }
      else record i { items = put item_id (held - quantity) i.items }
]

pub data GrantResult : Type 0 where
  completed duplicate failed : GrantResult

-- The rollback of the items that were applied, in their order.
unfoldable pub roll_back : List RewardItem → Inventory → Inventory
unfolding remove_item
roll_back [] i = i
roll_back (item ∷ applied) i = roll_back applied (remove_item item.item_id item.quantity i)

-- The loop over the items; `applied` grows at its end.
unfoldable pub apply_items :
    ℕ → List RewardItem → List RewardItem → Inventory → Inventory × GrantResult
unfolding roll_back add_item commit_grant fail_grant
apply_items grant_id [] applied i = (commit_grant grant_id i, GrantResult.completed)
apply_items grant_id (item ∷ items) applied i =
    let (i', added) = add_item item.item_id item.quantity i in
    let rest = apply_items grant_id items (applied ++ item ∷ []) i' in
    if not added then (fail_grant grant_id (roll_back applied i'), GrantResult.failed) else rest

unfoldable pub grant_rewards_detailed : ℕ → List RewardItem → Inventory → Inventory × GrantResult
unfolding begin_grant apply_items
grant_rewards_detailed grant_id items i =
    let (i', begun) = begin_grant grant_id i in
    if not begun then (i', duplicate) else apply_items grant_id items [] i'

unfoldable pub grant_rewards : ℕ → List RewardItem → Inventory → Inventory × Bool
unfolding grant_rewards_detailed
grant_rewards grant_id items i =
    let (i', result) = grant_rewards_detailed grant_id items i in
    (i', elim result [ completed ↦ true | _ ↦ false ])

-- The loop of validateClientRewards; `max - quantity` is taken only where it is not negative.
unfoldable pub sum_claim : ℕ → ℕ → List RewardItem → Bool
sum_claim max total [] = leb total max
sum_claim max total (item ∷ items) =
    let rest = sum_claim max ((total + item.quantity) % 2 ^ 32) items in
    if item.quantity == 0
    then false
    else if ltb max item.quantity
    then false
    else if ltb (max - item.quantity) total
    then false
    else rest

unfoldable pub validate_client_rewards : List RewardItem → ℕ → ℕ → Bool
unfolding sum_claim
validate_client_rewards items max_items max_total =
    if ltb max_items (length items) then false else sum_claim max_total 0 items
