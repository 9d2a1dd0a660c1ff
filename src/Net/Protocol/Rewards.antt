-- ===== src/Net/Protocol/Rewards.antt =====
-- The reward items of src/net/protocol.h, and their list on the wire: protocol.cpp, lines 114-145.
use gameserver_hide.Base.{ℕ, ◌<◌, ◌≤◌, List, [], ◌∷◌, Text, All, length}
use gameserver_hide.Net.Wire.{
  Reader, ◌>>=◌, pure, read_u32, write_u32, read_list, write_list, emit, u32_mod, u16_max,
}
use gameserver_hide.Net.Wire.Reads.{Parses, Parses-list}
use gameserver_hide.Net.Wire.Stable.{IsStable, IsStable-list}
use gameserver_hide.Net.Wire.Rules.{parse_rules, stable_rules}

pub record RewardItem : Type 0 where
  pub item_id : ℕ
  pub count : ℕ

abbrev pub FitsRewardItem : RewardItem → Type 0
FitsRewardItem item = (item.item_id < u32_mod) × (item.count < u32_mod)

abbrev pub IsRewardList : List RewardItem → Type 0
IsRewardList items = (length items ≤ u16_max) × All FitsRewardItem items

read_reward_item : Reader RewardItem
read_reward_item = do
  item_id ← read_u32
  count ← read_u32
  pure (record { item_id = item_id; count = count })

write_reward_item : RewardItem → Text
write_reward_item item = emit (write_u32 item.item_id ∷ write_u32 item.count ∷ [])

unfoldable pub read_reward_items : Reader (List RewardItem)
unfolding read_reward_item
read_reward_items = read_list read_reward_item

unfoldable pub write_reward_items : List RewardItem → Text
unfolding write_reward_item
write_reward_items = write_list write_reward_item

Parses-reward_item :
    (item : RewardItem)
    → FitsRewardItem item
    → Parses read_reward_item (write_reward_item item) item
unfolding read_reward_item write_reward_item
Parses-reward_item item h = search parse_rules

IsStable-reward_item : IsStable read_reward_item
unfolding read_reward_item
IsStable-reward_item = search stable_rules

pub Parses-reward_items :
    (items : List RewardItem)
    → IsRewardList items
    → Parses read_reward_items (write_reward_items items) items
unfolding read_reward_items write_reward_items
Parses-reward_items items h =
    Parses-list read_reward_item write_reward_item FitsRewardItem Parses-reward_item items h.0 h.1

pub IsStable-reward_items : IsStable read_reward_items
unfolding read_reward_items
IsStable-reward_items = IsStable-list read_reward_item IsStable-reward_item
