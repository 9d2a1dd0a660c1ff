-- ===== src/Net/Protocol/Inventory.antt =====
-- The inventory messages of src/net/protocol.h and protocol.cpp. An enum field is its number, as
-- the code casts it to and from `std::uint16_t` without a test.
use gameserver_hide.Base.{ℕ, ◌<◌, ◌≤◌, Bool, List, [], ◌∷◌, Option, Text, length}
use gameserver_hide.Net.Wire.{
  emit, decode, ◌>>=◌, pure, u64_mod, u16_max, read_flag, write_flag, read_string, write_string,
  read_u64, write_u64,
}
use gameserver_hide.Net.Wire.Exact.{IsExact, IsExact-Parses}
use gameserver_hide.Net.Wire.Reads.{Parses-bind, Parses-flag}
use gameserver_hide.Net.Wire.Rules.{parse_rules, stable_rules}
use gameserver_hide.Net.Protocol.Rewards.{
  RewardItem, IsRewardList, read_reward_items, write_reward_items, Parses-reward_items,
  IsStable-reward_items,
}

pub record InventoryUpdateNotify : Type 0 where
  pub char_id : ℕ
  pub items : List RewardItem

abbrev pub FitsInventoryUpdateNotify : InventoryUpdateNotify → Type 0
FitsInventoryUpdateNotify m = (m.char_id < u64_mod) × IsRewardList m.items

unfoldable pub encode_inventory_update_notify : InventoryUpdateNotify → Text
encode_inventory_update_notify m = emit (write_u64 m.char_id ∷ write_reward_items m.items ∷ [])

unfoldable pub decode_inventory_update_notify : Text → Option InventoryUpdateNotify
decode_inventory_update_notify = decode do
  char_id ← read_u64
  items ← read_reward_items
  pure (record { char_id = char_id; items = items })

pub inventory_update_notify-IsExact :
    (m : InventoryUpdateNotify)
    → FitsInventoryUpdateNotify m
    → IsExact decode_inventory_update_notify (encode_inventory_update_notify m) m
unfolding encode_inventory_update_notify decode_inventory_update_notify
inventory_update_notify-IsExact m h =
    IsExact-Parses _ _ _ (search (parse_rules, Parses-reward_items) depth 6)
      (search (stable_rules, IsStable-reward_items) depth 6)

pub record InventoryUpdateResponse : Type 0 where
  pub success : Bool
  pub code : Text
  pub message : Text
  pub inventory_version : ℕ

abbrev pub FitsInventoryUpdateResponse : InventoryUpdateResponse → Type 0
FitsInventoryUpdateResponse m =
    (length m.code ≤ u16_max) × (length m.message ≤ u16_max) × (m.inventory_version < u64_mod)

unfoldable pub encode_inventory_update_response : InventoryUpdateResponse → Text
encode_inventory_update_response m = emit (
    write_flag m.success
    ∷ write_string m.code
    ∷ write_string m.message
    ∷ write_u64 m.inventory_version
    ∷ [])

unfoldable pub decode_inventory_update_response : Text → Option InventoryUpdateResponse
decode_inventory_update_response = decode do
  success ← read_flag
  code ← read_string
  message ← read_string
  inventory_version ← read_u64
  pure (record {
    success = success;
    code = code;
    message = message;
    inventory_version = inventory_version;
  })

pub inventory_update_response-IsExact :
    (m : InventoryUpdateResponse)
    → FitsInventoryUpdateResponse m
    → IsExact decode_inventory_update_response (encode_inventory_update_response m) m
unfolding encode_inventory_update_response decode_inventory_update_response
inventory_update_response-IsExact m h =
    IsExact-Parses _ _ _ (Parses-bind _ (Parses-flag m.success) (search (parse_rules) depth 8))
      (search (stable_rules) depth 8)
