-- ===== src/Server/Items.antt =====
-- The case InventoryUpdateNotify of Server::handlePacket in src/net/server.cpp, and the transaction on
-- the inventory storage that it shares with DungeonResultNotify. `time` is the time of the system clock.
use gameserver_hide.Base.{
  ℕ, Bool, true, false, not, none, some, List, [], ◌∷◌, Text, text, length, if◌then◌else◌,
}
use gameserver_hide.Inventory.{InventoryStorage}
use gameserver_hide.Net.Protocol.Rewards.{RewardItem}
use gameserver_hide.Net.Protocol.Inventory.{InventoryUpdateResponse, decode_inventory_update_notify}
use gameserver_hide.Server.World.{World, Server, with_error, user_of}

module _ {S : Type 0} (storage : InventoryStorage S) (time : ℕ) where
  -- The loop over the items, up to one that is refused.
  unfoldable pub add_items : ℕ → List RewardItem → Text → S → S × Bool
  add_items inventory [] reason s = (s, true)
  add_items inventory (item ∷ items) reason s =
      let (s', added) = storage.add_item inventory item.item_id item.count reason time s in
      let rest = add_items inventory items reason s' in if not added then (s', false) else rest

  -- All items, or none.
  unfoldable pub add_all : ℕ → List RewardItem → Text → S → S × Bool
  unfolding add_items
  add_all inventory items reason s =
      let (begun, transaction) = storage.begin_transaction s in
      let (s', ok) = add_items inventory items reason begun in
      if not ok
      then (storage.rollback_transaction transaction s', false)
      else (storage.commit_transaction transaction s', true)

abbrev update_refused : Text → Text → InventoryUpdateResponse
update_refused code message = record {
  success = false;
  code = code;
  message = message;
  inventory_version = 0;
}

module _ {B S R : Type 0} (w : World B S R) (time : ℕ) where
  unfoldable pub inventory_update : ℕ → Text → Server B S R → Server B S R × InventoryUpdateResponse
  unfolding add_all
  inventory_update id payload s = elim (decode_inventory_update_notify payload) [
    | none ↦ (
      with_error s,
      update_refused (text "MALFORMED") (text "Malformed inventory update payload"),
    )
    | some request ↦ elim (user_of id s) [
      | none ↦
          (with_error s, update_refused (text "UNAUTHENTICATED") (text "Authentication required"))
      | some user ↦
          let (inventory, ok) =
            add_all w.storage time request.char_id request.items (text "inventory_update")
              s.inventory in
          (
            record s { inventory = inventory },
            record {
              success = ok;
              code = if ok then text "OK" else text "INVENTORY_FAILED";
              message = if ok then text "Inventory updated" else text "Failed to update inventory";
              inventory_version = length (w.storage.change_log request.char_id inventory);
            },
          )
    ]
  ]
