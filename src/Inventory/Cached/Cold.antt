-- ===== src/Inventory/Cached/Cold.antt =====
-- What src/inventory/cached_inventory_storage.cpp shows of an inventory that its cache does not hold.
use gameserver_hide.Base.{ℕ, ◌≡◌, ◌≢◌, ◌<◌, none, some, Text, arith}
use gameserver_hide.Base.Map.{find, find-nil, find-put}
use gameserver_hide.Inventory.{InventoryState, items_of}
use gameserver_hide.Inventory.Memory
use gameserver_hide.Inventory.Memory.{Memory, memory_storage}
use gameserver_hide.Inventory.Cached.{Cached, load_inventory, add_item}

-- An inventory that the persistent storage holds and the cache does not: adding an item to it, without
-- loading it first, hides its other items from the loads behind, while the persistent storage keeps
-- them.
pub add_item_cold :
    (id item quantity other held : ℕ) (reason : Text) (now : ℕ) (s : Cached Memory Memory)
    (state : InventoryState)
    → Memory.load_inventory id s.cache ≡ none
    → Memory.load_inventory id s.persistent ≡ some state
    → find other state.items ≡ some held
    → other ≢ item
    → 0 < quantity
    → let t = (add_item memory_storage memory_storage id item quantity reason now s).0 in
      (find other (items_of (load_inventory memory_storage memory_storage id t).1) ≡ none)
      × (find other (items_of (Memory.load_inventory id t.persistent)) ≡ some held)
unfolding add_item load_inventory Memory.load_inventory Memory.add_item
add_item_cold id item quantity other held reason now s state c p e ne pos =
    (grind (arith, find-put, find-nil), grind (arith, find-put))
