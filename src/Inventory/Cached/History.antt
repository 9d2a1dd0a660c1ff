-- ===== src/Inventory/Cached/History.antt =====
-- Histories of calls on the storage of src/inventory/cached_inventory_storage.cpp, over the two storages
-- that src/net/server.cpp puts behind it.
use gameserver_hide.Base.{ℕ, List, [], ◌∷◌, Text}
use gameserver_hide.Inventory.{InventoryState}
use gameserver_hide.Inventory.Memory.{Memory, memory_storage}
use gameserver_hide.Inventory.Cached.{
  Cached, begin_transaction, commit_transaction, rollback_transaction, load_inventory,
  save_inventory, add_item, remove_item, set_item,
}

abbrev pub Store : Type 0
Store = Cached Memory Memory

pub data Call : Type 0 where
  begin : Call
  commit roll_back load : ℕ → Call
  save : InventoryState → Call
  add remove set : ℕ → ℕ → ℕ → Text → ℕ → Call

unfoldable pub step : Store → Call → Store
step s begin = (begin_transaction memory_storage memory_storage s).0
step s (commit id) = commit_transaction memory_storage memory_storage id s
step s (roll_back id) = rollback_transaction memory_storage memory_storage id s
step s (load id) = (load_inventory memory_storage memory_storage id s).0
step s (save state) = save_inventory memory_storage memory_storage state s
step s (add id item quantity reason now) =
    (add_item memory_storage memory_storage id item quantity reason now s).0
step s (remove id item quantity reason now) =
    (remove_item memory_storage memory_storage id item quantity reason now s).0
step s (set id item quantity reason now) =
    set_item memory_storage memory_storage id item quantity reason now s

unfoldable pub run : Store → List Call → Store
unfolding step
run s [] = s
run s (c ∷ cs) = run (step s c) cs
