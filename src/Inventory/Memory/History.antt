-- ===== src/Inventory/Memory/History.antt =====
-- Histories of calls on the storage of src/inventory/in_memory_inventory_storage.cpp.
use gameserver_hide.Base.{ℕ, Bool, true, false, List, [], ◌∷◌, Text, ◌==◌}
use gameserver_hide.Inventory.{InventoryState}
use gameserver_hide.Inventory.Memory.{
  Memory, begin_transaction, commit_transaction, rollback_transaction, save_inventory, add_item,
  remove_item, set_item,
}

-- A call on items has the inventory, the item, the quantity, the reason and the time.
pub data Call : Type 0 where
  begin : Call
  commit roll_back : ℕ → Call
  save : InventoryState → Call
  add remove set : ℕ → ℕ → ℕ → Text → ℕ → Call

unfoldable pub step : Memory → Call → Memory
step s begin = (begin_transaction s).0
step s (commit id) = commit_transaction id s
step s (roll_back id) = rollback_transaction id s
step s (save state) = save_inventory state s
step s (add id item quantity reason now) = (add_item id item quantity reason now s).0
step s (remove id item quantity reason now) = (remove_item id item quantity reason now s).0
step s (set id item quantity reason now) = set_item id item quantity reason now s

unfoldable pub run : Memory → List Call → Memory
unfolding step
run s [] = s
run s (c ∷ cs) = run (step s c) cs

-- Whether a call ends the transaction.
abbrev pub ends : ℕ → Call → Bool
ends t (commit id) = id == t
ends t (roll_back id) = id == t
ends t _ = false

-- Whether a call overwrites an inventory as a whole.
abbrev pub saves : Call → Bool
saves (save state) = true
saves _ = false
