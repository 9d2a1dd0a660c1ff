-- ===== src/Inventory.antt =====
-- src/inventory/inventory_models.h and inventory_storage.h: the data of the storages, and their interface.
-- Item quantities are 32 bits wide, ids 64.
pub mod Memory
pub mod Cached
pub mod Tests
use gameserver_hide.Base.{ℕ, Bool, Option, none, some, List, [], Text}
use gameserver_hide.Base.Map.{Map}

pub record InventoryState : Type 0 where
  pub inventory_id : ℕ
  pub items : Map ℕ

pub data ChangeType : Type 0 where
  add remove set : ChangeType

pub record InventoryChange : Type 0 where
  pub change_id : ℕ
  pub inventory_id : ℕ
  pub item_id : ℕ
  pub quantity : ℕ
  pub type : ChangeType
  pub reason : Text
  pub recorded_at : ℕ

-- The virtual functions of InventoryStorage, on the storages of a type. An operation on items takes the
-- inventory, the item, the quantity, the reason and the time of the system clock.
pub record InventoryStorage (S : Type 0) : Type 0 where
  pub begin_transaction : S → S × ℕ
  pub commit_transaction : ℕ → S → S
  pub rollback_transaction : ℕ → S → S
  pub load_inventory : ℕ → S → S × Option InventoryState
  pub save_inventory : InventoryState → S → S
  pub add_item : ℕ → ℕ → ℕ → Text → ℕ → S → S × Bool
  pub remove_item : ℕ → ℕ → ℕ → Text → ℕ → S → S × Bool
  pub set_item : ℕ → ℕ → ℕ → Text → ℕ → S → S
  pub change_log : ℕ → S → List InventoryChange

-- The items of an inventory that may be missing.
abbrev pub items_of : Option InventoryState → Map ℕ
items_of none = []
items_of (some state) = state.items
