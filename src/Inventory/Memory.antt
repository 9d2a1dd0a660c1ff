-- ===== src/Inventory/Memory.antt =====
-- src/inventory/in_memory_inventory_storage.cpp. mysql_inventory_storage.cpp is the same code under
-- another class name. A mutex is held through each function, so calls happen one behind the other.
pub mod History
pub mod Replay
pub mod Rollback
use gameserver_hide.Base.{
  ℕ, ◌+◌, ◌-◌, ◌%◌, ◌^◌, Bool, true, false, not, ◌||◌, Option, none, some, List, [], ◌∷◌, ◌++◌,
  Text, ◌==◌, ltb, if◌then◌else◌,
}
use gameserver_hide.Base.Map.{Map, find, put, erase, emplace}
use gameserver_hide.Inventory.{
  InventoryState, ChangeType, add, remove, set, InventoryChange, InventoryStorage, items_of,
}

pub record TransactionSnapshot : Type 0 where
  pub inventories : Map InventoryState
  pub change_log : Map (List InventoryChange)
  pub next_change_id : ℕ

pub record Memory : Type 0 where
  pub next_transaction_id : ℕ
  pub next_change_id : ℕ
  pub active_transactions : List ℕ
  pub snapshots : Map TransactionSnapshot
  pub inventories : Map InventoryState
  pub change_log : Map (List InventoryChange)

abbrev pub init : Memory
init = record {
  next_transaction_id = 1;
  next_change_id = 1;
  active_transactions = [];
  snapshots = [];
  inventories = [];
  change_log = [];
}

-- active_transactions_.erase(transaction_id)
deactivate : ℕ → List ℕ → List ℕ
deactivate id [] = []
deactivate id (k ∷ ks) = let rest = deactivate id ks in if k == id then rest else k ∷ rest

unfoldable pub begin_transaction : Memory → Memory × ℕ
begin_transaction s =
    let id = s.next_transaction_id in
    let snapshot : TransactionSnapshot = record {
      inventories = s.inventories;
      change_log = s.change_log;
      next_change_id = s.next_change_id;
    } in
    (
      record s {
        next_transaction_id = (id + 1) % 2 ^ 64;
        active_transactions = id ∷ s.active_transactions;
        snapshots = emplace id snapshot s.snapshots;
      },
      id,
    )

unfoldable pub commit_transaction : ℕ → Memory → Memory
unfolding deactivate
commit_transaction id s = record s {
  active_transactions = deactivate id s.active_transactions;
  snapshots = erase id s.snapshots;
}

unfoldable pub rollback_transaction : ℕ → Memory → Memory
unfolding deactivate
rollback_transaction id s = elim (find id s.snapshots) [
  | none ↦ record s { active_transactions = deactivate id s.active_transactions }
  | some snapshot ↦ record s {
    inventories = snapshot.inventories;
    change_log = snapshot.change_log;
    next_change_id = snapshot.next_change_id;
    snapshots = erase id s.snapshots;
    active_transactions = deactivate id s.active_transactions;
  }
]

unfoldable pub load_inventory : ℕ → Memory → Option InventoryState
load_inventory id s = find id s.inventories

unfoldable pub save_inventory : InventoryState → Memory → Memory
save_inventory state s = record s { inventories = put state.inventory_id state s.inventories }

-- The inventory that is there behind try_emplace.
abbrev pub get_or_create : ℕ → Memory → InventoryState
get_or_create id s = elim (find id s.inventories) [
  | none ↦ record { inventory_id = id; items = [] }
  | some state ↦ state
]

abbrev pub logged : ℕ → Map (List InventoryChange) → List InventoryChange
logged id log = elim (find id log) [ none ↦ [] | some changes ↦ changes ]

unfoldable pub record_change : ℕ → ℕ → ℕ → ChangeType → Text → ℕ → Memory → Memory
record_change inventory_id item_id quantity type reason now s =
    let change : InventoryChange = record {
      change_id = s.next_change_id;
      inventory_id = inventory_id;
      item_id = item_id;
      quantity = quantity;
      type = type;
      reason = reason;
      recorded_at = now;
    } in
    record s {
      next_change_id = (s.next_change_id + 1) % 2 ^ 64;
      change_log = put inventory_id (logged inventory_id s.change_log ++ change ∷ []) s.change_log;
    }

-- items[item_id], which is 0 where there is no entry.
abbrev pub amount : ℕ → Map ℕ → ℕ
amount item_id items = elim (find item_id items) [ none ↦ 0 | some quantity ↦ quantity ]

-- inventory.items = items, for the inventory of an id
abbrev pub with_items : ℕ → Map ℕ → Memory → Memory
with_items id items s = record s {
  inventories = put id (record (get_or_create id s) { items = items }) s.inventories;
}

unfoldable pub add_item : ℕ → ℕ → ℕ → Text → ℕ → Memory → Memory × Bool
unfolding record_change
add_item id item quantity reason now s =
    let items = (get_or_create id s).items in
    if quantity == 0 then (s, false) else (
      record_change id item quantity add reason now
          (with_items id (put item ((amount item items + quantity) % 2 ^ 32) items) s),
      true,
    )

-- A refusal behind the first test leaves an inventory that try_emplace has made.
unfoldable pub remove_item : ℕ → ℕ → ℕ → Text → ℕ → Memory → Memory × Bool
unfolding record_change
remove_item id item quantity reason now s =
    let items = (get_or_create id s).items in
    let created : Memory = record s {
      inventories = emplace id (record { inventory_id = id; items = [] }) s.inventories;
    } in
    if quantity == 0 then (s, false) else elim (find item items) [
      | none ↦ (created, false)
      | some held ↦ if ltb held quantity then (created, false) else (
        record_change id item quantity remove reason now (
            with_items id
              (if held - quantity == 0 then erase item items else put item (held - quantity) items)
              s),
        true,
      )
    ]

unfoldable pub set_item : ℕ → ℕ → ℕ → Text → ℕ → Memory → Memory
unfolding record_change
set_item id item quantity reason now s =
    let items = (get_or_create id s).items in
    record_change id item quantity set reason now
      (with_items id (if quantity == 0 then erase item items else put item quantity items) s)

unfoldable pub change_log : ℕ → Memory → List InventoryChange
change_log id s = logged id s.change_log

-- The storage behind its interface.
abbrev pub memory_storage : InventoryStorage Memory
memory_storage = record {
  begin_transaction = begin_transaction;
  commit_transaction = commit_transaction;
  rollback_transaction = rollback_transaction;
  load_inventory = λ id s. (s, load_inventory id s);
  save_inventory = save_inventory;
  add_item = add_item;
  remove_item = remove_item;
  set_item = set_item;
  change_log = change_log;
}
