-- ===== src/Inventory/Cached.antt =====
-- src/inventory/cached_inventory_storage.cpp: a cache in front of a persistent storage, both behind the
-- interface InventoryStorage.
pub mod History
pub mod InStep
pub mod Cold
use gameserver_hide.Base.{
  ℕ, ◌+◌, ◌%◌, ◌^◌, Bool, true, false, not, Option, none, some, List, [], ◌∷◌, Text, if◌then◌else◌,
}
use gameserver_hide.Base.Map.{Map, find, erase, emplace}
use gameserver_hide.Inventory.{InventoryState, InventoryChange, InventoryStorage}

-- A transaction of the cached storage is one of each of the two storages.
pub record Cached (P C : Type 0) : Type 0 where
  pub next_transaction_id : ℕ
  pub transactions : Map (ℕ × ℕ)
  pub persistent : P
  pub cache : C

abbrev pub new_cached : {P C : Type 0} → P → C → Cached P C
new_cached persistent cache = record {
  next_transaction_id = 1;
  transactions = [];
  persistent = persistent;
  cache = cache;
}

module _ {P C : Type 0} (p : InventoryStorage P) (c : InventoryStorage C) where
  unfoldable pub begin_transaction : Cached P C → Cached P C × ℕ
  begin_transaction s =
      let id = s.next_transaction_id in
      let (persistent, a) = p.begin_transaction s.persistent in
      let (cache, b) = c.begin_transaction s.cache in
      (
        record {
          next_transaction_id = (id + 1) % 2 ^ 64;
          transactions = emplace id (a, b) s.transactions;
          persistent = persistent;
          cache = cache;
        },
        id,
      )

  unfoldable pub commit_transaction : ℕ → Cached P C → Cached P C
  commit_transaction id s = elim (find id s.transactions) [
    | none ↦ s
    | some (a, b) ↦ record s {
      persistent = p.commit_transaction a s.persistent;
      cache = c.commit_transaction b s.cache;
      transactions = erase id s.transactions;
    }
  ]

  unfoldable pub rollback_transaction : ℕ → Cached P C → Cached P C
  rollback_transaction id s = elim (find id s.transactions) [
    | none ↦ s
    | some (a, b) ↦ record s {
      persistent = p.rollback_transaction a s.persistent;
      cache = c.rollback_transaction b s.cache;
      transactions = erase id s.transactions;
    }
  ]

  -- The cache takes over what the persistent storage has of an inventory, if it has it.
  unfoldable pub refresh_cache : ℕ → Cached P C → Cached P C
  refresh_cache id s =
      let (persistent, persisted) = p.load_inventory id s.persistent in
      elim persisted [
        | none ↦ record s { persistent = persistent }
        | some state ↦ record s { persistent = persistent; cache = c.save_inventory state s.cache }
      ]

  unfoldable pub load_inventory : ℕ → Cached P C → Cached P C × Option InventoryState
  load_inventory id s =
      let (cache, cached) = c.load_inventory id s.cache in
      let (persistent, persisted) = p.load_inventory id s.persistent in
      elim cached [
        | some state ↦ (record s { cache = cache }, some state)
        | none ↦ elim persisted [
          | none ↦ (record s { persistent = persistent; cache = cache }, none)
          | some state ↦ (
            record s { persistent = persistent; cache = c.save_inventory state cache },
            some state,
          )
        ]
      ]

  unfoldable pub save_inventory : InventoryState → Cached P C → Cached P C
  save_inventory state s = record s {
    persistent = p.save_inventory state s.persistent;
    cache = c.save_inventory state s.cache;
  }

  unfoldable pub add_item : ℕ → ℕ → ℕ → Text → ℕ → Cached P C → Cached P C × Bool
  unfolding refresh_cache
  add_item id item quantity reason now s =
      let (persistent, done) = p.add_item id item quantity reason now s.persistent in
      let (cache, cached) = c.add_item id item quantity reason now s.cache in
      let s' : Cached P C = record s { persistent = persistent; cache = cache } in
      if not done
      then (record s { persistent = persistent }, false)
      else if not cached
      then (refresh_cache id s', true)
      else (s', true)

  unfoldable pub remove_item : ℕ → ℕ → ℕ → Text → ℕ → Cached P C → Cached P C × Bool
  unfolding refresh_cache
  remove_item id item quantity reason now s =
      let (persistent, done) = p.remove_item id item quantity reason now s.persistent in
      let (cache, cached) = c.remove_item id item quantity reason now s.cache in
      let s' : Cached P C = record s { persistent = persistent; cache = cache } in
      if not done
      then (record s { persistent = persistent }, false)
      else if not cached
      then (refresh_cache id s', true)
      else (s', true)

  unfoldable pub set_item : ℕ → ℕ → ℕ → Text → ℕ → Cached P C → Cached P C
  set_item id item quantity reason now s = record s {
    persistent = p.set_item id item quantity reason now s.persistent;
    cache = c.set_item id item quantity reason now s.cache;
  }

  unfoldable pub change_log : ℕ → Cached P C → List InventoryChange
  change_log id s = p.change_log id s.persistent

  -- The cached storage behind the interface.
  abbrev pub cached_storage : InventoryStorage (Cached P C)
  cached_storage = record {
    begin_transaction = begin_transaction;
    commit_transaction = commit_transaction;
    rollback_transaction = rollback_transaction;
    load_inventory = load_inventory;
    save_inventory = save_inventory;
    add_item = add_item;
    remove_item = remove_item;
    set_item = set_item;
    change_log = change_log;
  }
