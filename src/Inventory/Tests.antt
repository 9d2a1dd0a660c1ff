-- ===== src/Inventory/Tests.antt =====
-- An inventory of the storages of src/inventory, and what the theorems say of it.
use gameserver_hide.Base.{◌≡◌, refl, none, some, List, [], ◌∷◌, text, arith}
use gameserver_hide.Base.Map.{find, put, emplace}
use gameserver_hide.Inventory.{InventoryState, items_of}
use gameserver_hide.Inventory.Memory
use gameserver_hide.Inventory.Memory.{
  Memory, memory_storage, begin_transaction, rollback_transaction, load_inventory, change_log,
}
use gameserver_hide.Inventory.Memory.History.{Call, begin, roll_back, add, remove, step, run}
use gameserver_hide.Inventory.Memory.Replay.{replay, run-init-replay}
use gameserver_hide.Inventory.Memory.Rollback.{begin-rollback_transaction}
use gameserver_hide.Inventory.Cached
use gameserver_hide.Inventory.Cached.{Cached, new_cached}
use gameserver_hide.Inventory.Cached.History
use gameserver_hide.Inventory.Cached.InStep.{run-new_cached-load}
use gameserver_hide.Inventory.Cached.Cold.{add_item_cold}

-- Three of the item 5 of the inventory 9, of which one is taken.
abbrev kept : List Call
kept = add 9 5 3 (text "drop") 100 ∷ remove 9 5 1 (text "use") 101 ∷ []

-- Calls in a transaction: a transaction within it, and the removal of everything.
abbrev undone : List Call
undone = begin ∷ remove 9 5 2 (text "sale") 102 ∷ roll_back 2 ∷ remove 9 5 2 (text "sale") 103 ∷ []

run-init-replay_example :
    items_of (load_inventory 9 (run Memory.init kept))
    ≡ replay [] (change_log 9 (run Memory.init kept))
run-init-replay_example = run-init-replay kept 9 (refl, (refl, tt))

begin-rollback_transaction_example :
    let s = run Memory.init kept in
    let (b, t) = begin_transaction s in
    let r = rollback_transaction t (run b undone) in
    (r.inventories ≡ s.inventories)
    × (r.change_log ≡ s.change_log)
    × (r.next_change_id ≡ s.next_change_id)
unfolding run begin_transaction step Memory.add_item Memory.remove_item find put emplace
begin-rollback_transaction_example =
    begin-rollback_transaction kept undone (ground arith) (refl, (refl, (refl, (refl, tt))))

run-new_cached-load_example :
    let s =
      History.run
        (new_cached Memory.init Memory.init)
        (History.begin ∷ History.add 9 5 3 (text "drop") 100 ∷ History.roll_back 1 ∷ []) in
    items_of (Cached.load_inventory memory_storage memory_storage 9 s).1
    ≡ items_of (load_inventory 9 s.persistent)
run-new_cached-load_example =
    run-new_cached-load
      (History.begin ∷ History.add 9 5 3 (text "drop") 100 ∷ History.roll_back 1 ∷ []) 9
      (ground arith)

abbrev held : InventoryState
held = record { inventory_id = 9; items = (5, 3) ∷ [] }

-- The persistent storage has the item 5, and nobody has loaded it.
abbrev cold : Cached Memory Memory
cold = new_cached (record Memory.init { inventories = (9, held) ∷ [] }) Memory.init

add_item_cold_example :
    let t = (Cached.add_item memory_storage memory_storage 9 6 1 (text "drop") 100 cold).0 in
    (find 5 (items_of (Cached.load_inventory memory_storage memory_storage 9 t).1) ≡ none)
    × (find 5 (items_of (load_inventory 9 t.persistent)) ≡ some 3)
unfolding load_inventory find
add_item_cold_example =
    add_item_cold 9 6 1 5 3 (text "drop") 100 cold held refl refl refl (λ p. absurd (omega arith))
      (omega arith)
