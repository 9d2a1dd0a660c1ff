-- ===== src/Inventory/Memory/Replay.antt =====
-- The change log of src/inventory/in_memory_inventory_storage.cpp as the truth about the items.
use gameserver_hide.Base.{
  ℕ, ◌+◌, ◌-◌, ◌%◌, ◌^◌, ◌≡◌, refl, false, Option, none, some, List, [], ◌∷◌, ◌++◌, All, Text,
  arith, ◌==◌, if◌then◌else◌,
}
use gameserver_hide.Base.Map.{Map, find, put, erase, find-put, find-erase, find-emplace}
use gameserver_hide.Inventory.{InventoryState, ChangeType, InventoryChange, items_of}
use gameserver_hide.Inventory.Memory.{
  TransactionSnapshot, Memory, init, amount, logged, load_inventory, change_log, begin_transaction,
  commit_transaction, rollback_transaction, add_item, remove_item, set_item,
}
use gameserver_hide.Inventory.Memory.History.{
  Call, begin, commit, roll_back, save, add, remove, set, step, run, saves,
}

-- What a change of the log says of the items of its inventory.
unfoldable pub apply : Map ℕ → InventoryChange → Map ℕ
apply items c = elim c.type [
  | ChangeType.add ↦ put c.item_id ((amount c.item_id items + c.quantity) % 2 ^ 32) items
  | ChangeType.remove ↦
      if amount c.item_id items - c.quantity == 0
      then erase c.item_id items
      else put c.item_id (amount c.item_id items - c.quantity) items
  | ChangeType.set ↦
      if c.quantity == 0 then erase c.item_id items else put c.item_id c.quantity items
]

unfoldable pub replay : Map ℕ → List InventoryChange → Map ℕ
unfolding apply
replay items [] = items
replay items (c ∷ cs) = replay (apply items c) cs

replay_snoc :
    (items : Map ℕ) (cs : List InventoryChange) (c : InventoryChange)
    → replay items (cs ++ c ∷ []) ≡ apply (replay items cs) c
unfolding replay
replay_snoc items [] c = refl
replay_snoc items (d ∷ cs) c = replay_snoc (apply items d) cs c

abbrev Told : ℕ → Map InventoryState → Map (List InventoryChange) → Type 0
Told id inventories log = items_of (find id inventories) ≡ replay [] (logged id log)

abbrev TellsSnapshot : ℕ → Option TransactionSnapshot → Type 0
TellsSnapshot id none = Unit {0}
TellsSnapshot id (some p) = Told id p.inventories p.change_log

-- The log of an inventory yields its items, now and in each snapshot.
record Tells (s : Memory) : Type 0 where
  now : (id : ℕ) → Told id s.inventories s.change_log
  saved : (id t : ℕ) → TellsSnapshot id (find t s.snapshots)

module _ (s : Memory) (v : Tells s) where
  begin-Tells : Tells (begin_transaction s).0
  unfolding begin_transaction
  begin-Tells = record {
    now = v.now;
    saved = λ id t. grind (arith, find-emplace, v.saved id t, v.now id);
  }

  commit-Tells : (k : ℕ) → Tells (commit_transaction k s)
  unfolding commit_transaction
  commit-Tells k = record { now = v.now; saved = λ id t. grind (arith, find-erase, v.saved id t) }

  roll_back-Tells : (k : ℕ) → Tells (rollback_transaction k s)
  unfolding rollback_transaction
  roll_back-Tells k = record {
    now = λ id. grind (arith, v.now id, v.saved id k);
    saved = λ id t. grind (arith, find-erase, v.saved id t);
  }

  add-Tells :
      (k item quantity : ℕ) (reason : Text) (time : ℕ)
      → Tells (add_item k item quantity reason time s).0
  unfolding add_item apply
  add-Tells k item quantity reason time = record {
    now = λ id. grind (arith, find-put, replay_snoc, v.now id, v.now k);
    saved = λ id t. ground (arith, v.saved id t);
  }

  remove-Tells :
      (k item quantity : ℕ) (reason : Text) (time : ℕ)
      → Tells (remove_item k item quantity reason time s).0
  unfolding remove_item apply
  remove-Tells k item quantity reason time = record {
    now = λ id. grind (arith, find-put, find-emplace, replay_snoc, v.now id, v.now k);
    saved = λ id t. ground (arith, v.saved id t);
  }

  set-Tells :
      (k item quantity : ℕ) (reason : Text) (time : ℕ)
      → Tells (set_item k item quantity reason time s)
  unfolding set_item apply
  set-Tells k item quantity reason time = record {
    now = λ id. grind (arith, find-put, replay_snoc, v.now id, v.now k);
    saved = λ id t. ground (arith, v.saved id t);
  }

step-Tells : (s : Memory) (c : Call) → saves c ≡ false → Tells s → Tells (step s c)
unfolding step
step-Tells s begin h v = begin-Tells s v
step-Tells s (commit k) h v = commit-Tells s v k
step-Tells s (roll_back k) h v = roll_back-Tells s v k
step-Tells s (save state) h v = cc
step-Tells s (add k item quantity reason time) h v = add-Tells s v k item quantity reason time
step-Tells s (remove k item quantity reason time) h v = remove-Tells s v k item quantity reason time
step-Tells s (set k item quantity reason time) h v = set-Tells s v k item quantity reason time

run-Tells :
    (cs : List Call) (s : Memory) → All (λ c. saves c ≡ false) cs → Tells s → Tells (run s cs)
unfolding run
run-Tells [] s h v = v
run-Tells (c ∷ cs) s h v = run-Tells cs (step s c) h.1 (step-Tells s c h.0 v)

-- After any history of calls without saveInventory on a new storage, transactions and their rollbacks
-- included, replaying the change log of an inventory from nothing yields exactly its items.
pub run-init-replay :
    (cs : List Call) (id : ℕ)
    → All (λ c. saves c ≡ false) cs
    → items_of (load_inventory id (run init cs)) ≡ replay [] (change_log id (run init cs))
unfolding load_inventory change_log
run-init-replay cs id h = Tells.now (run-Tells cs init h fresh) id
  where
    fresh : Tells init
    fresh = record { now = λ id. unfold find replay in refl; saved = λ id t. unfold find in tt }
