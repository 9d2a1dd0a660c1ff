-- ===== src/Inventory/Cached/InStep.antt =====
-- The cache of src/inventory/cached_inventory_storage.cpp against its persistent storage, for the two
-- storages that src/net/server.cpp puts behind it.
use gameserver_hide.Base.{
  ℕ, ◌+◌, ◌^◌, ◌≤◌, ◌<◌, ◌≡◌, refl, Option, none, some, List, [], ◌∷◌, Text, length, arith,
}
use gameserver_hide.Base.Map.{find, find-put, find-erase, find-emplace}
use gameserver_hide.Inventory.{InventoryState, items_of}
use gameserver_hide.Inventory.Memory
use gameserver_hide.Inventory.Memory.{TransactionSnapshot, Memory, memory_storage}
use gameserver_hide.Inventory.Cached.History.{
  Store, Call, begin, commit, roll_back, load, save, add, remove, set, step, run,
}
use gameserver_hide.Inventory.Cached.{
  new_cached, begin_transaction, commit_transaction, rollback_transaction, load_inventory,
  save_inventory, add_item, remove_item, set_item,
}

-- A transaction has the same id in the three storages.
abbrev IsPair : ℕ → Option (ℕ × ℕ) → Type 0
IsPair t none = Unit {0}
IsPair t (some (a, b)) = (a ≡ t) × (b ≡ t)

abbrev SnapshotsAgree : ℕ → Option TransactionSnapshot → Option TransactionSnapshot → Type 0
SnapshotsAgree i none none = Unit {0}
SnapshotsAgree i (some a) (some b) =
    items_of (find i a.inventories) ≡ items_of (find i b.inventories)
SnapshotsAgree i _ _ = ⊥

-- An inventory carries the id under which it stands, in a storage and in a snapshot.
abbrev IsKeyed : ℕ → Option InventoryState → Type 0
IsKeyed i none = Unit {0}
IsKeyed i (some state) = state.inventory_id ≡ i

abbrev IsKeyedIn : ℕ → Option TransactionSnapshot → Type 0
IsKeyedIn i none = Unit {0}
IsKeyedIn i (some a) = IsKeyed i (find i a.inventories)

record IsInStep (s : Store) : Type 0 where
  persistent_next : s.persistent.next_transaction_id ≡ s.next_transaction_id
  cache_next : s.cache.next_transaction_id ≡ s.next_transaction_id
  pairs : (t : ℕ) → IsPair t (find t s.transactions)
  fresh : (t : ℕ) → s.next_transaction_id ≤ t → find t s.persistent.snapshots ≡ none
  fresh_cache : (t : ℕ) → s.next_transaction_id ≤ t → find t s.cache.snapshots ≡ none
  fresh_pair : (t : ℕ) → s.next_transaction_id ≤ t → find t s.transactions ≡ none
  saved : (i t : ℕ) → SnapshotsAgree i (find t s.persistent.snapshots) (find t s.cache.snapshots)
  now : (i : ℕ) → items_of (find i s.cache.inventories) ≡ items_of (find i s.persistent.inventories)
  keyed : (i : ℕ) → IsKeyed i (find i s.persistent.inventories)
  keyed_saved : (i t : ℕ) → IsKeyedIn i (find t s.persistent.snapshots)

module _ (s : Store) (v : IsInStep s) where
  begin-IsInStep : s.next_transaction_id + 1 < 2 ^ 64 → IsInStep (step s begin)
  unfolding step begin_transaction Memory.begin_transaction
  begin-IsInStep h = record {
    persistent_next = ground (arith, v.persistent_next);
    cache_next = ground (arith, v.cache_next);
    pairs = λ t. grind (arith, find-emplace, v.pairs t, v.persistent_next, v.cache_next);
    fresh = λ t l. grind (arith, find-emplace, v.fresh t, v.persistent_next);
    fresh_cache = λ t l. grind (arith, find-emplace, v.fresh_cache t, v.cache_next);
    fresh_pair = λ t l. grind (arith, find-emplace, v.fresh_pair t);
    saved =
        λ i t. grind (arith, find-emplace, v.saved i t, v.now i, v.persistent_next, v.cache_next);
    now = λ i. ground (arith, v.now i);
    keyed = λ i. ground (arith, v.keyed i);
    keyed_saved = λ i t. grind (arith, find-emplace, v.keyed i, v.keyed_saved i t);
  }

  commit-IsInStep : (k : ℕ) → IsInStep (step s (commit k))
  unfolding step commit_transaction Memory.commit_transaction
  commit-IsInStep k = record {
    persistent_next = ground (arith, v.persistent_next);
    cache_next = ground (arith, v.cache_next);
    pairs = λ t. grind (arith, find-erase, v.pairs t);
    fresh = λ t l. grind (arith, find-erase, v.fresh t);
    fresh_cache = λ t l. grind (arith, find-erase, v.fresh_cache t);
    fresh_pair = λ t l. grind (arith, find-erase, v.fresh_pair t);
    saved = λ i t. grind (arith, find-erase, v.saved i t, v.pairs k);
    now = λ i. ground (arith, v.now i);
    keyed = λ i. ground (arith, v.keyed i);
    keyed_saved = λ i t. grind (arith, find-erase, v.keyed_saved i t);
  }

  roll_back-IsInStep : (k : ℕ) → IsInStep (step s (roll_back k))
  unfolding step rollback_transaction Memory.rollback_transaction
  roll_back-IsInStep k = record {
    persistent_next = ground (arith, v.persistent_next);
    cache_next = ground (arith, v.cache_next);
    pairs = λ t. grind (arith, find-erase, v.pairs t);
    fresh = λ t l. grind (arith, find-erase, v.fresh t);
    fresh_cache = λ t l. grind (arith, find-erase, v.fresh_cache t);
    fresh_pair = λ t l. grind (arith, find-erase, v.fresh_pair t);
    saved = λ i t. grind (arith, find-erase, v.saved i t, v.saved i k, v.pairs k);
    now = λ i. grind (arith, v.now i, v.saved i k, v.pairs k);
    keyed = λ i. grind (arith, v.keyed i, v.keyed_saved i k, v.pairs k);
    keyed_saved = λ i t. grind (arith, find-erase, v.keyed_saved i t);
  }

  -- The calls that leave the transactions alone.
  keep-IsInStep :
      (c : Call)
      → (step s c).next_transaction_id ≡ s.next_transaction_id
      → (step s c).transactions ≡ s.transactions
      → (step s c).persistent.next_transaction_id ≡ s.persistent.next_transaction_id
      → (step s c).cache.next_transaction_id ≡ s.cache.next_transaction_id
      → (step s c).persistent.snapshots ≡ s.persistent.snapshots
      → (step s c).cache.snapshots ≡ s.cache.snapshots
      → ((i : ℕ)
          → items_of (find i (step s c).cache.inventories)
            ≡ items_of (find i (step s c).persistent.inventories))
      → ((i : ℕ) → IsKeyed i (find i (step s c).persistent.inventories))
      → IsInStep (step s c)
  keep-IsInStep c a b d e f g now keyed = record {
    persistent_next = ground (arith, v.persistent_next);
    cache_next = ground (arith, v.cache_next);
    pairs = λ t. rw b (v.pairs t);
    fresh = λ t l. ground (arith, v.fresh t);
    fresh_cache = λ t l. ground (arith, v.fresh_cache t);
    fresh_pair = λ t l. ground (arith, v.fresh_pair t);
    saved = λ i t. rw (f, g) (v.saved i t);
    now = now;
    keyed = keyed;
    keyed_saved = λ i t. rw f (v.keyed_saved i t);
  }

  load-IsInStep : (k : ℕ) → IsInStep (step s (load k))
  unfolding step load_inventory Memory.load_inventory Memory.save_inventory
  load-IsInStep k =
      keep-IsInStep (load k) (ground arith) (ground arith) (ground arith) (ground arith)
        (ground arith) (ground arith) (λ i. grind (arith, find-put, v.now i, v.now k, v.keyed k))
        (λ i. grind (arith, v.keyed i))

  save-IsInStep : (state : InventoryState) → IsInStep (step s (save state))
  unfolding step save_inventory Memory.save_inventory
  save-IsInStep state =
      keep-IsInStep (save state) refl refl refl refl refl refl
        (λ i. grind (arith, find-put, v.now i)) (λ i. grind (arith, find-put, v.keyed i))

  add-IsInStep :
      (k item quantity : ℕ) (reason : Text) (time : ℕ)
      → IsInStep (step s (add k item quantity reason time))
  unfolding step add_item Memory.add_item
  add-IsInStep k item quantity reason time =
      keep-IsInStep (add k item quantity reason time) (ground arith) (ground arith) (ground arith)
        (ground arith) (ground arith) (ground arith)
        (λ i. grind (arith, find-put, v.now i, v.now k))
        (λ i. grind (arith, find-put, v.keyed i, v.keyed k))

  remove-IsInStep :
      (k item quantity : ℕ) (reason : Text) (time : ℕ)
      → IsInStep (step s (remove k item quantity reason time))
  unfolding step remove_item Memory.remove_item
  remove-IsInStep k item quantity reason time =
      keep-IsInStep (remove k item quantity reason time) (ground (arith, v.now k))
        (ground (arith, v.now k)) (ground (arith, v.now k)) (ground (arith, v.now k))
        (ground (arith, v.now k)) (ground (arith, v.now k))
        (λ i. grind (arith, find-put, find-emplace, v.now i, v.now k))
        (λ i. grind (arith, find-put, find-emplace, v.keyed i, v.keyed k))

  set-IsInStep :
      (k item quantity : ℕ) (reason : Text) (time : ℕ)
      → IsInStep (step s (set k item quantity reason time))
  unfolding step set_item Memory.set_item
  set-IsInStep k item quantity reason time =
      keep-IsInStep (set k item quantity reason time) refl refl refl refl refl refl
        (λ i. grind (arith, find-put, v.now i, v.now k))
        (λ i. grind (arith, find-put, v.keyed i, v.keyed k))

step-IsInStep :
    (s : Store) (c : Call) → s.next_transaction_id + 1 < 2 ^ 64 → IsInStep s → IsInStep (step s c)
step-IsInStep s begin h v = begin-IsInStep s v h
step-IsInStep s (commit k) h v = commit-IsInStep s v k
step-IsInStep s (roll_back k) h v = roll_back-IsInStep s v k
step-IsInStep s (load k) h v = load-IsInStep s v k
step-IsInStep s (save state) h v = save-IsInStep s v state
step-IsInStep s (add k item quantity reason time) h v = add-IsInStep s v k item quantity reason time
step-IsInStep s (remove k item quantity reason time) h v =
    remove-IsInStep s v k item quantity reason time
step-IsInStep s (set k item quantity reason time) h v = set-IsInStep s v k item quantity reason time

step-next :
    (s : Store) (c : Call)
    → s.next_transaction_id + 1 < 2 ^ 64
    → (step s c).next_transaction_id ≤ s.next_transaction_id + 1
unfolding step begin_transaction commit_transaction rollback_transaction load_inventory
    save_inventory add_item remove_item set_item
step-next s begin h = ground arith
step-next s _ h = ground arith

run-IsInStep :
    (cs : List Call) (s : Store)
    → s.next_transaction_id + length cs < 2 ^ 64
    → IsInStep s
    → IsInStep (run s cs)
unfolding run
run-IsInStep [] s h v = v
run-IsInStep (c ∷ cs) s h v =
    run-IsInStep cs (step s c) (omega (arith, step-next s c)) (step-IsInStep s c (omega arith) v)

-- Behind a cache, where both storages begin empty, after any history of fewer than 2^64 - 1 calls,
-- transactions, rollbacks and refused removals included: what the cached storage loads for an inventory
-- has exactly the items that the persistent storage holds for it.
pub run-new_cached-load :
    (cs : List Call) (id : ℕ)
    → length cs + 1 < 2 ^ 64
    → let s = run (new_cached Memory.init Memory.init) cs in
      items_of (load_inventory memory_storage memory_storage id s).1
      ≡ items_of (Memory.load_inventory id s.persistent)
unfolding load_inventory Memory.load_inventory
run-new_cached-load cs id h =
    let v = run-IsInStep cs (new_cached Memory.init Memory.init) (omega arith) fresh in
    ground (arith, v.now id)
  where
    fresh : IsInStep (new_cached Memory.init Memory.init)
    fresh =
        unfold find in
        record {
          persistent_next = refl;
          cache_next = refl;
          pairs = λ t. tt;
          fresh = λ t l. refl;
          fresh_cache = λ t l. refl;
          fresh_pair = λ t l. refl;
          saved = λ i t. tt;
          now = λ i. refl;
          keyed = λ i. tt;
          keyed_saved = λ i t. tt;
        }
