-- ===== src/Inventory/Memory/Rollback.antt =====
-- What a rollback of src/inventory/in_memory_inventory_storage.cpp brings back.
use gameserver_hide.Base.{
  ℕ, ◌+◌, ◌^◌, ◌≤◌, ◌<◌, ◌≡◌, refl, false, none, List, [], ◌∷◌, All, length, arith,
}
use gameserver_hide.Base.Map.{find, find-nil, find-erase, find-emplace}
use gameserver_hide.Inventory.Memory.{
  Memory, init, begin_transaction, commit_transaction, rollback_transaction, save_inventory,
  add_item, remove_item, set_item,
}
use gameserver_hide.Inventory.Memory.History.{Call, begin, commit, roll_back, step, run, ends}

-- The id of the next transaction is unused, and so are those behind it.
abbrev Fresh : Memory → Type 0
Fresh s = (t : ℕ) → s.next_transaction_id ≤ t → find t s.snapshots ≡ none

step-next :
    (s : Memory) (c : Call)
    → s.next_transaction_id + 1 < 2 ^ 64
    → (s.next_transaction_id ≤ (step s c).next_transaction_id)
      × ((step s c).next_transaction_id ≤ s.next_transaction_id + 1)
unfolding step begin_transaction commit_transaction rollback_transaction save_inventory add_item
    remove_item set_item
step-next s begin h = ground arith
step-next s _ h = ground arith

step-Fresh :
    (s : Memory) (c : Call) → s.next_transaction_id + 1 < 2 ^ 64 → Fresh s → Fresh (step s c)
unfolding step begin_transaction commit_transaction rollback_transaction save_inventory add_item
    remove_item set_item
step-Fresh s begin h v t l = grind (arith, find-emplace, v t)
step-Fresh s (commit k) h v t l = grind (arith, find-erase, v t)
step-Fresh s (roll_back k) h v t l = grind (arith, find-erase, v t)
step-Fresh s _ h v t l = ground (arith, v t)

run-Fresh :
    (cs : List Call) (s : Memory)
    → s.next_transaction_id + length cs < 2 ^ 64
    → Fresh s
    → ((run s cs).next_transaction_id ≤ s.next_transaction_id + length cs) × Fresh (run s cs)
unfolding run
run-Fresh [] s h v = (omega arith, v)
run-Fresh (c ∷ cs) s h v =
    let n = step-next s c (omega arith) in
    let r = run-Fresh cs (step s c) (omega (arith, n.0, n.1)) (step-Fresh s c (omega arith) v) in
    (omega (arith, n.1, r.0), r.1)

-- A snapshot stays until its transaction ends.
step-snapshot :
    (s : Memory) (c : Call) (t : ℕ)
    → ends t c ≡ false
    → t < s.next_transaction_id
    → find t (step s c).snapshots ≡ find t s.snapshots
unfolding step begin_transaction commit_transaction rollback_transaction save_inventory add_item
    remove_item set_item
step-snapshot s begin t h l = grind (arith, find-emplace)
step-snapshot s (commit k) t h l = grind (arith, find-erase)
step-snapshot s (roll_back k) t h l = grind (arith, find-erase)
step-snapshot s _ t h l = ground arith

run-snapshot :
    (cs : List Call) (s : Memory) (t : ℕ)
    → All (λ c. ends t c ≡ false) cs
    → t < s.next_transaction_id
    → s.next_transaction_id + length cs < 2 ^ 64
    → find t (run s cs).snapshots ≡ find t s.snapshots
unfolding run
run-snapshot [] s t h l r = refl
run-snapshot (c ∷ cs) s t h l r =
    let n = step-next s c (omega arith) in
    ground (
      arith,
      step-snapshot s c t h.0 l,
      run-snapshot cs (step s c) t h.1 (omega (arith, n.0)) (omega (arith, n.0, n.1)),
    )

-- Whatever happened before a transaction began, and whatever calls follow that do not end it, changes of
-- items, whole inventories and other transactions and their rollbacks included: rolling it back restores
-- the inventories, the change logs and the counter of changes as they were when it began. Fewer than
-- 2^64 - 2 calls are made in all.
pub begin-rollback_transaction :
    (before after : List Call)
    → length before + length after + 2 < 2 ^ 64
    → All (λ c. ends (begin_transaction (run init before)).1 c ≡ false) after
    → let s = run init before in
      let (b, t) = begin_transaction s in
      let r = rollback_transaction t (run b after) in
      (r.inventories ≡ s.inventories)
      × (r.change_log ≡ s.change_log)
      × (r.next_change_id ≡ s.next_change_id)
unfolding begin_transaction rollback_transaction
begin-rollback_transaction before after room keeps =
    let f = run-Fresh before init (omega arith) (λ t l. find-nil t) in
    let s = run init before in
    let b = (begin_transaction s).0 in
    let kept =
      run-snapshot after b s.next_transaction_id keeps (omega (arith, f.0)) (omega (arith, f.0)) in
    grind (arith, kept, find-emplace, f.1 s.next_transaction_id)
