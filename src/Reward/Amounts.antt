-- ===== src/Reward/Amounts.antt =====
-- How the operations of src/reward/inventory.cpp change the amount of an item and the total.
use gameserver_hide.Base.{
  ℕ, ◌+◌, ◌-◌, ◌%◌, ◌^◌, ◌≤◌, ◌<◌, ◌≡◌, ◌≢◌, true, some, List, [], ◌∷◌, ◌++◌, ◌==◌, arith,
  if◌then◌else◌, Option-cases, inl, inr,
}
use gameserver_hide.Base.Map.{Map, find, put, erase, find-put, find-erase}
use gameserver_hide.Reward.{
  RewardItem, Inventory, total_quantity, amount, add_item, remove_item, roll_back,
}

pub amount-put : (k v j : ℕ) (m : Map ℕ) → amount j (put k v m) ≡ (if k == j then v else amount j m)
unfolding amount
amount-put k v j m = grind (arith, find-put)

pub amount-le-total : (j : ℕ) (m : Map ℕ) → amount j m ≤ total_quantity m
unfolding amount total_quantity find
amount-le-total j [] = omega arith
amount-le-total j ((k, v) ∷ m) = ground (arith, amount-le-total j m)

pub total-put :
    (k v : ℕ) (m : Map ℕ) → total_quantity (put k v m) + amount k m ≡ total_quantity m + v
unfolding amount total_quantity find put
total-put k v [] = omega arith
total-put k v ((j, w) ∷ m) = ground (arith, total-put k v m)

total-erase-le : (k : ℕ) (m : Map ℕ) → total_quantity (erase k m) ≤ total_quantity m
unfolding total_quantity erase
total-erase-le k [] = omega arith
total-erase-le k ((j, w) ∷ m) = ground (arith, total-erase-le k m)

-- No entry is empty, and the total keeps to a capacity of 32 bits.
pub record IsValid (i : Inventory) : Type 0 where
  pub within : total_quantity i.items ≤ i.capacity
  pub small : i.capacity < 2 ^ 32
  pub positive : (j : ℕ) → find j i.items ≢ some 0

-- An item that fits is added to its amount, and nothing wraps.
pub add_item-amount :
    (k quantity j : ℕ) (i : Inventory)
    → IsValid i
    → (add_item k quantity i).1 ≡ true
    → amount j (add_item k quantity i).0.items
      ≡ (if k == j then amount j i.items + quantity else amount j i.items)
unfolding add_item
add_item-amount k quantity j i v h = grind (
  arith,
  amount-put k ((amount k i.items + quantity) % 2 ^ 32) j i.items,
  amount-le-total k i.items,
)

pub add_item-IsValid :
    (k quantity : ℕ) (i : Inventory) → IsValid i → IsValid (add_item k quantity i).0
unfolding add_item
add_item-IsValid k quantity i v = record {
  within = ground (
    arith,
    v.within,
    v.small,
    amount-le-total k i.items,
    total-put k ((amount k i.items + quantity) % 2 ^ 32) i.items,
  );
  small = ground (arith, v.small);
  positive = λ j e. ground (
    arith,
    v.within,
    v.small,
    v.positive j,
    amount-le-total k i.items,
    find-put k j ((amount k i.items + quantity) % 2 ^ 32) i.items,
  );
}

-- Removing takes the quantity away, down to 0.
pub remove_item-amount :
    (k quantity j : ℕ) (i : Inventory)
    → amount j (remove_item k quantity i).items
      ≡ (if k == j then amount j i.items - quantity else amount j i.items)
unfolding remove_item amount
remove_item-amount k quantity j i = grind (arith, find-put, find-erase)

pub remove_item-IsValid :
    (k quantity : ℕ) (i : Inventory) → IsValid i → IsValid (remove_item k quantity i)
unfolding remove_item amount
remove_item-IsValid k quantity i v = elim (Option-cases (find k i.items)) [
  | inl e ↦ rw (e, remove_item) (ground (arith, v))
  | inr (held, e) ↦ record {
    within =
        ground (arith, v.within, total-put k (held - quantity) i.items, total-erase-le k i.items);
    small = ground (arith, v.small);
    positive = λ j z.
        ground
          (arith, v.positive j, find-put k j (held - quantity) i.items, find-erase k j i.items);
  }
]

-- The quantities of one item in a list.
unfoldable pub sum_of : ℕ → List RewardItem → ℕ
sum_of j [] = 0
sum_of j (item ∷ items) = (if item.item_id == j then item.quantity else 0) + sum_of j items

pub sum_of-append :
    (j : ℕ) (xs ys : List RewardItem) → sum_of j (xs ++ ys) ≡ sum_of j xs + sum_of j ys
unfolding sum_of
sum_of-append j [] ys = omega arith
sum_of-append j (x ∷ xs) ys = omega (arith, sum_of-append j xs ys)

pub roll_back-amount :
    (xs : List RewardItem) (i : Inventory) (j : ℕ)
    → amount j (roll_back xs i).items ≡ amount j i.items - sum_of j xs
unfolding roll_back sum_of
roll_back-amount [] i j = omega arith
roll_back-amount (x ∷ xs) i j = ground (
  arith,
  roll_back-amount xs (remove_item x.item_id x.quantity i) j,
  remove_item-amount x.item_id x.quantity j i,
)

pub roll_back-IsValid :
    (xs : List RewardItem) (i : Inventory) → IsValid i → IsValid (roll_back xs i)
unfolding roll_back
roll_back-IsValid [] i v = v
roll_back-IsValid (x ∷ xs) i v =
    roll_back-IsValid xs (remove_item x.item_id x.quantity i)
      (remove_item-IsValid x.item_id x.quantity i v)
