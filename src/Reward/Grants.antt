-- ===== src/Reward/Grants.antt =====
-- grantRewardsDetailed of src/reward/reward_service.cpp: all or nothing, and at most once.
use gameserver_hide.Base.{
  ℕ, ◌+◌, ◌≡◌, ◌≢◌, refl, ◌∙◌, true, false, List, [], ◌∷◌, ◌++◌, ◌==◌, arith, if◌then◌else◌,
  Bool-cases, inl, inr,
}
use gameserver_hide.Base.Map.{put, find-put}
use gameserver_hide.Reward.{
  RewardItem, Inventory, GrantStatus, GrantResult, pending, duplicate, grant_status, begin_grant,
  commit_grant, fail_grant, amount, add_item, remove_item, roll_back, apply_items,
  grant_rewards_detailed,
}
use gameserver_hide.Reward.Amounts.{
  IsValid, add_item-amount, add_item-IsValid, roll_back-amount, roll_back-IsValid, sum_of,
  sum_of-append,
}

-- The amount `b` of an item behind a grant of `items`, where `a` was its amount before.
abbrev pub Granted : ℕ → ℕ → ℕ → GrantResult → Type 0
Granted a given b GrantResult.completed = b ≡ a + given
Granted a given b duplicate = b ≡ a
Granted a given b GrantResult.failed = b ≡ a

apply-amount :
    (g : ℕ) (items applied : List RewardItem) (i : Inventory) (j a given : ℕ)
    → IsValid i
    → amount j i.items ≡ a + sum_of j applied
    → given ≡ sum_of j applied + sum_of j items
    → Granted a given
        (amount j (apply_items g items applied i).0.items)
        (apply_items g items applied i).1
unfolding apply_items commit_grant fail_grant sum_of
apply-amount g [] applied i j a given v e f = omega arith
apply-amount g (x ∷ items) applied i j a given v e f =
    elim (Bool-cases (add_item x.item_id x.quantity i).1) [
      | inl t ↦
          rw (t, apply_items)
            (apply-amount g items (applied ++ x ∷ []) (add_item x.item_id x.quantity i).0 j a given
              (add_item-IsValid x.item_id x.quantity i v)
              (ground (
                arith,
                add_item-amount x.item_id x.quantity j i v,
                sum_of-append j applied (x ∷ []),
              ))
              (omega (arith, sum_of-append j applied (x ∷ []))))
      | inr t ↦
          rw (t, apply_items)
            (ground (
              arith,
              roll_back-amount applied (add_item x.item_id x.quantity i).0 j,
              add_item-refused x.item_id x.quantity i t,
            ))
    ]
  where
    add_item-refused :
        (k q : ℕ) (i : Inventory) → (add_item k q i).1 ≡ false → (add_item k q i).0 ≡ i
    add_item-refused k q i h = unfold add_item in ground arith

apply-IsValid :
    (g : ℕ) (items applied : List RewardItem) (i : Inventory)
    → IsValid i
    → IsValid (apply_items g items applied i).0
unfolding apply_items commit_grant fail_grant
apply-IsValid g [] applied i v = record {
  within = v.within;
  small = v.small;
  positive = v.positive;
}
apply-IsValid g (x ∷ items) applied i v =
    let w = add_item-IsValid x.item_id x.quantity i v in
    elim (Bool-cases (add_item x.item_id x.quantity i).1) [
      | inl t ↦ rw (t, apply_items) (apply-IsValid g items (applied ++ x ∷ []) _ w)
      | inr t ↦
          let u = roll_back-IsValid applied _ w in
          rw (t, apply_items) (record { within = u.within; small = u.small; positive = u.positive })
    ]

roll_back-status :
    (xs : List RewardItem) (i : Inventory) → (roll_back xs i).grant_status ≡ i.grant_status
unfolding roll_back remove_item
roll_back-status [] i = refl
roll_back-status (x ∷ xs) i =
    roll_back-status xs (remove_item x.item_id x.quantity i) ∙ ground arith

add_item-status : (k q : ℕ) (i : Inventory) → (add_item k q i).0.grant_status ≡ i.grant_status
unfolding add_item
add_item-status k q i = ground arith

abbrev recorded : GrantResult → GrantStatus
recorded GrantResult.completed = GrantStatus.completed
recorded duplicate = GrantStatus.absent
recorded GrantResult.failed = GrantStatus.failed

apply-status :
    (g : ℕ) (items applied : List RewardItem) (i : Inventory)
    → ((apply_items g items applied i).0.grant_status
        ≡ put g (recorded (apply_items g items applied i).1) i.grant_status)
      × ((apply_items g items applied i).1 ≢ duplicate)
unfolding apply_items commit_grant fail_grant
apply-status g [] applied i = (refl, λ e. cc)
apply-status g (x ∷ items) applied i = elim (Bool-cases (add_item x.item_id x.quantity i).1) [
  | inl t ↦
      let r = apply-status g items (applied ++ x ∷ []) (add_item x.item_id x.quantity i).0 in
      rw (t, apply_items) (ground (arith, r.0, add_item-status x.item_id x.quantity i), r.1)
  | inr t ↦
      rw (t, apply_items)
        (
          ground (
            arith,
            roll_back-status applied (add_item x.item_id x.quantity i).0,
            add_item-status x.item_id x.quantity i,
          ),
          λ e. cc,
        )
]

-- In an inventory without empty entries whose total is within a capacity below 2^32, a grant that
-- completes has added every item in full, and one that fails or is a duplicate has changed the amount
-- of no item; no entry is empty and the total is within the capacity again.
pub grant_rewards_detailed_lem :
    (g : ℕ) (items : List RewardItem) (i : Inventory) (j : ℕ)
    → IsValid i
    → Granted
        (amount j i.items)
        (sum_of j items)
        (amount j (grant_rewards_detailed g items i).0.items)
        (grant_rewards_detailed g items i).1
      × IsValid (grant_rewards_detailed g items i).0
unfolding grant_rewards_detailed begin_grant sum_of
grant_rewards_detailed_lem g items i j v = elim (Bool-cases (begin_grant g i).1) [
  | inl t ↦
      let w = begun-IsValid i v in
      rw (t, grant_rewards_detailed)
        (
          apply-amount g items [] (begin_grant g i).0 j (amount j i.items) (sum_of j items) w
              (ground arith) (omega arith),
          apply-IsValid g items [] (begin_grant g i).0 w,
        )
  | inr t ↦ rw (t, grant_rewards_detailed) (ground arith, begun-IsValid i v)
]
  where
    begun-IsValid : (i : Inventory) → IsValid i → IsValid (begin_grant g i).0
    begun-IsValid i v = record {
      within = ground (arith, v.within);
      small = ground (arith, v.small);
      positive = λ j e. ground (arith, v.positive j);
    }

-- The status of a grant records its result, and a duplicate leaves it: the status of no other grant
-- changes.
grant_status_lem :
    (g : ℕ) (items : List RewardItem) (i : Inventory) (k : ℕ)
    → let r = grant_rewards_detailed g items i in
      grant_status k r.0 ≡ (
        if g == k
        then elim r.1 [
          | GrantResult.completed ↦ GrantStatus.completed
          | GrantResult.failed ↦ GrantStatus.failed
          | duplicate ↦ grant_status k i
        ]
        else grant_status k i)
unfolding grant_rewards_detailed begin_grant grant_status
grant_status_lem g items i k = elim (Bool-cases (begin_grant g i).1) [
  | inl t ↦
      rw (t, grant_rewards_detailed)
        (let a = apply-status g items [] (begin_grant g i).0 in
          let b = begun i t in
          ground (
            arith,
            a.0,
            a.1,
            b,
            find-put g k (recorded (apply_items g items [] (begin_grant g i).0).1)
                (begin_grant g i).0.grant_status,
            find-put g k pending i.grant_status,
          ))
  | inr t ↦ rw (t, grant_rewards_detailed) (ground arith)
]
  where
    begun :
        (i : Inventory)
        → (begin_grant g i).1 ≡ true
        → (begin_grant g i).0.grant_status ≡ put g pending i.grant_status
    begun i h = ground arith

-- Requests to the service, each a grant with its items.
unfoldable pub run : Inventory → List (ℕ × List RewardItem) → Inventory
run i [] = i
run i ((g, items) ∷ requests) = run (grant_rewards_detailed g items i).0 requests

-- A grant that is completed is refused.
refused :
    (g : ℕ) (xs : List RewardItem) (i : Inventory)
    → grant_status g i ≡ GrantStatus.completed
    → grant_rewards_detailed g xs i ≡ (i, duplicate)
unfolding grant_rewards_detailed begin_grant
refused g xs i e = ground arith

run-completed :
    (g : ℕ) (requests : List (ℕ × List RewardItem)) (i : Inventory)
    → grant_status g i ≡ GrantStatus.completed
    → grant_status g (run i requests) ≡ GrantStatus.completed
unfolding run
run-completed g [] i e = e
run-completed g ((k, items) ∷ requests) i e =
    run-completed g requests (grant_rewards_detailed k items i).0 (elim (Bool-cases (k == g)) [
      | inl same ↦ grind (arith, refused g items i e)
      | inr other ↦ ground (arith, grant_status_lem k items i g, other, e)
    ])

-- A grant that has completed is a duplicate whenever it is asked for again, with any items and behind any
-- other requests for grants, and then changes nothing.
pub grant_once :
    (g : ℕ) (items again : List RewardItem) (between : List (ℕ × List RewardItem)) (i : Inventory)
    → (grant_rewards_detailed g items i).1 ≡ GrantResult.completed
    → let later = run (grant_rewards_detailed g items i).0 between in
      grant_rewards_detailed g again later ≡ (later, duplicate)
grant_once g items again between i h =
    refused g again (run (grant_rewards_detailed g items i).0 between) (
      run-completed g between (grant_rewards_detailed g items i).0
        (ground (arith, grant_status_lem g items i g, h)))
