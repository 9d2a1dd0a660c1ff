-- ===== src/Reward/Claims.antt =====
-- validateClientRewards of src/reward/reward_service.cpp against unbounded sums.
use gameserver_hide.Base.{
  ℕ, ◌+◌, ◌%◌, ◌^◌, ◌≤◌, ◌<◌, ◌≡◌, ◌↔◌, true, List, [], ◌∷◌, All, length, arith,
}
use gameserver_hide.Reward.{RewardItem, sum_claim, validate_client_rewards}

unfoldable pub claimed : List RewardItem → ℕ
claimed [] = 0
claimed (item ∷ items) = item.quantity + claimed items

abbrev pub AllPositive : List RewardItem → Type 0
AllPositive items = All (λ item. 0 < item.quantity) items

sum_claim_sound :
    (max total : ℕ) (items : List RewardItem)
    → max < 2 ^ 32
    → total ≤ max
    → sum_claim max total items ≡ true
    → AllPositive items × (total + claimed items ≤ max)
unfolding sum_claim claimed
sum_claim_sound max total [] small h e = (tt, omega arith)
sum_claim_sound max total (x ∷ items) small h e =
    let next : (total + x.quantity) % 2 ^ 32 ≡ total + x.quantity = ground arith in
    let rest : sum_claim max (total + x.quantity) items ≡ true = ground (arith, next) in
    let r = sum_claim_sound max (total + x.quantity) items small (ground arith) rest in
    ((ground arith, r.0), omega (arith, r.1))

sum_claim_complete :
    (max total : ℕ) (items : List RewardItem)
    → max < 2 ^ 32
    → AllPositive items
    → total + claimed items ≤ max
    → sum_claim max total items ≡ true
unfolding sum_claim claimed
sum_claim_complete max total [] small p h = ground arith
sum_claim_complete max total (x ∷ items) small p h =
    let next : (total + x.quantity) % 2 ^ 32 ≡ total + x.quantity = omega arith in
    let r = sum_claim_complete max (total + x.quantity) items small p.1 (omega arith) in
    ground (arith, next, r, p.0)

-- validateClientRewards accepts exactly the claims of at most `max_items` items, none of them empty,
-- whose quantities add up, without wrapping, to at most `max_total`, a 32-bit number.
pub validate_client_rewards_iff :
    (items : List RewardItem) (max_items max_total : ℕ)
    → max_total < 2 ^ 32
    → (validate_client_rewards items max_items max_total ≡ true)
      ↔ ((length items ≤ max_items) × AllPositive items × (claimed items ≤ max_total))
unfolding validate_client_rewards
validate_client_rewards_iff items max_items max_total small = (
  λ h.
      let s = sum_claim_sound max_total 0 items small (omega arith) (ground arith) in
      (ground arith, s.0, omega (arith, s.1)),
  λ h.
      let c = sum_claim_complete max_total 0 items small h.1 (omega (arith, h.2)) in
      ground (arith, c, h.0),
)
