-- ===== src/Matching.antt =====
-- src/match/match_queue.h and match_queue.cpp. An `int` is an integer that does not overflow, a time
-- point a number of clock ticks.
pub mod Pairs
pub mod Queue
pub mod Entries
pub mod Run
pub mod Tests
use gameserver_hide.Base.{
  ℕ, ◌+◌, Bool, true, false, not, ◌&&◌, ◌||◌, Option, none, some, List, [], ◌∷◌, ◌==◌, ltb, length,
  if◌then◌else◌,
}
use gameserver_hide.Base.Int.{ℤ, ◌+ℤ◌, ◌-ℤ◌, sub_ℕ, lebℤ, abs, minℤ}

pub record MatchRule : Type 0 where
  pub max_mmr_delta : ℤ
  pub expansion_per_second : ℤ
  pub min_party_size : ℕ
  pub max_party_size : ℕ

pub record MatchCandidate : Type 0 where
  pub party_id : ℕ
  pub mmr : ℤ
  pub party_size : ℕ
  pub enqueue_time : ℕ

pub record MatchQueue : Type 0 where
  pub rule : MatchRule
  pub queue : List MatchCandidate

abbrev pub init : MatchRule → MatchQueue
init rule = record { rule = rule; queue = [] }

-- The test of a party size against the rule.
abbrev pub fits : MatchRule → ℕ → Bool
fits rule size = not (ltb size rule.min_party_size || ltb rule.max_party_size size)

-- find_if: the first entry of the party is there.
unfoldable pub queued : ℕ → List MatchCandidate → Bool
queued party [] = false
queued party (c ∷ cs) = c.party_id == party || queued party cs

-- *existing = candidate
unfoldable pub overwrite : MatchCandidate → List MatchCandidate → List MatchCandidate
overwrite candidate [] = []
overwrite candidate (c ∷ cs) =
    if c.party_id == candidate.party_id then candidate ∷ cs else c ∷ overwrite candidate cs

unfoldable pub push_back : MatchCandidate → List MatchCandidate → List MatchCandidate
push_back candidate [] = candidate ∷ []
push_back candidate (c ∷ cs) = c ∷ push_back candidate cs

unfoldable pub enqueue : MatchCandidate → MatchQueue → MatchQueue × Bool
enqueue candidate q =
    if candidate.party_id == 0
    then (q, false)
    else if not (fits q.rule candidate.party_size)
    then (q, false)
    else if queued candidate.party_id q.queue
    then (record q { queue = overwrite candidate q.queue }, true)
    else (record q { queue = push_back candidate q.queue }, true)

-- remove_if and erase
unfoldable pub without : ℕ → List MatchCandidate → List MatchCandidate
without party [] = []
without party (c ∷ cs) =
    let rest = without party cs in if c.party_id == party then rest else c ∷ rest

unfoldable pub cancel : ℕ → MatchQueue → MatchQueue × Bool
cancel party q =
    if not (queued party q.queue)
    then (q, false)
    else (record q { queue = without party q.queue }, true)

-- queue_.erase(it) at the first entry of the party
unfoldable pub erase_first : ℕ → List MatchCandidate → List MatchCandidate
erase_first party [] = []
erase_first party (c ∷ cs) = if c.party_id == party then cs else c ∷ erase_first party cs

-- The writes through `it` at the first entry of the party.
unfoldable pub resize_first : ℕ → ℕ → ℕ → List MatchCandidate → List MatchCandidate
resize_first party size now [] = []
resize_first party size now (c ∷ cs) =
    if c.party_id == party
    then record c { party_size = size; enqueue_time = now } ∷ cs
    else c ∷ resize_first party size now cs

unfoldable pub update_party_size : ℕ → ℕ → ℕ → MatchQueue → MatchQueue × Bool
update_party_size party size now q =
    if not (queued party q.queue)
    then (q, false)
    else if not (fits q.rule size)
    then (record q { queue = erase_first party q.queue }, true)
    else (record q { queue = resize_first party size now q.queue }, true)

-- `expand` is static_cast<int>(expansion_per_second * seconds), where the seconds are those of a
-- number of ticks. The conversion of ticks to seconds keeps their order, so the shorter wait is
-- chosen here among the ticks.
module _ (expand : ℤ → ℤ → ℤ) where
  unfoldable pub compatible : MatchRule → MatchCandidate → MatchCandidate → ℕ → Bool
  compatible rule first second now =
      if not (fits rule first.party_size) || not (fits rule second.party_size)
      then false
      else let wait = minℤ (sub_ℕ now first.enqueue_time) (sub_ℕ now second.enqueue_time) in
        let allowed_delta = rule.max_mmr_delta +ℤ expand rule.expansion_per_second wait in
        lebℤ (abs (first.mmr -ℤ second.mmr)) allowed_delta

  -- The loop over j: the partner of `first`, and the entries behind `first` without it.
  unfoldable pub partner :
      MatchRule
      → MatchCandidate
      → ℕ
      → List MatchCandidate
      → Option (MatchCandidate × List MatchCandidate)
  partner rule first now [] = none
  partner rule first now (c ∷ cs) =
      let rest = partner rule first now cs in
      if compatible rule first c now
      then some (c, cs)
      else elim rest [ none ↦ none | some (second, others) ↦ some (second, c ∷ others) ]

  -- The loop over i: the pair, and the queue without it.
  unfoldable pub first_pair :
      MatchRule
      → ℕ
      → List MatchCandidate
      → Option (MatchCandidate × MatchCandidate × List MatchCandidate)
  unfolding partner
  first_pair rule now [] = none
  first_pair rule now (c ∷ cs) =
      let rest = first_pair rule now cs in
      elim (partner rule c now cs) [
        | some (second, others) ↦ some (c, second, others)
        | none ↦ elim rest [
          | none ↦ none
          | some (first, second, others) ↦ some (first, second, c ∷ others)
        ]
      ]

  unfoldable pub find_match : ℕ → MatchQueue → MatchQueue × Option (MatchCandidate × MatchCandidate)
  unfolding first_pair
  find_match now q = elim (first_pair q.rule now q.queue) [
    | none ↦ (q, none)
    | some (first, second, others) ↦ (record q { queue = others }, some (first, second))
  ]

unfoldable pub size : MatchQueue → ℕ
size q = length q.queue
