-- ===== src/Matching/Run.antt =====
-- Histories of calls on the queue of src/match/match_queue.h.
use gameserver_hide.Base.{
  ℕ, ◌≡◌, false, some, List, [], ◌∷◌, arith, Option-cases, Bool-cases, inl, inr,
}
use gameserver_hide.Base.Int.{ℤ}
use gameserver_hide.Matching.{
  MatchRule, MatchCandidate, MatchQueue, queued, enqueue, cancel, update_party_size, compatible,
  partner, first_pair, find_match, init,
}
use gameserver_hide.Matching.Queue.{
  IsQueue, push_back-IsQueue, overwrite-IsQueue, without-IsQueue, erase_first-IsQueue,
  resize_first-IsQueue,
}

pub data Call : Type 0 where
  add : MatchCandidate → Call
  drop_out : ℕ → Call
  resize : ℕ → ℕ → ℕ → Call
  pair_up : ℕ → Call

enqueue-IsQueue :
    (c : MatchCandidate) (q : MatchQueue)
    → IsQueue q.rule q.queue
    → IsQueue q.rule (enqueue c q).0.queue
unfolding enqueue
enqueue-IsQueue c q v =
    ground (arith, push_back-IsQueue q.rule c q.queue, overwrite-IsQueue q.rule c q.queue)

update-IsQueue :
    (k size now : ℕ) (q : MatchQueue)
    → IsQueue q.rule q.queue
    → IsQueue q.rule (update_party_size k size now q).0.queue
unfolding update_party_size
update-IsQueue k size now q v =
    ground (
      arith,
      erase_first-IsQueue q.rule k q.queue v,
      resize_first-IsQueue q.rule k size now q.queue,
    )

cancel-IsQueue :
    (k : ℕ) (q : MatchQueue) → IsQueue q.rule q.queue → IsQueue q.rule (cancel k q).0.queue
unfolding cancel
cancel-IsQueue k q v = ground (arith, without-IsQueue q.rule k q.queue v)

module _ (expand : ℤ → ℤ → ℤ) where
  partner-queued :
      (rule : MatchRule) (first : MatchCandidate) (now : ℕ) (cs : List MatchCandidate)
      (p : MatchCandidate × List MatchCandidate) (k : ℕ)
      → partner expand rule first now cs ≡ some p
      → queued k cs ≡ false
      → queued k p.1 ≡ false
  unfolding partner queued
  partner-queued rule first now [] p k h u = cc
  partner-queued rule first now (c ∷ cs) p k h u =
      elim (Option-cases (partner expand rule first now cs)) [
        | inl e ↦ ground arith
        | inr (q, e) ↦ ground (arith, partner-queued rule first now cs q k e)
      ]

  partner-IsQueue :
      (rule : MatchRule) (first : MatchCandidate) (now : ℕ) (cs : List MatchCandidate)
      (p : MatchCandidate × List MatchCandidate)
      → partner expand rule first now cs ≡ some p
      → IsQueue rule cs
      → IsQueue rule p.1
  unfolding partner
  partner-IsQueue rule first now [] p h v = cc
  partner-IsQueue rule first now (c ∷ cs) p h v =
      elim (Bool-cases (compatible expand rule first c now)) [
        | inl t ↦ let same : cs ≡ p.1 = ground arith in rw (← same) v.3
        | inr t ↦ elim (Option-cases (partner expand rule first now cs)) [
          | inl e ↦ cc (rw (e, t, partner) at h)
          | inr (q, e) ↦
              let same : p.1 ≡ c ∷ q.1 = ground arith in
              rw same (
                v.0,
                v.1,
                partner-queued rule first now cs q c.party_id e v.2,
                partner-IsQueue rule first now cs q e v.3,
              )
        ]
      ]

  first_pair-queued :
      (rule : MatchRule) (now : ℕ) (cs : List MatchCandidate)
      (p : MatchCandidate × MatchCandidate × List MatchCandidate) (k : ℕ)
      → first_pair expand rule now cs ≡ some p
      → queued k cs ≡ false
      → queued k p.2 ≡ false
  unfolding first_pair queued
  first_pair-queued rule now [] p k h u = cc
  first_pair-queued rule now (c ∷ cs) p k h u = elim (Option-cases (partner expand rule c now cs)) [
    | inr (q, e) ↦ ground (arith, partner-queued rule c now cs q k e)
    | inl e ↦ elim (Option-cases (first_pair expand rule now cs)) [
      | inl n ↦ cc (rw (e, n, first_pair) at h)
      | inr (q, f) ↦ ground (arith, first_pair-queued rule now cs q k f)
    ]
  ]

  first_pair-IsQueue :
      (rule : MatchRule) (now : ℕ) (cs : List MatchCandidate)
      (p : MatchCandidate × MatchCandidate × List MatchCandidate)
      → first_pair expand rule now cs ≡ some p
      → IsQueue rule cs
      → IsQueue rule p.2
  unfolding first_pair
  first_pair-IsQueue rule now [] p h v = cc
  first_pair-IsQueue rule now (c ∷ cs) p h v = elim (Option-cases (partner expand rule c now cs)) [
    | inr (q, e) ↦
        let same : q.1 ≡ p.2 = ground arith in rw (← same) (partner-IsQueue rule c now cs q e v.3)
    | inl e ↦ elim (Option-cases (first_pair expand rule now cs)) [
      | inl n ↦ cc (rw (e, n, first_pair) at h)
      | inr (q, f) ↦
          let same : p.2 ≡ c ∷ q.2 = ground arith in
          rw same (
            v.0,
            v.1,
            first_pair-queued rule now cs q c.party_id f v.2,
            first_pair-IsQueue rule now cs q f v.3,
          )
    ]
  ]

  find_match-IsQueue :
      (now : ℕ) (q : MatchQueue)
      → IsQueue q.rule q.queue
      → IsQueue q.rule (find_match expand now q).0.queue
  unfolding find_match
  find_match-IsQueue now q v = elim (Option-cases (first_pair expand q.rule now q.queue)) [
    | inl e ↦ rw (e, find_match) v
    | inr (p, e) ↦ rw (e, find_match) (first_pair-IsQueue q.rule now q.queue p e v)
  ]

  unfoldable pub step : MatchQueue → Call → MatchQueue
  step q (add candidate) = (enqueue candidate q).0
  step q (drop_out party) = (cancel party q).0
  step q (resize party size now) = (update_party_size party size now q).0
  step q (pair_up now) = (find_match expand now q).0

  unfoldable pub run : MatchQueue → List Call → MatchQueue
  unfolding step
  run q [] = q
  run q (c ∷ cs) = run (step q c) cs

  step-rule : (q : MatchQueue) (c : Call) → (step q c).rule ≡ q.rule
  unfolding step enqueue cancel update_party_size find_match
  step-rule q (add candidate) = ground arith
  step-rule q _ = ground arith

  step-IsQueue :
      (q : MatchQueue) (c : Call) → IsQueue q.rule q.queue → IsQueue q.rule (step q c).queue
  unfolding step
  step-IsQueue q (add candidate) v = enqueue-IsQueue candidate q v
  step-IsQueue q (drop_out party) v = cancel-IsQueue party q v
  step-IsQueue q (resize party size now) v = update-IsQueue party size now q v
  step-IsQueue q (pair_up now) v = find_match-IsQueue now q v

  run-IsQueue :
      (cs : List Call) (q : MatchQueue) → IsQueue q.rule q.queue → IsQueue q.rule (run q cs).queue
  unfolding run
  run-IsQueue [] q v = v
  run-IsQueue (c ∷ cs) q v =
      rw step-rule at (run-IsQueue cs (step q c) (rw step-rule (step-IsQueue q c v)))

-- After any history of calls on a new queue, each party stands in it at most once, under an id other
-- than 0, with a size that the rule admits.
pub run-init-IsQueue :
    (expand : ℤ → ℤ → ℤ) (rule : MatchRule) (cs : List Call)
    → IsQueue rule (run expand (init rule) cs).queue
run-init-IsQueue expand rule cs = run-IsQueue expand cs (init rule) tt
