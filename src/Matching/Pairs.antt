-- ===== src/Matching/Pairs.antt =====
-- What findMatch of src/match/match_queue.cpp finds.
use gameserver_hide.Base.{
  ℕ, ◌≡◌, refl, ap, true, false, Option, none, some, List, [], ◌∷◌, ◌++◌, All, arith, Bool-cases,
  Option-cases, inl, inr,
}
use gameserver_hide.Base.Int.{ℤ, sub_ℕ, abs-sub_comm, minℤ_comm}
use gameserver_hide.Matching.{
  MatchRule, MatchCandidate, MatchQueue, compatible, partner, first_pair, find_match,
}

module _ (expand : ℤ → ℤ → ℤ) (rule : MatchRule) (now : ℕ) where
  abbrev Apart : MatchCandidate → List MatchCandidate → Type 0
  Apart c cs = All (λ d. compatible expand rule c d now ≡ false) cs

  -- No entry matches one that stands behind it.
  abbrev pub NoPair : List MatchCandidate → Type 0
  NoPair [] = Unit {0}
  NoPair (c ∷ cs) = Apart c cs × NoPair cs

  -- No entry of the first list matches one that stands behind it there or in the second.
  abbrev pub Skips : List MatchCandidate → List MatchCandidate → Type 0
  Skips [] rest = Unit {0}
  Skips (c ∷ cs) rest = Apart c (cs ++ rest) × Skips cs rest

  -- The pair is the first of the queue that matches, by its first entry and then by its second, and
  -- `others` is the queue without it.
  pub record IsFirstPair (queue : List MatchCandidate) (first second : MatchCandidate)
      (others : List MatchCandidate) : Type 0 where
    pub before : List MatchCandidate
    pub between : List MatchCandidate
    pub after : List MatchCandidate
    pub split : queue ≡ before ++ (first ∷ (between ++ (second ∷ after)))
    pub left : others ≡ before ++ (between ++ after)
    pub matches : compatible expand rule first second now ≡ true
    pub skipped : Skips before (first ∷ (between ++ (second ∷ after)))
    pub passed : Apart first between

  record IsPartner (first : MatchCandidate) (cs : List MatchCandidate)
      (p : MatchCandidate × List MatchCandidate) : Type 0 where
    between : List MatchCandidate
    after : List MatchCandidate
    split : cs ≡ between ++ (p.0 ∷ after)
    left : p.1 ≡ between ++ after
    matches : compatible expand rule first p.0 now ≡ true
    passed : Apart first between

  partner-none :
      (first : MatchCandidate) (cs : List MatchCandidate)
      → partner expand rule first now cs ≡ none
      → Apart first cs
  unfolding partner
  partner-none first [] h = tt
  partner-none first (c ∷ cs) h = (ground arith, partner-none first cs (ground arith))

  partner-some :
      (first : MatchCandidate) (cs : List MatchCandidate) (p : MatchCandidate × List MatchCandidate)
      → partner expand rule first now cs ≡ some p
      → IsPartner first cs p
  unfolding partner
  partner-some first [] p h = cc
  partner-some first (c ∷ cs) p h = elim (Bool-cases (compatible expand rule first c now)) [
    | inl e ↦ record {
      between = [];
      after = cs;
      split = ground arith;
      left = ground arith;
      matches = ground arith;
      passed = tt;
    }
    | inr e ↦ elim (Option-cases (partner expand rule first now cs)) [
      | inl n ↦ cc (rw (e, n, partner) at h)
      | inr (q, f) ↦
          let r = partner-some first cs q f in
          record {
            between = c ∷ r.between;
            after = r.after;
            split = ground (arith, r.split);
            left = ground (arith, r.left);
            matches = ground (arith, r.matches);
            passed = (e, r.passed);
          }
    ]
  ]

  first_pair-none : (cs : List MatchCandidate) → first_pair expand rule now cs ≡ none → NoPair cs
  unfolding first_pair
  first_pair-none [] h = tt
  first_pair-none (c ∷ cs) h = (partner-none c cs (ground arith), first_pair-none cs (ground arith))

  first_pair-some :
      (cs : List MatchCandidate) (p : MatchCandidate × MatchCandidate × List MatchCandidate)
      → first_pair expand rule now cs ≡ some p
      → IsFirstPair cs p.0 p.1 p.2
  unfolding first_pair
  first_pair-some [] p h = cc
  first_pair-some (c ∷ cs) p h = elim (Option-cases (partner expand rule c now cs)) [
    | inr (q, e) ↦
        let r = partner-some c cs q e in
        record {
          before = [];
          between = r.between;
          after = r.after;
          split = ground (arith, r.split);
          left = ground (arith, r.left);
          matches = ground (arith, r.matches);
          skipped = tt;
          passed = rw (← fst_eq q e) r.passed;
        }
    | inl e ↦ elim (Option-cases (first_pair expand rule now cs)) [
      | inl n ↦ cc (rw (e, n, first_pair) at h)
      | inr (q, f) ↦
          let r = first_pair-some cs q f in
          let apart : Apart c (r.before ++ (q.0 ∷ (r.between ++ (q.1 ∷ r.after)))) =
            rw r.split at (partner-none c cs e) in
          let same : p ≡ (q.0, q.1, c ∷ q.2) = ground arith in
          rw same (record {
            before = c ∷ r.before;
            between = r.between;
            after = r.after;
            split = ap (◌∷◌ c) r.split;
            left = ap (◌∷◌ c) r.left;
            matches = r.matches;
            skipped = (apart, r.skipped);
            passed = r.passed;
          })
    ]
  ]
    where
      fst_eq :
          (q : MatchCandidate × List MatchCandidate)
          → partner expand rule c now cs ≡ some q
          → c ≡ p.0
      fst_eq q e = ground arith

-- What the code should find: the first pair that matches, or nothing where no pair matches.
abbrev pub Finds :
    (ℤ → ℤ → ℤ) → ℕ → MatchQueue → MatchQueue × Option (MatchCandidate × MatchCandidate) → Type 0
Finds expand now q (q', none) = (q' ≡ q) × NoPair expand q.rule now q.queue
Finds expand now q (q', some (first, second)) =
    IsFirstPair expand q.rule now q.queue first second q'.queue × (q'.rule ≡ q.rule)

-- What findMatch returns is the first pair of the queue that matches, which it takes out of the
-- queue, whose other entries keep their order; it returns nothing only if no two entries match, and
-- then the queue is as it was.
pub find_match-Finds :
    (expand : ℤ → ℤ → ℤ) (now : ℕ) (q : MatchQueue) → Finds expand now q (find_match expand now q)
unfolding find_match
find_match-Finds expand now q = elim (Option-cases (first_pair expand q.rule now q.queue)) [
  | inl e ↦ rw (e, find_match) (refl, first_pair-none expand q.rule now q.queue e)
  | inr (p, e) ↦ rw (e, find_match) (first_pair-some expand q.rule now q.queue p e, refl)
]

-- Which of two entries comes first does not matter to their match.
compatible_comm :
    (expand : ℤ → ℤ → ℤ) (rule : MatchRule) (a b : MatchCandidate) (now : ℕ)
    → compatible expand rule a b now ≡ compatible expand rule b a now
unfolding compatible
compatible_comm expand rule a b now = ground (
  arith,
  abs-sub_comm a.mmr b.mmr,
  minℤ_comm (sub_ℕ now a.enqueue_time) (sub_ℕ now b.enqueue_time),
)
