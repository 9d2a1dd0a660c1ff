-- ===== src/Matching/Queue.antt =====
-- What the operations of src/match/match_queue.cpp keep true of the queue.
use gameserver_hide.Base.{
  ℕ, ◌≡◌, ◌≢◌, refl, true, false, ◌&&◌, ◌||◌, not, Option, none, some, List, [], ◌∷◌, arith, ◌==◌,
  if◌then◌else◌,
}
use gameserver_hide.Matching.{
  MatchRule, MatchCandidate, fits, queued, overwrite, push_back, without, erase_first, resize_first,
}

-- The entry of a party.
unfoldable pub entry : ℕ → List MatchCandidate → Option MatchCandidate
entry party [] = none
entry party (c ∷ cs) = if c.party_id == party then some c else entry party cs

-- Each party stands once, under an id other than 0, with a size that the rule admits.
abbrev pub IsQueue : MatchRule → List MatchCandidate → Type 0
IsQueue rule [] = Unit {0}
IsQueue rule (c ∷ cs) =
    (c.party_id ≢ 0)
    × (fits rule c.party_size ≡ true)
    × (queued c.party_id cs ≡ false)
    × IsQueue rule cs

queued-push_back :
    (p : ℕ) (c : MatchCandidate) (cs : List MatchCandidate)
    → queued p (push_back c cs) ≡ (queued p cs || c.party_id == p)
unfolding queued push_back
queued-push_back p c [] = ground arith
queued-push_back p c (d ∷ cs) = ground (arith, queued-push_back p c cs)

queued-overwrite :
    (p : ℕ) (c : MatchCandidate) (cs : List MatchCandidate)
    → queued p (overwrite c cs) ≡ queued p cs
unfolding queued overwrite
queued-overwrite p c [] = refl
queued-overwrite p c (d ∷ cs) = ground (arith, queued-overwrite p c cs)

queued-without :
    (p k : ℕ) (cs : List MatchCandidate) → queued p (without k cs) ≡ (not (p == k) && queued p cs)
unfolding queued without
queued-without p k [] = ground arith
queued-without p k (d ∷ cs) = ground (arith, queued-without p k cs)

queued-resize_first :
    (p k size now : ℕ) (cs : List MatchCandidate)
    → queued p (resize_first k size now cs) ≡ queued p cs
unfolding queued resize_first
queued-resize_first p k size now [] = refl
queued-resize_first p k size now (d ∷ cs) = ground (arith, queued-resize_first p k size now cs)

queued-erase_first :
    (p k : ℕ) (cs : List MatchCandidate) → queued p cs ≡ false → queued p (erase_first k cs) ≡ false
unfolding queued erase_first
queued-erase_first p k [] h = refl
queued-erase_first p k (d ∷ cs) h = ground (arith, queued-erase_first p k cs)

module _ (rule : MatchRule) where
  pub push_back-IsQueue :
      (c : MatchCandidate) (cs : List MatchCandidate)
      → c.party_id ≢ 0
      → fits rule c.party_size ≡ true
      → queued c.party_id cs ≡ false
      → IsQueue rule cs
      → IsQueue rule (push_back c cs)
  unfolding queued push_back
  push_back-IsQueue c [] z f u v = (z, f, refl, tt)
  push_back-IsQueue c (d ∷ cs) z f u v = (
    v.0,
    v.1,
    ground (arith, queued-push_back d.party_id c cs),
    push_back-IsQueue c cs z f (ground arith) v.3,
  )

  pub overwrite-IsQueue :
      (c : MatchCandidate) (cs : List MatchCandidate)
      → fits rule c.party_size ≡ true
      → IsQueue rule cs
      → IsQueue rule (overwrite c cs)
  unfolding queued overwrite
  overwrite-IsQueue c [] f v = tt
  overwrite-IsQueue c (d ∷ cs) f v =
      ground (arith, overwrite-IsQueue c cs f v.3, queued-overwrite d.party_id c cs)

  pub without-IsQueue :
      (k : ℕ) (cs : List MatchCandidate) → IsQueue rule cs → IsQueue rule (without k cs)
  unfolding queued without
  without-IsQueue k [] v = tt
  without-IsQueue k (d ∷ cs) v =
      ground (arith, without-IsQueue k cs v.3, queued-without d.party_id k cs)

  pub erase_first-IsQueue :
      (k : ℕ) (cs : List MatchCandidate) → IsQueue rule cs → IsQueue rule (erase_first k cs)
  unfolding queued erase_first
  erase_first-IsQueue k [] v = tt
  erase_first-IsQueue k (d ∷ cs) v =
      ground (arith, erase_first-IsQueue k cs v.3, queued-erase_first d.party_id k cs)

  pub resize_first-IsQueue :
      (k size now : ℕ) (cs : List MatchCandidate)
      → fits rule size ≡ true
      → IsQueue rule cs
      → IsQueue rule (resize_first k size now cs)
  unfolding queued resize_first
  resize_first-IsQueue k size now [] f v = tt
  resize_first-IsQueue k size now (d ∷ cs) f v = ground (
    arith,
    resize_first-IsQueue k size now cs f v.3,
    queued-resize_first d.party_id k size now cs,
  )
