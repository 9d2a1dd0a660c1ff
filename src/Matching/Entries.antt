-- ===== src/Matching/Entries.antt =====
-- The operations of src/match/match_queue.cpp, seen as changes of a map from parties to entries.
use gameserver_hide.Base.{
  ℕ, ◌≡◌, refl, Option, none, some, List, [], ◌∷◌, arith, ◌==◌, if◌then◌else◌, is_some,
}
use gameserver_hide.Matching.{
  MatchRule, MatchCandidate, MatchQueue, fits, queued, without, cancel, erase_first, resize_first,
  update_party_size,
}
use gameserver_hide.Matching.Queue.{entry, IsQueue}

queued-is_some : (p : ℕ) (cs : List MatchCandidate) → queued p cs ≡ is_some (entry p cs)
unfolding queued entry
queued-is_some p [] = refl
queued-is_some p (d ∷ cs) = ground (arith, queued-is_some p cs)

entry-without :
    (p k : ℕ) (cs : List MatchCandidate)
    → entry p (without k cs) ≡ (if k == p then none else entry p cs)
unfolding entry without
entry-without p k [] = ground arith
entry-without p k (d ∷ cs) = ground (arith, entry-without p k cs)

entry-erase_first :
    (rule : MatchRule) (p k : ℕ) (cs : List MatchCandidate)
    → IsQueue rule cs
    → entry p (erase_first k cs) ≡ (if k == p then none else entry p cs)
unfolding entry erase_first
entry-erase_first rule p k [] v = ground arith
entry-erase_first rule p k (d ∷ cs) v =
    ground (arith, entry-erase_first rule p k cs v.3, queued-is_some d.party_id cs)

unfoldable pub resized : ℕ → ℕ → Option MatchCandidate → Option MatchCandidate
resized size now none = none
resized size now (some c) = some (record c { party_size = size; enqueue_time = now })

entry-resize_first :
    (p k size now : ℕ) (cs : List MatchCandidate)
    → entry p (resize_first k size now cs)
      ≡ (if k == p then resized size now (entry p cs) else entry p cs)
unfolding entry resize_first resized
entry-resize_first p k size now [] = ground arith
entry-resize_first p k size now (d ∷ cs) = ground (arith, entry-resize_first p k size now cs)

-- cancel answers whether the party was queued; it is not queued behind that, and no other party's
-- entry changes.
cancel_lem :
    (k : ℕ) (q : MatchQueue) (p : ℕ)
    → ((cancel k q).1 ≡ is_some (entry k q.queue))
      × (entry p (cancel k q).0.queue ≡ (if k == p then none else entry p q.queue))
unfolding cancel
cancel_lem k q p = (
  ground (arith, queued-is_some k q.queue),
  ground (arith, queued-is_some k q.queue, queued-is_some p q.queue, entry-without p k q.queue),
)

-- In a queue with one entry for each party, updatePartySize gives the party's entry the new size and
-- time, or drops it where the rule does not admit the size; no other party's entry changes.
pub update_party_size_lem :
    (k size now : ℕ) (q : MatchQueue) (p : ℕ)
    → IsQueue q.rule q.queue
    → ((update_party_size k size now q).1 ≡ is_some (entry k q.queue))
      × (entry p (update_party_size k size now q).0.queue ≡ (
          if k == p
          then (if fits q.rule size then resized size now (entry p q.queue) else none)
          else entry p q.queue))
unfolding update_party_size resized
update_party_size_lem k size now q p v = (
  ground (arith, queued-is_some k q.queue),
  ground (
    arith,
    queued-is_some k q.queue,
    queued-is_some p q.queue,
    entry-erase_first q.rule p k q.queue v,
    entry-resize_first p k size now q.queue,
  ),
)
