-- ===== src/Matching/Tests.antt =====
-- Four parties in the queue of src/match, and what the theorems say of it.
use gameserver_hide.Base.{ℕ, ◌*◌, ◌/◌, ◌≡◌, List, [], ◌∷◌, is_some, arith, suc}
use gameserver_hide.Base.Int.{ℤ, pos, negsuc, sub_ℕ}
use gameserver_hide.Matching.{
  MatchRule, MatchCandidate, MatchQueue, queued, update_party_size, find_match, init,
}
use gameserver_hide.Matching.Queue.{entry, IsQueue}
use gameserver_hide.Matching.Pairs.{Finds, find_match-Finds}
use gameserver_hide.Matching.Entries.{resized, update_party_size_lem}
use gameserver_hide.Matching.Run.{Call, add, resize, pair_up, drop_out, run, run-init-IsQueue}

-- Ticks are milliseconds, and the product is cut towards 0.
abbrev by_the_second : ℤ → ℤ → ℤ
by_the_second (pos rate) (pos wait) = pos (rate * wait / 1000)
by_the_second (pos rate) (negsuc wait) = sub_ℕ 0 (rate * suc wait / 1000)
by_the_second (negsuc rate) (pos wait) = sub_ℕ 0 (suc rate * wait / 1000)
by_the_second (negsuc rate) (negsuc wait) = pos (suc rate * suc wait / 1000)

abbrev rule : MatchRule
rule = record {
  max_mmr_delta = pos 50;
  expansion_per_second = pos 10;
  min_party_size = 1;
  max_party_size = 4;
}

abbrev candidate : ℕ → ℕ → ℕ → MatchCandidate
candidate party rating time = record {
  party_id = party;
  mmr = pos rating;
  party_size = 2;
  enqueue_time = time;
}

-- Parties 1 and 2 match only behind a wait; 1 and 3 match at once.
abbrev waiting : MatchQueue
waiting = record {
  rule = rule;
  queue = candidate 1 1000 0 ∷ candidate 2 1100 0 ∷ candidate 3 1040 1000 ∷ [];
}

abbrev day : List Call
day =
    add (candidate 1 1000 0)
    ∷ add (candidate 2 1100 0)
    ∷ add (candidate 1 900 5)
    ∷ resize 2 5 7
    ∷ pair_up 9
    ∷ drop_out 4
    ∷ []

find_match-Finds_example : Finds by_the_second 1000 waiting (find_match by_the_second 1000 waiting)
find_match-Finds_example = find_match-Finds by_the_second 1000 waiting

run-init-IsQueue_example : IsQueue rule (run by_the_second (init rule) day).queue
run-init-IsQueue_example = run-init-IsQueue by_the_second rule day

update_party_size_lem_example :
    ((update_party_size 2 3 50 waiting).1 ≡ is_some (entry 2 waiting.queue))
    × (entry 2 (update_party_size 2 3 50 waiting).0.queue ≡ resized 3 50 (entry 2 waiting.queue))
unfolding queued
update_party_size_lem_example = update_party_size_lem 2 3 50 waiting 2 (ground arith)
