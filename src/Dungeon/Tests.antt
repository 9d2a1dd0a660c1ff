-- ===== src/Dungeon/Tests.antt =====
-- A run through an instance of src/dungeon for the party of a new party service.
use gameserver_hide.Base.{◌≤◌, ◌≡◌, refl, ◌↔◌, ◌||◌, not, true, List, [], ◌∷◌, arith}
use gameserver_hide.Base.Map.{find, contains}
use gameserver_hide.Party.Types.{PartyService}
use gameserver_hide.Party.Types
use gameserver_hide.Party.Run
use gameserver_hide.Dungeon.{
  waiting, ready, playing, clear, InstanceManager, is_party_ready, request_transition,
}
use gameserver_hide.Dungeon.Lifecycle.{
  Move, wants_party, request_transition-Move, Call, request, run, progress, owner, run-progress,
}
use gameserver_hide.Dungeon.Ready.{is_party_ready-contains}

abbrev party_calls : List Run.Call
party_calls = Run.create 20 (97 ∷ []) ∷ []

abbrev parties : PartyService
parties = Run.run Types.init party_calls

abbrev opened : InstanceManager
opened = record {
  next_instance_id = 2;
  instances = (1, record { id = 1; party_id = 1; state = waiting }) ∷ [];
}

abbrev to_clear : List Call
to_clear =
    request 1 ready parties
    ∷ request 1 waiting parties
    ∷ request 1 playing parties
    ∷ request 1 clear parties
    ∷ []

request_transition-Move_example :
    ((request_transition 1 ready parties opened).1 ≡ true)
    ↔ (Move waiting ready × ((not (wants_party ready) || is_party_ready 1 parties) ≡ true))
unfolding find
request_transition-Move_example =
    request_transition-Move 1 ready parties opened
      (record { id = 1; party_id = 1; state = waiting }) refl

run-progress_example :
    (progress (find 1 opened.instances) ≤ progress (find 1 (run opened to_clear).instances))
    × (owner (find 1 (run opened to_clear).instances) ≡ owner (find 1 opened.instances))
unfolding find progress
run-progress_example = run-progress opened to_clear 1 (ground arith)

is_party_ready-contains_example : is_party_ready 1 parties ≡ contains 1 parties.parties
is_party_ready-contains_example =
    is_party_ready-contains 1 parties (Run.run-init-IsConsistent party_calls (ground arith))
