-- ===== src/Dungeon/Lifecycle.antt =====
-- The life of an instance of src/dungeon/instance_manager.cpp.
use gameserver_hide.Base.{
  ℕ, ◌≤◌, ◌<◌, ◌≡◌, refl, List, [], ◌∷◌, Bool, true, false, not, ◌&&◌, ◌||◌, ◌↔◌, Option, none,
  some, arith, ◌∙◌,
}
use gameserver_hide.Base.Map.{find, find-put, find-emplace}
use gameserver_hide.Party.Types.{PartyService}
use gameserver_hide.Dungeon.{
  InstanceState, waiting, ready, playing, clear, fail, terminate, InstanceRecord, InstanceManager,
  same, transition_allowed, is_party_ready, create_instance, terminate_instance, request_transition,
}

-- The moves that a client may request.
pub data Move : InstanceState → InstanceState → Type 0 where
  open_up : Move waiting ready
  begin : Move ready playing
  win : Move playing clear
  lose : Move playing fail
  close_waiting : Move waiting terminate
  close_ready : Move ready terminate
  close_playing : Move playing terminate
  close_clear : Move clear terminate
  close_fail : Move fail terminate

-- transitionAllowed decides the moves.
transition_allowed-Move : (a b : InstanceState) → transition_allowed a b ≡ true → Move a b
unfolding transition_allowed
transition_allowed-Move waiting ready h = open_up
transition_allowed-Move waiting terminate h = close_waiting
transition_allowed-Move ready playing h = begin
transition_allowed-Move ready terminate h = close_ready
transition_allowed-Move playing clear h = win
transition_allowed-Move playing fail h = lose
transition_allowed-Move playing terminate h = close_playing
transition_allowed-Move clear terminate h = close_clear
transition_allowed-Move fail terminate h = close_fail
transition_allowed-Move _ _ h = cc

Move-transition_allowed : {a b : InstanceState} → Move a b → transition_allowed a b ≡ true
unfolding transition_allowed
Move-transition_allowed open_up = refl
Move-transition_allowed begin = refl
Move-transition_allowed win = refl
Move-transition_allowed lose = refl
Move-transition_allowed close_waiting = refl
Move-transition_allowed close_ready = refl
Move-transition_allowed close_playing = refl
Move-transition_allowed close_clear = refl
Move-transition_allowed close_fail = refl

-- Ready and Playing want a party that is ready.
abbrev pub wants_party : InstanceState → Bool
wants_party ready = true
wants_party playing = true
wants_party _ = false

accepts_iff :
    (a b : InstanceState) (r : Bool)
    → ((not (same a b) && (transition_allowed a b && (not (wants_party b) || r))) ≡ true)
      ↔ (Move a b × ((not (wants_party b) || r) ≡ true))
unfolding same
accepts_iff a b r = (
  λ h. (transition_allowed-Move a b (ground arith), ground arith),
  λ h. distinct a b r h.0 (Move-transition_allowed h.0) h.1,
)
  where
    distinct :
        (a b : InstanceState) (r : Bool)
        → Move a b
        → transition_allowed a b ≡ true
        → (not (wants_party b) || r) ≡ true
        → (not (same a b) && (transition_allowed a b && (not (wants_party b) || r))) ≡ true
    distinct a b r open_up t h = ground arith
    distinct a b r begin t h = ground arith
    distinct a b r win t h = ground arith
    distinct a b r lose t h = ground arith
    distinct a b r close_waiting t h = ground arith
    distinct a b r close_ready t h = ground arith
    distinct a b r close_playing t h = ground arith
    distinct a b r close_clear t h = ground arith
    distinct a b r close_fail t h = ground arith

request-accepts :
    (id : ℕ) (next : InstanceState) (parties : PartyService) (m : InstanceManager)
    (i : InstanceRecord)
    → find id m.instances ≡ some i
    → (request_transition id next parties m).1 ≡ (
        not (same i.state next)
        && (transition_allowed i.state next
            && (not (wants_party next) || is_party_ready i.party_id parties)))
unfolding request_transition
request-accepts id waiting parties m i e = ground arith
request-accepts id _ parties m i e = ground arith

-- A transition of an instance is granted exactly when it is a move of the life cycle and, towards
-- Ready and Playing, the party is ready.
pub request_transition-Move :
    (id : ℕ) (next : InstanceState) (parties : PartyService) (m : InstanceManager)
    (i : InstanceRecord)
    → find id m.instances ≡ some i
    → ((request_transition id next parties m).1 ≡ true)
      ↔ (Move i.state next × ((not (wants_party next) || is_party_ready i.party_id parties) ≡ true))
request_transition-Move id next parties m i e =
    rw (request-accepts id next parties m i e)
      (accepts_iff i.state next (is_party_ready i.party_id parties))

pub data Call : Type 0 where
  create : ℕ → PartyService → Call
  stop : ℕ → Call
  request : ℕ → InstanceState → PartyService → Call

unfoldable pub step : InstanceManager → Call → InstanceManager
step m (create party parties) = (create_instance party parties m).0
step m (stop id) = (terminate_instance id m).0
step m (request id next parties) = (request_transition id next parties m).0

unfoldable pub run : InstanceManager → List Call → InstanceManager
unfolding step
run m [] = m
run m (c ∷ cs) = run (step m c) cs

-- How far an instance has come; 0 is an instance that does not exist.
unfoldable pub progress : Option InstanceRecord → ℕ
progress none = 0
progress (some i) = elim i.state [
  | waiting ↦ 1
  | ready ↦ 2
  | playing ↦ 3
  | clear ↦ 4
  | fail ↦ 4
  | terminate ↦ 5
]

abbrev pub owner : Option InstanceRecord → ℕ
owner none = 0
owner (some i) = i.party_id

step-progress :
    (m : InstanceManager) (c : Call) (id : ℕ)
    → progress (find id m.instances) ≤ progress (find id (step m c).instances)
unfolding step progress create_instance terminate_instance request_transition
step-progress m (create party parties) id = grind (arith, find-emplace)
step-progress m (stop k) id = grind (arith, find-put)
step-progress m (request k next parties) id = grind (arith, find-put)

step-owner :
    (m : InstanceManager) (c : Call) (id : ℕ)
    → 0 < progress (find id m.instances)
    → owner (find id (step m c).instances) ≡ owner (find id m.instances)
unfolding step progress create_instance terminate_instance request_transition
step-owner m (create party parties) id h = grind (arith, find-emplace)
step-owner m (stop k) id h = grind (arith, find-put)
step-owner m (request k next parties) id h = grind (arith, find-put)

-- Over any history of calls an instance that exists never goes back to an earlier stage (Waiting,
-- Ready, Playing, then Clear or Fail, then Terminate), never disappears, and stays with its party.
pub run-progress :
    (m : InstanceManager) (cs : List Call) (id : ℕ)
    → 0 < progress (find id m.instances)
    → (progress (find id m.instances) ≤ progress (find id (run m cs).instances))
      × (owner (find id (run m cs).instances) ≡ owner (find id m.instances))
unfolding run
run-progress m [] id h = (omega arith, refl)
run-progress m (c ∷ cs) id h =
    let up = step-progress m c id in
    let r = run-progress (step m c) cs id (omega arith) in (omega arith, r.1 ∙ step-owner m c id h)
