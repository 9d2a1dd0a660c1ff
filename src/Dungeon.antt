-- ===== src/Dungeon.antt =====
-- src/dungeon/instance_manager.h and instance_manager.cpp. The party service is an argument, as there;
-- instance ids are 64-bit and their counter wraps.
pub mod Movement
pub mod Lifecycle
pub mod Ready
pub mod Tests
use gameserver_hide.Base.{
  ℕ, ◌+◌, ◌%◌, ◌^◌, Bool, true, false, not, ◌&&◌, ◌||◌, Option, none, some, List, [], ◌∷◌, ◌==◌,
  length, is_some, if◌then◌else◌,
}
use gameserver_hide.Base.Map.{Map, find, put, emplace}
use gameserver_hide.Party.Types.{PartyMember, PartyInfo, PartyService}
use gameserver_hide.Party.Query.{get_party_info}

pub data InstanceState : Type 0 where
  waiting ready playing clear fail terminate : InstanceState

pub record InstanceRecord : Type 0 where
  pub id : ℕ
  pub party_id : ℕ
  pub state : InstanceState

pub record InstanceManager : Type 0 where
  pub next_instance_id : ℕ
  pub instances : Map InstanceRecord

abbrev pub init : InstanceManager
init = record { next_instance_id = 1; instances = [] }

-- The number of a state, by which the code compares two of them.
unfoldable pub number : InstanceState → ℕ
number waiting = 0
number ready = 1
number playing = 2
number clear = 3
number fail = 4
number terminate = 5

unfoldable pub same : InstanceState → InstanceState → Bool
unfolding number
same a b = number a == number b

unfoldable pub transition_allowed : InstanceState → InstanceState → Bool
unfolding same
transition_allowed waiting to = same to ready || same to terminate
transition_allowed ready to = same to playing || same to terminate
transition_allowed playing to = same to clear || (same to fail || same to terminate)
transition_allowed clear to = same to terminate
transition_allowed fail to = same to terminate
transition_allowed terminate to = false

-- std::any_of
unfoldable pub any_session : ℕ → List PartyMember → Bool
any_session leader [] = false
any_session leader (m ∷ ms) = m.session_id == leader || any_session leader ms

unfoldable pub is_party_ready : ℕ → PartyService → Bool
unfolding any_session
is_party_ready party_id parties = elim (get_party_info party_id parties) [
  | none ↦ false
  | some info ↦
      if length info.members == 0 then false else any_session info.leader_session_id info.members
]

unfoldable pub create_instance : ℕ → PartyService → InstanceManager → InstanceManager × Option ℕ
create_instance party_id parties m =
    if not (is_some (get_party_info party_id parties))
    then (m, none)
    else let id = m.next_instance_id in
      (
        record {
          next_instance_id = (id + 1) % 2 ^ 64;
          instances =
              emplace id (record { id = id; party_id = party_id; state = waiting }) m.instances;
        },
        some id,
      )

unfoldable pub terminate_instance : ℕ → InstanceManager → InstanceManager × Bool
terminate_instance id m = elim (find id m.instances) [
  | none ↦ (m, false)
  | some i ↦ (record m { instances = put id (record i { state = terminate }) m.instances }, true)
]

unfoldable pub request_transition :
    ℕ → InstanceState → PartyService → InstanceManager → InstanceManager × Bool
unfolding transition_allowed same
request_transition id next parties m = elim (find id m.instances) [
  | none ↦ (m, false)
  | some i ↦
      if same i.state next
      then (m, false)
      else if not (transition_allowed i.state next)
      then (m, false)
      else if (same next ready || same next playing) && not (is_party_ready i.party_id parties)
      then (m, false)
      else (record m { instances = put id (record i { state = next }) m.instances }, true)
]

unfoldable pub get_instance : ℕ → InstanceManager → Option InstanceRecord
get_instance id m = find id m.instances

unfoldable pub size : InstanceManager → ℕ
size m = length m.instances
