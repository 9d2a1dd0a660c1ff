-- ===== src/Party/Types.antt =====
-- The state of src/party/party.h and the event sink of party.cpp. Ids are 64-bit and the counter of
-- parties wraps; a time point is a number of clock ticks, in the unit of the invite timeout. The calls
-- of the event sink are kept in `sent`, in order. An operation returns the new service and its result.
use gameserver_hide.Base.{ℕ, Bool, false, List, [], ◌∷◌, ◌++◌, map, Text, if◌then◌else◌}
use gameserver_hide.Base.Map.{Map, keys}

pub data PartyEventType : Type 0 where
  created invite_sent invite_accepted invite_rejected invite_expired disbanded : PartyEventType

pub record PartyEvent : Type 0 where
  pub type : PartyEventType
  pub party_id : ℕ
  pub actor_session_id : ℕ
  pub target_session_id : ℕ
  pub member_session_ids : List ℕ
  pub message : Text

pub record PartyMember : Type 0 where
  pub session_id : ℕ
  pub user_id : Text

pub record PartyInfo : Type 0 where
  pub party_id : ℕ
  pub leader_session_id : ℕ
  pub members : List PartyMember

pub record PartyRecord : Type 0 where
  pub id : ℕ
  pub leader_session_id : ℕ
  pub members : Map PartyMember

pub record PartyInvite : Type 0 where
  pub inviter_session_id : ℕ
  pub invitee_user_id : Text
  pub sent_at : ℕ

pub record PartyService : Type 0 where
  pub next_party_id : ℕ
  pub parties : Map PartyRecord
  pub member_index : Map ℕ
  pub invites : Map (Map PartyInvite)
  pub event_sink : Bool
  pub invite_timeout : ℕ
  pub sent : List (ℕ × PartyEvent)

-- The timeout is 5 minutes in milliseconds.
abbrev pub init : PartyService
init = record {
  next_party_id = 1;
  parties = [];
  member_index = [];
  invites = [];
  event_sink = false;
  invite_timeout = 300_000;
  sent = [];
}

unfoldable pub emit_to_party : PartyRecord → PartyEvent → PartyService → PartyService
emit_to_party party event s =
    if s.event_sink
    then record s { sent = s.sent ++ map (λ id. (id, event)) (keys party.members) }
    else s

unfoldable pub emit_to_invitee : ℕ → PartyEvent → PartyService → PartyService
emit_to_invitee invitee event s =
    if s.event_sink then record s { sent = s.sent ++ (invitee, event) ∷ [] } else s

unfoldable pub set_event_sink : Bool → PartyService → PartyService
set_event_sink sink s = record s { event_sink = sink }

unfoldable pub set_invite_timeout : ℕ → PartyService → PartyService
set_invite_timeout timeout s = record s { invite_timeout = timeout }

abbrev pub event_to : PartyEventType → ℕ → ℕ → ℕ → List ℕ → Text → PartyEvent
event_to type party actor target members message = record {
  type = type;
  party_id = party;
  actor_session_id = actor;
  target_session_id = target;
  member_session_ids = members;
  message = message;
}
