-- ===== src/Net/Protocol/Party.antt =====
-- The party messages of src/net/protocol.h and protocol.cpp. An enum field is its number, as
-- the code casts it to and from `std::uint16_t` without a test.
use gameserver_hide.Base.{ℕ, ◌<◌, ◌≤◌, Bool, List, [], ◌∷◌, Option, Text, length}
use gameserver_hide.Net.Wire.{
  IsTextList, emit, decode, ◌>>=◌, pure, u16_mod, u64_mod, u16_max, read_flag, write_flag,
  read_string, write_string, read_string_list, write_string_list, read_u16, write_u16, read_u64,
  write_u64,
}
use gameserver_hide.Net.Wire.Exact.{IsExact, IsExact-Parses}
use gameserver_hide.Net.Wire.Reads.{Parses-bind, Parses-flag}
use gameserver_hide.Net.Wire.Rules.{parse_rules, stable_rules}

pub record PartyCreateRequest : Type 0 where
  pub leader_user_id : Text

abbrev pub FitsPartyCreateRequest : PartyCreateRequest → Type 0
FitsPartyCreateRequest m = (length m.leader_user_id ≤ u16_max)

unfoldable pub encode_party_create_request : PartyCreateRequest → Text
encode_party_create_request m = emit (write_string m.leader_user_id ∷ [])

unfoldable pub decode_party_create_request : Text → Option PartyCreateRequest
decode_party_create_request =
    decode do leader_user_id ← read_string; pure (record { leader_user_id = leader_user_id })

pub party_create_request-IsExact :
    (m : PartyCreateRequest)
    → FitsPartyCreateRequest m
    → IsExact decode_party_create_request (encode_party_create_request m) m
unfolding encode_party_create_request decode_party_create_request
party_create_request-IsExact m h =
    let fits : length m.leader_user_id ≤ u16_max = h in
    IsExact-Parses _ _ _ (search (parse_rules) depth 5) (search (stable_rules) depth 5)

pub record PartyCreateResponse : Type 0 where
  pub success : Bool
  pub party_id : ℕ
  pub message : Text

abbrev pub FitsPartyCreateResponse : PartyCreateResponse → Type 0
FitsPartyCreateResponse m = (m.party_id < u64_mod) × (length m.message ≤ u16_max)

unfoldable pub encode_party_create_response : PartyCreateResponse → Text
encode_party_create_response m =
    emit (write_flag m.success ∷ write_u64 m.party_id ∷ write_string m.message ∷ [])

unfoldable pub decode_party_create_response : Text → Option PartyCreateResponse
decode_party_create_response = decode do
  success ← read_flag
  party_id ← read_u64
  message ← read_string
  pure (record { success = success; party_id = party_id; message = message })

pub party_create_response-IsExact :
    (m : PartyCreateResponse)
    → FitsPartyCreateResponse m
    → IsExact decode_party_create_response (encode_party_create_response m) m
unfolding encode_party_create_response decode_party_create_response
party_create_response-IsExact m h =
    IsExact-Parses _ _ _ (Parses-bind _ (Parses-flag m.success) (search (parse_rules) depth 7))
      (search (stable_rules) depth 7)

pub record PartyDisbandRequest : Type 0 where
  pub party_id : ℕ
  pub requester_user_id : Text

abbrev pub FitsPartyDisbandRequest : PartyDisbandRequest → Type 0
FitsPartyDisbandRequest m = (m.party_id < u64_mod) × (length m.requester_user_id ≤ u16_max)

unfoldable pub encode_party_disband_request : PartyDisbandRequest → Text
encode_party_disband_request m = emit (write_u64 m.party_id ∷ write_string m.requester_user_id ∷ [])

unfoldable pub decode_party_disband_request : Text → Option PartyDisbandRequest
decode_party_disband_request = decode do
  party_id ← read_u64
  requester_user_id ← read_string
  pure (record { party_id = party_id; requester_user_id = requester_user_id })

pub party_disband_request-IsExact :
    (m : PartyDisbandRequest)
    → FitsPartyDisbandRequest m
    → IsExact decode_party_disband_request (encode_party_disband_request m) m
unfolding encode_party_disband_request decode_party_disband_request
party_disband_request-IsExact m h =
    IsExact-Parses _ _ _ (search (parse_rules) depth 6) (search (stable_rules) depth 6)

pub record PartyDisbandResponse : Type 0 where
  pub success : Bool
  pub message : Text

abbrev pub FitsPartyDisbandResponse : PartyDisbandResponse → Type 0
FitsPartyDisbandResponse m = (length m.message ≤ u16_max)

unfoldable pub encode_party_disband_response : PartyDisbandResponse → Text
encode_party_disband_response m = emit (write_flag m.success ∷ write_string m.message ∷ [])

unfoldable pub decode_party_disband_response : Text → Option PartyDisbandResponse
decode_party_disband_response = decode do
  success ← read_flag
  message ← read_string
  pure (record { success = success; message = message })

pub party_disband_response-IsExact :
    (m : PartyDisbandResponse)
    → FitsPartyDisbandResponse m
    → IsExact decode_party_disband_response (encode_party_disband_response m) m
unfolding encode_party_disband_response decode_party_disband_response
party_disband_response-IsExact m h =
    let fits : length m.message ≤ u16_max = h in
    IsExact-Parses _ _ _ (Parses-bind _ (Parses-flag m.success) (search (parse_rules) depth 6))
      (search (stable_rules) depth 6)

pub record PartyEvent : Type 0 where
  pub type : ℕ
  pub party_id : ℕ
  pub actor_user_id : Text
  pub target_user_id : Text
  pub member_user_ids : List Text
  pub message : Text

abbrev pub FitsPartyEvent : PartyEvent → Type 0
FitsPartyEvent m =
    (m.type < u16_mod)
    × (m.party_id < u64_mod)
    × (length m.actor_user_id ≤ u16_max)
    × (length m.target_user_id ≤ u16_max)
    × IsTextList m.member_user_ids
    × (length m.message ≤ u16_max)

unfoldable pub encode_party_event : PartyEvent → Text
encode_party_event m = emit (
    write_u16 m.type
    ∷ write_u64 m.party_id
    ∷ write_string m.actor_user_id
    ∷ write_string m.target_user_id
    ∷ write_string_list m.member_user_ids
    ∷ write_string m.message
    ∷ [])

unfoldable pub decode_party_event : Text → Option PartyEvent
decode_party_event = decode do
  type ← read_u16
  party_id ← read_u64
  actor_user_id ← read_string
  target_user_id ← read_string
  member_user_ids ← read_string_list
  message ← read_string
  pure (record {
    type = type;
    party_id = party_id;
    actor_user_id = actor_user_id;
    target_user_id = target_user_id;
    member_user_ids = member_user_ids;
    message = message;
  })

pub party_event-IsExact :
    (m : PartyEvent) → FitsPartyEvent m → IsExact decode_party_event (encode_party_event m) m
unfolding encode_party_event decode_party_event
party_event-IsExact m h =
    IsExact-Parses _ _ _ (search (parse_rules) depth 10) (search (stable_rules) depth 10)
