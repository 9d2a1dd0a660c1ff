-- ===== src/Net/Protocol/Invite.antt =====
-- The party invite messages of src/net/protocol.h and protocol.cpp. An enum field is its number, as
-- the code casts it to and from `std::uint16_t` without a test.
use gameserver_hide.Base.{ℕ, ◌<◌, ◌≤◌, Bool, [], ◌∷◌, Option, Text, length}
use gameserver_hide.Net.Wire.{
  emit, decode, ◌>>=◌, pure, u64_mod, u16_max, read_flag, write_flag, read_string, write_string,
  read_u64, write_u64,
}
use gameserver_hide.Net.Wire.Exact.{IsExact, IsExact-Parses}
use gameserver_hide.Net.Wire.Reads.{Parses-bind, Parses-flag}
use gameserver_hide.Net.Wire.Rules.{parse_rules, stable_rules}

pub record PartyInviteRequest : Type 0 where
  pub party_id : ℕ
  pub inviter_user_id : Text
  pub invitee_user_id : Text

abbrev pub FitsPartyInviteRequest : PartyInviteRequest → Type 0
FitsPartyInviteRequest m =
    (m.party_id < u64_mod)
    × (length m.inviter_user_id ≤ u16_max)
    × (length m.invitee_user_id ≤ u16_max)

unfoldable pub encode_party_invite_request : PartyInviteRequest → Text
encode_party_invite_request m =
    emit
      (write_u64 m.party_id ∷ write_string m.inviter_user_id ∷ write_string m.invitee_user_id ∷ [])

unfoldable pub decode_party_invite_request : Text → Option PartyInviteRequest
decode_party_invite_request = decode do
  party_id ← read_u64
  inviter_user_id ← read_string
  invitee_user_id ← read_string
  pure (record {
    party_id = party_id;
    inviter_user_id = inviter_user_id;
    invitee_user_id = invitee_user_id;
  })

pub party_invite_request-IsExact :
    (m : PartyInviteRequest)
    → FitsPartyInviteRequest m
    → IsExact decode_party_invite_request (encode_party_invite_request m) m
unfolding encode_party_invite_request decode_party_invite_request
party_invite_request-IsExact m h =
    IsExact-Parses _ _ _ (search (parse_rules) depth 7) (search (stable_rules) depth 7)

pub record PartyInviteResponse : Type 0 where
  pub success : Bool
  pub message : Text

abbrev pub FitsPartyInviteResponse : PartyInviteResponse → Type 0
FitsPartyInviteResponse m = (length m.message ≤ u16_max)

unfoldable pub encode_party_invite_response : PartyInviteResponse → Text
encode_party_invite_response m = emit (write_flag m.success ∷ write_string m.message ∷ [])

unfoldable pub decode_party_invite_response : Text → Option PartyInviteResponse
decode_party_invite_response = decode do
  success ← read_flag
  message ← read_string
  pure (record { success = success; message = message })

pub party_invite_response-IsExact :
    (m : PartyInviteResponse)
    → FitsPartyInviteResponse m
    → IsExact decode_party_invite_response (encode_party_invite_response m) m
unfolding encode_party_invite_response decode_party_invite_response
party_invite_response-IsExact m h =
    let fits : length m.message ≤ u16_max = h in
    IsExact-Parses _ _ _ (Parses-bind _ (Parses-flag m.success) (search (parse_rules) depth 6))
      (search (stable_rules) depth 6)

pub record PartyAcceptRequest : Type 0 where
  pub party_id : ℕ
  pub invitee_user_id : Text

abbrev pub FitsPartyAcceptRequest : PartyAcceptRequest → Type 0
FitsPartyAcceptRequest m = (m.party_id < u64_mod) × (length m.invitee_user_id ≤ u16_max)

unfoldable pub encode_party_accept_request : PartyAcceptRequest → Text
encode_party_accept_request m = emit (write_u64 m.party_id ∷ write_string m.invitee_user_id ∷ [])

unfoldable pub decode_party_accept_request : Text → Option PartyAcceptRequest
decode_party_accept_request = decode do
  party_id ← read_u64
  invitee_user_id ← read_string
  pure (record { party_id = party_id; invitee_user_id = invitee_user_id })

pub party_accept_request-IsExact :
    (m : PartyAcceptRequest)
    → FitsPartyAcceptRequest m
    → IsExact decode_party_accept_request (encode_party_accept_request m) m
unfolding encode_party_accept_request decode_party_accept_request
party_accept_request-IsExact m h =
    IsExact-Parses _ _ _ (search (parse_rules) depth 6) (search (stable_rules) depth 6)

pub record PartyAcceptResponse : Type 0 where
  pub success : Bool
  pub message : Text

abbrev pub FitsPartyAcceptResponse : PartyAcceptResponse → Type 0
FitsPartyAcceptResponse m = (length m.message ≤ u16_max)

unfoldable pub encode_party_accept_response : PartyAcceptResponse → Text
encode_party_accept_response m = emit (write_flag m.success ∷ write_string m.message ∷ [])

unfoldable pub decode_party_accept_response : Text → Option PartyAcceptResponse
decode_party_accept_response = decode do
  success ← read_flag
  message ← read_string
  pure (record { success = success; message = message })

pub party_accept_response-IsExact :
    (m : PartyAcceptResponse)
    → FitsPartyAcceptResponse m
    → IsExact decode_party_accept_response (encode_party_accept_response m) m
unfolding encode_party_accept_response decode_party_accept_response
party_accept_response-IsExact m h =
    let fits : length m.message ≤ u16_max = h in
    IsExact-Parses _ _ _ (Parses-bind _ (Parses-flag m.success) (search (parse_rules) depth 6))
      (search (stable_rules) depth 6)
