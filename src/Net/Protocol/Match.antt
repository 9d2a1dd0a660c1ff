-- ===== src/Net/Protocol/Match.antt =====
-- The match messages of src/net/protocol.h and protocol.cpp. An enum field is its number, as
-- the code casts it to and from `std::uint16_t` without a test.
use gameserver_hide.Base.{ℕ, ◌<◌, ◌≤◌, Bool, [], ◌∷◌, Option, Text, length}
use gameserver_hide.Net.Wire.{
  emit, decode, ◌>>=◌, pure, u32_mod, u64_mod, u16_max, read_flag, write_flag, read_string,
  write_string, read_u32, write_u32, read_u64, write_u64,
}
use gameserver_hide.Net.Wire.Exact.{IsExact, IsExact-Parses}
use gameserver_hide.Net.Wire.Reads.{Parses-bind, Parses-flag}
use gameserver_hide.Net.Wire.Rules.{parse_rules, stable_rules}

pub record MatchRequest : Type 0 where
  pub party_id : ℕ
  pub dungeon_id : ℕ
  pub difficulty : Text

abbrev pub FitsMatchRequest : MatchRequest → Type 0
FitsMatchRequest m =
    (m.party_id < u64_mod) × (m.dungeon_id < u32_mod) × (length m.difficulty ≤ u16_max)

unfoldable pub encode_match_request : MatchRequest → Text
encode_match_request m =
    emit (write_u64 m.party_id ∷ write_u32 m.dungeon_id ∷ write_string m.difficulty ∷ [])

unfoldable pub decode_match_request : Text → Option MatchRequest
decode_match_request = decode do
  party_id ← read_u64
  dungeon_id ← read_u32
  difficulty ← read_string
  pure (record { party_id = party_id; dungeon_id = dungeon_id; difficulty = difficulty })

pub match_request-IsExact :
    (m : MatchRequest)
    → FitsMatchRequest m
    → IsExact decode_match_request (encode_match_request m) m
unfolding encode_match_request decode_match_request
match_request-IsExact m h =
    IsExact-Parses _ _ _ (search (parse_rules) depth 7) (search (stable_rules) depth 7)

pub record MatchFoundNotify : Type 0 where
  pub success : Bool
  pub code : Text
  pub message : Text
  pub party_id : ℕ
  pub instance_id : ℕ
  pub endpoint : Text
  pub ticket : Text

abbrev pub FitsMatchFoundNotify : MatchFoundNotify → Type 0
FitsMatchFoundNotify m =
    (length m.code ≤ u16_max)
    × (length m.message ≤ u16_max)
    × (m.party_id < u64_mod)
    × (m.instance_id < u64_mod)
    × (length m.endpoint ≤ u16_max)
    × (length m.ticket ≤ u16_max)

unfoldable pub encode_match_found_notify : MatchFoundNotify → Text
encode_match_found_notify m = emit (
    write_flag m.success
    ∷ write_string m.code
    ∷ write_string m.message
    ∷ write_u64 m.party_id
    ∷ write_u64 m.instance_id
    ∷ write_string m.endpoint
    ∷ write_string m.ticket
    ∷ [])

unfoldable pub decode_match_found_notify : Text → Option MatchFoundNotify
decode_match_found_notify = decode do
  success ← read_flag
  code ← read_string
  message ← read_string
  party_id ← read_u64
  instance_id ← read_u64
  endpoint ← read_string
  ticket ← read_string
  pure (record {
    success = success;
    code = code;
    message = message;
    party_id = party_id;
    instance_id = instance_id;
    endpoint = endpoint;
    ticket = ticket;
  })

pub match_found_notify-IsExact :
    (m : MatchFoundNotify)
    → FitsMatchFoundNotify m
    → IsExact decode_match_found_notify (encode_match_found_notify m) m
unfolding encode_match_found_notify decode_match_found_notify
match_found_notify-IsExact m h =
    IsExact-Parses _ _ _ (Parses-bind _ (Parses-flag m.success) (search (parse_rules) depth 11))
      (search (stable_rules) depth 11)
