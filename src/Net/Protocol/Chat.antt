-- ===== src/Net/Protocol/Chat.antt =====
-- The chat messages of src/net/protocol.h and protocol.cpp. An enum field is its number, as
-- the code casts it to and from `std::uint16_t` without a test.
use gameserver_hide.Base.{ℕ, ◌<◌, ◌≤◌, Bool, [], ◌∷◌, Option, Text, length}
use gameserver_hide.Net.Wire.{
  emit, decode, ◌>>=◌, pure, u16_mod, u64_mod, u16_max, read_flag, write_flag, read_string,
  write_string, read_u16, write_u16, read_u64, write_u64,
}
use gameserver_hide.Net.Wire.Exact.{IsExact, IsExact-Parses}
use gameserver_hide.Net.Wire.Reads.{Parses-bind, Parses-flag}
use gameserver_hide.Net.Wire.Rules.{parse_rules, stable_rules}

pub record ChatSendRequest : Type 0 where
  pub channel : ℕ
  pub party_id : ℕ
  pub message : Text

abbrev pub FitsChatSendRequest : ChatSendRequest → Type 0
FitsChatSendRequest m =
    (m.channel < u16_mod) × (m.party_id < u64_mod) × (length m.message ≤ u16_max)

unfoldable pub encode_chat_send_request : ChatSendRequest → Text
encode_chat_send_request m =
    emit (write_u16 m.channel ∷ write_u64 m.party_id ∷ write_string m.message ∷ [])

unfoldable pub decode_chat_send_request : Text → Option ChatSendRequest
decode_chat_send_request = decode do
  channel ← read_u16
  party_id ← read_u64
  message ← read_string
  pure (record { channel = channel; party_id = party_id; message = message })

pub chat_send_request-IsExact :
    (m : ChatSendRequest)
    → FitsChatSendRequest m
    → IsExact decode_chat_send_request (encode_chat_send_request m) m
unfolding encode_chat_send_request decode_chat_send_request
chat_send_request-IsExact m h =
    IsExact-Parses _ _ _ (search (parse_rules) depth 7) (search (stable_rules) depth 7)

pub record ChatSendResponse : Type 0 where
  pub success : Bool
  pub message : Text

abbrev pub FitsChatSendResponse : ChatSendResponse → Type 0
FitsChatSendResponse m = (length m.message ≤ u16_max)

unfoldable pub encode_chat_send_response : ChatSendResponse → Text
encode_chat_send_response m = emit (write_flag m.success ∷ write_string m.message ∷ [])

unfoldable pub decode_chat_send_response : Text → Option ChatSendResponse
decode_chat_send_response = decode do
  success ← read_flag
  message ← read_string
  pure (record { success = success; message = message })

pub chat_send_response-IsExact :
    (m : ChatSendResponse)
    → FitsChatSendResponse m
    → IsExact decode_chat_send_response (encode_chat_send_response m) m
unfolding encode_chat_send_response decode_chat_send_response
chat_send_response-IsExact m h =
    let fits : length m.message ≤ u16_max = h in
    IsExact-Parses _ _ _ (Parses-bind _ (Parses-flag m.success) (search (parse_rules) depth 6))
      (search (stable_rules) depth 6)

pub record ChatEvent : Type 0 where
  pub channel : ℕ
  pub party_id : ℕ
  pub sender_user_id : Text
  pub message : Text

abbrev pub FitsChatEvent : ChatEvent → Type 0
FitsChatEvent m =
    (m.channel < u16_mod)
    × (m.party_id < u64_mod)
    × (length m.sender_user_id ≤ u16_max)
    × (length m.message ≤ u16_max)

unfoldable pub encode_chat_event : ChatEvent → Text
encode_chat_event m = emit (
    write_u16 m.channel
    ∷ write_u64 m.party_id
    ∷ write_string m.sender_user_id
    ∷ write_string m.message
    ∷ [])

unfoldable pub decode_chat_event : Text → Option ChatEvent
decode_chat_event = decode do
  channel ← read_u16
  party_id ← read_u64
  sender_user_id ← read_string
  message ← read_string
  pure (record {
    channel = channel;
    party_id = party_id;
    sender_user_id = sender_user_id;
    message = message;
  })

pub chat_event-IsExact :
    (m : ChatEvent) → FitsChatEvent m → IsExact decode_chat_event (encode_chat_event m) m
unfolding encode_chat_event decode_chat_event
chat_event-IsExact m h =
    IsExact-Parses _ _ _ (search (parse_rules) depth 8) (search (stable_rules) depth 8)
