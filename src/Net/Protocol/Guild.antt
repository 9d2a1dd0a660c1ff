-- ===== src/Net/Protocol/Guild.antt =====
-- The guild messages of src/net/protocol.h and protocol.cpp. An enum field is its number, as
-- the code casts it to and from `std::uint16_t` without a test.
use gameserver_hide.Base.{ℕ, ◌<◌, ◌≤◌, Bool, List, [], ◌∷◌, Option, Text, length}
use gameserver_hide.Net.Wire.{
  IsTextList, emit, decode, ◌>>=◌, pure, u16_mod, u64_mod, u16_max, read_flag, write_flag,
  read_string, write_string, read_string_list, write_string_list, read_u16, write_u16, read_u64,
  write_u64,
}
use gameserver_hide.Net.Wire.Exact.{IsExact, IsExact-Parses}
use gameserver_hide.Net.Wire.Reads.{Parses-bind, Parses-flag}
use gameserver_hide.Net.Wire.Rules.{parse_rules, stable_rules}

pub record GuildCreateRequest : Type 0 where
  pub guild_name : Text

abbrev pub FitsGuildCreateRequest : GuildCreateRequest → Type 0
FitsGuildCreateRequest m = (length m.guild_name ≤ u16_max)

unfoldable pub encode_guild_create_request : GuildCreateRequest → Text
encode_guild_create_request m = emit (write_string m.guild_name ∷ [])

unfoldable pub decode_guild_create_request : Text → Option GuildCreateRequest
decode_guild_create_request =
    decode do guild_name ← read_string; pure (record { guild_name = guild_name })

pub guild_create_request-IsExact :
    (m : GuildCreateRequest)
    → FitsGuildCreateRequest m
    → IsExact decode_guild_create_request (encode_guild_create_request m) m
unfolding encode_guild_create_request decode_guild_create_request
guild_create_request-IsExact m h =
    let fits : length m.guild_name ≤ u16_max = h in
    IsExact-Parses _ _ _ (search (parse_rules) depth 5) (search (stable_rules) depth 5)

pub record GuildCreateResponse : Type 0 where
  pub success : Bool
  pub guild_id : ℕ
  pub message : Text

abbrev pub FitsGuildCreateResponse : GuildCreateResponse → Type 0
FitsGuildCreateResponse m = (m.guild_id < u64_mod) × (length m.message ≤ u16_max)

unfoldable pub encode_guild_create_response : GuildCreateResponse → Text
encode_guild_create_response m =
    emit (write_flag m.success ∷ write_u64 m.guild_id ∷ write_string m.message ∷ [])

unfoldable pub decode_guild_create_response : Text → Option GuildCreateResponse
decode_guild_create_response = decode do
  success ← read_flag
  guild_id ← read_u64
  message ← read_string
  pure (record { success = success; guild_id = guild_id; message = message })

pub guild_create_response-IsExact :
    (m : GuildCreateResponse)
    → FitsGuildCreateResponse m
    → IsExact decode_guild_create_response (encode_guild_create_response m) m
unfolding encode_guild_create_response decode_guild_create_response
guild_create_response-IsExact m h =
    IsExact-Parses _ _ _ (Parses-bind _ (Parses-flag m.success) (search (parse_rules) depth 7))
      (search (stable_rules) depth 7)

pub record GuildJoinRequest : Type 0 where
  pub guild_id : ℕ

abbrev pub FitsGuildJoinRequest : GuildJoinRequest → Type 0
FitsGuildJoinRequest m = (m.guild_id < u64_mod)

unfoldable pub encode_guild_join_request : GuildJoinRequest → Text
encode_guild_join_request m = emit (write_u64 m.guild_id ∷ [])

unfoldable pub decode_guild_join_request : Text → Option GuildJoinRequest
decode_guild_join_request = decode do guild_id ← read_u64; pure (record { guild_id = guild_id })

pub guild_join_request-IsExact :
    (m : GuildJoinRequest)
    → FitsGuildJoinRequest m
    → IsExact decode_guild_join_request (encode_guild_join_request m) m
unfolding encode_guild_join_request decode_guild_join_request
guild_join_request-IsExact m h =
    let fits : m.guild_id < u64_mod = h in
    IsExact-Parses _ _ _ (search (parse_rules) depth 5) (search (stable_rules) depth 5)

pub record GuildJoinResponse : Type 0 where
  pub success : Bool
  pub message : Text

abbrev pub FitsGuildJoinResponse : GuildJoinResponse → Type 0
FitsGuildJoinResponse m = (length m.message ≤ u16_max)

unfoldable pub encode_guild_join_response : GuildJoinResponse → Text
encode_guild_join_response m = emit (write_flag m.success ∷ write_string m.message ∷ [])

unfoldable pub decode_guild_join_response : Text → Option GuildJoinResponse
decode_guild_join_response = decode do
  success ← read_flag
  message ← read_string
  pure (record { success = success; message = message })

pub guild_join_response-IsExact :
    (m : GuildJoinResponse)
    → FitsGuildJoinResponse m
    → IsExact decode_guild_join_response (encode_guild_join_response m) m
unfolding encode_guild_join_response decode_guild_join_response
guild_join_response-IsExact m h =
    let fits : length m.message ≤ u16_max = h in
    IsExact-Parses _ _ _ (Parses-bind _ (Parses-flag m.success) (search (parse_rules) depth 6))
      (search (stable_rules) depth 6)

pub record GuildLeaveRequest : Type 0 where
  pub guild_id : ℕ

abbrev pub FitsGuildLeaveRequest : GuildLeaveRequest → Type 0
FitsGuildLeaveRequest m = (m.guild_id < u64_mod)

unfoldable pub encode_guild_leave_request : GuildLeaveRequest → Text
encode_guild_leave_request m = emit (write_u64 m.guild_id ∷ [])

unfoldable pub decode_guild_leave_request : Text → Option GuildLeaveRequest
decode_guild_leave_request = decode do guild_id ← read_u64; pure (record { guild_id = guild_id })

pub guild_leave_request-IsExact :
    (m : GuildLeaveRequest)
    → FitsGuildLeaveRequest m
    → IsExact decode_guild_leave_request (encode_guild_leave_request m) m
unfolding encode_guild_leave_request decode_guild_leave_request
guild_leave_request-IsExact m h =
    let fits : m.guild_id < u64_mod = h in
    IsExact-Parses _ _ _ (search (parse_rules) depth 5) (search (stable_rules) depth 5)

pub record GuildLeaveResponse : Type 0 where
  pub success : Bool
  pub message : Text

abbrev pub FitsGuildLeaveResponse : GuildLeaveResponse → Type 0
FitsGuildLeaveResponse m = (length m.message ≤ u16_max)

unfoldable pub encode_guild_leave_response : GuildLeaveResponse → Text
encode_guild_leave_response m = emit (write_flag m.success ∷ write_string m.message ∷ [])

unfoldable pub decode_guild_leave_response : Text → Option GuildLeaveResponse
decode_guild_leave_response = decode do
  success ← read_flag
  message ← read_string
  pure (record { success = success; message = message })

pub guild_leave_response-IsExact :
    (m : GuildLeaveResponse)
    → FitsGuildLeaveResponse m
    → IsExact decode_guild_leave_response (encode_guild_leave_response m) m
unfolding encode_guild_leave_response decode_guild_leave_response
guild_leave_response-IsExact m h =
    let fits : length m.message ≤ u16_max = h in
    IsExact-Parses _ _ _ (Parses-bind _ (Parses-flag m.success) (search (parse_rules) depth 6))
      (search (stable_rules) depth 6)

pub record GuildEvent : Type 0 where
  pub type : ℕ
  pub guild_id : ℕ
  pub actor_user_id : Text
  pub member_user_ids : List Text
  pub message : Text

abbrev pub FitsGuildEvent : GuildEvent → Type 0
FitsGuildEvent m =
    (m.type < u16_mod)
    × (m.guild_id < u64_mod)
    × (length m.actor_user_id ≤ u16_max)
    × IsTextList m.member_user_ids
    × (length m.message ≤ u16_max)

unfoldable pub encode_guild_event : GuildEvent → Text
encode_guild_event m = emit (
    write_u16 m.type
    ∷ write_u64 m.guild_id
    ∷ write_string m.actor_user_id
    ∷ write_string_list m.member_user_ids
    ∷ write_string m.message
    ∷ [])

unfoldable pub decode_guild_event : Text → Option GuildEvent
decode_guild_event = decode do
  type ← read_u16
  guild_id ← read_u64
  actor_user_id ← read_string
  member_user_ids ← read_string_list
  message ← read_string
  pure (record {
    type = type;
    guild_id = guild_id;
    actor_user_id = actor_user_id;
    member_user_ids = member_user_ids;
    message = message;
  })

pub guild_event-IsExact :
    (m : GuildEvent) → FitsGuildEvent m → IsExact decode_guild_event (encode_guild_event m) m
unfolding encode_guild_event decode_guild_event
guild_event-IsExact m h =
    IsExact-Parses _ _ _ (search (parse_rules) depth 9) (search (stable_rules) depth 9)
