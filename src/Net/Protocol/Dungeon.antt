-- ===== src/Net/Protocol/Dungeon.antt =====
-- The dungeon messages of src/net/protocol.h and protocol.cpp. An enum field is its number, as
-- the code casts it to and from `std::uint16_t` without a test.
use gameserver_hide.Base.{ℕ, ◌<◌, ◌≤◌, Bool, List, [], ◌∷◌, Option, Text, length}
use gameserver_hide.Net.Wire.{
  emit, decode, ◌>>=◌, pure, u16_mod, u32_mod, u64_mod, u16_max, read_flag, write_flag, read_string,
  write_string, read_u16, write_u16, read_u32, write_u32, read_u64, write_u64,
}
use gameserver_hide.Net.Wire.Exact.{IsExact, IsExact-Parses}
use gameserver_hide.Net.Wire.Reads.{Parses-bind, Parses-flag}
use gameserver_hide.Net.Wire.Rules.{parse_rules, stable_rules}
use gameserver_hide.Net.Protocol.Rewards.{
  RewardItem, IsRewardList, read_reward_items, write_reward_items, Parses-reward_items,
  IsStable-reward_items,
}

pub record DungeonEnterRequest : Type 0 where
  pub instance_id : ℕ
  pub ticket : Text
  pub char_id : ℕ

abbrev pub FitsDungeonEnterRequest : DungeonEnterRequest → Type 0
FitsDungeonEnterRequest m =
    (m.instance_id < u64_mod) × (length m.ticket ≤ u16_max) × (m.char_id < u64_mod)

unfoldable pub encode_dungeon_enter_request : DungeonEnterRequest → Text
encode_dungeon_enter_request m =
    emit (write_u64 m.instance_id ∷ write_string m.ticket ∷ write_u64 m.char_id ∷ [])

unfoldable pub decode_dungeon_enter_request : Text → Option DungeonEnterRequest
decode_dungeon_enter_request = decode do
  instance_id ← read_u64
  ticket ← read_string
  char_id ← read_u64
  pure (record { instance_id = instance_id; ticket = ticket; char_id = char_id })

pub dungeon_enter_request-IsExact :
    (m : DungeonEnterRequest)
    → FitsDungeonEnterRequest m
    → IsExact decode_dungeon_enter_request (encode_dungeon_enter_request m) m
unfolding encode_dungeon_enter_request decode_dungeon_enter_request
dungeon_enter_request-IsExact m h =
    IsExact-Parses _ _ _ (search (parse_rules) depth 7) (search (stable_rules) depth 7)

pub record DungeonEnterResponse : Type 0 where
  pub success : Bool
  pub code : Text
  pub message : Text
  pub state : ℕ
  pub seed : ℕ

abbrev pub FitsDungeonEnterResponse : DungeonEnterResponse → Type 0
FitsDungeonEnterResponse m =
    (length m.code ≤ u16_max)
    × (length m.message ≤ u16_max)
    × (m.state < u16_mod)
    × (m.seed < u32_mod)

unfoldable pub encode_dungeon_enter_response : DungeonEnterResponse → Text
encode_dungeon_enter_response m = emit (
    write_flag m.success
    ∷ write_string m.code
    ∷ write_string m.message
    ∷ write_u16 m.state
    ∷ write_u32 m.seed
    ∷ [])

unfoldable pub decode_dungeon_enter_response : Text → Option DungeonEnterResponse
decode_dungeon_enter_response = decode do
  success ← read_flag
  code ← read_string
  message ← read_string
  state ← read_u16
  seed ← read_u32
  pure (record { success = success; code = code; message = message; state = state; seed = seed })

pub dungeon_enter_response-IsExact :
    (m : DungeonEnterResponse)
    → FitsDungeonEnterResponse m
    → IsExact decode_dungeon_enter_response (encode_dungeon_enter_response m) m
unfolding encode_dungeon_enter_response decode_dungeon_enter_response
dungeon_enter_response-IsExact m h =
    IsExact-Parses _ _ _ (Parses-bind _ (Parses-flag m.success) (search (parse_rules) depth 9))
      (search (stable_rules) depth 9)

pub record DungeonResultNotify : Type 0 where
  pub result : ℕ
  pub time_sec : ℕ
  pub deaths : ℕ
  pub rewards : List RewardItem

abbrev pub FitsDungeonResultNotify : DungeonResultNotify → Type 0
FitsDungeonResultNotify m =
    (m.result < u16_mod) × (m.time_sec < u32_mod) × (m.deaths < u16_mod) × IsRewardList m.rewards

unfoldable pub encode_dungeon_result_notify : DungeonResultNotify → Text
encode_dungeon_result_notify m = emit (
    write_u16 m.result
    ∷ write_u32 m.time_sec
    ∷ write_u16 m.deaths
    ∷ write_reward_items m.rewards
    ∷ [])

unfoldable pub decode_dungeon_result_notify : Text → Option DungeonResultNotify
decode_dungeon_result_notify = decode do
  result ← read_u16
  time_sec ← read_u32
  deaths ← read_u16
  rewards ← read_reward_items
  pure (record { result = result; time_sec = time_sec; deaths = deaths; rewards = rewards })

pub dungeon_result_notify-IsExact :
    (m : DungeonResultNotify)
    → FitsDungeonResultNotify m
    → IsExact decode_dungeon_result_notify (encode_dungeon_result_notify m) m
unfolding encode_dungeon_result_notify decode_dungeon_result_notify
dungeon_result_notify-IsExact m h =
    IsExact-Parses _ _ _ (search (parse_rules, Parses-reward_items) depth 8)
      (search (stable_rules, IsStable-reward_items) depth 8)

pub record DungeonResultResponse : Type 0 where
  pub success : Bool
  pub code : Text
  pub message : Text
  pub summary : Text

abbrev pub FitsDungeonResultResponse : DungeonResultResponse → Type 0
FitsDungeonResultResponse m =
    (length m.code ≤ u16_max) × (length m.message ≤ u16_max) × (length m.summary ≤ u16_max)

unfoldable pub encode_dungeon_result_response : DungeonResultResponse → Text
encode_dungeon_result_response m = emit (
    write_flag m.success
    ∷ write_string m.code
    ∷ write_string m.message
    ∷ write_string m.summary
    ∷ [])

unfoldable pub decode_dungeon_result_response : Text → Option DungeonResultResponse
decode_dungeon_result_response = decode do
  success ← read_flag
  code ← read_string
  message ← read_string
  summary ← read_string
  pure (record { success = success; code = code; message = message; summary = summary })

pub dungeon_result_response-IsExact :
    (m : DungeonResultResponse)
    → FitsDungeonResultResponse m
    → IsExact decode_dungeon_result_response (encode_dungeon_result_response m) m
unfolding encode_dungeon_result_response decode_dungeon_result_response
dungeon_result_response-IsExact m h =
    IsExact-Parses _ _ _ (Parses-bind _ (Parses-flag m.success) (search (parse_rules) depth 8))
      (search (stable_rules) depth 8)
