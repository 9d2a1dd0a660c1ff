-- ===== src/Net/Protocol/Account.antt =====
-- The login, logout, version and reconnect messages of src/net/protocol.h and protocol.cpp. An enum field is its number, as
-- the code casts it to and from `std::uint16_t` without a test.
use gameserver_hide.Base.{ℕ, ◌<◌, ◌≤◌, Bool, [], ◌∷◌, Option, Text, length}
use gameserver_hide.Net.Wire.{
  emit, decode, ◌>>=◌, pure, u16_mod, u32_mod, u64_mod, u16_max, read_flag, write_flag, read_string,
  write_string, read_u16, write_u16, read_u32, write_u32, read_u64, write_u64,
}
use gameserver_hide.Net.Wire.Exact.{IsExact, IsExact-Parses}
use gameserver_hide.Net.Wire.Reads.{Parses-bind, Parses-flag}
use gameserver_hide.Net.Wire.Rules.{parse_rules, stable_rules}

pub record LoginRequest : Type 0 where
  pub user_id : Text
  pub password : Text

abbrev pub FitsLoginRequest : LoginRequest → Type 0
FitsLoginRequest m = (length m.user_id ≤ u16_max) × (length m.password ≤ u16_max)

unfoldable pub encode_login_request : LoginRequest → Text
encode_login_request m = emit (write_string m.user_id ∷ write_string m.password ∷ [])

unfoldable pub decode_login_request : Text → Option LoginRequest
decode_login_request = decode do
  user_id ← read_string
  password ← read_string
  pure (record { user_id = user_id; password = password })

pub login_request-IsExact :
    (m : LoginRequest)
    → FitsLoginRequest m
    → IsExact decode_login_request (encode_login_request m) m
unfolding encode_login_request decode_login_request
login_request-IsExact m h =
    IsExact-Parses _ _ _ (search (parse_rules) depth 6) (search (stable_rules) depth 6)

pub record LoginResponse : Type 0 where
  pub accepted : Bool
  pub token : Text
  pub message : Text

abbrev pub FitsLoginResponse : LoginResponse → Type 0
FitsLoginResponse m = (length m.token ≤ u16_max) × (length m.message ≤ u16_max)

unfoldable pub encode_login_response : LoginResponse → Text
encode_login_response m =
    emit (write_flag m.accepted ∷ write_string m.token ∷ write_string m.message ∷ [])

unfoldable pub decode_login_response : Text → Option LoginResponse
decode_login_response = decode do
  accepted ← read_flag
  token ← read_string
  message ← read_string
  pure (record { accepted = accepted; token = token; message = message })

pub login_response-IsExact :
    (m : LoginResponse)
    → FitsLoginResponse m
    → IsExact decode_login_response (encode_login_response m) m
unfolding encode_login_response decode_login_response
login_response-IsExact m h =
    IsExact-Parses _ _ _ (Parses-bind _ (Parses-flag m.accepted) (search (parse_rules) depth 7))
      (search (stable_rules) depth 7)

pub record VersionReject : Type 0 where
  pub min_version : ℕ
  pub max_version : ℕ
  pub client_version : ℕ
  pub message : Text

abbrev pub FitsVersionReject : VersionReject → Type 0
FitsVersionReject m =
    (m.min_version < u16_mod)
    × (m.max_version < u16_mod)
    × (m.client_version < u16_mod)
    × (length m.message ≤ u16_max)

unfoldable pub encode_version_reject : VersionReject → Text
encode_version_reject m = emit (
    write_u16 m.min_version
    ∷ write_u16 m.max_version
    ∷ write_u16 m.client_version
    ∷ write_string m.message
    ∷ [])

unfoldable pub decode_version_reject : Text → Option VersionReject
decode_version_reject = decode do
  min_version ← read_u16
  max_version ← read_u16
  client_version ← read_u16
  message ← read_string
  pure (record {
    min_version = min_version;
    max_version = max_version;
    client_version = client_version;
    message = message;
  })

pub version_reject-IsExact :
    (m : VersionReject)
    → FitsVersionReject m
    → IsExact decode_version_reject (encode_version_reject m) m
unfolding encode_version_reject decode_version_reject
version_reject-IsExact m h =
    IsExact-Parses _ _ _ (search (parse_rules) depth 8) (search (stable_rules) depth 8)

abbrev pub LogoutRequest : Type 0
LogoutRequest = Unit {0}

abbrev pub FitsLogoutRequest : LogoutRequest → Type 0
FitsLogoutRequest m = Unit {0}

unfoldable pub encode_logout_request : LogoutRequest → Text
encode_logout_request m = emit ([])

unfoldable pub decode_logout_request : Text → Option LogoutRequest
decode_logout_request = decode (pure tt)

pub logout_request-IsExact :
    (m : LogoutRequest)
    → FitsLogoutRequest m
    → IsExact decode_logout_request (encode_logout_request m) m
unfolding encode_logout_request decode_logout_request
logout_request-IsExact m h =
    IsExact-Parses _ _ _ (search (parse_rules) depth 5) (search (stable_rules) depth 5)

pub record LogoutResponse : Type 0 where
  pub success : Bool
  pub message : Text

abbrev pub FitsLogoutResponse : LogoutResponse → Type 0
FitsLogoutResponse m = (length m.message ≤ u16_max)

unfoldable pub encode_logout_response : LogoutResponse → Text
encode_logout_response m = emit (write_flag m.success ∷ write_string m.message ∷ [])

unfoldable pub decode_logout_response : Text → Option LogoutResponse
decode_logout_response = decode do
  success ← read_flag
  message ← read_string
  pure (record { success = success; message = message })

pub logout_response-IsExact :
    (m : LogoutResponse)
    → FitsLogoutResponse m
    → IsExact decode_logout_response (encode_logout_response m) m
unfolding encode_logout_response decode_logout_response
logout_response-IsExact m h =
    let fits : length m.message ≤ u16_max = h in
    IsExact-Parses _ _ _ (Parses-bind _ (Parses-flag m.success) (search (parse_rules) depth 6))
      (search (stable_rules) depth 6)

pub record SessionReconnectRequest : Type 0 where
  pub token : Text
  pub last_seq : ℕ

abbrev pub FitsSessionReconnectRequest : SessionReconnectRequest → Type 0
FitsSessionReconnectRequest m = (length m.token ≤ u16_max) × (m.last_seq < u32_mod)

unfoldable pub encode_session_reconnect_request : SessionReconnectRequest → Text
encode_session_reconnect_request m = emit (write_string m.token ∷ write_u32 m.last_seq ∷ [])

unfoldable pub decode_session_reconnect_request : Text → Option SessionReconnectRequest
decode_session_reconnect_request = decode do
  token ← read_string
  last_seq ← read_u32
  pure (record { token = token; last_seq = last_seq })

pub session_reconnect_request-IsExact :
    (m : SessionReconnectRequest)
    → FitsSessionReconnectRequest m
    → IsExact decode_session_reconnect_request (encode_session_reconnect_request m) m
unfolding encode_session_reconnect_request decode_session_reconnect_request
session_reconnect_request-IsExact m h =
    IsExact-Parses _ _ _ (search (parse_rules) depth 6) (search (stable_rules) depth 6)

pub record SessionReconnectResponse : Type 0 where
  pub success : Bool
  pub message : Text
  pub session_id : ℕ
  pub resume_from_seq : ℕ

abbrev pub FitsSessionReconnectResponse : SessionReconnectResponse → Type 0
FitsSessionReconnectResponse m =
    (length m.message ≤ u16_max) × (m.session_id < u64_mod) × (m.resume_from_seq < u32_mod)

unfoldable pub encode_session_reconnect_response : SessionReconnectResponse → Text
encode_session_reconnect_response m = emit (
    write_flag m.success
    ∷ write_string m.message
    ∷ write_u64 m.session_id
    ∷ write_u32 m.resume_from_seq
    ∷ [])

unfoldable pub decode_session_reconnect_response : Text → Option SessionReconnectResponse
decode_session_reconnect_response = decode do
  success ← read_flag
  message ← read_string
  session_id ← read_u64
  resume_from_seq ← read_u32
  pure (record {
    success = success;
    message = message;
    session_id = session_id;
    resume_from_seq = resume_from_seq;
  })

pub session_reconnect_response-IsExact :
    (m : SessionReconnectResponse)
    → FitsSessionReconnectResponse m
    → IsExact decode_session_reconnect_response (encode_session_reconnect_response m) m
unfolding encode_session_reconnect_response decode_session_reconnect_response
session_reconnect_response-IsExact m h =
    IsExact-Parses _ _ _ (Parses-bind _ (Parses-flag m.success) (search (parse_rules) depth 8))
      (search (stable_rules) depth 8)
