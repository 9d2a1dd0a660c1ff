-- ===== src/Server.antt =====
-- src/net/server.cpp: the checks of handlePacket in front of its handlers, on one session. The number
-- format of std::ostringstream is the parameter `decimal`. The counters are 64 bits wide.
pub mod Replay
pub mod Registry
pub mod World
pub mod Accounts
pub mod Social
pub mod Items
pub mod Dungeons
pub mod Matches
pub mod Handle
pub mod History
pub mod Tests
use gameserver_hide.Base.{
  ℕ, ◌+◌, ◌%◌, ◌^◌, Bool, true, false, not, ◌&&◌, ◌||◌, Option, none, some, List, [], ◌∷◌, ◌++◌,
  Text, text, length, ltb, leb, if◌then◌else◌,
}
use gameserver_hide.Net.Frames.{FrameHeader, encode}
use gameserver_hide.Net.Security.{SecurityHeader, unwrap_secure_payload, verify_signature}
use gameserver_hide.Net.Protocol.Account.{VersionReject, encode_version_reject}
use gameserver_hide.Session.{set_protocol_version, set_last_seq, Session, on_receive, record_nonce}

pub record SecurityPolicy : Type 0 where
  pub require_tls : Bool
  pub require_hmac : Bool
  pub enable_replay_protection : Bool
  pub hmac_key : Text

pub record Metrics : Type 0 where
  pub packets_total : ℕ
  pub bytes_total : ℕ
  pub error_total : ℕ

-- A returned std::nullopt, a reply, or the payload that goes on to the handlers.
pub data Verdict : Type 0 where
  refused : Verdict
  answered : Text → Verdict
  passed : Text → Verdict

abbrev pub min_version : ℕ
min_version = 1

-- PacketType::VersionReject
abbrev pub version_reject_type : ℕ
version_reject_type = 3

abbrev pub max_version : ℕ
max_version = 3

unfoldable pub version_reject : (ℕ → Text) → ℕ → VersionReject
version_reject decimal version = record {
  min_version = min_version;
  max_version = max_version;
  client_version = version;
  message =
      text "Unsupported client version "
      ++ (decimal version
          ++ (text " (supported "
              ++ (decimal min_version ++ (text "-" ++ (decimal max_version ++ text ")")))));
}

unfoldable pub count_error : Metrics → Metrics
count_error m = record m { error_total = (m.error_total + 1) % 2 ^ 64 }

module _ {B : Type 0} where
  -- The replay protection: the session, and whether the packet is let through.
  unfoldable pub check_replay : SecurityHeader → Session B → Session B × Bool
  unfolding record_nonce
  check_replay header s =
      let (noted, new) = record_nonce header.nonce s in
      if leb header.seq s.last_seq
      then (s, false)
      else if not new
      then (noted, false)
      else (set_last_seq header.seq noted, true)

  unfoldable pub check_security :
      SecurityPolicy → Text → Metrics × Session B → (Metrics × Session B) × Verdict
  unfolding check_replay count_error
  check_security policy payload (m, s) = elim (unwrap_secure_payload payload) [
    | none ↦ ((count_error m, s), refused)
    | some (header, inner) ↦
        let (s', fresh) = check_replay header s in
        if policy.require_hmac && not (verify_signature policy.hmac_key header inner)
        then ((count_error m, s), refused)
        else if not policy.enable_replay_protection
        then ((m, s), passed inner)
        else if fresh
        then ((m, s'), passed inner)
        else ((count_error m, s'), refused)
  ]

  unfoldable pub admit :
      SecurityPolicy
      → (ℕ → Text)
      → FrameHeader
      → Text
      → ℕ
      → Metrics × Session B
      → (Metrics × Session B) × Verdict
  unfolding check_security count_error version_reject
  admit policy decimal header payload now (m, s) =
      let m' : Metrics = record m {
        packets_total = (m.packets_total + 1) % 2 ^ 64;
        bytes_total = (m.bytes_total + length payload) % 2 ^ 64;
      } in
      let s' = set_protocol_version header.version (on_receive now s) in
      if policy.require_tls && not s'.tls_established
      then ((count_error m', s'), refused)
      else if ltb header.version min_version || ltb max_version header.version
      then (
        (count_error m', s'),
        answered (
            encode version_reject_type header.version
              (encode_version_reject (version_reject decimal header.version))),
      )
      else if policy.require_hmac || policy.enable_replay_protection
      then check_security policy payload (m', s')
      else ((m', s'), passed payload)
