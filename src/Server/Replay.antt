-- ===== src/Server/Replay.antt =====
-- What the checks of src/net/server.cpp in front of the handlers let through.
use gameserver_hide.Base.{
  ℕ, ◌≤◌, ◌<◌, ◌≡◌, ◌≢◌, Bool, true, false, not, ◌&&◌, ◌||◌, Option, none, some, Text, ltb, leb,
  arith,
}
use gameserver_hide.Net.Frames.{FrameHeader}
use gameserver_hide.Net.Security.{SecurityHeader, unwrap_secure_payload, verify_signature}
use gameserver_hide.Session.{Session, on_receive, record_nonce}
use gameserver_hide.Server.{
  SecurityPolicy, Metrics, Verdict, passed, check_replay, check_security, admit,
}

module _ {B : Type 0} (policy : SecurityPolicy) (decimal : ℕ → Text) where
  check_replay-last_seq :
      (h : SecurityHeader) (s : Session B) → s.last_seq ≤ (check_replay h s).0.last_seq
  unfolding check_replay record_nonce
  check_replay-last_seq h s = ground arith

  pub admit-last_seq :
      (header : FrameHeader) (payload : Text) (now : ℕ) (m : Metrics) (s : Session B)
      → s.last_seq ≤ (admit policy decimal header payload now (m, s)).0.1.last_seq
  unfolding admit check_security on_receive
  admit-last_seq header payload now m s = grind (arith, check_replay-last_seq)

  -- With replay protection on, what passes is newer than all before.
  pub passed_newer :
      (header : FrameHeader) (payload : Text) (now : ℕ) (m : Metrics) (s : Session B)
      (h : SecurityHeader) (inner out : Text)
      → policy.enable_replay_protection ≡ true
      → unwrap_secure_payload payload ≡ some (h, inner)
      → (admit policy decimal header payload now (m, s)).1 ≡ passed out
      → (s.last_seq < h.seq)
        × ((admit policy decimal header payload now (m, s)).0.1.last_seq ≡ h.seq)
  unfolding admit check_security check_replay on_receive
  passed_newer header payload now m s h inner out on e p = ground arith

  pub passed_unwraps :
      (header : FrameHeader) (payload : Text) (now : ℕ) (m : Metrics) (s : Session B) (out : Text)
      → policy.enable_replay_protection ≡ true
      → unwrap_secure_payload payload ≡ none
      → (admit policy decimal header payload now (m, s)).1 ≢ passed out
  unfolding admit check_security
  passed_unwraps header payload now m s out on e p = ground arith

-- The checks of the security policy on an envelope.
unfoldable pub trusted :
    {B : Type 0} → SecurityPolicy → Session B → Option (SecurityHeader × Text) → Bool
trusted policy s none = false
trusted policy s (some (h, inner)) =
    (not policy.require_hmac || verify_signature policy.hmac_key h inner)
    && (not policy.enable_replay_protection || (ltb s.last_seq h.seq && (record_nonce h.nonce s).1))

abbrev pub is_passed : Verdict → Bool
is_passed (passed out) = true
is_passed _ = false

-- A packet passes exactly when the session has TLS or needs none, the version is between 1 and 3, and, if
-- signatures or replay protection are on, the payload unwraps, its signature verifies if signatures are
-- on, and its sequence number is above the last one and its nonce new if replay protection is on.
pub admit-is_passed :
    {B : Type 0} (policy : SecurityPolicy) (decimal : ℕ → Text) (header : FrameHeader)
    (payload : Text) (now : ℕ) (m : Metrics) (s : Session B)
    → is_passed (admit policy decimal header payload now (m, s)).1 ≡ (
        (not policy.require_tls || s.tls_established)
        && ((leb 1 header.version && leb header.version 3)
            && ((not policy.require_hmac && not policy.enable_replay_protection)
                || trusted policy s (unwrap_secure_payload payload))))
unfolding admit check_security check_replay trusted on_receive record_nonce
admit-is_passed policy decimal header payload now m s = ground arith
