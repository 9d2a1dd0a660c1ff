-- ===== src/Server/Tests.antt =====
-- A packet that comes back to the checks of src/net/server.cpp, with replay protection on.
use gameserver_hide.Base.{ℕ, ◌≡◌, true, false, [], ◌∷◌, ◌++◌, Text}
use gameserver_hide.Net.Frames.{FrameHeader}
use gameserver_hide.Net.Security.{unwrap_secure_payload}
use gameserver_hide.Session.{Session, drop_newest, new_session}
use gameserver_hide.Server.{SecurityPolicy, Metrics, admit}
use gameserver_hide.Server.Replay.{is_passed, trusted, admit-is_passed}

abbrev policy : SecurityPolicy
policy = record {
  require_tls = false;
  require_hmac = false;
  enable_replay_protection = true;
  hmac_key = 107 ∷ [];
}

abbrev no_digits : ℕ → Text
no_digits n = []

abbrev session : Session ℕ
session =
    new_session 1
      (record {
        heartbeat_interval = 15000;
        timeout = 45000;
        send_queue_limit_bytes = 1000;
        overflow_policy = drop_newest;
        nonce_cache_limit = 64;
      })
      100 0

abbrev counters : Metrics
counters = record { packets_total = 0; bytes_total = 0; error_total = 0 }

-- Sequence number 5, nonce 77, a signature that nobody checks, and one byte.
abbrev envelope : Text
envelope =
    (0 ∷ 0 ∷ 0 ∷ 5 ∷ 0 ∷ 0 ∷ 0 ∷ 0 ∷ 0 ∷ 0 ∷ 0 ∷ 77 ∷ [])
    ++ (0 ∷ 0 ∷ 0 ∷ 0 ∷ 0 ∷ 0 ∷ 0 ∷ 0 ∷ 0 ∷ 0 ∷ 0 ∷ 0 ∷ 0 ∷ 0 ∷ 0 ∷ 0 ∷ 42 ∷ [])

abbrev header : FrameHeader
header = record { length = 29; type = 1; version = 2 }

admit-is_passed_example :
    is_passed (admit policy no_digits header envelope 10 (counters, session)).1
    ≡ trusted policy session (unwrap_secure_payload envelope)
unfolding new_session
admit-is_passed_example = admit-is_passed policy no_digits header envelope 10 counters session
