-- ===== src/Session.antt =====
-- src/net/session.h and session.cpp. The token bucket counts in doubles: its type and its `consume` are
-- parameters. The trace id, which only the log reads, is left out. A counter of bytes is never smaller
-- than what is taken from it, so the subtraction on natural numbers is that of the code.
pub mod Queue
pub mod Nonces
pub mod Tests
use gameserver_hide.Base.{
  ℕ, ◌+◌, ◌-◌, Bool, true, false, not, ◌&&◌, Option, none, some, List, [], ◌∷◌, ◌++◌, Text, ◌==◌,
  ltb, leb, length, if◌then◌else◌,
}
use gameserver_hide.Base.Map.{elem}

pub data OverflowPolicy : Type 0 where
  drop_newest drop_oldest disconnect_session : OverflowPolicy

pub record SessionConfig : Type 0 where
  pub heartbeat_interval : ℕ
  pub timeout : ℕ
  pub send_queue_limit_bytes : ℕ
  pub overflow_policy : OverflowPolicy
  pub nonce_cache_limit : ℕ

pub record UserContext : Type 0 where
  pub user_id : Text
  pub token : Text

pub record Session (B : Type 0) : Type 0 where
  pub id : ℕ
  pub config : SessionConfig
  pub bucket : B
  pub connected : Bool
  pub last_activity : ℕ
  pub last_receive : ℕ
  pub last_heartbeat : ℕ
  pub send_queue : List Text
  pub send_queue_bytes : ℕ
  pub user_context : Option UserContext
  pub protocol_version : ℕ
  pub last_seq : ℕ
  pub nonce_cache : List ℕ
  pub nonce_order : List ℕ
  pub tls_established : Bool
  pub tls_handshake_time : ℕ

-- nonce_cache_.erase(nonce)
unfoldable pub forget : ℕ → List ℕ → List ℕ
forget nonce [] = []
forget nonce (n ∷ ns) = let rest = forget nonce ns in if n == nonce then rest else n ∷ rest

-- The loop of recordNonce: the oldest nonces leave both collections.
unfoldable pub trim : ℕ → List ℕ → List ℕ → List ℕ × List ℕ
unfolding forget
trim limit [] cache = ([], cache)
trim limit (oldest ∷ order) cache =
    let rest = trim limit order (forget oldest cache) in
    if ltb limit (length (oldest ∷ order)) then rest else (oldest ∷ order, cache)

-- The loop of enqueueSend under DropOldest: next_size, send_queue_bytes_ and the queue.
unfoldable pub drop_front : ℕ → ℕ → ℕ → List Text → ℕ × ℕ × List Text
drop_front limit next_size bytes [] = (next_size, bytes, [])
drop_front limit next_size bytes (front ∷ queue) =
    let rest = drop_front limit (next_size - length front) (bytes - length front) queue in
    if ltb limit next_size then rest else (next_size, bytes, front ∷ queue)

module _ {B : Type 0} where
  unfoldable pub new_session : ℕ → SessionConfig → B → ℕ → Session B
  new_session id config bucket now = record {
    id = id;
    config = config;
    bucket = bucket;
    connected = true;
    last_activity = now;
    last_receive = now;
    last_heartbeat = now;
    send_queue = [];
    send_queue_bytes = 0;
    user_context = none;
    protocol_version = 0;
    last_seq = 0;
    nonce_cache = [];
    nonce_order = [];
    tls_established = false;
    tls_handshake_time = 0;
  }

  unfoldable pub on_receive : ℕ → Session B → Session B
  on_receive now s = record s { last_receive = now; last_activity = now }

  unfoldable pub disconnect : Session B → Session B
  disconnect s = if not s.connected then s else record s { connected = false }

  -- The end of enqueueSend, with the size and the queue that the overflow test leaves.
  abbrev push : ℕ → List Text → Text → ℕ → Session B → Session B
  push next_size queue payload now s = record s {
    send_queue_bytes = next_size;
    send_queue = queue ++ payload ∷ [];
    last_activity = now;
  }

  unfoldable pub enqueue_send : (B → ℕ → ℕ → B × Bool) → Text → ℕ → Session B → Session B × Bool
  unfolding drop_front disconnect
  enqueue_send consume payload now s =
      if not s.connected
      then (s, false)
      else let (bucket, paid) = consume s.bucket (length payload) now in
        let s' : Session B = record s { bucket = bucket } in
        let limit = s.config.send_queue_limit_bytes in
        let next_size = s.send_queue_bytes + length payload in
        let (size, bytes, queue) = drop_front limit next_size s.send_queue_bytes s.send_queue in
        if not paid
        then (s', false)
        else if ltb limit next_size
        then elim s.config.overflow_policy [
          | disconnect_session ↦ (disconnect s', false)
          | drop_oldest ↦ (push size queue payload now s', true)
          | drop_newest ↦ (s', false)
        ]
        else (push next_size s.send_queue payload now s', true)

  unfoldable pub dequeue_send : Session B → Session B × Option Text
  dequeue_send s = elim s.send_queue [
    | [] ↦ (s, none)
    | front ∷ queue ↦ (
      record s { send_queue_bytes = s.send_queue_bytes - length front; send_queue = queue },
      some front,
    )
  ]

  -- now - last_heartbeat_ >= heartbeat_interval, on integers
  unfoldable pub should_send_heartbeat : ℕ → Session B → Bool
  should_send_heartbeat now s =
      s.connected && leb (s.last_heartbeat + s.config.heartbeat_interval) now

  unfoldable pub mark_heartbeat_sent : ℕ → Session B → Session B
  mark_heartbeat_sent now s = record s { last_heartbeat = now }

  unfoldable pub tick : ℕ → Session B → Session B × Bool
  unfolding disconnect
  tick now s =
      if not s.connected
      then (s, false)
      else let s' = if leb (s.last_receive + s.config.timeout) now then disconnect s else s in
        (s', s'.connected)

  unfoldable pub record_nonce : ℕ → Session B → Session B × Bool
  unfolding trim
  record_nonce nonce s =
      if elem nonce s.nonce_cache
      then (s, false)
      else let (order, cache) =
          trim s.config.nonce_cache_limit (s.nonce_order ++ nonce ∷ []) (nonce ∷ s.nonce_cache) in
        (record s { nonce_order = order; nonce_cache = cache }, true)

  abbrev pub attach_user_context : UserContext → Session B → Session B
  attach_user_context context s = record s { user_context = some context }

  abbrev pub clear_user_context : Session B → Session B
  clear_user_context s = record s { user_context = none }

  abbrev pub set_protocol_version : ℕ → Session B → Session B
  set_protocol_version version s = record s { protocol_version = version }

  abbrev pub set_last_seq : ℕ → Session B → Session B
  set_last_seq seq s = record s { last_seq = seq }

  abbrev pub mark_tls_established : ℕ → Session B → Session B
  mark_tls_established time s = record s { tls_established = true; tls_handshake_time = time }
