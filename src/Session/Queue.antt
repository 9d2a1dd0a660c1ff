-- ===== src/Session/Queue.antt =====
-- The send queue of src/net/session.cpp.
use gameserver_hide.Base.{
  ℕ, ◌+◌, ◌-◌, ◌≤◌, ◌≡◌, ◌⊎◌, inl, inr, refl, Bool, List, [], ◌∷◌, ◌++◌, Text, length, arith,
}
use gameserver_hide.Session.{
  UserContext, attach_user_context, clear_user_context, set_protocol_version, set_last_seq,
  mark_tls_established, mark_heartbeat_sent, drop_oldest, SessionConfig, Session, drop_front,
  new_session, on_receive, disconnect, enqueue_send, dequeue_send, tick, record_nonce,
}

unfoldable pub total : List Text → ℕ
total [] = 0
total (p ∷ ps) = length p + total ps

total_empty : (xs : List Text) → length xs ≡ 0 → total xs ≡ 0
unfolding total
total_empty [] h = refl
total_empty (x ∷ xs) h = omega arith

total-append : (xs : List Text) (p : Text) → total (xs ++ p ∷ []) ≡ total xs + length p
unfolding total
total-append [] p = omega arith
total-append (x ∷ xs) p = omega (arith, total-append xs p)

drop_front-total :
    (limit bytes extra : ℕ) (queue : List Text)
    → bytes ≡ total queue
    → let r = drop_front limit (bytes + extra) bytes queue in
      (r.0 ≡ total r.2 + extra) × ((r.0 ≤ limit) ⊎ (r.2 ≡ []))
unfolding drop_front total
drop_front-total limit bytes extra [] e = (omega arith, inr refl)
drop_front-total limit bytes extra (p ∷ ps) e =
    ground (arith, drop_front-total limit (bytes - length p) extra ps (omega arith), e)

-- The counter is the size of the queue, which keeps to the limit; only under DropOldest may the queue
-- be one payload that is longer.
pub record IsQueued {B : Type 0} (s : Session B) : Type 0 where
  pub counted : s.send_queue_bytes ≡ total s.send_queue
  pub bounded :
      (s.send_queue_bytes ≤ s.config.send_queue_limit_bytes)
      ⊎ ((s.config.overflow_policy ≡ drop_oldest) × (length s.send_queue ≡ 1))

pub data Call : Type 0 where
  log_in : UserContext → Call
  log_out : Call
  speak beat sequence secure : ℕ → Call
  send : Text → ℕ → Call
  take_front : Call
  receive check : ℕ → Call
  note : ℕ → Call

module _ {B : Type 0} (consume : B → ℕ → ℕ → B × Bool) where
  unfoldable pub step : Session B → Call → Session B
  step s (send payload now) = (enqueue_send consume payload now s).0
  step s take_front = (dequeue_send s).0
  step s (receive now) = on_receive now s
  step s (check now) = (tick now s).0
  step s (log_in context) = attach_user_context context s
  step s log_out = clear_user_context s
  step s (speak version) = set_protocol_version version s
  step s (beat now) = mark_heartbeat_sent now s
  step s (sequence seq) = set_last_seq seq s
  step s (secure time) = mark_tls_established time s
  step s (note nonce) = (record_nonce nonce s).0

  unfoldable pub run : Session B → List Call → Session B
  unfolding step
  run s [] = s
  run s (c ∷ cs) = run (step s c) cs

  enqueue_send-IsQueued :
      (payload : Text) (now : ℕ) (s : Session B)
      → IsQueued s
      → IsQueued (enqueue_send consume payload now s).0
  unfolding enqueue_send disconnect
  enqueue_send-IsQueued payload now s v =
      let d =
        drop_front-total s.config.send_queue_limit_bytes s.send_queue_bytes (length payload)
          s.send_queue v.counted in
      record {
        counted = ground (
          arith,
          v.counted,
          d.0,
          total-append s.send_queue payload,
          total-append
              (drop_front s.config.send_queue_limit_bytes (s.send_queue_bytes + length payload)
                s.send_queue_bytes s.send_queue).2
              payload,
        );
        bounded = ground (arith, v.bounded, d.1);
      }

  dequeue_send-IsQueued : (s : Session B) → IsQueued s → IsQueued (dequeue_send s).0
  unfolding dequeue_send total
  dequeue_send-IsQueued s v = record {
    counted = ground (arith, v.counted);
    bounded = grind (arith, v.counted, v.bounded, total_empty);
  }

  step-IsQueued : (s : Session B) (c : Call) → IsQueued s → IsQueued (step s c)
  unfolding step on_receive tick disconnect record_nonce mark_heartbeat_sent
  step-IsQueued s (send payload now) v = enqueue_send-IsQueued payload now s v
  step-IsQueued s take_front v = dequeue_send-IsQueued s v
  step-IsQueued s _ v = record {
    counted = ground (arith, v.counted);
    bounded = ground (arith, v.bounded);
  }

  run-IsQueued : (cs : List Call) (s : Session B) → IsQueued s → IsQueued (run s cs)
  unfolding run
  run-IsQueued [] s v = v
  run-IsQueued (c ∷ cs) s v = run-IsQueued cs (step s c) (step-IsQueued s c v)

-- After any history of calls on a new session, whatever the token bucket lets through, the byte counter
-- is the size of the send queue, and the size keeps to the configured limit, but for one case: under
-- DropOldest the queue may hold a single payload, which may be longer than the limit.
pub run-new_session-IsQueued :
    {B : Type 0} (consume : B → ℕ → ℕ → B × Bool) (id : ℕ) (config : SessionConfig) (bucket : B)
    (now : ℕ) (cs : List Call)
    → IsQueued (run consume (new_session id config bucket now) cs)
run-new_session-IsQueued consume id config bucket now cs =
    run-IsQueued consume cs (new_session id config bucket now) fresh
  where
    fresh : IsQueued (new_session id config bucket now)
    fresh = unfold new_session total in record { counted = refl; bounded = inl (omega arith) }
