-- ===== src/Session/Tests.antt =====
-- A session of src/net/session.h with a bucket of tokens that nothing refills.
use gameserver_hide.Base.{
  ℕ, ◌-◌, ◌≡◌, refl, not, true, false, Bool, List, [], ◌∷◌, ◌++◌, leb, if◌then◌else◌, arith,
}
use gameserver_hide.Base.Map.{elem}
use gameserver_hide.Session.{drop_oldest, SessionConfig, Session, new_session, record_nonce}
use gameserver_hide.Session.Queue.{
  Call, send, take_front, check, IsQueued, run, run-new_session-IsQueued,
}
use gameserver_hide.Session.Nonces.{IsWindow, last_of, record_nonce_lem}

abbrev tokens : ℕ → ℕ → ℕ → ℕ × Bool
tokens left amount now = if leb amount left then (left - amount, true) else (left, false)

abbrev config : SessionConfig
config = record {
  heartbeat_interval = 15000;
  timeout = 45000;
  send_queue_limit_bytes = 4;
  overflow_policy = drop_oldest;
  nonce_cache_limit = 2;
}

-- The third payload is longer than the limit.
abbrev sends : List Call
sends =
    send (1 ∷ 2 ∷ []) 1
    ∷ send (3 ∷ 4 ∷ 5 ∷ []) 2
    ∷ send (6 ∷ 7 ∷ 8 ∷ 9 ∷ 10 ∷ []) 3
    ∷ take_front
    ∷ check 60000
    ∷ []

abbrev noted : Session ℕ
noted = record (new_session 1 config 100 0) { nonce_cache = 8 ∷ 7 ∷ []; nonce_order = 7 ∷ 8 ∷ [] }

run-new_session-IsQueued_example : IsQueued (run tokens (new_session 1 config 100 0) sends)
run-new_session-IsQueued_example = run-new_session-IsQueued tokens 1 config 100 0 sends

record_nonce_lem_example :
    let t = (record_nonce 9 noted).0 in
    ((record_nonce 9 noted).1 ≡ not (elem 9 noted.nonce_order))
    × (t.nonce_order ≡ (
        if elem 9 noted.nonce_order
        then noted.nonce_order
        else last_of noted.config.nonce_cache_limit (noted.nonce_order ++ 9 ∷ [])))
    × IsWindow t
unfolding elem new_session
record_nonce_lem_example =
    record_nonce_lem 9 noted
      (record { same = λ n. ground arith; once = (refl, (refl, tt)); short = ground arith })
