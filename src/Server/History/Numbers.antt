-- ===== src/Server/History/Numbers.antt =====
-- The last sequence number of a session, and what src/net/server.cpp does to it outside a login.
use native.Mathlib.Omega.{arith}
use gameserver_hide.Base.{
  ℕ, ◌≤◌, Option-cases, inl, inr, Option, none, some, Text, ◌≡◌, ◌≢◌, refl, max, ap, ◌∙◌,
}
use gameserver_hide.Base.Map.{find, find-put, find-erase}
use gameserver_hide.Net.Auth.{validate_token}
use gameserver_hide.Net.Protocol.Account.{SessionReconnectRequest, decode_session_reconnect_request}
use gameserver_hide.Session.{
  Session, UserContext, attach_user_context, clear_user_context, set_last_seq,
}
use gameserver_hide.Server.World.{Server, with_error, session_of, on_session, detach}
use gameserver_hide.Server.Registry
use gameserver_hide.Server.Accounts.{logout, take_over, resume, resume_user, reconnect, last_seq_of}
use gameserver_hide.Server.History.Objects.{marks, marked}

-- The last sequence number of a session that may be in the map or removed from it.
unfoldable pub seq_in : {B : Type 0} → Option (Session B) → Option (Session B) → ℕ
seq_in (some session) removed = session.last_seq
seq_in none (some session) = session.last_seq
seq_in none none = 0

unfoldable pub seen : {B S R : Type 0} → ℕ → Server B S R → ℕ
unfolding seq_in
seen k s = seq_in (find k s.sessions) (find k s.detached)

-- One policy, and a last sequence number of the session `k` that is not lower.
unfoldable pub IsLater : {B S R : Type 0} → ℕ → Server B S R → Server B S R → Type 0
IsLater k s s' = (s'.security_policy ≡ s.security_policy) × (seen k s ≤ seen k s')

seq_in-marks :
    {B : Type 0} (a b removed : Option (Session B))
    → marks a ≡ marks b
    → seq_in a removed ≡ seq_in b removed
unfolding seq_in marks
seq_in-marks none none removed e = refl
seq_in-marks none (some b) removed e = ground (arith, e)
seq_in-marks (some a) none removed e = ground (arith, e)
seq_in-marks (some a) (some b) removed e = ground (arith, e)

module _ {B S R : Type 0} (k : ℕ) where
  pub IsLater-trans : (a b c : Server B S R) → IsLater k a b → IsLater k b c → IsLater k a c
  unfolding IsLater
  IsLater-trans a b c p q = (q.0 ∙ p.0, omega (arith, p.1, q.1))

  -- Two servers with one policy, one map of the removed sessions, and alike sessions.
  pub alike :
      (s s' : Server B S R)
      → s'.security_policy ≡ s.security_policy
      → s'.detached ≡ s.detached
      → marks (find k s'.sessions) ≡ marks (find k s.sessions)
      → IsLater k s s'
  unfolding IsLater seen
  alike s s' p q r = (
    p,
    ground (arith, q, seq_in-marks (find k s'.sessions) (find k s.sessions) (find k s.detached) r),
  )

  pub alike_marked : (s s' : Server B S R) → marked k s' ≡ marked k s → IsLater k s s'
  alike_marked s s' p = alike s s' (ap (λ m. m.2) p) (ap (λ m. m.1) p) (ap (λ m. m.0) p)

  pub on_session-IsLater :
      (id : ℕ) (f : Session B → Session B) (s : Server B S R)
      → ((x : Session B) → x.last_seq ≤ (f x).last_seq)
      → IsLater k s (on_session id f s)
  unfolding IsLater seen on_session seq_in
  on_session-IsLater id f s raises = elim (Option-cases (find id s.sessions)) [
    | inr (x, e) ↦ grind (arith, e, raises x, find-put)
    | inl e ↦ elim (Option-cases (find id s.detached)) [
      | inl e' ↦ ground (arith, e, e')
      | inr (x, e') ↦ grind (arith, e, e', raises x, find-put)
    ]
  ]

  -- The session object of a packet, behind the checks.
  pub replaced-IsLater :
      (id : ℕ) (x x' : Session B) (s : Server B S R)
      → session_of id s ≡ some x
      → x.last_seq ≤ x'.last_seq
      → IsLater k s (on_session id (λ _. x') s)
  unfolding IsLater seen on_session seq_in session_of
  replaced-IsLater id x x' s p q = elim (Option-cases (find id s.sessions)) [
    | inr (y, e) ↦ grind (arith, e, p, q, find-put)
    | inl e ↦ elim (Option-cases (find id s.detached)) [
      | inl e' ↦ ground (arith, e, e')
      | inr (y, e') ↦ grind (arith, e, e', p, q, find-put)
    ]
  ]

  other-IsLater :
      (id : ℕ) (f : Session B → Session B) (s : Server B S R)
      → id ≢ k
      → IsLater k s (on_session id f s)
  unfolding IsLater seen on_session seq_in
  other-IsLater id f s other = elim (Option-cases (find id s.sessions)) [
    | inr (y, e) ↦ grind (arith, e, other, find-put)
    | inl e ↦ elim (Option-cases (find id s.detached)) [
      | inl e' ↦ ground (arith, e, e')
      | inr (y, e') ↦ grind (arith, e, e', other, find-put)
    ]
  ]

  pub detach-IsLater : (id : ℕ) (s : Server B S R) → IsLater k s (detach id s)
  unfolding IsLater seen detach seq_in
  detach-IsLater id s = elim (Option-cases (find id s.sessions)) [
    | inl e ↦ ground (arith, e)
    | inr (x, e) ↦ grind (arith, e, find-put, find-erase)
  ]

  take_over-IsLater : (existing id : ℕ) (s : Server B S R) → IsLater k s (take_over existing id s)
  unfolding take_over IsLater seen
  take_over-IsLater existing id s = ground (arith, detach-IsLater existing s)

  pub logout-IsLater :
      (id : ℕ) (payload : Text) (s : Server B S R) → IsLater k s (logout id payload s).0
  unfolding logout IsLater seen
  logout-IsLater id payload s =
      ground (arith, on_session-IsLater id clear_user_context s (λ x. omega arith))

  resume-IsLater :
      (id : ℕ) (request : SessionReconnectRequest) (user_id : Text) (previous : ℕ)
      (s : Server B S R)
      → id ≢ k
      → IsLater k s (resume id request user_id previous s).0
  unfolding resume
  resume-IsLater id request user_id previous s other =
      let c : UserContext = record { user_id = user_id; token = request.token } in
      let s1 = on_session id (attach_user_context c) s in
      let s2 : Server B S R = record s1 {
        registry = (Registry.register_session id c s1.registry).0;
      } in
      let s3 = on_session id (set_last_seq (max request.last_seq previous)) s2 in
      let first = other-IsLater id (attach_user_context c) s other in
      ground (
        arith,
        IsLater-trans s s1 (with_error s1) first (alike s1 (with_error s1) refl refl refl),
        IsLater-trans s s2 s3 (IsLater-trans s s1 s2 first (alike s1 s2 refl refl refl))
            (other-IsLater id (set_last_seq (max request.last_seq previous)) s2 other),
      )

  resume_user-IsLater_at :
      (id : ℕ) (request : SessionReconnectRequest) (user_id : Text) (s : Server B S R)
      (holder : Option ℕ)
      → Registry.has_user user_id s.registry ≡ holder
      → id ≢ k
      → IsLater k s (resume_user id request user_id s).0
  unfolding resume_user
  resume_user-IsLater_at id request user_id s none e other =
      ground (arith, e, resume-IsLater id request user_id 0 s other)
  resume_user-IsLater_at id request user_id s (some existing) e other =
      let s' = take_over existing id s in
      let previous = last_seq_of (find existing s.sessions) in
      ground (
        arith,
        e,
        resume-IsLater id request user_id 0 s other,
        IsLater-trans s s' (resume id request user_id previous s').0
            (take_over-IsLater existing id s) (resume-IsLater id request user_id previous s' other),
      )

  pub reconnect-IsLater :
      (id : ℕ) (payload : Text) (now : ℕ) (s : Server B S R)
      → id ≢ k
      → IsLater k s (reconnect id payload now s).0
  unfolding reconnect
  reconnect-IsLater id payload now s other =
      elim (Option-cases (decode_session_reconnect_request payload)) [
        | inl e ↦ ground (arith, e, alike s (with_error s) refl refl refl)
        | inr (request, e) ↦
            let (tokens, user) = validate_token request.token now s.token_service in
            let s' : Server B S R = record s { token_service = tokens } in
            elim (Option-cases user) [
              | inl none_valid ↦
                  ground (arith, e, none_valid, alike s (with_error s') refl refl refl)
              | inr (user_id, valid) ↦ ground (
                arith,
                e,
                valid,
                IsLater-trans s s' (resume_user id request user_id s').0 (alike s s' refl refl refl)
                    (resume_user-IsLater_at id request user_id s'
                      (Registry.has_user user_id s'.registry) refl other),
              )
            ]
      ]
