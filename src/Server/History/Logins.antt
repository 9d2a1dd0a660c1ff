-- ===== src/Server/History/Logins.antt =====
-- What LoginReq, LogoutReq and SessionReconnectReq of src/net/server.cpp do to the users of the sessions.
use native.Mathlib.Omega.{arith}
use gameserver_hide.Base.{
  ℕ, Option-cases, Bool-cases, inl, inr, false, Option, none, some, Text, ◌==◌, ◌≡◌, refl, max, ap,
}
use gameserver_hide.Base.Map.{find}
use gameserver_hide.Net.Auth.{generate_token, issue_token, validate_token}
use gameserver_hide.Net.Protocol.Account.{
  decode_login_request, SessionReconnectRequest, decode_session_reconnect_request,
}
use gameserver_hide.Session.{
  Session, UserContext, attach_user_context, clear_user_context, set_last_seq,
}
use gameserver_hide.Server.World.{World, Server, with_error, detach}
use gameserver_hide.Party.Membership
use gameserver_hide.Guild
use gameserver_hide.Server.Registry
use gameserver_hide.Server.Registry.{SessionRegistry, held_by_other, has_user}
use gameserver_hide.Server.Registry.Agreement.{IsAgreed, remove_session-frees}
use gameserver_hide.Server.History.Frames
use gameserver_hide.Server.Accounts.{
  login, logout, move_key, take_over, resume, resume_user, reconnect, last_seq_of,
}
use gameserver_hide.Server.History.Contexts.{
  IsRecorded, attached-IsRecorded, cleared-IsRecorded, gone-IsRecorded, on_session-IsRecorded,
  register_session-free, same_users,
}

module _ {B S R : Type 0} where
  pub logout-IsRecorded :
      (id : ℕ) (payload : Text) (s : Server B S R)
      → IsRecorded s
      → IsRecorded (logout id payload s).0
  unfolding logout
  logout-IsRecorded id payload s x = ground (
    arith,
    x,
    same_users s (with_error s) (λ k. refl) refl x,
    cleared-IsRecorded id s x,
    ap (λ g. g.0) (Frames.on_session-guarded id clear_user_context s),
  )

  take_over-registry :
      (existing id : ℕ) (s : Server B S R)
      → (take_over existing id s).registry ≡ Registry.remove_session existing s.registry
  unfolding take_over detach
  take_over-registry existing id s = ground arith

  take_over-IsRecorded_at :
      (existing id : ℕ) (s : Server B S R) (found : Option (Session B))
      → find existing s.sessions ≡ found
      → IsRecorded s
      → IsRecorded (take_over existing id s)
  unfolding take_over detach
  take_over-IsRecorded_at existing id s none e x = ground (arith, e, gone-IsRecorded existing s x)
  take_over-IsRecorded_at existing id s (some session) e x =
      let s' : Server B S R = record s {
        parties = (Membership.replace_member_session existing id s.parties).0;
        guilds = (Guild.replace_member_session existing id s.guilds).0;
        session_instances = move_key existing id s.session_instances;
        session_characters = move_key existing id s.session_characters;
      } in
      ground (arith, e, gone-IsRecorded existing s' (same_users s s' (λ k. refl) refl x))

  resume-IsRecorded :
      (id : ℕ) (request : SessionReconnectRequest) (user_id : Text) (previous : ℕ)
      (s : Server B S R)
      → held_by_other user_id id s.registry ≡ false
      → IsRecorded s
      → IsRecorded (resume id request user_id previous s).0
  unfolding resume
  resume-IsRecorded id request user_id previous s free x =
      let c : UserContext = record { user_id = user_id; token = request.token } in
      let f : Session B → Session B = attach_user_context c in
      let attached = attached-IsRecorded id c s free x in
      ground (
        arith,
        ap (λ g. g.0) (Frames.on_session-guarded id f s),
        register_session-free id c s.registry free,
        on_session-IsRecorded id (set_last_seq (max request.last_seq previous)) _ (λ y. refl)
            attached,
      )

  -- The user of a token is free behind the lookups of SessionReconnectReq.
  resume_user-IsRecorded_at :
      (id : ℕ) (request : SessionReconnectRequest) (user_id : Text) (s : Server B S R)
      (holder : Option ℕ)
      → has_user user_id s.registry ≡ holder
      → IsAgreed s.registry
      → IsRecorded s
      → IsRecorded (resume_user id request user_id s).0
  unfolding resume_user has_user
  resume_user-IsRecorded_at id request user_id s none e agreed x =
      ground (arith, e, resume-IsRecorded id request user_id 0 s (ground (arith, e)) x)
  resume_user-IsRecorded_at id request user_id s (some existing) e agreed x =
      let s' = take_over existing id s in
      elim (Bool-cases (existing == id)) [
        | inl same ↦
            ground
              (arith, e, same, resume-IsRecorded id request user_id 0 s (ground (arith, e, same)) x)
        | inr other ↦ ground (
          arith,
          e,
          other,
          resume-IsRecorded id request user_id (last_seq_of (find existing s.sessions)) s'
              (ground (
                arith,
                take_over-registry existing id s,
                remove_session-frees existing user_id s.registry agreed e,
              ))
              (take_over-IsRecorded_at existing id s (find existing s.sessions) refl x),
        )
      ]

  pub reconnect-IsRecorded :
      (id : ℕ) (payload : Text) (now : ℕ) (s : Server B S R)
      → IsAgreed s.registry
      → IsRecorded s
      → IsRecorded (reconnect id payload now s).0
  unfolding reconnect
  reconnect-IsRecorded id payload now s agreed x =
      elim (Option-cases (decode_session_reconnect_request payload)) [
        | inl e ↦ ground (arith, e, same_users s (with_error s) (λ k. refl) refl x)
        | inr (request, e) ↦
            let (tokens, user) = validate_token request.token now s.token_service in
            let s' : Server B S R = record s { token_service = tokens } in
            let x' = same_users s s' (λ k. refl) refl x in
            elim (Option-cases user) [
              | inl none_valid ↦
                  ground (arith, e, none_valid, same_users s (with_error s') (λ k. refl) refl x)
              | inr (user_id, valid) ↦ ground (
                arith,
                e,
                valid,
                resume_user-IsRecorded_at id request user_id s' (has_user user_id s'.registry) refl
                    agreed x',
              )
            ]
      ]

module _ {B S R : Type 0} (w : World B S R) where
  pub login-IsRecorded :
      (id : ℕ) (payload : Text) (now : ℕ) (s : Server B S R)
      → IsRecorded s
      → IsRecorded (login w id payload now s).0
  unfolding login has_user
  login-IsRecorded id payload now s x = elim (Option-cases (decode_login_request payload)) [
    | inl e ↦ ground (arith, e, same_users s (with_error s) (λ k. refl) refl x)
    | inr (request, e) ↦
        let (rng, token) = generate_token w.draw_byte s.rng in
        let c : UserContext = record { user_id = request.user_id; token = token } in
        let f : Session B → Session B = attach_user_context c in
        let s' : Server B S R = record s {
          rng = rng;
          token_service = issue_token token request.user_id now s.token_service;
        } in
        let refused = same_users s (with_error s) (λ k. refl) refl x in
        elim (Bool-cases (held_by_other request.user_id id s.registry)) [
          | inl held ↦ ground (arith, e, held, refused)
          | inr free ↦ ground (
            arith,
            e,
            free,
            refused,
            ap (λ g. g.0) (Frames.on_session-guarded id f s'),
            register_session-free id c s.registry free,
            attached-IsRecorded id c s' free (same_users s s' (λ k. refl) refl x),
          )
        ]
  ]
