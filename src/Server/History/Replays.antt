-- ===== src/Server/History/Replays.antt =====
-- What the calls of a Server of src/net/server.cpp leave of the last sequence number of a session.
use native.Mathlib.Omega.{arith}
use gameserver_hide.Base.{
  ℕ, Option-cases, inl, inr, Bool, true, false, not, ◌&&◌, none, some, List, [], ◌∷◌, Text, ◌==◌,
  ◌≡◌, refl,
}
use gameserver_hide.Base.Map.{find, find-put, find-emplace}
use gameserver_hide.Net.Auth.{generate_token, issue_token}
use gameserver_hide.Net.Frames.{FrameHeader}
use gameserver_hide.Net.Protocol.Account.{decode_login_request}
use gameserver_hide.Session.{Session, SessionConfig, UserContext, new_session, attach_user_context}
use gameserver_hide.Party.Membership
use gameserver_hide.Guild
use gameserver_hide.Server.{Verdict, passed, admit}
use gameserver_hide.Server.Replay.{admit-last_seq}
use gameserver_hide.Server.World.{World, Server, with_error, session_of, on_session, detach}
use gameserver_hide.Server.Registry
use gameserver_hide.Server.Accounts.{login}
use gameserver_hide.Server.Handle.{
  dispatch, dispatch_lem, tick_sessions, create_session, handle_packet, remove_session, remove_all,
  tick, force_disconnect,
}
use gameserver_hide.Server.History.{
  Call, packet, create, remove, ticked, disconnected, parties_used, instances_used, step,
}
use gameserver_hide.Server.History.Objects
use gameserver_hide.Server.History.Objects.{
  marks, marked, checked, session_of-metrics, tick_sessions-marks,
}
use gameserver_hide.Server.History.Numbers.{
  IsLater, IsLater-trans, alike, alike_marked, detach-IsLater, logout-IsLater, on_session-IsLater,
  reconnect-IsLater, replaced-IsLater, seen, seq_in,
}

-- A call that is no SessionReconnectReq of the session `k`, and creates no session of its id.
unfoldable pub spares : {B S R : Type 0} → ℕ → Server B S R → Call B → Bool
spares k s (packet clock time id header payload now) = not (header.type == 6 && id == k)
spares k s (create config bucket now) = not (s.next_id == k)
spares k s _ = true

module _ {B S R : Type 0} (w : World B S R) (k : ℕ) where
  login-IsLater :
      (id : ℕ) (payload : Text) (now : ℕ) (s : Server B S R)
      → IsLater k s (login w id payload now s).0
  unfolding login
  login-IsLater id payload now s = elim (Option-cases (decode_login_request payload)) [
    | inl e ↦ ground (arith, e, alike k s (with_error s) refl refl refl)
    | inr (request, e) ↦
        let (rng, token) = generate_token w.draw_byte s.rng in
        let c : UserContext = record { user_id = request.user_id; token = token } in
        let s1 : Server B S R = record s {
          rng = rng;
          token_service = issue_token token request.user_id now s.token_service;
        } in
        let s2 = on_session id (attach_user_context c) s1 in
        let s3 : Server B S R = record s2 {
          registry = (Registry.register_session id c s2.registry).0;
        } in
        let attached =
          IsLater-trans k s s1 s2 (alike k s s1 refl refl refl)
            (on_session-IsLater k id (attach_user_context c) s1 (λ x. omega arith)) in
        ground (
          arith,
          e,
          alike k s (with_error s) refl refl refl,
          IsLater-trans k s s2 (with_error s2) attached (alike k s2 (with_error s2) refl refl refl),
          IsLater-trans k s s2 s3 attached (alike k s2 s3 refl refl refl),
        )
  ]

  -- A packet that is no SessionReconnectReq of the session `k`.
  dispatch-IsLater :
      (clock time id : ℕ) (header : FrameHeader) (payload : Text) (now : ℕ) (s : Server B S R)
      → (header.type == 6 && id == k) ≡ false
      → IsLater k s (dispatch w clock time id header payload now s).0
  dispatch-IsLater clock time id header payload now s spared =
      dispatch_lem (IsLater k s) w clock time id header payload now s
        (login-IsLater id payload now s) (logout-IsLater k id payload s)
        (λ reconnects. reconnect-IsLater k id payload now s (ground (arith, spared, reconnects)))
        (alike_marked k s _
          (Objects.match_request-marked w clock k header.version id payload now s))
        (alike_marked k s _ (Objects.dungeon_enter-marked w clock k id payload s))
        (alike_marked k s _ (Objects.dungeon_result-marked w clock k time id payload s))
        (alike_marked k s _ (Objects.inventory_update-marked w clock k time id payload s))
        (alike_marked k s _ (Objects.guild_create-marked w clock k id payload s))
        (alike_marked k s _ (Objects.guild_join-marked w clock k id payload s))
        (alike_marked k s _ (Objects.guild_leave-marked w clock k id payload s))
        (alike_marked k s _ (Objects.chat_send-marked w clock k id payload s))
        (alike k s (with_error s) refl refl refl)

  checked-IsLater :
      (id : ℕ) (header : FrameHeader) (payload : Text) (now : ℕ) (s : Server B S R)
      (session : Session B)
      → session_of id s ≡ some session
      → IsLater k s (checked w id header payload now s session)
  checked-IsLater id header payload now s session p =
      let ((metrics, session'), verdict) =
        admit s.security_policy w.decimal header payload now (s.metrics, session) in
      let s' : Server B S R = record s { metrics = metrics } in
      IsLater-trans k s s' (on_session id (λ _. session') s') (alike k s s' refl refl refl) (
        replaced-IsLater k id session session' s' (session_of-metrics id session metrics s p)
          (admit-last_seq s.security_policy w.decimal header payload now s.metrics session))

  pub seen-replaced :
      (x x' : Session B) (s : Server B S R)
      → session_of k s ≡ some x
      → seen k (on_session k (λ _. x') s) ≡ x'.last_seq
  unfolding seen seq_in on_session session_of
  seen-replaced x x' s p = elim (Option-cases (find k s.sessions)) [
    | inr (y, e) ↦ grind (arith, e, p, find-put)
    | inl e ↦ elim (Option-cases (find k s.detached)) [
      | inl e' ↦ ground (arith, e, e', p)
      | inr (y, e') ↦ grind (arith, e, e', p, find-put)
    ]
  ]

  pub dispatched-IsLater :
      (clock time id : ℕ) (header : FrameHeader) (payload : Text) (now : ℕ) (s : Server B S R)
      (session : Session B) (inner : Text)
      → session_of id s ≡ some session
      → (admit s.security_policy w.decimal header payload now (s.metrics, session)).1 ≡ passed inner
      → (header.type == 6 && id == k) ≡ false
      → IsLater k
          (checked w id header payload now s session)
          (handle_packet w clock time id header payload now s).0
  unfolding handle_packet
  dispatched-IsLater clock time id header payload now s session inner p v spared =
      let s' = checked w id header payload now s session in
      ground (arith, p, v, dispatch-IsLater clock time id header inner now s' spared)

  handle_packet-IsLater :
      (clock time id : ℕ) (header : FrameHeader) (payload : Text) (now : ℕ) (s : Server B S R)
      (session : Session B) (verdict : Verdict)
      → session_of id s ≡ some session
      → (admit s.security_policy w.decimal header payload now (s.metrics, session)).1 ≡ verdict
      → (header.type == 6 && id == k) ≡ false
      → IsLater k s (handle_packet w clock time id header payload now s).0
  unfolding handle_packet
  handle_packet-IsLater clock time id header payload now s session (passed inner) p v spared =
      let s' = checked w id header payload now s session in
      ground (
        arith,
        p,
        v,
        IsLater-trans k s s' _ (checked-IsLater id header payload now s session p)
            (dispatch-IsLater clock time id header inner now s' spared),
      )
  handle_packet-IsLater clock time id header payload now s session _ p v spared =
      ground (arith, p, v, checked-IsLater id header payload now s session p)

  remove_session-IsLater :
      (clock id : ℕ) (s : Server B S R) → IsLater k s (remove_session w clock id s)
  unfolding remove_session
  remove_session-IsLater clock id s =
      let gone : Server B S R = record (detach id s) {
        registry = Registry.remove_session id s.registry;
        parties = (Membership.remove_member id s.parties).0;
      } in
      let (guilds, removed) = Guild.remove_member id s.guilds in
      IsLater-trans k s gone (remove_session w clock id s)
        (IsLater-trans k s (detach id s) gone (detach-IsLater k id s)
          (alike k _ gone refl refl refl))
        (alike_marked k gone _ (Objects.with_guilds-marked w clock k guilds gone))

  remove_all-IsLater :
      (clock : ℕ) (ids : List ℕ) (s : Server B S R) → IsLater k s (remove_all w clock ids s)
  unfolding remove_all
  remove_all-IsLater clock [] s = alike k s s refl refl refl
  remove_all-IsLater clock (id ∷ ids) s =
      IsLater-trans k s (remove_session w clock id s) _ (remove_session-IsLater clock id s)
        (remove_all-IsLater clock ids (remove_session w clock id s))

  created-IsLater :
      (config : SessionConfig) (bucket : B) (now : ℕ) (s : Server B S R)
      → (s.next_id == k) ≡ false
      → IsLater k s (create_session config bucket now s).0
  unfolding create_session IsLater seen
  created-IsLater config bucket now s other =
      grind (
        arith,
        other,
        find-emplace s.next_id k (new_session s.next_id config bucket now) s.sessions,
      )

  pub step-IsLater :
      (s : Server B S R) (c : Call B) → spares k s c ≡ true → IsLater k s (step w s c)
  unfolding step tick force_disconnect spares handle_packet
  step-IsLater s (packet clock time id header payload now) spared =
      elim (Option-cases (session_of id s)) [
        | inl e ↦ unknown e
        | inr (session, e) ↦
            handle_packet-IsLater clock time id header payload now s session _ e refl
              (ground (arith, spared))
      ]
    where
      unknown :
          session_of id s ≡ none
          → IsLater k s (handle_packet w clock time id header payload now s).0
      unknown e = ground (arith, e, alike k s s refl refl refl)
  step-IsLater s (create config bucket now) spared =
      created-IsLater config bucket now s (ground (arith, spared))
  step-IsLater s (remove clock id) spared = remove_session-IsLater clock id s
  step-IsLater s (ticked clock now) spared =
      let (sessions, ended) = tick_sessions now s.sessions in
      let s' : Server B S R = record s { sessions = sessions } in
      IsLater-trans k s s' _ (alike k s s' refl refl (tick_sessions-marks now k s.sessions))
        (remove_all-IsLater clock ended s')
  step-IsLater s (disconnected clock id) spared =
      ground (arith, remove_session-IsLater clock id s, alike k s (with_error s) refl refl refl)
  step-IsLater s (parties_used parties) spared = alike k s _ refl refl refl
  step-IsLater s (instances_used instances) spared = alike k s _ refl refl refl
