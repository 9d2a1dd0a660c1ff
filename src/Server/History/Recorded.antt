-- ===== src/Server/History/Recorded.antt =====
-- The users of the sessions over the calls of a Server of src/net/server.cpp.
use native.Mathlib.Omega.{arith}
use gameserver_hide.Base.{
  ℕ, Option-cases, inl, inr, some, List, [], ◌∷◌, Text, ◌≡◌, refl, subst, ap, sym,
}
use gameserver_hide.Base.Map.{find}
use gameserver_hide.Net.Frames.{FrameHeader}
use gameserver_hide.Session.{Session}
use gameserver_hide.Server.World.{World, Server, with_error, session_of, detach}
use gameserver_hide.Party.Membership
use gameserver_hide.Guild
use gameserver_hide.Server.Registry
use gameserver_hide.Server.Registry.{SessionRegistry, held_by_other, has_user}
use gameserver_hide.Server.Registry.Agreement.{IsAgreed}
use gameserver_hide.Server.History.Frames
use gameserver_hide.Server.History.Objects
use gameserver_hide.Server.History.Objects.{
  marks, checked, admit-user_context, session_of-metrics, tick_sessions-marks,
}
use gameserver_hide.Server.History.{
  Call, packet, create, remove, ticked, disconnected, parties_used, instances_used, step,
}
use gameserver_hide.Server.{Verdict, passed, admit}
use gameserver_hide.Server.Handle.{
  dispatch, dispatch_lem, tick_sessions, create_session, handle_packet, remove_session, remove_all,
  tick, force_disconnect,
}
use gameserver_hide.Server.History.Contexts.{
  IsRecorded, context_of-emplace, context_of-marks, gone-IsRecorded, replaced-IsRecorded,
  same_users,
}
use gameserver_hide.Server.History.Logins.{
  login-IsRecorded, logout-IsRecorded, reconnect-IsRecorded,
}

module _ {B S R : Type 0} (w : World B S R) where
  -- A handler that leaves the registry and the marks of the sessions.
  framed :
      (s s' : Server B S R)
      → s'.registry ≡ s.registry
      → ((k : ℕ) → marks (find k s'.sessions) ≡ marks (find k s.sessions))
      → IsRecorded s
      → IsRecorded s'
  framed s s' p q =
      same_users s s' (λ k. context_of-marks (find k s'.sessions) (find k s.sessions) (q k)) p

  dispatch-IsRecorded :
      (clock time id : ℕ) (header : FrameHeader) (payload : Text) (now : ℕ) (s : Server B S R)
      → IsAgreed s.registry
      → IsRecorded s
      → IsRecorded (dispatch w clock time id header payload now s).0
  dispatch-IsRecorded clock time id header payload now s agreed x =
      let kept : (s' : Server B S R)
          → Frames.guarded s' ≡ Frames.guarded s
          → ((k : ℕ) → Objects.marked k s' ≡ Objects.marked k s)
          → IsRecorded s' =
        λ s' p q. framed s s' (ap (λ g. g.0) p) (λ k. ap (λ g. g.0) (q k)) x in
      dispatch_lem IsRecorded w clock time id header payload now s
        (login-IsRecorded w id payload now s x) (logout-IsRecorded id payload s x)
        (λ _. reconnect-IsRecorded id payload now s agreed x)
        (kept _ (Frames.match_request-guarded w clock header.version id payload now s)
          (λ k. Objects.match_request-marked w clock k header.version id payload now s))
        (kept _ (Frames.dungeon_enter-guarded w clock id payload s)
          (λ k. Objects.dungeon_enter-marked w clock k id payload s))
        (framed s _ (Frames.result-registry w clock time id payload s)
          (λ k. ap (λ g. g.0) (Objects.dungeon_result-marked w clock k time id payload s)) x)
        (kept _ (Frames.inventory_update-guarded w clock time id payload s)
          (λ k. Objects.inventory_update-marked w clock k time id payload s))
        (kept _ (Frames.guild_create-guarded w clock id payload s)
          (λ k. Objects.guild_create-marked w clock k id payload s))
        (kept _ (Frames.guild_join-guarded w clock id payload s)
          (λ k. Objects.guild_join-marked w clock k id payload s))
        (kept _ (Frames.guild_leave-guarded w clock id payload s)
          (λ k. Objects.guild_leave-marked w clock k id payload s))
        (kept _ (Frames.chat_send-guarded w clock id payload s)
          (λ k. Objects.chat_send-marked w clock k id payload s))
        (framed s (with_error s) refl (λ k. refl) x)

  checked-IsRecorded :
      (id : ℕ) (header : FrameHeader) (payload : Text) (now : ℕ) (s : Server B S R)
      (session : Session B)
      → session_of id s ≡ some session
      → IsRecorded s
      → IsRecorded (checked w id header payload now s session)
  checked-IsRecorded id header payload now s session p x =
      let (m, session') =
        (admit s.security_policy w.decimal header payload now (s.metrics, session)).0 in
      let s' : Server B S R = record s { metrics = m } in
      replaced-IsRecorded id session session' s' (session_of-metrics id session m s p)
        (admit-user_context s.security_policy w.decimal header payload now s.metrics session)
        (same_users s s' (λ k. refl) refl x)

  checked-registry :
      (id : ℕ) (header : FrameHeader) (payload : Text) (now : ℕ) (s : Server B S R)
      (session : Session B)
      → (checked w id header payload now s session).registry ≡ s.registry
  checked-registry id header payload now s session =
      ap (λ g. g.0) (Frames.on_session-guarded id _ _)

  handle_packet-IsRecorded_at :
      (clock time id : ℕ) (header : FrameHeader) (payload : Text) (now : ℕ) (s : Server B S R)
      (session : Session B) (verdict : Verdict)
      → session_of id s ≡ some session
      → (admit s.security_policy w.decimal header payload now (s.metrics, session)).1 ≡ verdict
      → IsAgreed s.registry
      → IsRecorded s
      → IsRecorded (handle_packet w clock time id header payload now s).0
  unfolding handle_packet
  handle_packet-IsRecorded_at clock time id header payload now s session (passed inner) p v agreed
        x =
      ground (
        arith,
        p,
        v,
        dispatch-IsRecorded clock time id header inner now
            (checked w id header payload now s session)
            (subst IsAgreed (sym (checked-registry id header payload now s session)) agreed)
            (checked-IsRecorded id header payload now s session p x),
      )
  handle_packet-IsRecorded_at clock time id header payload now s session _ p v agreed x =
      ground (arith, p, v, checked-IsRecorded id header payload now s session p x)

  handle_packet-IsRecorded :
      (clock time id : ℕ) (header : FrameHeader) (payload : Text) (now : ℕ) (s : Server B S R)
      → IsAgreed s.registry
      → IsRecorded s
      → IsRecorded (handle_packet w clock time id header payload now s).0
  unfolding handle_packet
  handle_packet-IsRecorded clock time id header payload now s agreed x =
      elim (Option-cases (session_of id s)) [
        | inl e ↦ ground (arith, e, x)
        | inr (session, e) ↦
            handle_packet-IsRecorded_at clock time id header payload now s session _ e refl agreed x
      ]

  remove_session-IsRecorded :
      (clock id : ℕ) (s : Server B S R) → IsRecorded s → IsRecorded (remove_session w clock id s)
  unfolding remove_session
  remove_session-IsRecorded clock id s x =
      let gone : Server B S R = record (detach id s) {
        registry = Registry.remove_session id s.registry;
        parties = (Membership.remove_member id s.parties).0;
      } in
      framed gone _
        (ap (λ g. g.0)
          (Frames.with_guilds-guarded w clock (Guild.remove_member id s.guilds).0 gone))
        (λ k.
          ap (λ g. g.0)
            (Objects.with_guilds-marked w clock k (Guild.remove_member id s.guilds).0 gone))
        (same_users _ gone (λ k. refl) refl (gone-IsRecorded id s x))

  remove_all-IsRecorded :
      (clock : ℕ) (ids : List ℕ) (s : Server B S R)
      → IsRecorded s
      → IsRecorded (remove_all w clock ids s)
  unfolding remove_all
  remove_all-IsRecorded clock [] s x = x
  remove_all-IsRecorded clock (id ∷ ids) s x =
      remove_all-IsRecorded clock ids (remove_session w clock id s)
        (remove_session-IsRecorded clock id s x)

  pub step-IsRecorded :
      (s : Server B S R) (c : Call B) → IsAgreed s.registry → IsRecorded s → IsRecorded (step w s c)
  unfolding step create_session tick force_disconnect
  step-IsRecorded s (packet clock time id header payload now) agreed x =
      handle_packet-IsRecorded clock time id header payload now s agreed x
  step-IsRecorded s (create config bucket now) agreed x =
      same_users s _ (λ k. context_of-emplace s.next_id k config bucket now s.sessions) refl x
  step-IsRecorded s (remove clock id) agreed x = remove_session-IsRecorded clock id s x
  step-IsRecorded s (ticked clock now) agreed x =
      let (sessions, ended) = tick_sessions now s.sessions in
      let s' : Server B S R = record s { sessions = sessions } in
      remove_all-IsRecorded clock ended s'
        (framed s s' refl (λ k. tick_sessions-marks now k s.sessions) x)
  step-IsRecorded s (disconnected clock id) agreed x = grind (
    arith,
    remove_session-IsRecorded clock id s x,
    same_users s (with_error s) (λ k. refl) refl x,
  )
  step-IsRecorded s (parties_used parties) agreed x = same_users s _ (λ k. refl) refl x
  step-IsRecorded s (instances_used instances) agreed x = same_users s _ (λ k. refl) refl x
