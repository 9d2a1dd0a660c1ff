-- ===== src/Server/History/Exclusive.antt =====
-- The registry of users over the calls of a Server of src/net/server.cpp.
use native.Mathlib.Omega.{arith}
use gameserver_hide.Base.{
  ℕ, Option-cases, inl, inr, Option, none, some, List, [], ◌∷◌, Text, ◌≡◌, refl, subst, max, ap,
  sym,
}
use gameserver_hide.Base.Map.{find}
use gameserver_hide.Net.Auth.{validate_token}
use gameserver_hide.Net.Frames.{FrameHeader}
use gameserver_hide.Net.Protocol.Account.{SessionReconnectRequest, decode_session_reconnect_request}
use gameserver_hide.Session.{Session, UserContext, attach_user_context, set_last_seq}
use gameserver_hide.Server.World.{World, Server, with_error, on_session, detach}
use gameserver_hide.Server.Registry
use gameserver_hide.Server.Registry.{find_record, has_user}
use gameserver_hide.Server.Registry.Agreement.{
  IsAgreed, register_session-IsAgreed, remove_session-IsAgreed,
}
use gameserver_hide.Server.Accounts.{
  login, logout, take_over, resume, resume_user, reconnect, last_seq_of,
}
use gameserver_hide.Server.Social.{with_guilds}
use gameserver_hide.Server.Handle.{
  dispatch, dispatch_lem, tick_sessions, create_session, handle_packet, remove_session, remove_all,
  tick, force_disconnect,
}
use gameserver_hide.Server.History.{
  Call, packet, create, remove, ticked, disconnected, parties_used, instances_used, step, run,
}
use gameserver_hide.Server.History.Frames

-- The registry of a server is agreed.
unfoldable pub IsExclusive : {B S R : Type 0} → Server B S R → Type 0
IsExclusive s = IsAgreed s.registry

module _ {B S R : Type 0} (w : World B S R) where
  -- Two servers with one registry.
  same : (s s' : Server B S R) → s'.registry ≡ s.registry → IsExclusive s → IsExclusive s'
  unfolding IsExclusive
  same s s' p x = subst IsAgreed (sym p) x

  on_session-IsExclusive :
      (id : ℕ) (f : Session B → Session B) (s : Server B S R)
      → IsExclusive s
      → IsExclusive (on_session id f s)
  on_session-IsExclusive id f s =
      same s (on_session id f s) (ap (λ g. g.0) (Frames.on_session-guarded id f s))

  pub registered :
      (id : ℕ) (c : UserContext) (s : Server B S R)
      → IsExclusive s
      → IsExclusive (record s { registry = (Registry.register_session id c s.registry).0 })
  unfolding IsExclusive
  registered id c s x = register_session-IsAgreed id c s.registry x

  unregistered :
      (id : ℕ) (s : Server B S R)
      → IsExclusive s
      → IsExclusive (record s { registry = Registry.remove_session id s.registry })
  unfolding IsExclusive
  unregistered id s x = remove_session-IsAgreed id s.registry x

  login-IsExclusive :
      (id : ℕ) (payload : Text) (now : ℕ) (s : Server B S R)
      → IsExclusive s
      → IsExclusive (login w id payload now s).0
  unfolding login
  login-IsExclusive id payload now s x =
      grind (arith, on_session-IsExclusive id, registered id, same s)

  logout-IsExclusive :
      (id : ℕ) (payload : Text) (s : Server B S R)
      → IsExclusive s
      → IsExclusive (logout id payload s).0
  unfolding logout
  logout-IsExclusive id payload s x =
      grind (arith, on_session-IsExclusive id, unregistered id, same s)

  detach-IsExclusive : (id : ℕ) (s : Server B S R) → IsExclusive s → IsExclusive (detach id s)
  detach-IsExclusive id s = same s (detach id s) (ap (λ g. g.0) (Frames.detach-guarded id s))

  take_over-IsExclusive :
      (existing id : ℕ) (s : Server B S R) → IsExclusive s → IsExclusive (take_over existing id s)
  unfolding take_over
  take_over-IsExclusive existing id s x =
      grind (arith, detach-IsExclusive existing, unregistered existing, same s)

  resume-IsExclusive :
      (id : ℕ) (request : SessionReconnectRequest) (user_id : Text) (previous : ℕ)
      (s : Server B S R)
      → IsExclusive s
      → IsExclusive (resume id request user_id previous s).0
  unfolding resume
  resume-IsExclusive id request user_id previous s x =
      let c : UserContext = record { user_id = user_id; token = request.token } in
      let attached = on_session id (attach_user_context c) s in
      let known =
        registered id c attached (on_session-IsExclusive id (attach_user_context c) s x) in
      ground (
        arith,
        same s (with_error attached)
            (ap (λ g. g.0) (Frames.on_session-guarded id (attach_user_context c) s)) x,
        on_session-IsExclusive id (set_last_seq (max request.last_seq previous)) _ known,
      )

  resume_user-IsExclusive_at :
      (id : ℕ) (request : SessionReconnectRequest) (user_id : Text) (s : Server B S R)
      (holder : Option ℕ)
      → has_user user_id s.registry ≡ holder
      → IsExclusive s
      → IsExclusive (resume_user id request user_id s).0
  unfolding resume_user
  resume_user-IsExclusive_at id request user_id s none e x =
      ground (arith, e, resume-IsExclusive id request user_id 0 s x)
  resume_user-IsExclusive_at id request user_id s (some existing) e x = ground (
    arith,
    e,
    resume-IsExclusive id request user_id 0 s x,
    resume-IsExclusive id request user_id (last_seq_of (find existing s.sessions))
        (take_over existing id s) (take_over-IsExclusive existing id s x),
  )

  reconnect-IsExclusive :
      (id : ℕ) (payload : Text) (now : ℕ) (s : Server B S R)
      → IsExclusive s
      → IsExclusive (reconnect id payload now s).0
  unfolding reconnect
  reconnect-IsExclusive id payload now s x =
      elim (Option-cases (decode_session_reconnect_request payload)) [
        | inl e ↦ ground (arith, e, same s (with_error s) refl x)
        | inr (request, e) ↦
            let (tokens, user) = validate_token request.token now s.token_service in
            let s' : Server B S R = record s { token_service = tokens } in
            elim (Option-cases user) [
              | inl none_valid ↦ ground (arith, e, none_valid, same s (with_error s') refl x)
              | inr (user_id, valid) ↦ ground (
                arith,
                e,
                valid,
                resume_user-IsExclusive_at id request user_id s' (has_user user_id s'.registry) refl
                    (same s s' refl x),
              )
            ]
      ]

  -- A handler that leaves the guarded parts as they are.
  framed :
      (s s' : Server B S R) → Frames.guarded s' ≡ Frames.guarded s → IsExclusive s → IsExclusive s'
  framed s s' p = same s s' (ap (λ g. g.0) p)

  dispatch-IsExclusive :
      (clock time id : ℕ) (header : FrameHeader) (payload : Text) (now : ℕ) (s : Server B S R)
      → IsExclusive s
      → IsExclusive (dispatch w clock time id header payload now s).0
  dispatch-IsExclusive clock time id header payload now s x =
      dispatch_lem IsExclusive w clock time id header payload now s
        (login-IsExclusive id payload now s x) (logout-IsExclusive id payload s x)
        (λ _. reconnect-IsExclusive id payload now s x)
        (framed s _ (Frames.match_request-guarded w clock header.version id payload now s) x)
        (framed s _ (Frames.dungeon_enter-guarded w clock id payload s) x)
        (same s _ (Frames.result-registry w clock time id payload s) x)
        (framed s _ (Frames.inventory_update-guarded w clock time id payload s) x)
        (framed s _ (Frames.guild_create-guarded w clock id payload s) x)
        (framed s _ (Frames.guild_join-guarded w clock id payload s) x)
        (framed s _ (Frames.guild_leave-guarded w clock id payload s) x)
        (framed s _ (Frames.chat_send-guarded w clock id payload s) x)
        (same s (with_error s) refl x)

  handle_packet-IsExclusive :
      (clock time id : ℕ) (header : FrameHeader) (payload : Text) (now : ℕ) (s : Server B S R)
      → IsExclusive s
      → IsExclusive (handle_packet w clock time id header payload now s).0
  unfolding handle_packet
  handle_packet-IsExclusive clock time id header payload now s x =
      grind (arith, dispatch-IsExclusive clock time id header, on_session-IsExclusive id, same s)

  remove_session-IsExclusive :
      (clock id : ℕ) (s : Server B S R) → IsExclusive s → IsExclusive (remove_session w clock id s)
  unfolding remove_session with_guilds
  remove_session-IsExclusive clock id s x =
      same _ (remove_session w clock id s)
        (ap (λ g. Registry.remove_session id g.0) (sym (Frames.detach-guarded id s)))
        (unregistered id (detach id s) (detach-IsExclusive id s x))

  remove_all-IsExclusive :
      (clock : ℕ) (ids : List ℕ) (s : Server B S R)
      → IsExclusive s
      → IsExclusive (remove_all w clock ids s)
  unfolding remove_all
  remove_all-IsExclusive clock [] s x = x
  remove_all-IsExclusive clock (id ∷ ids) s x =
      remove_all-IsExclusive clock ids (remove_session w clock id s)
        (remove_session-IsExclusive clock id s x)

  pub step-IsExclusive : (s : Server B S R) (c : Call B) → IsExclusive s → IsExclusive (step w s c)
  unfolding step create_session tick force_disconnect
  step-IsExclusive s (packet clock time id header payload now) x =
      handle_packet-IsExclusive clock time id header payload now s x
  step-IsExclusive s (create config bucket now) x = same s _ refl x
  step-IsExclusive s (remove clock id) x = remove_session-IsExclusive clock id s x
  step-IsExclusive s (ticked clock now) x =
      remove_all-IsExclusive clock (tick_sessions now s.sessions).1 _ (same s _ refl x)
  step-IsExclusive s (disconnected clock id) x =
      grind (arith, remove_session-IsExclusive clock id s, same s)
  step-IsExclusive s (parties_used parties) x = same s _ refl x
  step-IsExclusive s (instances_used instances) x = same s _ refl x

  pub run-IsExclusive :
      (s : Server B S R) (cs : List (Call B)) → IsExclusive s → IsExclusive (run w s cs)
  unfolding run
  run-IsExclusive s [] x = x
  run-IsExclusive s (c ∷ cs) x = run-IsExclusive (step w s c) cs (step-IsExclusive s c x)
