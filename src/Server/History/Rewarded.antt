-- ===== src/Server/History/Rewarded.antt =====
-- The rewards of an instance over the calls of a Server of src/net/server.cpp.
use native.Mathlib.Omega.{arith}
use gameserver_hide.Base.{ℕ, true, false, some, List, [], ◌∷◌, Text, ◌≡◌, refl, ap, ◌∙◌}
use gameserver_hide.Base.Map.{find, contains, find-put}
use gameserver_hide.Net.Frames.{FrameHeader}
use gameserver_hide.Session.{Session}
use gameserver_hide.Server.World.{World, Server, with_error, on_session}
use gameserver_hide.Server.Accounts.{login, logout, take_over, resume, resume_user, reconnect}
use gameserver_hide.Server.Dungeons
use gameserver_hide.Server.Dungeons.{dungeon_result}
use gameserver_hide.Server.Social.{with_guilds}
use gameserver_hide.Server.Handle.{
  dispatch, dispatch_lem, handle_packet, create_session, remove_session, remove_all, tick,
  tick_sessions, force_disconnect,
}
use gameserver_hide.Server.History.{
  Call, packet, create, remove, ticked, disconnected, parties_used, instances_used, step, run,
}
use gameserver_hide.Server.History.Frames

-- The reward of an instance is recorded.
unfoldable IsPaid : {B S R : Type 0} → ℕ → Server B S R → Type 0
IsPaid i s = contains i s.instance_reward_grants ≡ true

module _ {B S R : Type 0} (w : World B S R) (i : ℕ) where
  same :
      (s s' : Server B S R)
      → s'.instance_reward_grants ≡ s.instance_reward_grants
      → IsPaid i s
      → IsPaid i s'
  unfolding IsPaid
  same s s' p x = ap (contains i) p ∙ x

  framed : (s s' : Server B S R) → Frames.guarded s' ≡ Frames.guarded s → IsPaid i s → IsPaid i s'
  framed s s' p = same s s' (ap (λ g. g.1) p)

  login-grants :
      (id : ℕ) (payload : Text) (now : ℕ) (s : Server B S R)
      → (login w id payload now s).0.instance_reward_grants ≡ s.instance_reward_grants
  unfolding login on_session
  login-grants id payload now s = ground arith

  logout-grants :
      (id : ℕ) (payload : Text) (s : Server B S R)
      → (logout id payload s).0.instance_reward_grants ≡ s.instance_reward_grants
  unfolding logout on_session
  logout-grants id payload s = ground arith

  reconnect-grants :
      (id : ℕ) (payload : Text) (now : ℕ) (s : Server B S R)
      → (reconnect id payload now s).0.instance_reward_grants ≡ s.instance_reward_grants
  unfolding reconnect resume_user resume take_over on_session
  reconnect-grants id payload now s = ground arith

  dungeon_result-IsPaid :
      (time id : ℕ) (payload : Text) (s : Server B S R)
      → IsPaid i s
      → IsPaid i (dungeon_result w time id payload s).0
  unfolding dungeon_result Dungeons.close_instance Dungeons.record_result IsPaid
  dungeon_result-IsPaid time id payload s x = grind (arith, find-put)

  on_session-IsPaid :
      (id : ℕ) (f : Session B → Session B) (s : Server B S R)
      → IsPaid i s
      → IsPaid i (on_session id f s)
  on_session-IsPaid id f s = framed s (on_session id f s) (Frames.on_session-guarded id f s)

  dispatch-IsPaid :
      (clock time id : ℕ) (header : FrameHeader) (payload : Text) (now : ℕ) (s : Server B S R)
      → IsPaid i s
      → IsPaid i (dispatch w clock time id header payload now s).0
  dispatch-IsPaid clock time id header payload now s x =
      dispatch_lem (IsPaid i) w clock time id header payload now s
        (same s _ (login-grants id payload now s) x) (same s _ (logout-grants id payload s) x)
        (λ _. same s _ (reconnect-grants id payload now s) x)
        (framed s _ (Frames.match_request-guarded w clock header.version id payload now s) x)
        (framed s _ (Frames.dungeon_enter-guarded w clock id payload s) x)
        (dungeon_result-IsPaid time id payload s x)
        (framed s _ (Frames.inventory_update-guarded w clock time id payload s) x)
        (framed s _ (Frames.guild_create-guarded w clock id payload s) x)
        (framed s _ (Frames.guild_join-guarded w clock id payload s) x)
        (framed s _ (Frames.guild_leave-guarded w clock id payload s) x)
        (framed s _ (Frames.chat_send-guarded w clock id payload s) x)
        (same s (with_error s) refl x)

  -- A result that is accepted records the reward of the session's instance.
  dungeon_result-paid :
      (time id : ℕ) (payload : Text) (s : Server B S R)
      → find id s.session_instances ≡ some i
      → (dungeon_result w time id payload s).1.success ≡ true
      → IsPaid i (dungeon_result w time id payload s).0
  unfolding dungeon_result Dungeons.close_instance Dungeons.record_result IsPaid
  dungeon_result-paid time id payload s at_instance ok = grind (arith, find-put)

  -- Then a result is refused, and only the count of errors changes.
  dungeon_result-refused :
      (time id : ℕ) (payload : Text) (s : Server B S R)
      → find id s.session_instances ≡ some i
      → IsPaid i s
      → ((dungeon_result w time id payload s).0 ≡ with_error s)
        × ((dungeon_result w time id payload s).1.success ≡ false)
  unfolding dungeon_result Dungeons.close_instance IsPaid
  dungeon_result-refused time id payload s at_instance x = ground arith

  handle_packet-IsPaid :
      (clock time id : ℕ) (header : FrameHeader) (payload : Text) (now : ℕ) (s : Server B S R)
      → IsPaid i s
      → IsPaid i (handle_packet w clock time id header payload now s).0
  unfolding handle_packet
  handle_packet-IsPaid clock time id header payload now s x =
      grind (arith, dispatch-IsPaid clock time id header, on_session-IsPaid id, same s)

  remove_session-IsPaid :
      (clock id : ℕ) (s : Server B S R) → IsPaid i s → IsPaid i (remove_session w clock id s)
  unfolding remove_session with_guilds
  remove_session-IsPaid clock id s =
      same s (remove_session w clock id s) (ap (λ g. g.1) (Frames.detach-guarded id s))

  remove_all-IsPaid :
      (clock : ℕ) (ids : List ℕ) (s : Server B S R)
      → IsPaid i s
      → IsPaid i (remove_all w clock ids s)
  unfolding remove_all
  remove_all-IsPaid clock [] s x = x
  remove_all-IsPaid clock (id ∷ ids) s x =
      remove_all-IsPaid clock ids (remove_session w clock id s) (remove_session-IsPaid clock id s x)

  step-IsPaid : (s : Server B S R) (c : Call B) → IsPaid i s → IsPaid i (step w s c)
  unfolding step create_session tick force_disconnect
  step-IsPaid s (packet clock time id header payload now) x =
      handle_packet-IsPaid clock time id header payload now s x
  step-IsPaid s (create config bucket now) x = same s _ refl x
  step-IsPaid s (remove clock id) x = remove_session-IsPaid clock id s x
  step-IsPaid s (ticked clock now) x =
      remove_all-IsPaid clock (tick_sessions now s.sessions).1 _ (same s _ refl x)
  step-IsPaid s (disconnected clock id) x = grind (arith, remove_session-IsPaid clock id s, same s)
  step-IsPaid s (parties_used parties) x = same s _ refl x
  step-IsPaid s (instances_used instances) x = same s _ refl x

  run-IsPaid : (s : Server B S R) (cs : List (Call B)) → IsPaid i s → IsPaid i (run w s cs)
  unfolding run
  run-IsPaid s [] x = x
  run-IsPaid s (c ∷ cs) x = run-IsPaid (step w s c) cs (step-IsPaid s c x)

-- Once a DungeonResultNotify of a session in the instance `i` is accepted, whatever calls follow, every
-- later one of a session in `i` is refused, and changes nothing but the count of errors: an instance is
-- rewarded once.
pub run-dungeon_result_once :
    {B S R : Type 0} (w : World B S R) (i : ℕ) (s : Server B S R) (time id : ℕ) (payload : Text)
    (cs : List (Call B)) (time' id' : ℕ) (payload' : Text)
    → find id s.session_instances ≡ some i
    → (dungeon_result w time id payload s).1.success ≡ true
    → find id' (run w (dungeon_result w time id payload s).0 cs).session_instances ≡ some i
    → ((dungeon_result w time' id' payload' (run w (dungeon_result w time id payload s).0 cs)).0
        ≡ with_error (run w (dungeon_result w time id payload s).0 cs))
      × ((dungeon_result w time' id' payload'
            (run w (dungeon_result w time id payload s).0 cs)).1.success
          ≡ false)
run-dungeon_result_once w i s time id payload cs time' id' payload' at_instance ok at_instance' =
    let s' = (dungeon_result w time id payload s).0 in
    dungeon_result-refused w i time' id' payload' (run w s' cs) at_instance'
      (run-IsPaid w i s' cs (dungeon_result-paid w i time id payload s at_instance ok))
