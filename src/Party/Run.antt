-- ===== src/Party/Run.antt =====
-- Histories of calls on the party service of src/party/party.h.
use gameserver_hide.Base.{ℕ, ◌+◌, ◌^◌, ◌≤◌, ◌<◌, List, [], ◌∷◌, Bool, Text, length, arith}
use gameserver_hide.Base.Map.{find-nil}
use gameserver_hide.Party.Types.{PartyService, init, set_event_sink, set_invite_timeout}
use gameserver_hide.Party.Membership.{
  create_party, disband_party, remove_member, replace_member_session,
}
use gameserver_hide.Party.Invites.{invite_member, accept_invite, reject_invite, expire_invites}
use gameserver_hide.Party.Index.{IsConsistent}
use gameserver_hide.Party.Index.Create.{create_party-IsConsistent}
use gameserver_hide.Party.Index.Invites.{
  invite_member-IsConsistent, accept_invite-IsConsistent, reject_invite-IsConsistent,
}
use gameserver_hide.Party.Index.Leave.{disband_party-IsConsistent, remove_member-IsConsistent}
use gameserver_hide.Party.Index.Replace.{replace_member_session-IsConsistent}
use gameserver_hide.Party.Index.Expire.{expire_invites-IsConsistent, expire_invites-next}

pub data Call : Type 0 where
  create : ℕ → Text → Call
  invite : ℕ → ℕ → ℕ → Text → ℕ → Call
  accept : ℕ → ℕ → ℕ → Call
  reject disband replace : ℕ → ℕ → Call
  remove expire set_timeout : ℕ → Call
  set_sink : Bool → Call

unfoldable pub step : PartyService → Call → PartyService
step s (create leader user_id) = (create_party leader user_id s).0
step s (invite party inviter invitee user_id now) =
    (invite_member party inviter invitee user_id now s).0
step s (accept party invitee now) = (accept_invite party invitee now s).0
step s (reject party invitee) = (reject_invite party invitee s).0
step s (disband party requester) = (disband_party party requester s).0
step s (replace old new) = (replace_member_session old new s).0
step s (remove member) = (remove_member member s).0
step s (expire now) = (expire_invites now s).0
step s (set_timeout timeout) = set_invite_timeout timeout s
step s (set_sink sink) = set_event_sink sink s

unfoldable pub run : PartyService → List Call → PartyService
unfolding step
run s [] = s
run s (c ∷ cs) = run (step s c) cs

step-next :
    (s : PartyService) (c : Call)
    → s.next_party_id + 1 < 2 ^ 64
    → (step s c).next_party_id ≤ s.next_party_id + 1
unfolding step create_party invite_member accept_invite reject_invite disband_party remove_member
    replace_member_session set_event_sink set_invite_timeout
step-next s (create leader user_id) h = ground arith
step-next s (expire now) h = omega (arith, expire_invites-next now s)
step-next s _ h = ground arith

step-IsConsistent :
    (s : PartyService) (c : Call)
    → s.next_party_id + 1 < 2 ^ 64
    → IsConsistent s
    → IsConsistent (step s c)
unfolding step set_event_sink set_invite_timeout
step-IsConsistent s (create leader user_id) h v = create_party-IsConsistent leader user_id s v h
step-IsConsistent s (invite party inviter invitee user_id now) h v =
    invite_member-IsConsistent party inviter invitee user_id now s v
step-IsConsistent s (accept party invitee now) h v =
    accept_invite-IsConsistent party invitee now s v
step-IsConsistent s (reject party invitee) h v = reject_invite-IsConsistent party invitee s v
step-IsConsistent s (disband party requester) h v = disband_party-IsConsistent party requester s v
step-IsConsistent s (replace old new) h v = replace_member_session-IsConsistent old new s v
step-IsConsistent s (remove member) h v = remove_member-IsConsistent member s v
step-IsConsistent s (expire now) h v = expire_invites-IsConsistent now s v
step-IsConsistent s (set_timeout timeout) h v = record {
  sound = v.sound;
  complete = v.complete;
  valid = v.valid;
  keyed = v.keyed;
  fresh = v.fresh;
  invited = v.invited;
}
step-IsConsistent s (set_sink sink) h v = record {
  sound = v.sound;
  complete = v.complete;
  valid = v.valid;
  keyed = v.keyed;
  fresh = v.fresh;
  invited = v.invited;
}

run-IsConsistent :
    (cs : List Call) (s : PartyService)
    → s.next_party_id + length cs < 2 ^ 64
    → IsConsistent s
    → IsConsistent (run s cs)
unfolding run
run-IsConsistent [] s h v = v
run-IsConsistent (c ∷ cs) s h v =
    run-IsConsistent cs (step s c) (omega (arith, step-next s c))
      (step-IsConsistent s c (omega arith) v)

-- After any history of fewer than 2^64 - 1 calls on a new service: the member index sends a session
-- to a party exactly when the party has the session as a member; the record of a party carries the
-- party's id, its leader is a member, and each member stands under its own session id; ids from the
-- counter on are unused; and no invites are kept for a party that does not exist.
pub run-init-IsConsistent : (cs : List Call) → length cs + 1 < 2 ^ 64 → IsConsistent (run init cs)
run-init-IsConsistent cs h = run-IsConsistent cs init (omega arith) init-IsConsistent
  where
    init-IsConsistent : IsConsistent init
    init-IsConsistent = record {
      sound = λ id p e. cc (find-nil {V = ℕ} id);
      complete = λ id p e. grind (arith, find-nil);
      valid = λ p. grind (arith, find-nil);
      keyed = λ id p. grind (arith, find-nil);
      fresh = λ p e. find-nil p;
      invited = λ p e. find-nil p;
    }
