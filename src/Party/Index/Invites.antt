-- ===== src/Party/Index/Invites.antt =====
-- inviteMember, acceptInvite and rejectInvite of src/party/party.cpp keep the invariant.
use gameserver_hide.Base.{ℕ, ◌≤◌, ◌≡◌, true, none, some, Text, arith}
use gameserver_hide.Base.Map.{find, find-put, find-emplace}
use gameserver_hide.Party.Types.{PartyService}
use gameserver_hide.Party.Invites.{invite_member, accept_invite, reject_invite}
use gameserver_hide.Party.Index.{member_of, IsParty, IsMember, IsConsistent}

pub invite_member-IsConsistent :
    (party_id inviter invitee : ℕ) (user_id : Text) (now : ℕ) (s : PartyService)
    → IsConsistent s
    → IsConsistent (invite_member party_id inviter invitee user_id now s).0
unfolding invite_member
invite_member-IsConsistent party_id inviter invitee user_id now s v = record {
  sound = λ id p h. grind (arith, v.sound id p);
  complete = λ id p h. grind (arith, v.complete id p);
  valid = λ p. grind (arith, v.valid p);
  keyed = λ id p. grind (arith, v.keyed id p);
  fresh = λ p h. grind (arith, v.fresh p);
  invited = λ p h. grind (arith, v.invited p, find-put);
}

pub reject_invite-IsConsistent :
    (party_id invitee : ℕ) (s : PartyService)
    → IsConsistent s
    → IsConsistent (reject_invite party_id invitee s).0
unfolding reject_invite
reject_invite-IsConsistent party_id invitee s v = record {
  sound = λ id p h. grind (arith, v.sound id p);
  complete = λ id p h. grind (arith, v.complete id p);
  valid = λ p. grind (arith, v.valid p);
  keyed = λ id p. grind (arith, v.keyed id p);
  fresh = λ p h. grind (arith, v.fresh p);
  invited = λ p h. grind (arith, v.invited p, find-put);
}

module _ (party_id invitee now : ℕ) (s : PartyService) (v : IsConsistent s) where
  abbrev accepted : PartyService
  accepted = (accept_invite party_id invitee now s).0

  accept_sound :
      (id p : ℕ) → find id accepted.member_index ≡ some p → member_of id p accepted.parties ≡ true
  unfolding accept_invite
  accept_sound id p h = grind (arith, find-put, find-emplace, v.sound id p)

  accept_complete :
      (id p : ℕ) → member_of id p accepted.parties ≡ true → find id accepted.member_index ≡ some p
  unfolding accept_invite
  accept_complete id p h = grind (arith, find-put, find-emplace, v.complete id p)

  accept-valid : (p : ℕ) → IsParty p (find p accepted.parties)
  unfolding accept_invite
  accept-valid p = grind (arith, find-put, find-emplace, v.valid p, v.valid party_id)

  accept-keyed : (id p : ℕ) → IsMember id (find p accepted.parties)
  unfolding accept_invite
  accept-keyed id p = grind (arith, find-put, find-emplace, v.keyed id p, v.keyed id party_id)

  accept-fresh : (p : ℕ) → accepted.next_party_id ≤ p → find p accepted.parties ≡ none
  unfolding accept_invite
  accept-fresh p h = grind (arith, find-put, v.fresh p)

  accept-invited : (p : ℕ) → find p accepted.parties ≡ none → find p accepted.invites ≡ none
  unfolding accept_invite
  accept-invited p h = grind (arith, find-put, v.invited p)

  pub accept_invite-IsConsistent : IsConsistent (accept_invite party_id invitee now s).0
  accept_invite-IsConsistent = record {
    sound = accept_sound;
    complete = accept_complete;
    valid = accept-valid;
    keyed = accept-keyed;
    fresh = accept-fresh;
    invited = accept-invited;
  }
