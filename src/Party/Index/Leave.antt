-- ===== src/Party/Index/Leave.antt =====
-- disbandParty and removeMember of src/party/party.cpp keep the invariant.
use gameserver_hide.Base.{ℕ, ◌≤◌, ◌≡◌, true, none, some, arith}
use gameserver_hide.Base.Map.{find, find-put, find-erase, find-erase_all, elem-keys}
use gameserver_hide.Party.Types.{PartyService}
use gameserver_hide.Party.Membership.{disband_party, remove_member}
use gameserver_hide.Party.Index.{member_of, IsParty, IsMember, IsConsistent}

module _ (party_id requester : ℕ) (s : PartyService) (v : IsConsistent s) where
  abbrev disbanded_service : PartyService
  disbanded_service = (disband_party party_id requester s).0

  disband_sound :
      (id p : ℕ)
      → find id disbanded_service.member_index ≡ some p
      → member_of id p disbanded_service.parties ≡ true
  unfolding disband_party
  disband_sound id p h = grind (arith, find-erase, find-erase_all, elem-keys, v.sound id p)

  disband_complete :
      (id p : ℕ)
      → member_of id p disbanded_service.parties ≡ true
      → find id disbanded_service.member_index ≡ some p
  unfolding disband_party
  disband_complete id p h =
      grind (arith, find-erase, find-erase_all, elem-keys, v.complete id p, v.complete id party_id)

  pub disband_party-IsConsistent : IsConsistent (disband_party party_id requester s).0
  unfolding disband_party
  disband_party-IsConsistent = record {
    sound = disband_sound;
    complete = disband_complete;
    valid = λ p. grind (arith, find-erase, v.valid p);
    keyed = λ id p. grind (arith, find-erase, v.keyed id p);
    fresh = λ p h. grind (arith, find-erase, v.fresh p);
    invited = λ p h. grind (arith, find-erase, v.invited p);
  }

module _ (member : ℕ) (s : PartyService) (v : IsConsistent s) where
  abbrev removed : PartyService
  removed = (remove_member member s).0

  remove_sound :
      (id p : ℕ) → find id removed.member_index ≡ some p → member_of id p removed.parties ≡ true
  unfolding remove_member
  remove_sound id p h =
      grind (arith, find-put, find-erase, find-erase_all, elem-keys, v.sound id p, v.sound member p)

  remove_complete :
      (id p : ℕ) → member_of id p removed.parties ≡ true → find id removed.member_index ≡ some p
  unfolding remove_member
  remove_complete id p h = grind (
    arith,
    find-put,
    find-erase,
    find-erase_all,
    elem-keys,
    v.complete id p,
    v.complete id,
    v.sound member,
  )

  remove-valid : (p : ℕ) → IsParty p (find p removed.parties)
  unfolding remove_member
  remove-valid p = grind (arith, find-put, find-erase, v.valid p)

  remove-keyed : (id p : ℕ) → IsMember id (find p removed.parties)
  unfolding remove_member
  remove-keyed id p = grind (arith, find-put, find-erase, v.keyed id p)

  remove-fresh : (p : ℕ) → removed.next_party_id ≤ p → find p removed.parties ≡ none
  unfolding remove_member
  remove-fresh p h = grind (arith, find-put, find-erase, v.fresh p)

  remove-invited : (p : ℕ) → find p removed.parties ≡ none → find p removed.invites ≡ none
  unfolding remove_member
  remove-invited p h = grind (arith, find-put, find-erase, v.invited p)

  pub remove_member-IsConsistent : IsConsistent (remove_member member s).0
  remove_member-IsConsistent = record {
    sound = remove_sound;
    complete = remove_complete;
    valid = remove-valid;
    keyed = remove-keyed;
    fresh = remove-fresh;
    invited = remove-invited;
  }
