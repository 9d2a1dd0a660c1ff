-- ===== src/Party/Index/Create.antt =====
-- createParty of src/party/party.cpp keeps the invariant.
use gameserver_hide.Base.{ℕ, ◌+◌, ◌^◌, ◌≤◌, ◌<◌, ◌≡◌, true, none, some, Text, arith}
use gameserver_hide.Base.Map.{find, find-put, find-emplace, find-nil}
use gameserver_hide.Party.Types.{PartyService}
use gameserver_hide.Party.Membership.{create_party}
use gameserver_hide.Party.Index.{member_of, IsParty, IsMember, IsConsistent}

-- The counter of parties does not wrap.
module _ (leader : ℕ) (user_id : Text) (s : PartyService) (v : IsConsistent s)
    (room : s.next_party_id + 1 < 2 ^ 64) where
  abbrev created_service : PartyService
  created_service = (create_party leader user_id s).0

  create_sound :
      (id p : ℕ)
      → find id created_service.member_index ≡ some p
      → member_of id p created_service.parties ≡ true
  unfolding create_party
  create_sound id p h = grind (arith, find-put, find-emplace, v.sound id p, v.fresh s.next_party_id)

  create_complete :
      (id p : ℕ)
      → member_of id p created_service.parties ≡ true
      → find id created_service.member_index ≡ some p
  unfolding create_party
  create_complete id p h =
      grind (arith, find-put, find-emplace, find-nil, v.complete id p, v.fresh s.next_party_id)

  create-valid : (p : ℕ) → IsParty p (find p created_service.parties)
  unfolding create_party
  create-valid p = grind (arith, find-emplace, find-nil, v.fresh s.next_party_id, v.valid p)

  create-keyed : (id p : ℕ) → IsMember id (find p created_service.parties)
  unfolding create_party
  create-keyed id p = grind (arith, find-emplace, find-nil, v.fresh s.next_party_id, v.keyed id p)

  create-fresh : (p : ℕ) → created_service.next_party_id ≤ p → find p created_service.parties ≡ none
  unfolding create_party
  create-fresh p h = grind (arith, find-emplace, v.fresh p)

  create-invited :
      (p : ℕ) → find p created_service.parties ≡ none → find p created_service.invites ≡ none
  unfolding create_party
  create-invited p h = grind (arith, find-emplace, v.invited p)

  pub create_party-IsConsistent : IsConsistent (create_party leader user_id s).0
  create_party-IsConsistent = record {
    sound = create_sound;
    complete = create_complete;
    valid = create-valid;
    keyed = create-keyed;
    fresh = create-fresh;
    invited = create-invited;
  }
