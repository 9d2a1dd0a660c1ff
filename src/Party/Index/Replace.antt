-- ===== src/Party/Index/Replace.antt =====
-- replaceMemberSession of src/party/party.cpp keeps the invariant.
use gameserver_hide.Base.{ℕ, ◌≤◌, ◌≡◌, true, none, some, arith}
use gameserver_hide.Base.Map.{find, find-put, find-emplace, find-erase, find-map_values}
use gameserver_hide.Party.Types.{PartyService}
use gameserver_hide.Party.Membership.{replace_member_session}
use gameserver_hide.Party.Index.{member_of, IsParty, IsMember, IsConsistent}

module _ (old new : ℕ) (s : PartyService) (v : IsConsistent s) where
  abbrev replaced : PartyService
  replaced = (replace_member_session old new s).0

  replace_sound :
      (id p : ℕ) → find id replaced.member_index ≡ some p → member_of id p replaced.parties ≡ true
  unfolding replace_member_session
  replace_sound id p h = grind (arith, find-put, find-emplace, find-erase, v.sound id p)

  replace_complete :
      (id p : ℕ) → member_of id p replaced.parties ≡ true → find id replaced.member_index ≡ some p
  unfolding replace_member_session
  replace_complete id p h =
      grind (arith, find-put, find-emplace, find-erase, v.complete id p, v.complete id, v.sound old)

  replace-valid : (p : ℕ) → IsParty p (find p replaced.parties)
  unfolding replace_member_session
  replace-valid p =
      grind (arith, find-put, find-emplace, find-erase, v.valid p, v.valid, v.complete new)

  replace-keyed : (id p : ℕ) → IsMember id (find p replaced.parties)
  unfolding replace_member_session
  replace-keyed id p = grind (arith, find-put, find-emplace, find-erase, v.keyed id p, v.keyed id)

  replace-fresh : (p : ℕ) → replaced.next_party_id ≤ p → find p replaced.parties ≡ none
  unfolding replace_member_session
  replace-fresh p h = grind (arith, find-put, v.fresh p)

  replace-invited : (p : ℕ) → find p replaced.parties ≡ none → find p replaced.invites ≡ none
  unfolding replace_member_session
  replace-invited p h = grind (arith, find-put, find-map_values, v.invited p)

  pub replace_member_session-IsConsistent : IsConsistent (replace_member_session old new s).0
  replace_member_session-IsConsistent = record {
    sound = replace_sound;
    complete = replace_complete;
    valid = replace-valid;
    keyed = replace-keyed;
    fresh = replace-fresh;
    invited = replace-invited;
  }
