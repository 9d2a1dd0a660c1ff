-- ===== src/Party/Effects.antt =====
-- What the operations of src/party/party.cpp do to the membership and to the invites.
use gameserver_hide.Base.{
  ℕ, ◌≡◌, ◌&&◌, ◌||◌, true, false, Option, none, some, ◌++◌, map, text, arith, ◌==◌, if◌then◌else◌,
}
use gameserver_hide.Base.Map.{
  Map, find, contains, erase, keys, find-nil, find-put, find-emplace, find-erase, find-erase_all,
  elem-keys,
}
use gameserver_hide.Party.Types.{
  PartyRecord, PartyInvite, PartyService, PartyEvent, disbanded, event_to,
}
use gameserver_hide.Party.Membership.{disband_party, remove_member, replace_member_session}
use gameserver_hide.Party.Invites.{invites_of, accept_invite}
use gameserver_hide.Party.Index.{member_of, IsConsistent}

abbrev pub leader_of : ℕ → Map PartyRecord → Option ℕ
leader_of party_id parties = elim (find party_id parties) [
  | none ↦ none
  | some party ↦ some party.leader_session_id
]

-- The service `s` with the index, the parties, the invites and the events of `t`.
abbrev pub only_members_changed : PartyService → PartyService → PartyService
only_members_changed s t = record s {
  member_index = t.member_index;
  parties = t.parties;
  invites = t.invites;
  sent = t.sent;
}

-- An invite that acceptInvite accepts makes the invitee a member of that party, and changes no other membership.
pub accept_invite-member :
    (party_id invitee now : ℕ) (s : PartyService)
    → (accept_invite party_id invitee now s).1 ≡ true
    → (id p : ℕ)
    → member_of id p (accept_invite party_id invitee now s).0.parties
      ≡ (if id == invitee && p == party_id then true else member_of id p s.parties)
unfolding accept_invite
accept_invite-member party_id invitee now s h id p = grind (arith, find-put, find-emplace)

-- After acceptInvite, whatever it answered, the invite that it was asked for is gone, if the party exists,
-- and every other invite is as before; asking again at once is refused.
pub accept_invite_twice :
    (party_id invitee now later : ℕ) (s : PartyService) (id p : ℕ)
    → let t = (accept_invite party_id invitee now s).0 in
      (find id (invites_of p t) ≡ (
        if contains party_id s.parties && (id == invitee && p == party_id)
        then none
        else find id (invites_of p s)))
      × ((accept_invite party_id invitee later t).1 ≡ false)
unfolding accept_invite
accept_invite_twice party_id invitee now later s id p =
    (grind (arith, find-put, find-erase, find-nil), grind (arith, find-put, find-erase))

abbrev pub told_disbanded : ℕ → ℕ → PartyRecord → PartyEvent
told_disbanded party_id actor party =
    event_to disbanded party_id actor 0 (keys party.members) (text "Party disbanded")

-- For a party that exists: the leader's call ends the party: each member leaves the index and nobody
-- else does, the party and its invites are gone and no other's, with a sink the entries of the party's
-- members are told in order, and the rest of the service stays. Anybody else's call changes nothing at
-- all.
pub disband_party_lem :
    (party_id requester : ℕ) (s : PartyService) (party : PartyRecord)
    → find party_id s.parties ≡ some party
    → (id p : ℕ)
    → let t = (disband_party party_id requester s).0 in
      let ends = party.leader_session_id == requester in
      ((disband_party party_id requester s).1 ≡ ends)
      × (find id t.member_index
          ≡ (if ends && contains id party.members then none else find id s.member_index))
      × (find p t.parties ≡ (if ends && p == party_id then none else find p s.parties))
      × (find p t.invites ≡ (if ends && p == party_id then none else find p s.invites))
      × (t.sent ≡ (
          if ends && s.event_sink
          then s.sent
            ++ map (λ m. (m, told_disbanded party_id requester party)) (keys party.members)
          else s.sent))
      × (t ≡ (if ends then only_members_changed s t else s))
unfolding disband_party
disband_party_lem party_id requester s party e id p = (
  grind arith,
  grind (arith, find-erase_all, elem-keys),
  grind (arith, find-erase),
  grind (arith, find-erase),
  grind arith,
  grind arith,
)

-- What removeMember leaves of the record of the member's party.
abbrev pub left_behind : ℕ → PartyRecord → Option PartyRecord
left_behind member party =
    if party.leader_session_id == member
    then none
    else some (record party { members = erase member party.members })

-- What it leaves of the party's invites.
abbrev pub invites_behind : ℕ → PartyRecord → Option (Map PartyInvite) → Option (Map PartyInvite)
invites_behind member party none = none
invites_behind member party (some invites) =
    if party.leader_session_id == member then none else some (erase member invites)

-- In a consistent service, for a member of a party that exists: a leader that leaves ends its party: its
-- record and its invites are gone, all members leave the index, and with a sink they are told. Another
-- member leaves alone: the record keeps the other members and the leader, an invite of the member
-- goes, and nobody is told. The record, the invites and the members of every other party stay, and so
-- does the rest of the service.
pub remove_member_lem :
    (member party_id : ℕ) (s : PartyService) (party : PartyRecord)
    → IsConsistent s
    → find member s.member_index ≡ some party_id
    → find party_id s.parties ≡ some party
    → (id p : ℕ)
    → let t = (remove_member member s).0 in
      let ends = party.leader_session_id == member in
      let leaves = id == member || ends in
      ((remove_member member s).1 ≡ true)
      × (member_of id p t.parties
          ≡ (if p == party_id && leaves then false else member_of id p s.parties))
      × (find id t.member_index
          ≡ (if leaves && contains id party.members then none else find id s.member_index))
      × (find p t.parties ≡ (if p == party_id then left_behind member party else find p s.parties))
      × (find p t.invites ≡ (
          if p == party_id
          then invites_behind member party (find p s.invites)
          else find p s.invites))
      × (t.sent ≡ (
          if ends && s.event_sink
          then s.sent ++ map (λ m. (m, told_disbanded party_id member party)) (keys party.members)
          else s.sent))
      × (t ≡ only_members_changed s t)
unfolding remove_member
remove_member_lem member party_id s party v e f id p = (
  grind arith,
  grind (arith, find-put, find-erase),
  grind (arith, find-put, find-erase, find-erase_all, elem-keys, v.sound member party_id),
  grind (arith, find-put, find-erase),
  grind (arith, find-put, find-erase),
  grind arith,
  grind arith,
)

-- A leader behind the move of a session.
abbrev pub moved_leader : ℕ → ℕ → Option ℕ → Option ℕ
moved_leader old new none = none
moved_leader old new (some leader) = some (if leader == old then new else leader)

-- What the move of a session id does, in a consistent service.
replace_there :
    (old new : ℕ) (s : PartyService)
    → IsConsistent s
    → (replace_member_session old new s).1 ≡ true
    → (id p : ℕ)
    → let there = (replace_member_session old new s).0 in
      (find id there.member_index ≡ (
        if id == new
        then find old s.member_index
        else if id == old
        then none
        else find id s.member_index))
      × (member_of id p there.parties ≡ (
          if id == new
          then member_of old p s.parties
          else if id == old
          then false
          else member_of id p s.parties))
      × (leader_of p there.parties ≡ moved_leader old new (leader_of p s.parties))
unfolding replace_member_session
replace_there old new s v h id p = (
  grind (arith, find-put, find-erase),
  grind (arith, find-put, find-erase, find-emplace, v.complete new p, v.complete old p),
  grind (arith, find-put, find-erase, find-emplace, v.complete old p, v.valid p),
)

-- In a consistent service, the move of a member to another session id gives the new id what the old one
-- had, its place in the index, its membership in each party and its lead, and takes them from the old
-- one; nobody else's change. Moved back, each is where it was.
pub replace_back :
    (old new : ℕ) (s : PartyService)
    → IsConsistent s
    → (replace_member_session old new s).1 ≡ true
    → (id p : ℕ)
    → let there = (replace_member_session old new s).0 in
      let back = (replace_member_session new old there).0 in
      ((find id there.member_index ≡ (
          if id == new
          then find old s.member_index
          else if id == old
          then none
          else find id s.member_index))
        × (member_of id p there.parties ≡ (
            if id == new
            then member_of old p s.parties
            else if id == old
            then false
            else member_of id p s.parties))
        × (leader_of p there.parties ≡ moved_leader old new (leader_of p s.parties)))
      × (find id back.member_index ≡ find id s.member_index)
      × (member_of id p back.parties ≡ member_of id p s.parties)
      × (leader_of p back.parties ≡ leader_of p s.parties)
unfolding replace_member_session
replace_back old new s v h id p = (
  replace_there old new s v h id p,
  grind (arith, find-put, find-erase, find-emplace),
  grind (arith, find-put, find-erase, find-emplace, v.complete new p),
  grind (arith, find-put, find-erase, find-emplace, v.complete new p, v.valid p),
)
