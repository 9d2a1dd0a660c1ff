-- ===== src/Party/Membership.antt =====
-- src/party/party.cpp: createParty, disbandParty, removeMember and replaceMemberSession.
use gameserver_hide.Base.{
  ℕ, ◌+◌, ◌%◌, ◌^◌, Bool, true, false, Option, none, some, [], ◌∷◌, Text, text, ◌==◌, if◌then◌else◌,
}
use gameserver_hide.Base.Map.{Map, find, contains, put, erase, emplace, erase_all, keys, map_values}
use gameserver_hide.Party.Types.{
  created, disbanded, PartyMember, PartyRecord, PartyInvite, PartyService, emit_to_party, event_to,
}

unfoldable pub create_party : ℕ → Text → PartyService → PartyService × Option ℕ
unfolding emit_to_party
create_party leader user_id s =
    if contains leader s.member_index
    then (s, none)
    else let id = s.next_party_id in
      let party : PartyRecord = record {
        id = id;
        leader_session_id = leader;
        members = emplace leader (record { session_id = leader; user_id = user_id }) [];
      } in
      (
        emit_to_party party (event_to created id leader 0 (leader ∷ []) (text "Party created"))
            (record s {
              next_party_id = (id + 1) % 2 ^ 64;
              member_index = put leader id s.member_index;
              parties = emplace id party s.parties;
            }),
        some id,
      )

-- The end that disbandParty and removeMember share: every member leaves the index, the party is told
-- and goes, and its invites go.
disband : ℕ → ℕ → PartyRecord → PartyService → PartyService
unfolding emit_to_party
disband party_id actor party s =
    let event = event_to disbanded party_id actor 0 (keys party.members) (text "Party disbanded") in
    let s' =
      emit_to_party party event
        (record s { member_index = erase_all (keys party.members) s.member_index }) in
    record s' { parties = erase party_id s'.parties; invites = erase party_id s'.invites }

unfoldable pub disband_party : ℕ → ℕ → PartyService → PartyService × Bool
unfolding disband
disband_party party_id requester s = elim (find party_id s.parties) [
  | none ↦ (s, false)
  | some party ↦
      if party.leader_session_id == requester
      then (disband party_id requester party s, true)
      else (s, false)
]

-- The erasure of an invite of a party, if the party has invites.
drop_invite : ℕ → ℕ → Map (Map PartyInvite) → Map (Map PartyInvite)
drop_invite party_id member invites = elim (find party_id invites) [
  | none ↦ invites
  | some party_invites ↦ put party_id (erase member party_invites) invites
]

unfoldable pub remove_member : ℕ → PartyService → PartyService × Bool
unfolding disband drop_invite
remove_member member s = elim (find member s.member_index) [
  | none ↦ (s, false)
  | some party_id ↦ elim (find party_id s.parties) [
    | none ↦ (record s { member_index = erase member s.member_index }, false)
    | some party ↦
        if party.leader_session_id == member then (disband party_id member party s, true) else (
          record s {
            parties =
                put party_id (record party { members = erase member party.members }) s.parties;
            member_index = erase member s.member_index;
            invites = drop_invite party_id member s.invites;
          },
          true,
        )
  ]
]

-- The move of an invite from one session to the other: an invite of the new session stays.
unfoldable pub move_invite : ℕ → ℕ → Map PartyInvite → Map PartyInvite
move_invite old new invites = elim (find old invites) [
  | none ↦ invites
  | some invite ↦ emplace new invite (erase old invites)
]

-- The branch of replaceMemberSession behind its lookups.
replace_found : ℕ → ℕ → ℕ → PartyRecord → PartyMember → PartyService → PartyService
unfolding move_invite
replace_found old new party_id party member s =
    let moved : PartyRecord = record party {
      members = emplace new (record member { session_id = new }) (erase old party.members);
      leader_session_id = if party.leader_session_id == old then new else party.leader_session_id;
    } in
    record s {
      parties = put party_id moved s.parties;
      member_index = put new party_id (erase old s.member_index);
      invites = map_values (λ _. move_invite old new) s.invites;
    }

unfoldable pub replace_member_session : ℕ → ℕ → PartyService → PartyService × Bool
unfolding replace_found
replace_member_session old new s =
    if old == new then (s, true) else elim (find old s.member_index) [
      | none ↦ (s, false)
      | some party_id ↦
          if contains new s.member_index then (s, false) else elim (find party_id s.parties) [
            | none ↦ (s, false)
            | some party ↦ elim (find old party.members) [
              | none ↦ (s, false)
              | some member ↦ (replace_found old new party_id party member s, true)
            ]
          ]
    ]
