-- ===== src/Party/Query.antt =====
-- src/party/party.cpp: getPartyInfo and partyForMember.
use gameserver_hide.Base.{ℕ, Option, none, some, List, [], ◌∷◌, ltb, if◌then◌else◌}
use gameserver_hide.Base.Map.{find, values}
use gameserver_hide.Party.Types.{PartyMember, PartyInfo, PartyService}

-- std::sort by session id. The ids of a party's members differ, so the order is determined.
unfoldable pub insert : PartyMember → List PartyMember → List PartyMember
insert member [] = member ∷ []
insert member (other ∷ rest) =
    if ltb member.session_id other.session_id
    then member ∷ other ∷ rest
    else other ∷ insert member rest

unfoldable pub sort : List PartyMember → List PartyMember
unfolding insert
sort [] = []
sort (member ∷ rest) = insert member (sort rest)

unfoldable pub get_party_info : ℕ → PartyService → Option PartyInfo
get_party_info party_id s = elim (find party_id s.parties) [
  | none ↦ none
  | some party ↦ some (record {
    party_id = party.id;
    leader_session_id = party.leader_session_id;
    members = sort (values party.members);
  })
]

unfoldable pub party_for_member : ℕ → PartyService → Option ℕ
party_for_member session s = find session s.member_index
