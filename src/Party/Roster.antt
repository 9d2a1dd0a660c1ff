-- ===== src/Party/Roster.antt =====
-- getPartyInfo of src/party/party.cpp: the sorted list of members.
use gameserver_hide.Base.{ℕ, ◌≤◌, ◌≡◌, List, [], ◌∷◌, some, arith, ltb, Bool-cases, inl, inr}
use mathlib.Core.List.{Perm}
use mathlib.Core.List.Perm
use gameserver_hide.Base.Map.{find, values}
use gameserver_hide.Party.Types.{PartyMember, PartyInfo, PartyRecord, PartyService}
use gameserver_hide.Party.Query.{insert, sort, get_party_info}

-- The session ids do not fall along the list.
abbrev pub IsSorted : List PartyMember → Type 0
IsSorted [] = Unit {0}
IsSorted (m ∷ []) = Unit {0}
IsSorted (m ∷ n ∷ ms) = (m.session_id ≤ n.session_id) × IsSorted (n ∷ ms)

insert-IsSorted : (m : PartyMember) (ms : List PartyMember) → IsSorted ms → IsSorted (insert m ms)
unfolding insert
insert-IsSorted m [] h = tt
insert-IsSorted m (a ∷ []) h = ground arith
insert-IsSorted m (a ∷ b ∷ ms) h = ground (arith, insert-IsSorted m (b ∷ ms) h.1)

sort-IsSorted : (ms : List PartyMember) → IsSorted (sort ms)
unfolding sort
sort-IsSorted [] = tt
sort-IsSorted (m ∷ ms) = insert-IsSorted m (sort ms) (sort-IsSorted ms)

insert-perm : (m : PartyMember) (ms : List PartyMember) → Perm (insert m ms) (m ∷ ms)
unfolding insert
insert-perm m [] = Perm.refl (m ∷ [])
insert-perm m (a ∷ ms) = elim (Bool-cases (ltb m.session_id a.session_id)) [
  | inl e ↦ rw e (Perm.refl (m ∷ a ∷ ms))
  | inr e ↦ rw e (Perm.trans (Perm.cons a (insert-perm m ms)) (Perm.swap m a ms))
]

pub sort-perm : (ms : List PartyMember) → Perm (sort ms) ms
unfolding sort
sort-perm [] = Perm.refl []
sort-perm (m ∷ ms) = Perm.trans (insert-perm m (sort ms)) (Perm.cons m (sort-perm ms))

-- The info of a party has the id and the leader of its record, and lists each member of the record
-- once for each entry, by session id.
pub get_party_info_lem :
    (party_id : ℕ) (s : PartyService) (party : PartyRecord) (info : PartyInfo)
    → find party_id s.parties ≡ some party
    → get_party_info party_id s ≡ some info
    → (info.party_id ≡ party.id)
      × (info.leader_session_id ≡ party.leader_session_id)
      × IsSorted info.members
      × Perm info.members (values party.members)
unfolding get_party_info
get_party_info_lem party_id s party info e h =
    let m : info.members ≡ sort (values party.members) = ground arith in
    (
      ground arith,
      ground arith,
      rw m (sort-IsSorted (values party.members)),
      rw m (sort-perm (values party.members)),
    )
