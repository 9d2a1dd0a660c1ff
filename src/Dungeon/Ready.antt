-- ===== src/Dungeon/Ready.antt =====
-- isPartyReady of src/dungeon/instance_manager.cpp, at the parties that src/party can hold.
use gameserver_hide.Base.{
  ℕ, ◌≡◌, refl, ◌∙◌, List, [], ◌∷◌, true, false, ◌||◌, none, some, arith, length, ◌==◌,
  Option-cases, inl, inr,
}
use gameserver_hide.Base.Map.{Map, find, contains, values}
use gameserver_hide.Party.Types.{PartyMember, PartyRecord, PartyService}
use gameserver_hide.Party.Query.{insert, sort, get_party_info}
use gameserver_hide.Party.Index.{IsKeyed, IsConsistent}
use gameserver_hide.Dungeon.{any_session, is_party_ready}

any_session-insert :
    (k : ℕ) (m : PartyMember) (ms : List PartyMember)
    → any_session k (insert m ms) ≡ (m.session_id == k || any_session k ms)
unfolding any_session insert
any_session-insert k m [] = ground arith
any_session-insert k m (a ∷ ms) = ground (arith, any_session-insert k m ms)

any_session-sort : (k : ℕ) (ms : List PartyMember) → any_session k (sort ms) ≡ any_session k ms
unfolding any_session sort
any_session-sort k [] = refl
any_session-sort k (m ∷ ms) =
    ground (arith, any_session-insert k m (sort ms), any_session-sort k ms)

any_session-values :
    (k : ℕ) (members : Map PartyMember)
    → contains k members ≡ true
    → IsKeyed k (find k members)
    → any_session k (values members) ≡ true
unfolding any_session values find
any_session-values k [] h e = cc
any_session-values k ((j, m) ∷ members) h e = ground (arith, any_session-values k members)

any_session-length :
    (k : ℕ) (ms : List PartyMember) → any_session k ms ≡ true → (length ms == 0) ≡ false
unfolding any_session
any_session-length k [] h = cc
any_session-length k (m ∷ ms) h = ground arith

info-none :
    (party_id : ℕ) (s : PartyService)
    → find party_id s.parties ≡ none
    → get_party_info party_id s ≡ none
unfolding get_party_info
info-none party_id s e = rw (e, get_party_info)

info-some :
    (party_id : ℕ) (s : PartyService) (party : PartyRecord)
    → find party_id s.parties ≡ some party
    → get_party_info party_id s
      ≡ some (record {
        party_id = party.id;
        leader_session_id = party.leader_session_id;
        members = sort (values party.members);
      })
unfolding get_party_info
info-some party_id s party e = rw (e, get_party_info)

-- In a consistent party service a party is ready exactly when it exists.
pub is_party_ready-contains :
    (party_id : ℕ) (s : PartyService)
    → IsConsistent s
    → is_party_ready party_id s ≡ contains party_id s.parties
unfolding is_party_ready
is_party_ready-contains party_id s v = elim (Option-cases (find party_id s.parties)) [
  | inl e ↦ rw (e, info-none party_id s e, is_party_ready)
  | inr (party, e) ↦
      let led : contains party.leader_session_id party.members ≡ true =
        ground (arith, v.valid party_id) in
      let keyed : IsKeyed party.leader_session_id (find party.leader_session_id party.members) =
        rw e at (v.keyed party.leader_session_id party_id) in
      let any = any_session-values party.leader_session_id party.members led keyed in
      let sorted = any_session-sort party.leader_session_id (values party.members) ∙ any in
      let nonempty = any_session-length party.leader_session_id _ sorted in
      rw (e, info-some party_id s party e, is_party_ready) (rw (nonempty, sorted))
]
