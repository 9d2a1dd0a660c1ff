-- ===== src/Party/Index.antt =====
-- The invariant of src/party: the member index is exactly the membership of the parties.
pub mod Create
pub mod Invites
pub mod Leave
pub mod Replace
pub mod Expire
use gameserver_hide.Base.{ℕ, ◌≤◌, ◌≡◌, Bool, true, false, Option, none, some}
use gameserver_hide.Base.Map.{Map, find, contains}
use gameserver_hide.Party.Types.{PartyMember, PartyRecord, PartyInvite, PartyService}

-- Whether a session is a member of a party.
abbrev pub member_of : ℕ → ℕ → Map PartyRecord → Bool
member_of id party_id parties = elim (find party_id parties) [
  | none ↦ false
  | some party ↦ contains id party.members
]

-- What holds of the record that is found for a party.
abbrev pub IsParty : ℕ → Option PartyRecord → Type 0
IsParty party_id none = Unit {0}
IsParty party_id (some party) =
    (party.id ≡ party_id) × (contains party.leader_session_id party.members ≡ true)

abbrev pub IsKeyed : ℕ → Option PartyMember → Type 0
IsKeyed id none = Unit {0}
IsKeyed id (some member) = member.session_id ≡ id

-- What is found for a session in the record that is found for a party.
abbrev pub IsMember : ℕ → Option PartyRecord → Type 0
IsMember id none = Unit {0}
IsMember id (some party) = IsKeyed id (find id party.members)

pub record IsConsistent (s : PartyService) : Type 0 where
  pub sound : (id p : ℕ) → find id s.member_index ≡ some p → member_of id p s.parties ≡ true
  pub complete : (id p : ℕ) → member_of id p s.parties ≡ true → find id s.member_index ≡ some p
  pub valid : (p : ℕ) → IsParty p (find p s.parties)
  pub keyed : (id p : ℕ) → IsMember id (find p s.parties)
  pub fresh : (p : ℕ) → s.next_party_id ≤ p → find p s.parties ≡ none
  pub invited : (p : ℕ) → find p s.parties ≡ none → find p s.invites ≡ none
