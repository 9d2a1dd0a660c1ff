-- ===== src/Party/Tests.antt =====
-- A party of two sessions, built by calls on the service of src/party, and what the theorems say of it.
use gameserver_hide.Base.{
  ◌≡◌, refl, true, false, none, List, [], ◌∷◌, ◌++◌, map, arith, if◌then◌else◌, Text,
}
use mathlib.Core.List.{Perm}
use gameserver_hide.Base.Map.{find, put, emplace, contains, keys, values}
use gameserver_hide.Party.Types.{PartyMember, PartyInfo, PartyRecord, init, set_event_sink}
use gameserver_hide.Party.Membership.{
  create_party, disband_party, remove_member, replace_member_session,
}
use gameserver_hide.Party.Invites.{invites_of, invite_member, accept_invite, expire_invites}
use gameserver_hide.Party.Query.{insert, sort, get_party_info}
use gameserver_hide.Party.Index.{member_of, IsConsistent}
use gameserver_hide.Party.Run.{Call, create, invite, accept, set_sink, run, run-init-IsConsistent}
use gameserver_hide.Party.Effects.{
  leader_of, moved_leader, only_members_changed, told_disbanded, accept_invite-member,
  accept_invite_twice, disband_party_lem, remove_member_lem, replace_back,
}
use gameserver_hide.Party.Expiry.{live_invites, expire_invites-invites}
use gameserver_hide.Party.Roster.{IsSorted, get_party_info_lem}

abbrev alice : Text
alice = 97 ∷ []

abbrev bob : Text
bob = 98 ∷ []

-- Session 20 leads party 1 and has invited session 10.
abbrev invited_calls : List Call
invited_calls = set_sink true ∷ create 20 alice ∷ invite 1 20 10 bob 1000 ∷ []

abbrev pair_calls : List Call
pair_calls = invited_calls ++ accept 1 10 2000 ∷ []

abbrev alice_member : PartyMember
alice_member = record { session_id = 20; user_id = alice }

abbrev bob_member : PartyMember
bob_member = record { session_id = 10; user_id = bob }

abbrev pair : PartyRecord
pair = record {
  id = 1;
  leader_session_id = 20;
  members = (20, alice_member) ∷ (10, bob_member) ∷ [];
}

abbrev pair_info : PartyInfo
pair_info = record {
  party_id = 1;
  leader_session_id = 20;
  members = bob_member ∷ alice_member ∷ [];
}

run-init-IsConsistent_example : IsConsistent (run init pair_calls)
run-init-IsConsistent_example = run-init-IsConsistent pair_calls (ground arith)

disband_party_lem_example :
    let s = run init pair_calls in
    let t = (disband_party 1 20 s).0 in
    ((disband_party 1 20 s).1 ≡ true)
    × (find 10 t.member_index ≡ none)
    × (find 1 t.parties ≡ none)
    × (find 1 t.invites ≡ none)
    × (t.sent ≡ s.sent ++ map (λ m. (m, told_disbanded 1 20 pair)) (20 ∷ 10 ∷ []))
    × (t ≡ only_members_changed s t)
unfolding run find keys put emplace accept_invite invite_member create_party set_event_sink
disband_party_lem_example = disband_party_lem 1 20 (run init pair_calls) pair (refl) 10 1

remove_member_lem_example :
    let s = run init pair_calls in
    let t = (remove_member 20 s).0 in
    ((remove_member 20 s).1 ≡ true)
    × (member_of 10 1 t.parties ≡ false)
    × (find 10 t.member_index ≡ none)
    × (find 1 t.parties ≡ none)
    × (find 1 t.invites ≡ none)
    × (t.sent ≡ s.sent ++ map (λ m. (m, told_disbanded 1 20 pair)) (20 ∷ 10 ∷ []))
    × (t ≡ only_members_changed s t)
unfolding run find keys put emplace accept_invite invite_member create_party set_event_sink
remove_member_lem_example =
    remove_member_lem 20 1 (run init pair_calls) pair
      (run-init-IsConsistent pair_calls (ground arith)) (refl) (refl) 10 1

replace_back_example :
    let s = run init pair_calls in
    let there = (replace_member_session 20 30 s).0 in
    let back = (replace_member_session 30 20 there).0 in
    ((find 30 there.member_index ≡ find 20 s.member_index)
      × (member_of 30 1 there.parties ≡ member_of 20 1 s.parties)
      × (leader_of 1 there.parties ≡ moved_leader 20 30 (leader_of 1 s.parties)))
    × (find 30 back.member_index ≡ find 30 s.member_index)
    × (member_of 30 1 back.parties ≡ member_of 30 1 s.parties)
    × (leader_of 1 back.parties ≡ leader_of 1 s.parties)
unfolding run find keys put emplace accept_invite invite_member create_party set_event_sink
    replace_member_session
replace_back_example =
    replace_back 20 30 (run init pair_calls) (run-init-IsConsistent pair_calls (ground arith))
      (refl) 30 1

accept_invite-member_example :
    member_of 10 1 (accept_invite 1 10 2000 (run init invited_calls)).0.parties ≡ true
unfolding run find keys put emplace accept_invite invite_member create_party set_event_sink
accept_invite-member_example = accept_invite-member 1 10 2000 (run init invited_calls) (refl) 10 1

accept_invite_twice_example :
    let t = (accept_invite 1 10 2000 (run init invited_calls)).0 in
    (find 10 (invites_of 1 t) ≡ none) × ((accept_invite 1 10 2500 t).1 ≡ false)
unfolding run find put emplace invite_member create_party set_event_sink
accept_invite_twice_example = accept_invite_twice 1 10 2000 2500 (run init invited_calls) 10 1

-- 1000 + 300000 is no longer ago than the timeout at 301000, and is at 301001.
expire_invites-invites_example :
    let s = run init invited_calls in
    find 1 (expire_invites 301_001 s).0.invites ≡ (
      if contains 1 s.parties
      then live_invites 301_001 s.invite_timeout (find 1 s.invites)
      else find 1 s.invites)
expire_invites-invites_example = expire_invites-invites 301_001 (run init invited_calls) 1

get_party_info_lem_example :
    (pair_info.party_id ≡ 1)
    × (pair_info.leader_session_id ≡ 20)
    × IsSorted pair_info.members
    × Perm pair_info.members (values pair.members)
unfolding run find keys put emplace accept_invite invite_member create_party set_event_sink values
    get_party_info sort insert
get_party_info_lem_example = get_party_info_lem 1 (run init pair_calls) pair pair_info (refl) (refl)
