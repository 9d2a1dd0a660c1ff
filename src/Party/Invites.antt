-- ===== src/Party/Invites.antt =====
-- src/party/party.cpp: inviteMember, acceptInvite, rejectInvite and expireInvites.
use gameserver_hide.Base.{
  ℕ, ◌+◌, Bool, true, false, not, none, some, [], ◌∷◌, Text, text, ltb, if◌then◌else◌,
}
use gameserver_hide.Base.Map.{Map, find, contains, put, erase, emplace, keys}
use gameserver_hide.Party.Types.{
  invite_sent, invite_accepted, invite_rejected, invite_expired, PartyEvent, PartyMember,
  PartyRecord, PartyInvite, PartyService, emit_to_party, emit_to_invitee, event_to,
}

-- invites_[party_id]
abbrev pub invites_of : ℕ → PartyService → Map PartyInvite
invites_of party_id s = elim (find party_id s.invites) [ none ↦ [] | some invites ↦ invites ]

unfoldable pub invite_member : ℕ → ℕ → ℕ → Text → ℕ → PartyService → PartyService × Bool
unfolding emit_to_party emit_to_invitee
invite_member party_id inviter invitee user_id now s = elim (find party_id s.parties) [
  | none ↦ (s, false)
  | some party ↦
      if not (contains inviter party.members)
      then (s, false)
      else if contains invitee s.member_index
      then (s, false)
      else let party_invites = invites_of party_id s in
        if contains invitee party_invites
        then (record s { invites = put party_id party_invites s.invites }, false)
        else let invite : PartyInvite = record {
          inviter_session_id = inviter;
          invitee_user_id = user_id;
          sent_at = now;
        } in
          let event = event_to invite_sent party_id inviter invitee [] (text "Party invite sent") in
          (
            emit_to_invitee invitee event (
                emit_to_party party event (record s {
                  invites = put party_id (emplace invitee invite party_invites) s.invites;
                })),
            true,
          )
]

-- now - sent_at > invite_timeout_, on integers
abbrev pub expired : ℕ → PartyInvite → PartyService → Bool
expired now invite s = ltb (invite.sent_at + s.invite_timeout) now

abbrev expired_event : ℕ → ℕ → PartyEvent
expired_event party_id invitee =
    event_to invite_expired party_id 0 invitee [] (text "Party invite expired")

-- The events of an invite that has expired: to the party, then to the invitee.
unfoldable pub tell_expired : ℕ → ℕ → PartyRecord → PartyService → PartyService
unfolding emit_to_party emit_to_invitee
tell_expired party_id invitee party s =
    emit_to_invitee invitee (expired_event party_id invitee)
      (emit_to_party party (expired_event party_id invitee) s)

-- The branches of acceptInvite behind the three lookups.
accept_found :
    ℕ → ℕ → ℕ → PartyRecord → Map PartyInvite → PartyInvite → PartyService → PartyService × Bool
unfolding emit_to_party tell_expired
accept_found party_id invitee now party party_invites invite s =
    let dropped : Map (Map PartyInvite) = put party_id (erase invitee party_invites) s.invites in
    let told = tell_expired party_id invitee party s in
    if expired now invite s
    then (record told { invites = dropped }, false)
    else if contains invitee s.member_index
    then (record s { invites = dropped }, false)
    else let member : PartyMember = record {
      session_id = invitee;
      user_id = invite.invitee_user_id;
    } in
      let party' : PartyRecord = record party { members = emplace invitee member party.members } in
      (
        emit_to_party party'
            (event_to invite_accepted party_id invitee 0 (keys party'.members)
              (text "Party invite accepted"))
            (record s {
              parties = put party_id party' s.parties;
              member_index = put invitee party_id s.member_index;
              invites = dropped;
            }),
        true,
      )

unfoldable pub accept_invite : ℕ → ℕ → ℕ → PartyService → PartyService × Bool
unfolding accept_found
accept_invite party_id invitee now s = elim (find party_id s.parties) [
  | none ↦ (s, false)
  | some party ↦ elim (find party_id s.invites) [
    | none ↦ (s, false)
    | some party_invites ↦ elim (find invitee party_invites) [
      | none ↦ (s, false)
      | some invite ↦ accept_found party_id invitee now party party_invites invite s
    ]
  ]
]

unfoldable pub reject_invite : ℕ → ℕ → PartyService → PartyService × Bool
unfolding emit_to_party emit_to_invitee
reject_invite party_id invitee s = elim (find party_id s.parties) [
  | none ↦ (s, false)
  | some party ↦ elim (find party_id s.invites) [
    | none ↦ (s, false)
    | some party_invites ↦ elim (find invitee party_invites) [
      | none ↦ (s, false)
      | some invite ↦
          let event =
            event_to invite_rejected party_id invitee invitee [] (text "Party invite rejected") in
          let s' = emit_to_invitee invitee event (emit_to_party party event s) in
          (record s' { invites = put party_id (erase invitee party_invites) s'.invites }, true)
    ]
  ]
]

-- The inner loop of expireInvites over the invites of one party: the service with the events sent,
-- the invites that stay, and the number of those that went.
unfoldable pub expire_party :
    ℕ → ℕ → PartyRecord → Map PartyInvite → PartyService → PartyService × Map PartyInvite × ℕ
unfolding tell_expired
expire_party now party_id party [] s = (s, [], 0)
expire_party now party_id party ((invitee, invite) ∷ rest) s =
    let gone = expired now invite s in
    let (s', kept, count) =
      expire_party now party_id party rest
        (if gone then tell_expired party_id invitee party s else s) in
    if gone then (s', kept, count + 1) else (s', (invitee, invite) ∷ kept, count)

-- The outer loop, over the parties.
unfoldable pub expire_parties : ℕ → Map PartyRecord → PartyService → PartyService × ℕ
unfolding expire_party
expire_parties now [] s = (s, 0)
expire_parties now ((party_id, party) ∷ rest) s = elim (find party_id s.invites) [
  | none ↦ expire_parties now rest s
  | some party_invites ↦
      let (told, kept, gone) = expire_party now party_id party party_invites s in
      let (s', count) =
        expire_parties now rest (record told { invites = put party_id kept told.invites }) in
      (s', gone + count)
]

unfoldable pub expire_invites : ℕ → PartyService → PartyService × ℕ
unfolding expire_parties
expire_invites now s = expire_parties now s.parties s
