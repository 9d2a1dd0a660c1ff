-- ===== src/Party/Expiry.antt =====
-- expireInvites of src/party/party.cpp against a filter.
use gameserver_hide.Base.{
  ℕ, ◌+◌, ◌≡◌, refl, ◌∙◌, ap, [], ◌∷◌, Option, none, some, arith, Option-cases, inl, inr, ltb,
  if◌then◌else◌,
}
use gameserver_hide.Base.Map.{Map, find, contains, put, find-put, elem, keys, elem-keys}
use gameserver_hide.Party.Types.{PartyRecord, PartyInvite, PartyService}
use gameserver_hide.Party.Invites.{
  expired, tell_expired, expire_party, expire_parties, expire_invites,
}

-- The invites that were sent no longer ago than the timeout.
unfoldable pub live : ℕ → ℕ → Map PartyInvite → Map PartyInvite
live now timeout [] = []
live now timeout ((invitee, invite) ∷ rest) =
    let kept = live now timeout rest in
    if ltb (invite.sent_at + timeout) now then kept else (invitee, invite) ∷ kept

unfoldable pub live_invites : ℕ → ℕ → Option (Map PartyInvite) → Option (Map PartyInvite)
live_invites now timeout none = none
live_invites now timeout (some invites) = some (live now timeout invites)

live-live :
    (now timeout : ℕ) (m : Map PartyInvite)
    → live now timeout (live now timeout m) ≡ live now timeout m
unfolding live
live-live now timeout [] = refl
live-live now timeout ((k, i) ∷ m) = ground (arith, live-live now timeout m)

live_invites_idem :
    (now timeout : ℕ) (o : Option (Map PartyInvite))
    → live_invites now timeout (live_invites now timeout o) ≡ live_invites now timeout o
unfolding live_invites
live_invites_idem now timeout none = refl
live_invites_idem now timeout (some m) = ap some (live-live now timeout m)

record Expires (now : ℕ) (m : Map PartyInvite) (s : PartyService)
    (r : PartyService × Map PartyInvite × ℕ) : Type 0 where
  kept : r.1 ≡ live now s.invite_timeout m
  invites : r.0.invites ≡ s.invites
  timeout : r.0.invite_timeout ≡ s.invite_timeout

expire_party-Expires :
    (now party_id : ℕ) (party : PartyRecord) (m : Map PartyInvite) (s : PartyService)
    → Expires now m s (expire_party now party_id party m s)
unfolding expire_party live
expire_party-Expires now party_id party [] s = record {
  kept = refl;
  invites = refl;
  timeout = refl;
}
expire_party-Expires now party_id party ((invitee, invite) ∷ rest) s =
    let told : PartyService =
      if expired now invite s then tell_expired party_id invitee party s else s in
    let e = expire_party-Expires now party_id party rest told in
    record {
      kept = ground (arith, e.kept);
      invites = ground (arith, e.invites);
      timeout = ground (arith, e.timeout);
    }

expire_parties-invites :
    (now : ℕ) (parties : Map PartyRecord) (s : PartyService) (p : ℕ)
    → find p (expire_parties now parties s).0.invites ≡ (
        if elem p (keys parties)
        then live_invites now s.invite_timeout (find p s.invites)
        else find p s.invites)
unfolding expire_parties elem keys live_invites
expire_parties-invites now [] s p = refl
expire_parties-invites now ((party_id, party) ∷ rest) s p =
    elim (Option-cases (find party_id s.invites)) [
      | inl e ↦ rw (e, expire_parties) (grind (arith, expire_parties-invites now rest s p))
      | inr (invites, e) ↦
          let t = expire_party now party_id party invites s in
          let x = expire_party-Expires now party_id party invites s in
          let next : PartyService = record t.0 { invites = put party_id t.1 t.0.invites } in
          rw (e, expire_parties)
            (grind (
              arith,
              expire_parties-invites now rest next p,
              find-put party_id p t.1 t.0.invites,
              x.kept,
              x.invites,
              x.timeout,
              live_invites_idem now s.invite_timeout (find p s.invites),
            ))
    ]

-- After expireInvites, a party that exists has exactly the invites that are no older than the timeout,
-- in their order; the invites under an id with no party stay as they were.
pub expire_invites-invites :
    (now : ℕ) (s : PartyService) (p : ℕ)
    → find p (expire_invites now s).0.invites ≡ (
        if contains p s.parties
        then live_invites now s.invite_timeout (find p s.invites)
        else find p s.invites)
unfolding expire_invites
expire_invites-invites now s p =
    expire_parties-invites now s.parties s p
    ∙ ap (λ b. if b then live_invites now s.invite_timeout (find p s.invites) else find p s.invites)
        (elem-keys p s.parties)
