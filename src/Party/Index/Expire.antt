-- ===== src/Party/Index/Expire.antt =====
-- expireInvites of src/party/party.cpp keeps the invariant.
use gameserver_hide.Base.{
  ℕ, ◌≡◌, refl, [], ◌∷◌, none, arith, Option-cases, ◌∙◌, inl, inr, if◌then◌else◌,
}
use gameserver_hide.Base.Map.{Map, find, put, find-put}
use gameserver_hide.Party.Types.{PartyRecord, PartyInvite, PartyService}
use gameserver_hide.Party.Invites.{
  expired, tell_expired, expire_party, expire_parties, expire_invites,
}
use gameserver_hide.Party.Index.{IsConsistent}

-- What the inner loop leaves alone: all but the events.
record Untouched (s t : PartyService) : Type 0 where
  parties : t.parties ≡ s.parties
  member_index : t.member_index ≡ s.member_index
  next : t.next_party_id ≡ s.next_party_id
  invites : t.invites ≡ s.invites

expire_party-Untouched :
    (now party_id : ℕ) (party : PartyRecord) (invites : Map PartyInvite) (s : PartyService)
    → Untouched s (expire_party now party_id party invites s).0
unfolding expire_party
expire_party-Untouched now party_id party [] s = record {
  parties = refl;
  member_index = refl;
  next = refl;
  invites = refl;
}
expire_party-Untouched now party_id party ((invitee, invite) ∷ rest) s =
    let told : PartyService =
      if expired now invite s then tell_expired party_id invitee party s else s in
    let u = expire_party-Untouched now party_id party rest told in
    record {
      parties = ground (arith, u.parties);
      member_index = ground (arith, u.member_index);
      next = ground (arith, u.next);
      invites = ground (arith, u.invites);
    }

-- The outer loop also rewrites the invites of the parties that have some.
record Unmoved (s t : PartyService) : Type 0 where
  parties : t.parties ≡ s.parties
  member_index : t.member_index ≡ s.member_index
  next : t.next_party_id ≡ s.next_party_id
  invited : (p : ℕ) → find p s.invites ≡ none → find p t.invites ≡ none

expire_parties-Unmoved :
    (now : ℕ) (parties : Map PartyRecord) (s : PartyService)
    → Unmoved s (expire_parties now parties s).0
unfolding expire_parties
expire_parties-Unmoved now [] s = record {
  parties = refl;
  member_index = refl;
  next = refl;
  invited = λ p h. h;
}
expire_parties-Unmoved now ((party_id, party) ∷ rest) s =
    elim (Option-cases (find party_id s.invites)) [
      | inl e ↦ rw (e, expire_parties) (expire_parties-Unmoved now rest s)
      | inr (invites, e) ↦
          let t = expire_party now party_id party invites s in
          let u = expire_party-Untouched now party_id party invites s in
          let w =
            expire_parties-Unmoved now rest
              (record t.0 { invites = put party_id t.1 t.0.invites }) in
          rw (e, expire_parties)
            (record {
              parties = w.parties ∙ u.parties;
              member_index = w.member_index ∙ u.member_index;
              next = w.next ∙ u.next;
              invited = λ p h. w.invited p (grind (arith, find-put, u.invites));
            })
    ]

pub expire_invites-IsConsistent :
    (now : ℕ) (s : PartyService) → IsConsistent s → IsConsistent (expire_invites now s).0
unfolding expire_invites
expire_invites-IsConsistent now s v =
    let w = expire_parties-Unmoved now s.parties s in
    record {
      sound = λ id p h. grind (arith, v.sound id p, w.parties, w.member_index);
      complete = λ id p h. grind (arith, v.complete id p, w.parties, w.member_index);
      valid = λ p. rw w.parties (v.valid p);
      keyed = λ id p. rw w.parties (v.keyed id p);
      fresh = λ p h. grind (arith, v.fresh p, w.parties, w.next);
      invited = λ p h. w.invited p (v.invited p (grind (arith, w.parties)));
    }

pub expire_invites-next :
    (now : ℕ) (s : PartyService) → (expire_invites now s).0.next_party_id ≡ s.next_party_id
unfolding expire_invites
expire_invites-next now s = (expire_parties-Unmoved now s.parties s).next
