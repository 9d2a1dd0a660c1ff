-- ===== src/Server/Matches.antt =====
-- The case MatchReq of Server::handlePacket in src/net/server.cpp. `clock` is the time at which a
-- notification is queued. The fields that a failure does not set are empty.
use gameserver_hide.Base.{
  ℕ, Bool, true, false, not, Option, none, some, List, [], ◌∷◌, Text, text, length, ◌==◌,
  if◌then◌else◌,
}
use gameserver_hide.Base.Int.{ℤ, pos}
use gameserver_hide.Base.Map.{put, contains}
use gameserver_hide.Net.Frames.{encode}
use gameserver_hide.Net.Protocol.Match.{
  MatchFoundNotify, decode_match_request, encode_match_found_notify,
}
use gameserver_hide.Party.Types.{PartyMember, PartyInfo}
use gameserver_hide.Party.Query.{get_party_info, party_for_member}
use gameserver_hide.Dungeon.{any_session, create_instance}
use gameserver_hide.Matching.{MatchCandidate, MatchQueue, enqueue, cancel, find_match}
use gameserver_hide.Server.World.{World, Server, with_error, user_of, send_to}

abbrev match_refused : Text → Text → MatchFoundNotify
match_refused code message = record {
  success = false;
  code = code;
  message = message;
  party_id = 0;
  instance_id = 0;
  endpoint = [];
  ticket = [];
}

-- The response so far to the session that asked, or the failure that ends the loop.
pub data Outcome : Type 0 where
  going : Option MatchFoundNotify → Outcome
  ended : MatchFoundNotify → Outcome

-- The candidates that a request matches: the pair that findMatch returns, or the party alone, which
-- leaves the queue.
unfoldable pub pair_up :
    (ℤ → ℤ → ℤ) → MatchCandidate → ℕ → MatchQueue → MatchQueue × List MatchCandidate
pair_up expand candidate now q =
    let (q', found) = find_match expand now q in
    elim found [
      | some (first, second) ↦ (q', first ∷ second ∷ [])
      | none ↦ ((cancel candidate.party_id q').0, candidate ∷ [])
    ]

module _ {B S R : Type 0} (w : World B S R) (clock : ℕ) where
  -- The loop over the members of a party that was matched. `asker` is the session that asked, if it is
  -- of this party: it gets the response instead.
  unfoldable pub notify_members :
      ℕ → Text → Option ℕ → List PartyMember → Server B S R → Server B S R
  unfolding send_to
  notify_members instance_id frame asker [] s = s
  notify_members instance_id frame asker (member ∷ members) s =
      let id = member.session_id in
      let asks : Bool = elim asker [ none ↦ false | some a ↦ a == id ] in
      let s' : Server B S R = if not (contains id s.sessions) then s else record s {
        session_instances = put id instance_id s.session_instances;
        sessions = if asks then s.sessions else send_to w id frame clock s.sessions;
      } in
      notify_members instance_id frame asker members s'

  abbrev pub notify_party : ℕ → Text → Option ℕ → Option PartyInfo → Server B S R → Server B S R
  notify_party instance_id frame asker none s = s
  notify_party instance_id frame asker (some info) s =
      notify_members instance_id frame asker info.members s

  abbrev pub notification : ℕ → ℕ → Text → MatchFoundNotify
  notification party_id instance_id ticket = record {
    success = true;
    code = text "OK";
    message = text "Match found";
    party_id = party_id;
    instance_id = instance_id;
    endpoint = text "dungeon.local:7777";
    ticket = ticket;
  }

  -- The loop over the matched candidates, for the session `id` of the party `party_id`.
  unfoldable pub open_instances :
      ℕ
      → ℕ
      → ℕ
      → List MatchCandidate
      → Option MatchFoundNotify
      → Server B S R
      → Server B S R × Outcome
  unfolding notify_members
  open_instances version id party_id [] response s = (s, going response)
  open_instances version id party_id (candidate ∷ candidates) response s =
      let party = candidate.party_id in
      let (instances, made) = create_instance party s.parties s.instances in
      elim made [
        | none ↦ (
          with_error (record s { instances = instances }),
          ended (match_refused (text "INSTANCE_FAILED") (text "Unable to create dungeon instance")),
        )
        | some instance_id ↦
            let (rng, ticket) = w.trace_id s.rng in
            let (rng', seed) = w.draw_seed rng in
            let s' : Server B S R = record s {
              instances = instances;
              rng = rng';
              party_instances = put party instance_id s.party_instances;
              instance_tickets = put instance_id ticket s.instance_tickets;
              instance_seeds = put instance_id seed s.instance_seeds;
            } in
            let notify = notification party instance_id ticket in
            let frame = encode 401 version (encode_match_found_notify notify) in
            let mine = party == party_id in
            open_instances version id party_id candidates (if mine then some notify else response) (
              notify_party instance_id frame (if mine then some id else none)
                (get_party_info party s'.parties) s')
      ]

  -- MatchReq behind the test of the membership.
  unfoldable pub seek_match :
      ℕ → ℕ → ℕ → PartyInfo → ℕ → Server B S R → Server B S R × MatchFoundNotify
  unfolding open_instances pair_up
  seek_match version id party_id info now s =
      let candidate : MatchCandidate = record {
        party_id = party_id;
        mmr = pos 0;
        party_size = length info.members;
        enqueue_time = now;
      } in
      let (queued, accepted) = enqueue candidate s.match_queue in
      let (queue, matches) = pair_up w.expand candidate now queued in
      let (s', outcome) =
        open_instances version id party_id matches none (record s { match_queue = queue }) in
      if not accepted
      then (
        with_error (record s { match_queue = queued }),
        match_refused (text "QUEUE_REJECTED") (text "Unable to enqueue for match"),
      )
      else elim outcome [
        | ended failure ↦ (s', failure)
        | going (some response) ↦ (s', response)
        | going none ↦
            (with_error s', match_refused (text "MATCH_NOT_FOUND") (text "Match not found"))
      ]

  -- MatchReq for the party that is asked for, or found.
  unfoldable pub match_party : ℕ → ℕ → ℕ → ℕ → Server B S R → Server B S R × MatchFoundNotify
  unfolding seek_match
  match_party version id party_id now s = elim (get_party_info party_id s.parties) [
    | none ↦ (with_error s, match_refused (text "PARTY_NOT_FOUND") (text "Party not found"))
    | some info ↦
        if not (any_session id info.members)
        then (
          with_error s,
          match_refused (text "NOT_PARTY_MEMBER") (text "Not authorized for match"),
        )
        else seek_match version id party_id info now s
  ]

  unfoldable pub match_request : ℕ → ℕ → Text → ℕ → Server B S R → Server B S R × MatchFoundNotify
  unfolding match_party
  match_request version id payload now s = elim (decode_match_request payload) [
    | none ↦ (with_error s, match_refused (text "MALFORMED") (text "Malformed match request"))
    | some request ↦ elim (user_of id s) [
      | none ↦
          (with_error s, match_refused (text "UNAUTHENTICATED") (text "Authentication required"))
      | some user ↦
          if not (request.party_id == 0)
          then match_party version id request.party_id now s
          else elim (party_for_member id s.parties) [
            | none ↦ (with_error s, match_refused (text "NO_PARTY") (text "Not in a party"))
            | some party_id ↦ match_party version id party_id now s
          ]
    ]
  ]
