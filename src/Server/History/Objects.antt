-- ===== src/Server/History/Objects.antt =====
-- What the handlers of src/net/server.cpp leave of the session objects.
use native.Mathlib.Omega.{arith}
use gameserver_hide.Base.{ℕ, Option, none, some, List, [], ◌∷◌, Text, ◌≡◌, refl, ◌∙◌}
use gameserver_hide.Base.Map.{Map, find, find-put}
use gameserver_hide.Party.Types.{PartyMember, PartyInfo}
use gameserver_hide.Matching.{MatchCandidate}
use gameserver_hide.Net.Protocol.Match.{MatchFoundNotify}
use gameserver_hide.Guild.{GuildEvent, GuildService}
use gameserver_hide.Chat.{ChatMessage, ChatService}
use gameserver_hide.Session.{
  Session, UserContext, enqueue_send, disconnect, tick, record_nonce, on_receive,
}
use gameserver_hide.Server.{SecurityPolicy, Metrics, admit, check_security, check_replay}
use gameserver_hide.Net.Frames.{FrameHeader}
use gameserver_hide.Server.Handle.{tick_sessions}
use gameserver_hide.Server.World.{World, Server, send_to, session_of, on_session}
use gameserver_hide.Server.Social
use gameserver_hide.Server.Social.{
  with_guilds, with_chat, send_guild_events, send_chat_events, guild_create, guild_join,
  guild_leave, chat_send,
}
use gameserver_hide.Server.Items.{inventory_update}
use gameserver_hide.Server.Dungeons
use gameserver_hide.Server.Dungeons.{dungeon_enter, dungeon_result}
use gameserver_hide.Server.Matches
use gameserver_hide.Server.Matches.{match_request, notify_members, open_instances, notify_party}

-- The user and the last sequence number of a session that may be missing.
unfoldable pub marks : {B : Type 0} → Option (Session B) → Option (Option UserContext × ℕ)
marks none = none
marks (some session) = some (session.user_context, session.last_seq)

-- Those of the object `k`, with the policy and the counter of the sessions.
abbrev pub marked :
    {B S R : Type 0}
    → ℕ
    → Server B S R
    → Option (Option UserContext × ℕ) × Map (Session B) × SecurityPolicy × ℕ
marked k s = (marks (find k s.sessions), s.detached, s.security_policy, s.next_id)

pub admit-user_context :
    {B : Type 0} (policy : SecurityPolicy) (decimal : ℕ → Text) (header : FrameHeader)
    (payload : Text) (now : ℕ) (m : Metrics) (session : Session B)
    → (admit policy decimal header payload now (m, session)).0.1.user_context ≡ session.user_context
unfolding admit check_security check_replay record_nonce on_receive
admit-user_context policy decimal header payload now m session = ground arith

-- The server behind the checks in front of the switch.
abbrev pub checked :
    {B S R : Type 0}
    → World B S R
    → ℕ
    → FrameHeader
    → Text
    → ℕ
    → Server B S R
    → Session B
    → Server B S R
checked w id header payload now s session =
    let ((metrics, session'), verdict) =
      admit s.security_policy w.decimal header payload now (s.metrics, session) in
    on_session id (λ _. session') (record s { metrics = metrics })

pub session_of-metrics :
    {B S R : Type 0} (id : ℕ) (session : Session B) (m : Metrics) (s : Server B S R)
    → session_of id s ≡ some session
    → session_of id (record s { metrics = m }) ≡ some session
unfolding session_of
session_of-metrics id session m s p = p

pub tick_sessions-marks :
    {B : Type 0} (now k : ℕ) (sessions : Map (Session B))
    → marks (find k (tick_sessions now sessions).0) ≡ marks (find k sessions)
unfolding tick_sessions find marks tick disconnect
tick_sessions-marks now k [] = refl
tick_sessions-marks now k ((id, session) ∷ sessions) =
    ground (arith, tick_sessions-marks now k sessions)

module _ {B S R : Type 0} (w : World B S R) (clock k : ℕ) where
  pub send_to-marks :
      (id : ℕ) (frame : Text) (sessions : Map (Session B))
      → marks (find k (send_to w id frame clock sessions)) ≡ marks (find k sessions)
  unfolding send_to enqueue_send disconnect marks
  send_to-marks id frame sessions = grind (arith, find-put)

  send_guild_events-marks :
      (events : List (ℕ × GuildEvent)) (sessions : Map (Session B))
      → marks (find k (send_guild_events w clock events sessions)) ≡ marks (find k sessions)
  unfolding send_guild_events
  send_guild_events-marks [] sessions = refl
  send_guild_events-marks ((id, event) ∷ events) sessions =
      send_guild_events-marks events _ ∙ send_to-marks id _ sessions

  send_chat_events-marks :
      (events : List (ℕ × ChatMessage)) (sessions : Map (Session B))
      → marks (find k (send_chat_events w clock events sessions)) ≡ marks (find k sessions)
  unfolding send_chat_events
  send_chat_events-marks [] sessions = refl
  send_chat_events-marks ((id, message) ∷ events) sessions =
      send_chat_events-marks events _ ∙ send_to-marks id _ sessions

  pub with_guilds-marked :
      (guilds : GuildService) (s : Server B S R)
      → marked k (with_guilds w clock guilds s) ≡ marked k s
  unfolding with_guilds
  with_guilds-marked guilds s = ground (arith, send_guild_events-marks guilds.sent s.sessions)

  with_chat-marked :
      (chat : ChatService) (s : Server B S R) → marked k (with_chat w clock chat s) ≡ marked k s
  unfolding with_chat
  with_chat-marked chat s = ground (arith, send_chat_events-marks chat.sent s.sessions)

  pub dungeon_enter-marked :
      (id : ℕ) (payload : Text) (s : Server B S R)
      → marked k (dungeon_enter id payload s).0 ≡ marked k s
  unfolding dungeon_enter Dungeons.enter_instance
  dungeon_enter-marked id payload s = ground arith

  pub dungeon_result-marked :
      (time id : ℕ) (payload : Text) (s : Server B S R)
      → marked k (dungeon_result w time id payload s).0 ≡ marked k s
  unfolding dungeon_result Dungeons.close_instance Dungeons.record_result
  dungeon_result-marked time id payload s = ground arith

  pub inventory_update-marked :
      (time id : ℕ) (payload : Text) (s : Server B S R)
      → marked k (inventory_update w time id payload s).0 ≡ marked k s
  unfolding inventory_update
  inventory_update-marked time id payload s = ground arith

  pub guild_create-marked :
      (id : ℕ) (payload : Text) (s : Server B S R)
      → marked k (guild_create w clock id payload s).0 ≡ marked k s
  unfolding guild_create
  guild_create-marked id payload s = grind (arith, with_guilds-marked)

  pub guild_join-marked :
      (id : ℕ) (payload : Text) (s : Server B S R)
      → marked k (guild_join w clock id payload s).0 ≡ marked k s
  unfolding guild_join
  guild_join-marked id payload s = grind (arith, with_guilds-marked)

  pub guild_leave-marked :
      (id : ℕ) (payload : Text) (s : Server B S R)
      → marked k (guild_leave w clock id payload s).0 ≡ marked k s
  unfolding guild_leave Social.leave
  guild_leave-marked id payload s = grind (arith, with_guilds-marked)

  pub chat_send-marked :
      (id : ℕ) (payload : Text) (s : Server B S R)
      → marked k (chat_send w clock id payload s).0 ≡ marked k s
  unfolding chat_send Social.chat_global Social.chat_party
  chat_send-marked id payload s = grind (arith, with_chat-marked)

  notify_members-marked :
      (instance_id : ℕ) (frame : Text) (asker : Option ℕ) (members : List PartyMember)
      (s : Server B S R)
      → marked k (notify_members w clock instance_id frame asker members s) ≡ marked k s
  unfolding notify_members
  notify_members-marked instance_id frame asker [] s = refl
  notify_members-marked instance_id frame asker (member ∷ members) s = grind (
    arith,
    notify_members-marked instance_id frame asker members,
    send_to-marks member.session_id frame s.sessions,
  )

  notify_party-marked :
      (instance_id : ℕ) (frame : Text) (asker : Option ℕ) (info : Option PartyInfo)
      (s : Server B S R)
      → marked k (notify_party w clock instance_id frame asker info s) ≡ marked k s
  notify_party-marked instance_id frame asker none s = refl
  notify_party-marked instance_id frame asker (some info) s =
      notify_members-marked instance_id frame asker info.members s

  open_instances-marked :
      (version id party_id : ℕ) (candidates : List MatchCandidate)
      (response : Option MatchFoundNotify) (s : Server B S R)
      → marked k (open_instances w clock version id party_id candidates response s).0 ≡ marked k s
  unfolding open_instances
  open_instances-marked version id party_id [] response s = refl
  open_instances-marked version id party_id (candidate ∷ candidates) response s =
      grind (arith, open_instances-marked version id party_id candidates, notify_party-marked)

  pub match_request-marked :
      (version id : ℕ) (payload : Text) (now : ℕ) (s : Server B S R)
      → marked k (match_request w clock version id payload now s).0 ≡ marked k s
  unfolding match_request Matches.match_party Matches.seek_match
  match_request-marked version id payload now s = grind (arith, open_instances-marked version)
