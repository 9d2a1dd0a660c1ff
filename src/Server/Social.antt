-- ===== src/Server/Social.antt =====
-- The cases GuildCreateReq, GuildJoinReq, GuildLeaveReq and ChatSendReq of Server::handlePacket in
-- src/net/server.cpp, and the event sinks that the constructor sets. `clock` is the time at which a sink
-- queues what it sends.
use gameserver_hide.Base.{
  ℕ, true, false, not, Option, none, some, List, [], ◌∷◌, Text, text, length, map, ◌==◌,
  if◌then◌else◌, is_some,
}
use gameserver_hide.Base.Map.{Map, find}
use gameserver_hide.Net.Frames.{encode}
use gameserver_hide.Net.Protocol.Guild.{
  GuildCreateResponse, decode_guild_create_request, GuildJoinResponse, decode_guild_join_request,
  GuildLeaveResponse, decode_guild_leave_request, encode_guild_event,
}
use gameserver_hide.Net.Protocol.Chat.{
  ChatSendRequest, ChatSendResponse, decode_chat_send_request, encode_chat_event,
}
use gameserver_hide.Session.{Session, UserContext}
use gameserver_hide.Party.Query.{get_party_info, party_for_member}
use gameserver_hide.Guild.{
  GuildEventType, created, joined, left, disbanded, GuildEvent, GuildService, create_guild,
  join_guild, leave_guild, guild_for_member,
}
use gameserver_hide.Chat.{
  ChatChannel, global, party, ChatMessage, ChatService, send_global, send_party,
}
use gameserver_hide.Dungeon.{any_session}
use gameserver_hide.Server.World.{World, Server, with_error, user_of, send_to}

-- static_cast<GuildEventType>(event.type)
abbrev guild_event_number : GuildEventType → ℕ
guild_event_number created = 1
guild_event_number joined = 2
guild_event_number left = 3
guild_event_number disbanded = 4

abbrev channel_number : ChatChannel → ℕ
channel_number global = 1
channel_number party = 2

-- protocolVersion() of a session that may be missing
abbrev version_of : {B : Type 0} → Option (Session B) → ℕ
version_of none = 0
version_of (some session) = session.protocol_version

abbrev create_refused : Text → GuildCreateResponse
create_refused message = record { success = false; guild_id = 0; message = message }

module _ {B S R : Type 0} (w : World B S R) (clock : ℕ) where
  -- The sink of the guild service, for its calls in order.
  unfoldable pub send_guild_events : List (ℕ × GuildEvent) → Map (Session B) → Map (Session B)
  unfolding send_to
  send_guild_events [] sessions = sessions
  send_guild_events ((id, event) ∷ events) sessions =
      let payload = encode_guild_event (record {
        type = guild_event_number event.type;
        guild_id = event.guild_id;
        actor_user_id = event.actor_user_id;
        member_user_ids = event.member_user_ids;
        message = event.message;
      }) in
      let frame = encode 206 (version_of (find id sessions)) payload in
      send_guild_events events (send_to w id frame clock sessions)

  -- The sink of the chat service, for its calls in order.
  unfoldable pub send_chat_events : List (ℕ × ChatMessage) → Map (Session B) → Map (Session B)
  unfolding send_to
  send_chat_events [] sessions = sessions
  send_chat_events ((id, message) ∷ events) sessions =
      let payload = encode_chat_event (record {
        channel = channel_number message.channel;
        party_id = message.party_id;
        sender_user_id = message.sender_user_id;
        message = message.text;
      }) in
      let frame = encode 302 (version_of (find id sessions)) payload in
      send_chat_events events (send_to w id frame clock sessions)

  -- A new state of the guild service, whose calls of the sink reach the sessions.
  unfoldable pub with_guilds : GuildService → Server B S R → Server B S R
  unfolding send_guild_events
  with_guilds guilds s = record s {
    sessions = send_guild_events guilds.sent s.sessions;
    guilds = record guilds { sent = [] };
  }

  unfoldable pub with_chat : ChatService → Server B S R → Server B S R
  unfolding send_chat_events
  with_chat chat s = record s {
    sessions = send_chat_events chat.sent s.sessions;
    chat = record chat { sent = [] };
  }

  unfoldable pub guild_create : ℕ → Text → Server B S R → Server B S R × GuildCreateResponse
  unfolding with_guilds
  guild_create id payload s = elim (decode_guild_create_request payload) [
    | none ↦ (with_error s, create_refused (text "Malformed guild create payload"))
    | some request ↦ elim (user_of id s) [
      | none ↦ (with_error s, create_refused (text "Authentication required"))
      | some user ↦
          let (guilds, made) = create_guild id user.user_id request.guild_name s.guilds in
          let s' = with_guilds guilds s in
          elim made [
            | none ↦ (with_error s', create_refused (text "Unable to create guild"))
            | some guild_id ↦
                (s', record { success = true; guild_id = guild_id; message = text "Guild created" })
          ]
    ]
  ]

  unfoldable pub guild_join : ℕ → Text → Server B S R → Server B S R × GuildJoinResponse
  unfolding with_guilds
  guild_join id payload s = elim (decode_guild_join_request payload) [
    | none ↦
        (with_error s, record { success = false; message = text "Malformed guild join payload" })
    | some request ↦ elim (user_of id s) [
      | none ↦ (with_error s, record { success = false; message = text "Authentication required" })
      | some user ↦
          let (guilds, done) = join_guild request.guild_id id user.user_id s.guilds in
          (
            with_guilds guilds s,
            record {
              success = done;
              message = if done then text "Joined guild" else text "Unable to join guild";
            },
          )
    ]
  ]

  -- The end of GuildLeaveReq, for the guild that the session leaves.
  unfoldable pub leave : ℕ → ℕ → Server B S R → Server B S R × GuildLeaveResponse
  unfolding with_guilds
  leave id guild_id s =
      let (guilds, done) = leave_guild guild_id id s.guilds in
      (
        with_guilds guilds s,
        record {
          success = done;
          message = if done then text "Left guild" else text "Unable to leave guild";
        },
      )

  unfoldable pub guild_leave : ℕ → Text → Server B S R → Server B S R × GuildLeaveResponse
  unfolding leave
  guild_leave id payload s = elim (decode_guild_leave_request payload) [
    | none ↦
        (with_error s, record { success = false; message = text "Malformed guild leave payload" })
    | some request ↦ elim (user_of id s) [
      | none ↦ (with_error s, record { success = false; message = text "Authentication required" })
      | some user ↦
          if not (request.guild_id == 0)
          then leave id request.guild_id s
          else elim (guild_for_member id s.guilds) [
            | none ↦ (with_error s, record { success = false; message = text "Not in a guild" })
            | some guild_id ↦ leave id guild_id s
          ]
    ]
  ]

  -- The sessions with a user, in the order of the map.
  unfoldable pub logged_in : Map (Session B) → List ℕ
  logged_in [] = []
  logged_in ((id, session) ∷ sessions) =
      let rest = logged_in sessions in if is_some session.user_context then id ∷ rest else rest

  unfoldable pub chat_global :
      ℕ → UserContext → ChatSendRequest → Server B S R → Server B S R × ChatSendResponse
  unfolding with_chat logged_in
  chat_global id user request s =
      let (chat, done) =
        send_global id user.user_id request.message (logged_in s.sessions) s.chat in
      (
        with_chat chat s,
        record {
          success = done;
          message =
              if done then text "Global chat delivered" else text "Failed to deliver global chat";
        },
      )

  unfoldable pub chat_party :
      ℕ → UserContext → ChatSendRequest → ℕ → Server B S R → Server B S R × ChatSendResponse
  unfolding with_chat
  chat_party id user request party_id s = elim (get_party_info party_id s.parties) [
    | none ↦ (with_error s, record { success = false; message = text "Party not found" })
    | some info ↦
        let recipients = map (λ m. m.session_id) info.members in
        let (chat, done) = send_party id user.user_id party_id request.message recipients s.chat in
        let s' = with_chat chat s in
        if not (any_session id info.members)
        then (
          with_error s,
          record { success = false; message = text "Not authorized for party chat" },
        )
        else if done
        then (s', record { success = true; message = text "Party chat delivered" })
        else (
          with_error s',
          record { success = false; message = text "Failed to deliver party chat" },
        )
  ]

  unfoldable pub chat_send : ℕ → Text → Server B S R → Server B S R × ChatSendResponse
  unfolding chat_global chat_party
  chat_send id payload s = elim (decode_chat_send_request payload) [
    | none ↦ (with_error s, record { success = false; message = text "Malformed chat payload" })
    | some request ↦ elim (user_of id s) [
      | none ↦ (with_error s, record { success = false; message = text "Authentication required" })
      | some user ↦
          if length request.message == 0
          then (
            with_error s,
            record { success = false; message = text "Chat message cannot be empty" },
          )
          else if request.channel == 1
          then chat_global id user request s
          else if not (request.channel == 2)
          then (with_error s, record { success = false; message = text "Unknown chat channel" })
          else if not (request.party_id == 0)
          then chat_party id user request request.party_id s
          else elim (party_for_member id s.parties) [
            | none ↦ (with_error s, record { success = false; message = text "Not in a party" })
            | some party_id ↦ chat_party id user request party_id s
          ]
    ]
  ]
