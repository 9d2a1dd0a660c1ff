-- ===== src/Guild.antt =====
-- src/guild/guild.h and guild.cpp. As for the parties, ids are 64-bit, the counter of guilds wraps,
-- the calls of the event sink are kept in `sent`, and an operation returns the new service and its
-- result.
pub mod Index
pub mod Run
pub mod Effects
pub mod Tests
use gameserver_hide.Base.{
  ℕ, ◌+◌, ◌%◌, ◌^◌, Bool, true, false, not, ◌||◌, Option, none, some, List, [], ◌∷◌, ◌++◌, map,
  Text, text, ltb, ◌==◌, if◌then◌else◌, length,
}
use gameserver_hide.Base.Map.{Map, find, contains, put, erase, emplace, erase_all, keys, values}

pub data GuildEventType : Type 0 where
  created joined left disbanded : GuildEventType

pub record GuildEvent : Type 0 where
  pub type : GuildEventType
  pub guild_id : ℕ
  pub actor_user_id : Text
  pub member_user_ids : List Text
  pub message : Text

pub record GuildMember : Type 0 where
  pub session_id : ℕ
  pub user_id : Text

pub record GuildInfo : Type 0 where
  pub guild_id : ℕ
  pub leader_session_id : ℕ
  pub name : Text
  pub members : List GuildMember

pub record GuildRecord : Type 0 where
  pub id : ℕ
  pub leader_session_id : ℕ
  pub name : Text
  pub members : Map GuildMember

pub record GuildService : Type 0 where
  pub next_guild_id : ℕ
  pub guilds : Map GuildRecord
  pub member_index : Map ℕ
  pub event_sink : Bool
  pub sent : List (ℕ × GuildEvent)

abbrev pub init : GuildService
init = record { next_guild_id = 1; guilds = []; member_index = []; event_sink = false; sent = [] }

unfoldable pub set_event_sink : Bool → GuildService → GuildService
set_event_sink sink s = record s { event_sink = sink }

unfoldable pub emit_to_guild : GuildRecord → GuildEvent → GuildService → GuildService
emit_to_guild guild event s =
    if s.event_sink
    then record s { sent = s.sent ++ map (λ id. (id, event)) (keys guild.members) }
    else s

unfoldable pub emit_to_member : ℕ → GuildEvent → GuildService → GuildService
emit_to_member member event s =
    if s.event_sink then record s { sent = s.sent ++ (member, event) ∷ [] } else s

-- The user ids of the members, in the order of the map.
abbrev pub user_ids : GuildRecord → List Text
user_ids guild = map (λ m. m.user_id) (values guild.members)

abbrev pub event_of : GuildEventType → ℕ → Text → List Text → Text → GuildEvent
event_of type guild actor members message = record {
  type = type;
  guild_id = guild;
  actor_user_id = actor;
  member_user_ids = members;
  message = message;
}

unfoldable pub create_guild : ℕ → Text → Text → GuildService → GuildService × Option ℕ
unfolding emit_to_guild
create_guild leader user_id name s =
    if contains leader s.member_index || length name == 0
    then (s, none)
    else let id = s.next_guild_id in
      let guild : GuildRecord = record {
        id = id;
        leader_session_id = leader;
        name = name;
        members = emplace leader (record { session_id = leader; user_id = user_id }) [];
      } in
      (
        emit_to_guild guild (event_of created id user_id (user_id ∷ []) (text "Guild created"))
            (record s {
              next_guild_id = (id + 1) % 2 ^ 64;
              guilds = emplace id guild s.guilds;
              member_index = put leader id s.member_index;
            }),
        some id,
      )

unfoldable pub join_guild : ℕ → ℕ → Text → GuildService → GuildService × Bool
unfolding emit_to_guild
join_guild guild_id member user_id s = elim (find guild_id s.guilds) [
  | none ↦ (s, false)
  | some guild ↦
      if contains member s.member_index
      then (s, false)
      else let guild' : GuildRecord = record guild {
        members = emplace member (record { session_id = member; user_id = user_id }) guild.members;
      } in
        (
          emit_to_guild guild'
              (event_of joined guild_id user_id (user_ids guild') (text "Guild member joined"))
              (record s {
                guilds = put guild_id guild' s.guilds;
                member_index = put member guild_id s.member_index;
              }),
          true,
        )
]

-- The end that leaveGuild and removeMember share where the leader goes: every member leaves the index,
-- the guild is told and goes.
disband : ℕ → Text → GuildRecord → GuildService → GuildService
unfolding emit_to_guild
disband guild_id actor guild s =
    let event = event_of disbanded guild_id actor (user_ids guild) (text "Guild disbanded") in
    let s' =
      emit_to_guild guild event
        (record s { member_index = erase_all (keys guild.members) s.member_index }) in
    record s' { guilds = erase guild_id s'.guilds }

-- The end that they share where another member goes: those that stay are told.
depart : ℕ → ℕ → Text → GuildRecord → GuildService → GuildService × GuildEvent
unfolding emit_to_guild
depart guild_id member actor guild s =
    let guild' : GuildRecord = record guild { members = erase member guild.members } in
    let event = event_of left guild_id actor (user_ids guild') (text "Guild member left") in
    (
      emit_to_guild guild' event (record s {
        guilds = put guild_id guild' s.guilds;
        member_index = erase member s.member_index;
      }),
      event,
    )

unfoldable pub leave_guild : ℕ → ℕ → GuildService → GuildService × Bool
unfolding disband depart emit_to_member
leave_guild guild_id member s = elim (find guild_id s.guilds) [
  | none ↦ (s, false)
  | some guild ↦ elim (find member guild.members) [
    | none ↦ (s, false)
    | some entry ↦
        let (s', event) = depart guild_id member entry.user_id guild s in
        if guild.leader_session_id == member
        then (disband guild_id entry.user_id guild s, true)
        else (emit_to_member member event s', true)
  ]
]

unfoldable pub remove_member : ℕ → GuildService → GuildService × Bool
unfolding disband depart
remove_member member s =
    let unindexed : GuildService = record s { member_index = erase member s.member_index } in
    elim (find member s.member_index) [
      | none ↦ (s, false)
      | some guild_id ↦ elim (find guild_id s.guilds) [
        | none ↦ (unindexed, false)
        | some guild ↦ elim (find member guild.members) [
          | none ↦ (unindexed, false)
          | some entry ↦
              if guild.leader_session_id == member
              then (disband guild_id entry.user_id guild s, true)
              else ((depart guild_id member entry.user_id guild s).0, true)
        ]
      ]
    ]

-- The branch of replaceMemberSession behind its lookups.
replace_found : ℕ → ℕ → ℕ → GuildRecord → GuildMember → GuildService → GuildService
replace_found old new guild_id guild member s =
    let moved : GuildRecord = record guild {
      members = emplace new (record member { session_id = new }) (erase old guild.members);
      leader_session_id = if guild.leader_session_id == old then new else guild.leader_session_id;
    } in
    record s {
      guilds = put guild_id moved s.guilds;
      member_index = put new guild_id (erase old s.member_index);
    }

unfoldable pub replace_member_session : ℕ → ℕ → GuildService → GuildService × Bool
unfolding replace_found
replace_member_session old new s =
    if old == new then (s, true) else elim (find old s.member_index) [
      | none ↦ (s, false)
      | some guild_id ↦
          if contains new s.member_index then (s, false) else elim (find guild_id s.guilds) [
            | none ↦ (s, false)
            | some guild ↦ elim (find old guild.members) [
              | none ↦ (s, false)
              | some member ↦ (replace_found old new guild_id guild member s, true)
            ]
          ]
    ]

-- std::sort by session id. The ids of a guild's members differ, so the order is determined.
unfoldable pub insert : GuildMember → List GuildMember → List GuildMember
insert member [] = member ∷ []
insert member (other ∷ rest) =
    if ltb member.session_id other.session_id
    then member ∷ other ∷ rest
    else other ∷ insert member rest

unfoldable pub sort : List GuildMember → List GuildMember
unfolding insert
sort [] = []
sort (member ∷ rest) = insert member (sort rest)

unfoldable pub get_guild_info : ℕ → GuildService → Option GuildInfo
unfolding sort
get_guild_info guild_id s = elim (find guild_id s.guilds) [
  | none ↦ none
  | some guild ↦ some (record {
    guild_id = guild.id;
    leader_session_id = guild.leader_session_id;
    name = guild.name;
    members = sort (values guild.members);
  })
]

unfoldable pub guild_for_member : ℕ → GuildService → Option ℕ
guild_for_member session s = find session s.member_index
