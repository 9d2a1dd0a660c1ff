-- ===== src/Server/World.antt =====
-- The state of Server of src/net/server.h, and what it takes from outside. `B` is the state of a token
-- bucket, `S` that of the inventory storage, `R` that of the random generators. The logger is left out.
-- A session is a shared object: `detached` keeps those that have left `sessions_` and that a connection may
-- still hold. Objects are told apart by their ids, which are new until next_id_ has wrapped.
use gameserver_hide.Base.{ℕ, Bool, true, Option, none, some, [], Text}
use gameserver_hide.Base.Int.{ℤ, pos}
use gameserver_hide.Base.Map.{Map, find, put, erase}
use gameserver_hide.Net.Auth
use gameserver_hide.Net.Auth.{TokenService}
use gameserver_hide.Session.{Session, UserContext, clear_user_context, enqueue_send}
use gameserver_hide.Party.Types
use gameserver_hide.Party.Types.{PartyService}
use gameserver_hide.Guild
use gameserver_hide.Guild.{GuildService}
use gameserver_hide.Chat
use gameserver_hide.Chat.{ChatService}
use gameserver_hide.Matching
use gameserver_hide.Matching.{MatchQueue}
use gameserver_hide.Dungeon
use gameserver_hide.Dungeon.{InstanceManager}
use gameserver_hide.Inventory.{InventoryStorage}
use gameserver_hide.Server.{SecurityPolicy, Metrics, count_error}
use gameserver_hide.Server.Registry
use gameserver_hide.Server.Registry.{SessionRegistry}

-- The token bucket, the inventory storage, the draws of a byte, of a seed and of a trace id, the cast
-- of the match rule, and the number format of std::ostringstream.
pub record World (B S R : Type 0) : Type 0 where
  pub consume : B → ℕ → ℕ → B × Bool
  pub storage : InventoryStorage S
  pub draw_byte : R → R × ℕ
  pub draw_seed : R → R × ℕ
  pub trace_id : R → R × Text
  pub expand : ℤ → ℤ → ℤ
  pub decimal : ℕ → Text

pub record Server (B S R : Type 0) : Type 0 where
  pub next_id : ℕ
  pub sessions : Map (Session B)
  pub detached : Map (Session B)
  pub registry : SessionRegistry
  pub token_service : TokenService
  pub parties : PartyService
  pub guilds : GuildService
  pub chat : ChatService
  pub match_queue : MatchQueue
  pub instances : InstanceManager
  pub inventory : S
  pub party_instances : Map ℕ
  pub instance_tickets : Map Text
  pub instance_seeds : Map ℕ
  pub instance_reward_grants : Map ℕ
  pub session_instances : Map ℕ
  pub session_characters : Map ℕ
  pub rng : R
  pub next_reward_grant_id : ℕ
  pub metrics : Metrics
  pub security_policy : SecurityPolicy

module _ {B S R : Type 0} where
  -- A new server, whose guild and chat services send to its sessions.
  abbrev pub new_server : S → R → SecurityPolicy → Server B S R
  new_server inventory rng policy = record {
    next_id = 1;
    sessions = [];
    detached = [];
    registry = Registry.init;
    token_service = Auth.init 300_000;
    parties = Types.init;
    guilds = record Guild.init { event_sink = true };
    chat = record Chat.init { event_sink = true };
    match_queue = Matching.init (record {
      max_mmr_delta = pos 100;
      expansion_per_second = pos 5;
      min_party_size = 1;
      max_party_size = 5;
    });
    instances = Dungeon.init;
    inventory = inventory;
    party_instances = [];
    instance_tickets = [];
    instance_seeds = [];
    instance_reward_grants = [];
    session_instances = [];
    session_characters = [];
    rng = rng;
    next_reward_grant_id = 1;
    metrics = record { packets_total = 0; bytes_total = 0; error_total = 0 };
    security_policy = policy;
  }

  -- metrics_.error_total += 1
  abbrev pub with_error : Server B S R → Server B S R
  with_error s = record s { metrics = count_error s.metrics }

  -- The session object of an id.
  unfoldable pub session_of : ℕ → Server B S R → Option (Session B)
  session_of id s = elim (find id s.sessions) [
    | none ↦ find id s.detached
    | some session ↦ some session
  ]

  -- session.userContext()
  unfoldable pub user_of : ℕ → Server B S R → Option UserContext
  unfolding session_of
  user_of id s = elim (session_of id s) [ none ↦ none | some session ↦ session.user_context ]

  -- A change of a session object, in place.
  unfoldable pub on_session : ℕ → (Session B → Session B) → Server B S R → Server B S R
  on_session id f s = elim (find id s.sessions) [
    | some session ↦ record s { sessions = put id (f session) s.sessions }
    | none ↦ elim (find id s.detached) [
      | none ↦ s
      | some session ↦ record s { detached = put id (f session) s.detached }
    ]
  ]

  -- clearUserContext() on a session of the map, and its removal from the map.
  unfoldable pub detach : ℕ → Server B S R → Server B S R
  detach id s = elim (find id s.sessions) [
    | none ↦ s
    | some session ↦ record s {
      sessions = erase id s.sessions;
      detached = put id (clear_user_context session) s.detached;
    }
  ]

  -- session->enqueueSend(frame, now), for the session of an id, where there is one
  unfoldable pub send_to : World B S R → ℕ → Text → ℕ → Map (Session B) → Map (Session B)
  send_to w id frame clock sessions = elim (find id sessions) [
    | none ↦ sessions
    | some session ↦ put id (enqueue_send w.consume frame clock session).0 sessions
  ]
