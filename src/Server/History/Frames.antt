-- ===== src/Server/History/Frames.antt =====
-- What the handlers of src/net/server.cpp leave as it is: the registry of users and the record of the
-- instances that were rewarded.
use native.Mathlib.Omega.{arith}
use gameserver_hide.Base.{ℕ, Option, none, some, List, [], ◌∷◌, Text, ◌≡◌, refl}
use gameserver_hide.Base.Map.{Map}
use gameserver_hide.Party.Types.{PartyMember, PartyInfo}
use gameserver_hide.Matching.{MatchCandidate}
use gameserver_hide.Net.Protocol.Match.{MatchFoundNotify}
use gameserver_hide.Guild.{GuildService}
use gameserver_hide.Session.{Session}
use gameserver_hide.Server.World.{World, Server, on_session, detach}
use gameserver_hide.Server.Registry.{SessionRegistry}
use gameserver_hide.Server.Social
use gameserver_hide.Server.Social.{
  with_guilds, with_chat, guild_create, guild_join, guild_leave, chat_send,
}
use gameserver_hide.Server.Items.{inventory_update}
use gameserver_hide.Server.Dungeons
use gameserver_hide.Server.Dungeons.{dungeon_enter, dungeon_result}
use gameserver_hide.Server.Matches
use gameserver_hide.Server.Matches.{
  match_request, notify_members, open_instances, notify_party, notification,
}

-- The two parts of the state that few handlers change.
abbrev pub guarded : {B S R : Type 0} → Server B S R → SessionRegistry × Map ℕ
guarded s = (s.registry, s.instance_reward_grants)

module _ {B S R : Type 0} where
  pub on_session-guarded :
      (id : ℕ) (f : Session B → Session B) (s : Server B S R)
      → guarded (on_session id f s) ≡ guarded s
  unfolding on_session
  on_session-guarded id f s = ground arith

  pub detach-guarded : (id : ℕ) (s : Server B S R) → guarded (detach id s) ≡ guarded s
  unfolding detach
  detach-guarded id s = ground arith

module _ {B S R : Type 0} (w : World B S R) (clock : ℕ) where
  pub with_guilds-guarded :
      (guilds : GuildService) (s : Server B S R)
      → guarded (with_guilds w clock guilds s) ≡ guarded s
  unfolding with_guilds
  with_guilds-guarded guilds s = refl

  pub dungeon_enter-guarded :
      (id : ℕ) (payload : Text) (s : Server B S R)
      → guarded (dungeon_enter id payload s).0 ≡ guarded s
  unfolding dungeon_enter Dungeons.enter_instance
  dungeon_enter-guarded id payload s = ground arith

  pub inventory_update-guarded :
      (time id : ℕ) (payload : Text) (s : Server B S R)
      → guarded (inventory_update w time id payload s).0 ≡ guarded s
  unfolding inventory_update
  inventory_update-guarded time id payload s = ground arith

  pub guild_create-guarded :
      (id : ℕ) (payload : Text) (s : Server B S R)
      → guarded (guild_create w clock id payload s).0 ≡ guarded s
  unfolding guild_create with_guilds
  guild_create-guarded id payload s = ground arith

  pub guild_join-guarded :
      (id : ℕ) (payload : Text) (s : Server B S R)
      → guarded (guild_join w clock id payload s).0 ≡ guarded s
  unfolding guild_join with_guilds
  guild_join-guarded id payload s = ground arith

  pub guild_leave-guarded :
      (id : ℕ) (payload : Text) (s : Server B S R)
      → guarded (guild_leave w clock id payload s).0 ≡ guarded s
  unfolding guild_leave Social.leave with_guilds
  guild_leave-guarded id payload s = ground arith

  pub chat_send-guarded :
      (id : ℕ) (payload : Text) (s : Server B S R)
      → guarded (chat_send w clock id payload s).0 ≡ guarded s
  unfolding chat_send Social.chat_global Social.chat_party with_chat
  chat_send-guarded id payload s = ground arith

  notify_members-guarded :
      (instance_id : ℕ) (frame : Text) (asker : Option ℕ) (members : List PartyMember)
      (s : Server B S R)
      → guarded (notify_members w clock instance_id frame asker members s) ≡ guarded s
  unfolding notify_members
  notify_members-guarded instance_id frame asker [] s = refl
  notify_members-guarded instance_id frame asker (member ∷ members) s =
      grind (arith, notify_members-guarded instance_id frame asker members)

  notify_party-guarded :
      (instance_id : ℕ) (frame : Text) (asker : Option ℕ) (info : Option PartyInfo)
      (s : Server B S R)
      → guarded (notify_party w clock instance_id frame asker info s) ≡ guarded s
  notify_party-guarded instance_id frame asker none s = refl
  notify_party-guarded instance_id frame asker (some info) s =
      notify_members-guarded instance_id frame asker info.members s

  open_instances-guarded :
      (version id party_id : ℕ) (candidates : List MatchCandidate)
      (response : Option MatchFoundNotify) (s : Server B S R)
      → guarded (open_instances w clock version id party_id candidates response s).0 ≡ guarded s
  unfolding open_instances
  open_instances-guarded version id party_id [] response s = refl
  open_instances-guarded version id party_id (candidate ∷ candidates) response s =
      grind (arith, open_instances-guarded version id party_id candidates, notify_party-guarded)

  pub match_request-guarded :
      (version id : ℕ) (payload : Text) (now : ℕ) (s : Server B S R)
      → guarded (match_request w clock version id payload now s).0 ≡ guarded s
  unfolding match_request Matches.match_party Matches.seek_match
  match_request-guarded version id payload now s = grind (arith, open_instances-guarded version)

  pub result-registry :
      (time id : ℕ) (payload : Text) (s : Server B S R)
      → (dungeon_result w time id payload s).0.registry ≡ s.registry
  unfolding dungeon_result Dungeons.close_instance Dungeons.record_result
  result-registry time id payload s = ground arith
