-- ===== src/Guild/Index/Grow.antt =====
-- createGuild and joinGuild of src/guild/guild.cpp keep the invariant.
use gameserver_hide.Base.{ℕ, ◌+◌, ◌≤◌, ◌<◌, ◌^◌, ◌≡◌, true, none, some, Text, arith}
use gameserver_hide.Base.Map.{find, find-nil, find-put, find-emplace}
use gameserver_hide.Guild.{GuildService, create_guild, join_guild}
use gameserver_hide.Guild.Index.{member_of, IsGuild, IsMember, IsIndexed}

-- The counter of guilds does not wrap.
module _ (leader : ℕ) (user_id name : Text) (s : GuildService) (v : IsIndexed s)
    (room : s.next_guild_id + 1 < 2 ^ 64) where
  abbrev create_service : GuildService
  create_service = (create_guild leader user_id name s).0

  create_sound :
      (id g : ℕ)
      → find id create_service.member_index ≡ some g
      → member_of id g create_service.guilds ≡ true
  unfolding create_guild
  create_sound id g h = grind (arith, find-put, find-emplace, v.sound id g, v.fresh s.next_guild_id)

  create_complete :
      (id g : ℕ)
      → member_of id g create_service.guilds ≡ true
      → find id create_service.member_index ≡ some g
  unfolding create_guild
  create_complete id g h =
      grind (arith, find-put, find-emplace, find-nil, v.complete id g, v.fresh s.next_guild_id)

  create-valid : (g : ℕ) → IsGuild g (find g create_service.guilds)
  unfolding create_guild
  create-valid g = grind (arith, find-emplace, find-nil, v.fresh s.next_guild_id, v.valid g)

  create-keyed : (id g : ℕ) → IsMember id (find g create_service.guilds)
  unfolding create_guild
  create-keyed id g = grind (arith, find-emplace, find-nil, v.fresh s.next_guild_id, v.keyed id g)

  create-fresh : (g : ℕ) → create_service.next_guild_id ≤ g → find g create_service.guilds ≡ none
  unfolding create_guild
  create-fresh g h = grind (arith, find-emplace, v.fresh g)

  pub create_guild-IsIndexed : IsIndexed (create_guild leader user_id name s).0
  create_guild-IsIndexed = record {
    sound = create_sound;
    complete = create_complete;
    valid = create-valid;
    keyed = create-keyed;
    fresh = create-fresh;
  }

module _ (guild_id member : ℕ) (user_id : Text) (s : GuildService) (v : IsIndexed s) where
  abbrev join_service : GuildService
  join_service = (join_guild guild_id member user_id s).0

  join_sound :
      (id g : ℕ)
      → find id join_service.member_index ≡ some g
      → member_of id g join_service.guilds ≡ true
  unfolding join_guild
  join_sound id g h = grind (arith, find-put, find-emplace, v.sound id g)

  join_complete :
      (id g : ℕ)
      → member_of id g join_service.guilds ≡ true
      → find id join_service.member_index ≡ some g
  unfolding join_guild
  join_complete id g h = grind (arith, find-put, find-emplace, v.complete id g, v.complete member)

  join-valid : (g : ℕ) → IsGuild g (find g join_service.guilds)
  unfolding join_guild
  join-valid g = grind (arith, find-put, find-emplace, v.valid g)

  join-keyed : (id g : ℕ) → IsMember id (find g join_service.guilds)
  unfolding join_guild
  join-keyed id g = grind (arith, find-put, find-emplace, v.keyed id g)

  join-fresh : (g : ℕ) → join_service.next_guild_id ≤ g → find g join_service.guilds ≡ none
  unfolding join_guild
  join-fresh g h = grind (arith, find-put, v.fresh g)

  pub join_guild-IsIndexed : IsIndexed (join_guild guild_id member user_id s).0
  join_guild-IsIndexed = record {
    sound = join_sound;
    complete = join_complete;
    valid = join-valid;
    keyed = join-keyed;
    fresh = join-fresh;
  }
