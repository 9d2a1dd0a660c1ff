-- ===== src/Guild/Index/Replace.antt =====
-- replaceMemberSession of src/guild/guild.cpp keeps the invariant.
use gameserver_hide.Base.{ℕ, ◌≤◌, ◌≡◌, true, none, some, arith}
use gameserver_hide.Base.Map.{find, find-put, find-emplace, find-erase}
use gameserver_hide.Guild.{GuildService, replace_member_session}
use gameserver_hide.Guild.Index.{member_of, IsGuild, IsMember, IsIndexed}

module _ (old new : ℕ) (s : GuildService) (v : IsIndexed s) where
  abbrev replace_service : GuildService
  replace_service = (replace_member_session old new s).0

  replace_sound :
      (id g : ℕ)
      → find id replace_service.member_index ≡ some g
      → member_of id g replace_service.guilds ≡ true
  unfolding replace_member_session
  replace_sound id g h = grind (arith, find-put, find-emplace, find-erase, v.sound id g)

  replace_complete :
      (id g : ℕ)
      → member_of id g replace_service.guilds ≡ true
      → find id replace_service.member_index ≡ some g
  unfolding replace_member_session
  replace_complete id g h =
      grind (arith, find-put, find-emplace, find-erase, v.complete id g, v.complete id, v.sound old)

  replace-valid : (g : ℕ) → IsGuild g (find g replace_service.guilds)
  unfolding replace_member_session
  replace-valid g =
      grind (arith, find-put, find-emplace, find-erase, v.valid g, v.valid, v.complete new)

  replace-keyed : (id g : ℕ) → IsMember id (find g replace_service.guilds)
  unfolding replace_member_session
  replace-keyed id g = grind (arith, find-put, find-emplace, find-erase, v.keyed id g, v.keyed id)

  replace-fresh : (g : ℕ) → replace_service.next_guild_id ≤ g → find g replace_service.guilds ≡ none
  unfolding replace_member_session
  replace-fresh g h = grind (arith, find-put, v.fresh g)

  pub replace_member_session-IsIndexed : IsIndexed (replace_member_session old new s).0
  replace_member_session-IsIndexed = record {
    sound = replace_sound;
    complete = replace_complete;
    valid = replace-valid;
    keyed = replace-keyed;
    fresh = replace-fresh;
  }
