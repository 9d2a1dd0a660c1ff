-- ===== src/Guild/Index/Leave.antt =====
-- leaveGuild and removeMember of src/guild/guild.cpp keep the invariant.
use gameserver_hide.Base.{ℕ, ◌≤◌, ◌≡◌, true, none, some, arith}
use gameserver_hide.Base.Map.{find, find-put, find-erase, find-erase_all, elem-keys}
use gameserver_hide.Guild.{GuildService, leave_guild, remove_member}
use gameserver_hide.Guild.Index.{member_of, IsGuild, IsMember, IsIndexed}

module _ (guild_id member : ℕ) (s : GuildService) (v : IsIndexed s) where
  abbrev leave_service : GuildService
  leave_service = (leave_guild guild_id member s).0

  leave_sound :
      (id g : ℕ)
      → find id leave_service.member_index ≡ some g
      → member_of id g leave_service.guilds ≡ true
  unfolding leave_guild
  leave_sound id g h =
      grind (
        arith,
        find-put,
        find-erase,
        find-erase_all,
        elem-keys,
        v.sound id g,
        v.complete id guild_id,
      )

  leave_complete :
      (id g : ℕ)
      → member_of id g leave_service.guilds ≡ true
      → find id leave_service.member_index ≡ some g
  unfolding leave_guild
  leave_complete id g h = grind (
    arith,
    find-put,
    find-erase,
    find-erase_all,
    elem-keys,
    v.complete id g,
    v.complete id guild_id,
  )

  leave-valid : (g : ℕ) → IsGuild g (find g leave_service.guilds)
  unfolding leave_guild
  leave-valid g = grind (arith, find-put, find-erase, v.valid g)

  leave-keyed : (id g : ℕ) → IsMember id (find g leave_service.guilds)
  unfolding leave_guild
  leave-keyed id g = grind (arith, find-put, find-erase, v.keyed id g)

  leave-fresh : (g : ℕ) → leave_service.next_guild_id ≤ g → find g leave_service.guilds ≡ none
  unfolding leave_guild
  leave-fresh g h = grind (arith, find-put, find-erase, v.fresh g)

  pub leave_guild-IsIndexed : IsIndexed (leave_guild guild_id member s).0
  leave_guild-IsIndexed = record {
    sound = leave_sound;
    complete = leave_complete;
    valid = leave-valid;
    keyed = leave-keyed;
    fresh = leave-fresh;
  }

module _ (member : ℕ) (s : GuildService) (v : IsIndexed s) where
  abbrev remove_service : GuildService
  remove_service = (remove_member member s).0

  remove_sound :
      (id g : ℕ)
      → find id remove_service.member_index ≡ some g
      → member_of id g remove_service.guilds ≡ true
  unfolding remove_member
  remove_sound id g h =
      grind (arith, find-put, find-erase, find-erase_all, elem-keys, v.sound id g, v.sound member g)

  remove_complete :
      (id g : ℕ)
      → member_of id g remove_service.guilds ≡ true
      → find id remove_service.member_index ≡ some g
  unfolding remove_member
  remove_complete id g h = grind (
    arith,
    find-put,
    find-erase,
    find-erase_all,
    elem-keys,
    v.complete id g,
    v.complete id,
    v.sound member,
  )

  remove-valid : (g : ℕ) → IsGuild g (find g remove_service.guilds)
  unfolding remove_member
  remove-valid g = grind (arith, find-put, find-erase, v.valid g)

  remove-keyed : (id g : ℕ) → IsMember id (find g remove_service.guilds)
  unfolding remove_member
  remove-keyed id g = grind (arith, find-put, find-erase, v.keyed id g)

  remove-fresh : (g : ℕ) → remove_service.next_guild_id ≤ g → find g remove_service.guilds ≡ none
  unfolding remove_member
  remove-fresh g h = grind (arith, find-put, find-erase, v.fresh g)

  pub remove_member-IsIndexed : IsIndexed (remove_member member s).0
  remove_member-IsIndexed = record {
    sound = remove_sound;
    complete = remove_complete;
    valid = remove-valid;
    keyed = remove-keyed;
    fresh = remove-fresh;
  }
