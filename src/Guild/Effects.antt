-- ===== src/Guild/Effects.antt =====
-- leaveGuild against removeMember of src/guild/guild.cpp.
use gameserver_hide.Base.{
  ℕ, Bool, ◌≡◌, ◌&&◌, not, true, false, Option, none, some, [], ◌∷◌, ◌++◌, text, arith, ◌==◌,
  if◌then◌else◌,
}
use gameserver_hide.Base.Map.{find, erase}
use gameserver_hide.Guild.{
  GuildMember, GuildRecord, GuildService, GuildEvent, left, leave_guild, remove_member, event_of,
  user_ids,
}
use gameserver_hide.Guild.Index.{IsIndexed}

-- What a member that leaves alone is told.
abbrev pub told_left : ℕ → ℕ → GuildMember → GuildRecord → GuildEvent
told_left guild_id member entry guild =
    event_of left guild_id entry.user_id
      (user_ids (record guild { members = erase member guild.members })) (text "Guild member left")

-- What leaving comes to, beside what removing comes to, for the entry that the guild has of the member.
abbrev pub LeavesAsRemoved :
    ℕ
    → ℕ
    → GuildRecord
    → GuildService
    → GuildService × Bool
    → GuildService
    → Option GuildMember
    → Type 0
LeavesAsRemoved guild_id member guild s (t, done) r none = (done ≡ false) × (t ≡ s)
LeavesAsRemoved guild_id member guild s (t, done) r (some entry) =
    (done ≡ true)
    × (t.guilds ≡ r.guilds)
    × (t.member_index ≡ r.member_index)
    × (t.sent ≡ (
        if s.event_sink && not (guild.leader_session_id == member)
        then r.sent ++ (member, told_left guild_id member entry guild) ∷ []
        else r.sent))

-- For a member of a guild of an indexed service, leaving the guild and being removed do the same to the
-- guilds and to the index; they tell the same, but that a member who leaves and is not the leader is told
-- too. A session leaves no guild that it is not a member of: then nothing changes.
pub leave-remove_member :
    (guild_id member : ℕ) (s : GuildService) (guild : GuildRecord)
    → IsIndexed s
    → find guild_id s.guilds ≡ some guild
    → LeavesAsRemoved guild_id member guild s
        (leave_guild guild_id member s)
        (remove_member member s).0
        (find member guild.members)
unfolding leave_guild remove_member
leave-remove_member guild_id member s guild v e = ground (arith, v.complete member guild_id)
