-- ===== src/Guild/Index.antt =====
-- The invariant of src/guild: the member index is exactly the membership of the guilds.
pub mod Grow
pub mod Leave
pub mod Replace
use gameserver_hide.Base.{ℕ, ◌≤◌, ◌<◌, ◌≡◌, ◌≢◌, Bool, true, false, Option, none, some, length}
use gameserver_hide.Base.Map.{Map, find, contains}
use gameserver_hide.Guild.{GuildMember, GuildRecord, GuildService}

-- Whether a session is a member of a guild.
abbrev pub member_of : ℕ → ℕ → Map GuildRecord → Bool
member_of id guild_id guilds = elim (find guild_id guilds) [
  | none ↦ false
  | some guild ↦ contains id guild.members
]

-- What holds of the record that is found for a guild.
abbrev pub IsGuild : ℕ → Option GuildRecord → Type 0
IsGuild guild_id none = Unit {0}
IsGuild guild_id (some guild) =
    (guild.id ≡ guild_id)
    × (0 < length guild.name)
    × (contains guild.leader_session_id guild.members ≡ true)

abbrev pub IsKeyed : ℕ → Option GuildMember → Type 0
IsKeyed id none = Unit {0}
IsKeyed id (some member) = member.session_id ≡ id

-- What is found for a session in the record that is found for a guild.
abbrev pub IsMember : ℕ → Option GuildRecord → Type 0
IsMember id none = Unit {0}
IsMember id (some guild) = IsKeyed id (find id guild.members)

pub record IsIndexed (s : GuildService) : Type 0 where
  pub sound : (id g : ℕ) → find id s.member_index ≡ some g → member_of id g s.guilds ≡ true
  pub complete : (id g : ℕ) → member_of id g s.guilds ≡ true → find id s.member_index ≡ some g
  pub valid : (g : ℕ) → IsGuild g (find g s.guilds)
  pub keyed : (id g : ℕ) → IsMember id (find g s.guilds)
  pub fresh : (g : ℕ) → s.next_guild_id ≤ g → find g s.guilds ≡ none
