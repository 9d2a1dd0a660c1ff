-- ===== src/Guild/Run.antt =====
-- Histories of calls on the guild service of src/guild/guild.h.
use gameserver_hide.Base.{ℕ, ◌+◌, ◌^◌, ◌≤◌, ◌<◌, List, [], ◌∷◌, Bool, Text, length, arith}
use gameserver_hide.Base.Map.{find-nil}
use gameserver_hide.Guild.{
  GuildService, init, set_event_sink, create_guild, join_guild, leave_guild, remove_member,
  replace_member_session,
}
use gameserver_hide.Guild.Index.{IsIndexed}
use gameserver_hide.Guild.Index.Grow.{create_guild-IsIndexed, join_guild-IsIndexed}
use gameserver_hide.Guild.Index.Leave.{leave_guild-IsIndexed, remove_member-IsIndexed}
use gameserver_hide.Guild.Index.Replace.{replace_member_session-IsIndexed}

pub data Call : Type 0 where
  create : ℕ → Text → Text → Call
  join : ℕ → ℕ → Text → Call
  leave replace : ℕ → ℕ → Call
  remove : ℕ → Call
  set_sink : Bool → Call

unfoldable pub step : GuildService → Call → GuildService
step s (create leader user_id name) = (create_guild leader user_id name s).0
step s (join guild member user_id) = (join_guild guild member user_id s).0
step s (leave guild member) = (leave_guild guild member s).0
step s (replace old new) = (replace_member_session old new s).0
step s (remove member) = (remove_member member s).0
step s (set_sink sink) = set_event_sink sink s

unfoldable pub run : GuildService → List Call → GuildService
unfolding step
run s [] = s
run s (c ∷ cs) = run (step s c) cs

step-next :
    (s : GuildService) (c : Call)
    → s.next_guild_id + 1 < 2 ^ 64
    → (step s c).next_guild_id ≤ s.next_guild_id + 1
unfolding step create_guild join_guild leave_guild remove_member replace_member_session
    set_event_sink
step-next s (create leader user_id name) h = ground arith
step-next s _ h = ground arith

step-IsIndexed :
    (s : GuildService) (c : Call)
    → s.next_guild_id + 1 < 2 ^ 64
    → IsIndexed s
    → IsIndexed (step s c)
unfolding step set_event_sink
step-IsIndexed s (create leader user_id name) h v = create_guild-IsIndexed leader user_id name s v h
step-IsIndexed s (join guild member user_id) h v = join_guild-IsIndexed guild member user_id s v
step-IsIndexed s (leave guild member) h v = leave_guild-IsIndexed guild member s v
step-IsIndexed s (replace old new) h v = replace_member_session-IsIndexed old new s v
step-IsIndexed s (remove member) h v = remove_member-IsIndexed member s v
step-IsIndexed s (set_sink sink) h v = record {
  sound = v.sound;
  complete = v.complete;
  valid = v.valid;
  keyed = v.keyed;
  fresh = v.fresh;
}

run-IsIndexed :
    (cs : List Call) (s : GuildService)
    → s.next_guild_id + length cs < 2 ^ 64
    → IsIndexed s
    → IsIndexed (run s cs)
unfolding run
run-IsIndexed [] s h v = v
run-IsIndexed (c ∷ cs) s h v =
    run-IsIndexed cs (step s c) (omega (arith, step-next s c)) (step-IsIndexed s c (omega arith) v)

-- After any history of fewer than 2^64 - 1 calls on a new guild service: the member index sends a
-- session to a guild exactly when the guild has the session as a member; the record of a guild carries
-- the guild's id and a name that is not empty, its leader is a member, and each member stands under its
-- own session id; ids from the counter on are unused.
pub run-init-IsIndexed : (cs : List Call) → length cs + 1 < 2 ^ 64 → IsIndexed (run init cs)
run-init-IsIndexed cs h = run-IsIndexed cs init (omega arith) init-IsIndexed
  where
    init-IsIndexed : IsIndexed init
    init-IsIndexed = record {
      sound = λ id g e. cc (find-nil {V = ℕ} id);
      complete = λ id g e. grind (arith, find-nil);
      valid = λ g. grind (arith, find-nil);
      keyed = λ id g. grind (arith, find-nil);
      fresh = λ g e. find-nil g;
    }
