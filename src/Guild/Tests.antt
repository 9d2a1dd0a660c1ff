-- ===== src/Guild/Tests.antt =====
-- A guild of two sessions, built by calls on the service of src/guild, and what the theorems say of it.
use gameserver_hide.Base.{refl, true, List, [], ◌∷◌, text, arith}
use gameserver_hide.Base.Map.{find, put, emplace}
use gameserver_hide.Guild.{
  GuildRecord, init, set_event_sink, create_guild, join_guild, leave_guild, remove_member,
}
use gameserver_hide.Guild.Index.{IsIndexed}
use gameserver_hide.Guild.Run.{Call, create, join, set_sink, step, run, run-init-IsIndexed}
use gameserver_hide.Guild.Effects.{LeavesAsRemoved, leave-remove_member}

-- Session 20 leads guild 1, and session 10 joins it.
abbrev calls : List Call
calls = set_sink true ∷ create 20 (text "al") (text "red") ∷ join 1 10 (text "bo") ∷ []

abbrev red : GuildRecord
red = record {
  id = 1;
  leader_session_id = 20;
  name = text "red";
  members =
      (20, record { session_id = 20; user_id = text "al" })
      ∷ (10, record { session_id = 10; user_id = text "bo" })
      ∷ [];
}

run-init-IsIndexed_example : IsIndexed (run init calls)
run-init-IsIndexed_example = run-init-IsIndexed calls (ground arith)

leave-remove_member_example :
    LeavesAsRemoved 1 10 red
      (run init calls)
      (leave_guild 1 10 (run init calls))
      (remove_member 10 (run init calls)).0
      (find 10 red.members)
unfolding run step create_guild join_guild find put emplace set_event_sink text
leave-remove_member_example =
    leave-remove_member 1 10 (run init calls) red run-init-IsIndexed_example refl
