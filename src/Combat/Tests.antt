-- ===== src/Combat/Tests.antt =====
-- A Dispatcher of src/combat that rejects one skill, and what the theorem says of it.
use gameserver_hide.Base.{map, true, some, List, [], ◌∷◌, ◌++◌, ◌≡◌, ◌==◌, not, if◌then◌else◌}
use gameserver_hide.Base.Int.{pos}
use gameserver_hide.Combat.{SkillEvent, Dispatcher, init, set_skill_validator, set_damage_handler}
use gameserver_hide.Combat.Damage.{run, damages_of, answer_of, run_lem}

-- The skill 9 is forbidden.
abbrev guarded : Dispatcher
guarded =
    set_damage_handler true (set_skill_validator (some (λ event. not (event.skill_id == 9))) init)

abbrev events : List SkillEvent
events =
    record { attacker_id = 1; target_id = 2; skill_id = 5; base_damage = pos 30 }
    ∷ record { attacker_id = 2; target_id = 1; skill_id = 9; base_damage = pos 90 }
    ∷ []

run_lem_example :
    let (d, answers) = run guarded events in
    (d.damage_history ≡ guarded.damage_history ++ damages_of guarded events)
    × (d.handled ≡ (
        if guarded.damage_handler
        then guarded.handled ++ damages_of guarded events
        else guarded.handled))
    × (answers ≡ map (answer_of guarded) events)
run_lem_example = run_lem guarded events
