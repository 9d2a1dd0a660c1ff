-- ===== src/Combat/Damage.antt =====
-- The damage that a Dispatcher of src/combat records, over the skills that it processes.
use native.Mathlib.Omega.{arith}
use mathlib.Core.List.{append_assoc, append-nil}
use gameserver_hide.Base.{
  Option, none, some, Bool-cases, inl, inr, Bool, false, not, refl, List, [], ◌∷◌, ◌++◌, map, ◌≡◌,
  if◌then◌else◌,
}
use gameserver_hide.Combat.{
  SkillEvent, DamageEvent, Dispatcher, no_damage, lets_through, derive, build_damage_from_skill,
  process_damage_event, process_skill_event,
}

-- The dispatcher behind the events, and what it returned for each.
unfoldable pub run : Dispatcher → List SkillEvent → Dispatcher × List DamageEvent
unfolding process_skill_event
run d [] = (d, [])
run d (event ∷ events) =
    let (d', damage) = process_skill_event event d in
    let (d'', damages) = run d' events in (d'', damage ∷ damages)

-- The description of the behaviour, beside the code: an event is forbidden where a validator says so;
-- its damage is what a handler gives for it, and otherwise its base damage, from the attacker to the
-- target.
abbrev pub forbidden : Option (SkillEvent → Bool) → SkillEvent → Bool
forbidden none event = false
forbidden (some validator) event = not (validator event)

abbrev pub base_damage_of : SkillEvent → DamageEvent
base_damage_of event = record {
  source_id = event.attacker_id;
  target_id = event.target_id;
  skill_id = event.skill_id;
  amount = event.base_damage;
}

abbrev pub or_base : SkillEvent → Option DamageEvent → DamageEvent
or_base event none = base_damage_of event
or_base event (some damage) = damage

abbrev pub damage_of : Option (SkillEvent → Option DamageEvent) → SkillEvent → DamageEvent
damage_of none event = base_damage_of event
damage_of (some handler) event = or_base event (handler event)

unfoldable pub permitted : Option (SkillEvent → Bool) → List SkillEvent → List SkillEvent
permitted validator [] = []
permitted validator (event ∷ events) =
    let rest = permitted validator events in
    if forbidden validator event then rest else event ∷ rest

abbrev pub damages_of : Dispatcher → List SkillEvent → List DamageEvent
damages_of d events = map (damage_of d.skill_handler) (permitted d.skill_validator events)

abbrev pub answer_of : Dispatcher → SkillEvent → DamageEvent
answer_of d event =
    if forbidden d.skill_validator event then no_damage else damage_of d.skill_handler event

lets_through_lem :
    (validator : Option (SkillEvent → Bool)) (event : SkillEvent)
    → lets_through validator event ≡ not (forbidden validator event)
lets_through_lem none event = refl
lets_through_lem (some validator) event = ground arith

derive_lem :
    (handler : Option (SkillEvent → Option DamageEvent)) (event : SkillEvent)
    → derive handler event ≡ damage_of handler event
unfolding build_damage_from_skill
derive_lem none event = refl
derive_lem (some handler) event = ground arith

-- Processing skills one after the other records, behind the history so far, the damage of exactly the
-- permitted ones, in order; a handler of damage, if one is set, is called with the same events. What is
-- returned is the damage of each skill, and none for a forbidden one.
pub run_lem :
    (d : Dispatcher) (events : List SkillEvent)
    → let (d', answers) = run d events in
      (d'.damage_history ≡ d.damage_history ++ damages_of d events)
      × (d'.handled ≡ (if d.damage_handler then d.handled ++ damages_of d events else d.handled))
      × (answers ≡ map (answer_of d) events)
unfolding run permitted process_skill_event process_damage_event
run_lem d [] = grind (arith, append-nil)
run_lem d (event ∷ events) =
    let damage = damage_of d.skill_handler event in
    let d' : Dispatcher = process_damage_event damage d in
    let same_test = lets_through_lem d.skill_validator event in
    let same_damage = derive_lem d.skill_handler event in
    elim (Bool-cases (forbidden d.skill_validator event)) [
      | inl out ↦ ground (arith, out, same_test, run_lem d events)
      | inr through ↦ ground (
        arith,
        through,
        same_test,
        same_damage,
        run_lem d' events,
        append_assoc d.damage_history (damage ∷ []) (damages_of d events),
        append_assoc d.handled (damage ∷ []) (damages_of d events),
      )
    ]
