-- ===== src/Combat.antt =====
-- src/combat: Dispatcher. The validator and the handler of skills are functions of the event; the calls of
-- the handler of damage are kept in a list, in order. Ids are 64 bits wide, amounts are integers.
pub mod Damage
pub mod Tests
use gameserver_hide.Base.{
  ℕ, Bool, true, false, Option, none, some, List, [], ◌∷◌, ◌++◌, if◌then◌else◌,
}
use gameserver_hide.Base.Int.{ℤ, pos}

pub record SkillEvent : Type 0 where
  pub attacker_id : ℕ
  pub target_id : ℕ
  pub skill_id : ℕ
  pub base_damage : ℤ

pub record DamageEvent : Type 0 where
  pub source_id : ℕ
  pub target_id : ℕ
  pub skill_id : ℕ
  pub amount : ℤ

pub record Dispatcher : Type 0 where
  pub skill_validator : Option (SkillEvent → Bool)
  pub skill_handler : Option (SkillEvent → Option DamageEvent)
  pub damage_handler : Bool
  pub handled : List DamageEvent
  pub damage_history : List DamageEvent

abbrev pub init : Dispatcher
init = record {
  skill_validator = none;
  skill_handler = none;
  damage_handler = false;
  handled = [];
  damage_history = [];
}

abbrev pub set_skill_validator : Option (SkillEvent → Bool) → Dispatcher → Dispatcher
set_skill_validator validator d = record d { skill_validator = validator }

abbrev pub set_skill_handler : Option (SkillEvent → Option DamageEvent) → Dispatcher → Dispatcher
set_skill_handler handler d = record d { skill_handler = handler }

abbrev pub set_damage_handler : Bool → Dispatcher → Dispatcher
set_damage_handler handler d = record d { damage_handler = handler }

unfoldable pub build_damage_from_skill : SkillEvent → DamageEvent
build_damage_from_skill event = record {
  source_id = event.attacker_id;
  target_id = event.target_id;
  skill_id = event.skill_id;
  amount = event.base_damage;
}

-- DamageEvent{}
abbrev pub no_damage : DamageEvent
no_damage = record { source_id = 0; target_id = 0; skill_id = 0; amount = pos 0 }

-- Whether a validator that may be missing lets the event through.
abbrev pub lets_through : Option (SkillEvent → Bool) → SkillEvent → Bool
lets_through none event = true
lets_through (some validator) event = validator event

-- derived.value_or(...), for a handler that may be missing.
abbrev pub derive : Option (SkillEvent → Option DamageEvent) → SkillEvent → DamageEvent
derive none event = build_damage_from_skill event
derive (some handler) event = elim (handler event) [
  | none ↦ build_damage_from_skill event
  | some damage ↦ damage
]

unfoldable pub process_damage_event : DamageEvent → Dispatcher → Dispatcher
process_damage_event event d = record d {
  damage_history = d.damage_history ++ event ∷ [];
  handled = if d.damage_handler then d.handled ++ event ∷ [] else d.handled;
}

unfoldable pub process_skill_event : SkillEvent → Dispatcher → Dispatcher × DamageEvent
unfolding process_damage_event
process_skill_event event d =
    if lets_through d.skill_validator event
    then (process_damage_event (derive d.skill_handler event) d, derive d.skill_handler event)
    else (d, no_damage)
