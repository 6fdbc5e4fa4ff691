-- ===== src/Conditions/Tests.antt =====
-- An agent that has eaten, is hasted and burns.
use rustibia_server.Prelude.{
  ℕ, Bool, true, ◌+◌, ◌≡◌, ◌==◌, refl, not, ◌&&◌, if◌then◌else◌, none, some, [], ◌∷◌, arith,
}
use rustibia_server.Prelude.Int.{pos}
use rustibia_server.Prelude.Bits.{digit}
use rustibia_server.Combat.{CombatElement}
use rustibia_server.DamageOverTime.{DamageOverTime}
use rustibia_server.DamageOverTime.Schedules.{Schedule}
use rustibia_server.Conditions.Kinds.{Condition, SpeedEffect}
use rustibia_server.Conditions.{
  Conditions, after, is_fed, is_magic_shield, is_damage, add_fed_ticks, reset_logout_block,
  apply_speed, expire_speed, extend_magic_shield,
}
use rustibia_server.Conditions.Damage.{apply_damage_over_time, next_damage_hit}
use rustibia_server.Conditions.Stale.{next_damage_hit-apply_damage_over_time}
use rustibia_server.DamageOverTime.{remaining}
use rustibia_server.Conditions.Status.{
  status, icon, is_logout_block, is_paralysis, is_haste, status_icons,
}
use rustibia_server.Conditions.View.{at, IsValid, damage_slot}
use rustibia_server.Conditions.Laws.{IsRoomy, meal, apply_speed_lem, add_fed_ticks_lem}
use rustibia_server.Conditions.Timers.{
  is_there, later_of, reset_logout_block_lem, extend_magic_shield_lem,
}
use rustibia_server.Conditions.Replacing.{expire_speed-apply_speed}
use rustibia_server.Conditions.Damages.{is_stronger, apply_damage_over_time_lem}

abbrev fire : ℕ → DamageOverTime
fire count = record {
  element = CombatElement.fire;
  source = none;
  interval = 180;
  generation = 2;
  schedule = Schedule.flat 10 count;
}

abbrev agent : Conditions
agent = record {
  conditions =
      Condition.fed 500 0
      ∷ Condition.speed SpeedEffect.haste (pos 30) 1
      ∷ Condition.damage_over_time (fire 3)
      ∷ [];
  next_generation = 3;
}

agent-IsValid : IsValid agent
unfolding at
agent-IsValid = record {
  distinct = (refl, (refl, (refl, tt)));
  old = (omega arith, (omega arith, (omega arith, tt)));
}

agent-IsRoomy : IsRoomy agent
agent-IsRoomy = omega arith

status_icons_example :
    (digit (status agent) 0 ≡ icon is_logout_block agent)
    × (digit (status agent) 1 + icon is_fed agent ≡ 1)
    × (digit (status agent) 2 ≡ icon is_paralysis agent)
    × (digit (status agent) 3 ≡ icon (is_damage CombatElement.fire) agent)
    × (digit (status agent) 4 ≡ icon (is_damage CombatElement.earth) agent)
    × (digit (status agent) 5 ≡ icon (is_damage CombatElement.energy) agent)
    × (digit (status agent) 6 ≡ icon is_haste agent)
    × (digit (status agent) 7 ≡ icon is_magic_shield agent)
status_icons_example = status_icons agent

apply_speed_lem_example :
    IsValid (apply_speed agent SpeedEffect.paralysis (pos 0)).0
    × ((apply_speed agent SpeedEffect.paralysis (pos 0)).1 ≡ 3)
    × (at 2 (apply_speed agent SpeedEffect.paralysis (pos 0)).0.conditions ≡ (
        if 2 == 2
        then some (Condition.speed SpeedEffect.paralysis (pos 0) 3)
        else at 2 agent.conditions))
apply_speed_lem_example =
    apply_speed_lem agent SpeedEffect.paralysis (pos 0) 2 agent-IsValid agent-IsRoomy

add_fed_ticks_lem_example :
    IsValid (add_fed_ticks agent 600 240).0
    × ((add_fed_ticks agent 600 240).1 ≡ (meal 600 240 3 (at 0 agent.conditions)).1)
    × (at 0 (add_fed_ticks agent 600 240).0.conditions ≡ (
        if 0 == 0
        then some (
            Condition.fed
              (meal 600 240 3 (at 0 agent.conditions)).0
              (meal 600 240 3 (at 0 agent.conditions)).1)
        else at 0 agent.conditions))
add_fed_ticks_lem_example = add_fed_ticks_lem agent 600 240 0 agent-IsValid agent-IsRoomy

reset_logout_block_lem_example :
    IsValid (reset_logout_block 1200 agent 40).0
    × ((reset_logout_block 1200 agent 40).1 ≡ not (is_there (at 1 agent.conditions)))
    × (at 1 (reset_logout_block 1200 agent 40).0.conditions
        ≡ (if 1 == 1 then some (Condition.logout_block (after 40 1200)) else at 1 agent.conditions))
reset_logout_block_lem_example = reset_logout_block_lem 1200 agent 40 1 agent-IsValid

extend_magic_shield_lem_example :
    IsValid (extend_magic_shield agent 90).0
    × ((extend_magic_shield agent 90).1 ≡ not (is_there (at 3 agent.conditions)))
    × (at 3 (extend_magic_shield agent 90).0.conditions ≡ (
        if 3 == 3
        then some (Condition.magic_shield (later_of (at 3 agent.conditions) 90))
        else at 3 agent.conditions))
extend_magic_shield_lem_example = extend_magic_shield_lem agent 90 3 agent-IsValid

expire_speed-apply_speed_example :
    IsValid (expire_speed (apply_speed agent SpeedEffect.haste (pos 50)).0 1).0
    × ((expire_speed (apply_speed agent SpeedEffect.haste (pos 50)).0 1).1 ≡ (1 == 3))
    × ((if 1 == 3
          then (apply_speed agent SpeedEffect.haste (pos 50)).0
          else (expire_speed (apply_speed agent SpeedEffect.haste (pos 50)).0 1).0)
        ≡ (apply_speed agent SpeedEffect.haste (pos 50)).0)
    × ((expire_speed (apply_speed agent SpeedEffect.haste (pos 50)).0 1).0.next_generation
        ≡ (apply_speed agent SpeedEffect.haste (pos 50)).0.next_generation)
    × (at 2 (expire_speed (apply_speed agent SpeedEffect.haste (pos 50)).0 1).0.conditions
        ≡ (if 1 == 3 then none else some (Condition.speed SpeedEffect.haste (pos 50) 3)))
expire_speed-apply_speed_example =
    expire_speed-apply_speed agent SpeedEffect.haste (pos 50) 1 2 agent-IsValid agent-IsRoomy

apply_damage_over_time_lem_example :
    IsValid (apply_damage_over_time agent (fire 7)).0
    × ((apply_damage_over_time agent (fire 7)).1 ≡ (
        if is_stronger (fire 7) (at (damage_slot CombatElement.fire) agent.conditions)
        then some 3
        else none))
    × (at 6 (apply_damage_over_time agent (fire 7)).0.conditions ≡ (
        if (6 == damage_slot CombatElement.fire)
          && is_stronger (fire 7) (at (damage_slot CombatElement.fire) agent.conditions)
        then some (Condition.damage_over_time (record (fire 7) { generation = 3 }))
        else at 6 agent.conditions))
apply_damage_over_time_lem_example =
    apply_damage_over_time_lem agent (fire 7) 6 agent-IsValid agent-IsRoomy

abbrev always : ℕ → ℕ → ℕ → Bool
always more dealt med = true

fire-IsStronger : is_stronger (fire 7) (at (damage_slot CombatElement.fire) agent.conditions) ≡ true
unfolding at remaining
fire-IsStronger = refl

next_damage_hit-apply_damage_over_time_example :
    next_damage_hit always (apply_damage_over_time agent (fire 7)).0 CombatElement.fire 2
    ≡ ((apply_damage_over_time agent (fire 7)).0, none)
next_damage_hit-apply_damage_over_time_example =
    next_damage_hit-apply_damage_over_time always agent (fire 7) 2 agent-IsValid agent-IsRoomy
      fire-IsStronger (omega arith)
