-- ===== src/Conditions.antt =====
-- `Conditions` of `crates/server/src/entities/conditions.rs`: what an agent is under, in the order in
-- which it was put on. Ticks (`u64`) and generations (`u32`) wrap. `max_fed_ticks` and
-- `logout_block_ticks` are read from the game's configuration file, and are parameters.
pub mod Kinds
pub mod Damage
pub mod Status
pub mod View
pub mod Laws
pub mod Timers
pub mod Replacing
pub mod Damages
pub mod Stale
mod Tests
use rustibia_server.Prelude.{
  ℕ, zero, suc, ◌+◌, ◌-◌, ◌%◌, ◌==◌, ltb, leb, max, Bool, true, false, not, ◌&&◌, if◌then◌else◌,
  Option, none, some, List, [], ◌∷◌, ◌++◌, length, retain, find_map, update_first, any,
}
use Prim.Native.Nat.{bit_or}
use rustibia_server.Prelude.Int.{ℤ, pos}
use rustibia_server.Combat.{CombatElement, eq_element}
use rustibia_server.DamageOverTime.{DamageOverTime, remaining, next_hit, u32_mod}
use rustibia_server.Conditions.Kinds.{Condition, SpeedEffect, TimedCondition, DamageHit}

abbrev pub u64_mod : ℕ
u64_mod = 18446744073709551616

pub record Conditions : Type 0 where
  pub conditions : List Condition
  pub next_generation : ℕ

abbrev pub default : Conditions
default = record { conditions = []; next_generation = 0 }

-- `Tick + TickDelta`
abbrev pub after : ℕ → ℕ → ℕ
after tick delta = (tick + delta) % u64_mod

abbrev pub is_fed : Condition → Bool
is_fed (Condition.fed until generation) = true
is_fed _ = false

abbrev pub is_speed : Condition → Bool
is_speed (Condition.speed effect change generation) = true
is_speed _ = false

abbrev pub is_magic_shield : Condition → Bool
is_magic_shield (Condition.magic_shield until) = true
is_magic_shield _ = false

abbrev pub is_damage : CombatElement → Condition → Bool
is_damage element (Condition.damage_over_time dot) = eq_element dot.element element
is_damage element _ = false

abbrev fed_entry : Condition → Option (ℕ × ℕ)
fed_entry (Condition.fed until generation) = some (until, generation)
fed_entry _ = none

unfoldable pub fed : Conditions → Option (ℕ × ℕ)
fed cs = find_map fed_entry cs.conditions

unfoldable pub can_feed : ℕ → Conditions → ℕ → ℕ → Bool
unfolding fed
can_feed max_fed_ticks cs current_tick delta =
    let left : ℕ = elim (fed cs) [ none ↦ 0 | some r ↦ r.0 - current_tick ] in
    leb ((left + delta) % u64_mod) max_fed_ticks

unfoldable pub remove_fed : Conditions → Conditions
remove_fed cs = record cs { conditions = retain (λ c. not (is_fed c)) cs.conditions }

-- `self.conditions.push`, with the generation that it was given.
abbrev pub push_generation : Conditions → Condition → Conditions
push_generation cs c = record {
  conditions = cs.conditions ++ (c ∷ []);
  next_generation = (cs.next_generation + 1) % u32_mod;
}

abbrev pub live_fed : ℕ → Condition → Option (ℕ × ℕ)
live_fed current_tick (Condition.fed until generation) =
    if ltb current_tick until then some (until, generation) else none
live_fed current_tick _ = none

abbrev pub extend_fed : ℕ → ℕ → Condition → Option Condition
extend_fed current_tick delta (Condition.fed until generation) =
    if ltb current_tick until then some (Condition.fed (after until delta) generation) else none
extend_fed current_tick delta _ = none

unfoldable pub add_fed_ticks : Conditions → ℕ → ℕ → Conditions × ℕ
unfolding remove_fed
add_fed_ticks cs current_tick delta = elim (find_map (live_fed current_tick) cs.conditions) [
  | some live ↦ (
    record cs { conditions = update_first (extend_fed current_tick delta) cs.conditions },
    live.1,
  )
  | none ↦
      let fresh = Condition.fed (after current_tick delta) cs.next_generation in
      (push_generation (remove_fed cs) fresh, cs.next_generation)
]

abbrev pub logout_until : Condition → Option ℕ
logout_until (Condition.logout_block until) = some until
logout_until _ = none

abbrev pub restart_logout : ℕ → Condition → Option Condition
restart_logout until (Condition.logout_block old) = some (Condition.logout_block until)
restart_logout until _ = none

unfoldable pub reset_logout_block : ℕ → Conditions → ℕ → Conditions × Bool
reset_logout_block logout_block_ticks cs current_tick =
    let until = after current_tick logout_block_ticks in
    elim (find_map logout_until cs.conditions) [
      | some existing ↦
          (record cs { conditions = update_first (restart_logout until) cs.conditions }, false)
      | none ↦
          (record cs { conditions = cs.conditions ++ (Condition.logout_block until ∷ []) }, true)
    ]

abbrev blocks_logout : ℕ → Condition → Bool
blocks_logout current_tick (Condition.logout_block until) = ltb current_tick until
blocks_logout current_tick _ = false

unfoldable pub is_logout_blocked : Conditions → ℕ → Bool
is_logout_blocked cs current_tick = any (blocks_logout current_tick) cs.conditions

unfoldable pub apply_speed : Conditions → SpeedEffect → ℤ → Conditions × ℕ
apply_speed cs effect change =
    let kept = record cs { conditions = retain (λ c. not (is_speed c)) cs.conditions } in
    (push_generation kept (Condition.speed effect change cs.next_generation), cs.next_generation)

abbrev speed_of : Condition → Option ℤ
speed_of (Condition.speed effect change generation) = some change
speed_of _ = none

unfoldable pub speed_change : Conditions → ℤ
speed_change cs = elim (find_map speed_of cs.conditions) [ none ↦ pos 0 | some change ↦ change ]

abbrev pub is_speed_of : ℕ → Condition → Bool
is_speed_of generation (Condition.speed effect change live) = live == generation
is_speed_of generation _ = false

-- Whether anything went is read off the length.
unfoldable pub expire_speed : Conditions → ℕ → Conditions × Bool
expire_speed cs generation =
    let kept = retain (λ c. not (is_speed_of generation c)) cs.conditions in
    (record cs { conditions = kept }, not (length kept == length cs.conditions))

abbrev pub shield_until : Condition → Option ℕ
shield_until (Condition.magic_shield until) = some until
shield_until _ = none

abbrev pub lengthen_shield : ℕ → Condition → Option Condition
lengthen_shield until (Condition.magic_shield old) = some (Condition.magic_shield (max old until))
lengthen_shield until _ = none

unfoldable pub extend_magic_shield : Conditions → ℕ → Conditions × Bool
extend_magic_shield cs until = elim (find_map shield_until cs.conditions) [
  | some existing ↦
      (record cs { conditions = update_first (lengthen_shield until) cs.conditions }, false)
  | none ↦ (record cs { conditions = cs.conditions ++ (Condition.magic_shield until ∷ []) }, true)
]

abbrev until_of : TimedCondition → Condition → Option ℕ
until_of TimedCondition.fed (Condition.fed until generation) = some until
until_of TimedCondition.logout_block (Condition.logout_block until) = some until
until_of TimedCondition.magic_shield (Condition.magic_shield until) = some until
until_of _ _ = none

unfoldable pub until : Conditions → TimedCondition → Option ℕ
until cs kind = find_map (until_of kind) cs.conditions

abbrev pub is_timed : TimedCondition → Condition → Bool
is_timed TimedCondition.fed (Condition.fed until generation) = true
is_timed TimedCondition.logout_block (Condition.logout_block until) = true
is_timed TimedCondition.magic_shield (Condition.magic_shield until) = true
is_timed _ _ = false

unfoldable pub remove_timed : Conditions → TimedCondition → Conditions
remove_timed cs kind = record cs { conditions = retain (λ c. not (is_timed kind c)) cs.conditions }

unfoldable pub remove_magic_shield : Conditions → Conditions
remove_magic_shield cs = record cs {
  conditions = retain (λ c. not (is_magic_shield c)) cs.conditions;
}

abbrev shields : ℕ → Condition → Bool
shields current_tick (Condition.magic_shield until) = ltb current_tick until
shields current_tick _ = false

unfoldable pub is_magic_shielded : Conditions → ℕ → Bool
is_magic_shielded cs current_tick = any (shields current_tick) cs.conditions

unfoldable pub cure : Conditions → CombatElement → Conditions × Bool
cure cs element =
    let kept = retain (λ c. not (is_damage element c)) cs.conditions in
    (record cs { conditions = kept }, not (length kept == length cs.conditions))
