-- ===== src/Conditions/Damage.antt =====
-- `apply_damage_over_time` and `next_damage_hit` of `crates/server/src/entities/conditions.rs`.
use rustibia_server.Prelude.{
  ℕ, ◌+◌, ◌%◌, ◌==◌, leb, Bool, ◌&&◌, if◌then◌else◌, Option, none, some, List, [], ◌∷◌, find_map,
  update_first,
}
use rustibia_server.Combat.{CombatElement, eq_element}
use rustibia_server.DamageOverTime.{DamageOverTime, remaining, next_hit, u32_mod}
use rustibia_server.Conditions.Kinds.{Condition, DamageHit}
use rustibia_server.Conditions.{Conditions, push_generation}

abbrev pub damage_of : CombatElement → Condition → Option DamageOverTime
damage_of element (Condition.damage_over_time dot) =
    if eq_element dot.element element then some dot else none
damage_of element _ = none

abbrev pub replace_damage : DamageOverTime → Condition → Option Condition
replace_damage incoming (Condition.damage_over_time dot) =
    if eq_element dot.element incoming.element
    then some (Condition.damage_over_time incoming)
    else none
replace_damage incoming _ = none

unfoldable pub apply_damage_over_time : Conditions → DamageOverTime → Conditions × Option ℕ
apply_damage_over_time cs incoming =
    let generation = cs.next_generation in
    let fresh = record incoming { generation = generation } in
    elim (find_map (damage_of incoming.element) cs.conditions) [
      | some current ↦
          if leb (remaining incoming.schedule) (remaining current.schedule) then (cs, none) else (
            record {
              conditions = update_first (replace_damage fresh) cs.conditions;
              next_generation = (generation + 1) % u32_mod;
            },
            some generation,
          )
      | none ↦ (push_generation cs (Condition.damage_over_time fresh), some generation)
    ]

abbrev pub is_damage_of : CombatElement → ℕ → DamageOverTime → Bool
is_damage_of element generation dot =
    eq_element dot.element element && (dot.generation == generation)

-- The first condition of the element and generation takes its next hit, and is removed when that
-- was its last; `none` where there is no such condition, or it hits no more.
unfoldable pub hit_first :
    (ℕ → ℕ → ℕ → Bool) → CombatElement → ℕ → List Condition → Option (DamageHit × List Condition)
hit_first falls element generation [] = none
hit_first falls element generation (Condition.damage_over_time dot ∷ rest) =
    let later = hit_first falls element generation rest in
    if is_damage_of element generation dot
    then elim (next_hit falls dot.schedule) [
      | none ↦ none
      | some h ↦
          let exhausted = remaining h.1 == 0 in
          let hit : DamageHit = record {
            value = h.0;
            source = dot.source;
            interval = dot.interval;
            exhausted = exhausted;
          } in
          let struck = Condition.damage_over_time (record dot { schedule = h.1 }) in
          some (hit, if exhausted then rest else struck ∷ rest)
    ]
    else elim later [ none ↦ none | some r ↦ some (r.0, Condition.damage_over_time dot ∷ r.1) ]
hit_first falls element generation (c ∷ rest) =
    let later = hit_first falls element generation rest in
    elim later [ none ↦ none | some r ↦ some (r.0, c ∷ r.1) ]

unfoldable pub next_damage_hit :
    (ℕ → ℕ → ℕ → Bool) → Conditions → CombatElement → ℕ → Conditions × Option DamageHit
unfolding hit_first
next_damage_hit falls cs element generation =
    elim (hit_first falls element generation cs.conditions) [
      | none ↦ (cs, none)
      | some r ↦ (record cs { conditions = r.1 }, some r.0)
    ]
