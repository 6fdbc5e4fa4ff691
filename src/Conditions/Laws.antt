-- ===== src/Conditions/Laws.antt =====
-- What each operation does to the table of conditions.
use rustibia_server.Prelude.{
  ℕ, ◌+◌, ◌<◌, ◌%◌, ◌==◌, ◌≡◌, ◌≢◌, refl, ◌∙◌, ltb, Bool, not, if◌then◌else◌, Option, none, some,
  List, [], ◌∷◌, All, All-append, retain, find_map, update_first, arith, Option-cases, inl, inr,
}
use rustibia_server.Prelude.Int.{ℤ}
use rustibia_server.Combat.{CombatElement}
use rustibia_server.DamageOverTime.{u32_mod}
use rustibia_server.Conditions.Kinds.{Condition, SpeedEffect, TimedCondition}
use rustibia_server.Conditions.{
  Conditions, push_generation, after, is_fed, is_speed, is_damage, is_timed, remove_fed,
  add_fed_ticks, live_fed, extend_fed, apply_speed, remove_timed, cure,
}
use rustibia_server.Conditions.View.{
  slot, at, damage_slot, IsOld, IsValid, still_before, at-retain, All-retain, retain-IsDistinct,
  at-push, push-IsDistinct, at-update_first, update_first-IsDistinct, find_map-at,
}

-- The generation that is given out next, in a counter that has not wrapped.
abbrev pub IsRoomy : Conditions → Type 0
IsRoomy cs = cs.next_generation + 1 < u32_mod

pub push_generation-IsValid :
    (cs : Conditions) (c : Condition)
    → IsValid cs
    → IsRoomy cs
    → at (slot c) cs.conditions ≡ none
    → IsOld (cs.next_generation + 1) c
    → IsValid (push_generation cs c)
push_generation-IsValid cs c v room free old =
    let counted : (cs.next_generation + 1) % u32_mod ≡ cs.next_generation + 1 =
      omega (arith, room) in
    rw counted (record {
      distinct = push-IsDistinct c cs.conditions free v.distinct;
      old =
          All-append (IsOld (cs.next_generation + 1)) cs.conditions (c ∷ [])
            (still_before cs.next_generation (cs.next_generation + 1) cs.conditions (omega arith)
              v.old)
            (old, tt);
    })

pub retain-IsValid :
    (cs : Conditions) (p : Condition → Bool)
    → IsValid cs
    → IsValid (record cs { conditions = retain p cs.conditions })
retain-IsValid cs p v = record {
  distinct = retain-IsDistinct p cs.conditions v.distinct;
  old = All-retain (IsOld cs.next_generation) p cs.conditions v.old;
}

not_fed : (c : Condition) → not (is_fed c) ≡ not (slot c == 0)
not_fed c = ground arith

pub not_speed : (c : Condition) → not (is_speed c) ≡ not (slot c == 2)
not_speed c = ground arith

-- In a valid table whose generation counter does not wrap: a speed condition replaces the one
-- before it, of either effect, under a generation that no condition had; every other condition
-- stays, and the table stays valid.
pub apply_speed_lem :
    (cs : Conditions) (effect : SpeedEffect) (change : ℤ) (k : ℕ)
    → IsValid cs
    → IsRoomy cs
    → IsValid (apply_speed cs effect change).0
      × ((apply_speed cs effect change).1 ≡ cs.next_generation)
      × (at k (apply_speed cs effect change).0.conditions ≡ (
          if k == 2
          then some (Condition.speed effect change cs.next_generation)
          else at k cs.conditions))
unfolding apply_speed
apply_speed_lem cs effect change k v room =
    let fresh = Condition.speed effect change cs.next_generation in
    let p : Condition → Bool = λ c. not (is_speed c) in
    let gone = at-retain 2 p not_speed 2 cs.conditions in
    (
      push_generation-IsValid (record cs { conditions = retain p cs.conditions }) fresh
          (retain-IsValid cs p v) room gone (omega arith),
      refl,
      at-push k fresh (retain p cs.conditions) gone
          ∙ ground (arith, at-retain 2 p not_speed k cs.conditions),
    )

abbrev pub timed_slot : TimedCondition → ℕ
timed_slot TimedCondition.fed = 0
timed_slot TimedCondition.logout_block = 1
timed_slot TimedCondition.magic_shield = 3

not_timed :
    (kind : TimedCondition) (c : Condition)
    → not (is_timed kind c) ≡ not (slot c == timed_slot kind)
not_timed kind c = ground arith

not_damage :
    (element : CombatElement) (c : Condition)
    → not (is_damage element c) ≡ not (slot c == damage_slot element)
not_damage element c = ground arith

-- In a valid table: removing a timed condition and curing an element empty their slot and leave
-- every other alone, and the table stays valid.
pub removals_lem :
    (cs : Conditions) (kind : TimedCondition) (element : CombatElement) (k : ℕ)
    → IsValid cs
    → IsValid (remove_timed cs kind)
      × IsValid (cure cs element).0
      × (at k (remove_timed cs kind).conditions
          ≡ (if k == timed_slot kind then none else at k cs.conditions))
      × (at k (cure cs element).0.conditions
          ≡ (if k == damage_slot element then none else at k cs.conditions))
unfolding remove_timed cure
removals_lem cs kind element k v = (
  retain-IsValid cs (λ c. not (is_timed kind c)) v,
  retain-IsValid cs (λ c. not (is_damage element c)) v,
  at-retain (timed_slot kind) (λ c. not (is_timed kind c)) (not_timed kind) k cs.conditions,
  at-retain (damage_slot element) (λ c. not (is_damage element c)) (not_damage element) k
      cs.conditions,
)

-- Changing a condition in place.
pub All-update_first :
    (n : ℕ) (f : Condition → Option Condition) (cs : List Condition)
    → ((c d : Condition) → f c ≡ some d → IsOld n c → IsOld n d)
    → All (IsOld n) cs
    → All (IsOld n) (update_first f cs)
All-update_first n f [] keeps a = tt
All-update_first n f (c ∷ cs) keeps a = elim (Option-cases (f c)) [
  | inl untouched ↦ rw (update_first, untouched) (a.0, All-update_first n f cs keeps a.1)
  | inr (d, changed) ↦ rw (update_first, changed) (keeps c d changed a.0, a.1)
]

-- What a meal makes of the food that was there.
abbrev pub meal : ℕ → ℕ → ℕ → Option Condition → ℕ × ℕ
meal current_tick delta next (some (Condition.fed until generation)) =
    if ltb current_tick until
    then (after until delta, generation)
    else (after current_tick delta, next)
meal current_tick delta next _ = (after current_tick delta, next)

no_live_fed : (current_tick : ℕ) (c : Condition) → slot c ≢ 0 → live_fed current_tick c ≡ none
no_live_fed current_tick (Condition.fed until generation) n = absurd (n refl)
no_live_fed current_tick (Condition.logout_block until) n = refl
no_live_fed current_tick (Condition.speed effect change generation) n = refl
no_live_fed current_tick (Condition.magic_shield until) n = refl
no_live_fed current_tick (Condition.damage_over_time dot) n = refl

-- In a valid table whose generation counter does not wrap: a meal extends food that has not run
-- out, under its generation, and otherwise replaces it by new food under a new generation;
-- every other condition stays, and the table stays valid.
pub add_fed_ticks_lem :
    (cs : Conditions) (current_tick delta k : ℕ)
    → IsValid cs
    → IsRoomy cs
    → IsValid (add_fed_ticks cs current_tick delta).0
      × ((add_fed_ticks cs current_tick delta).1
          ≡ (meal current_tick delta cs.next_generation (at 0 cs.conditions)).1)
      × (at k (add_fed_ticks cs current_tick delta).0.conditions ≡ (
          if k == 0
          then some (
              Condition.fed
                (meal current_tick delta cs.next_generation (at 0 cs.conditions)).0
                (meal current_tick delta cs.next_generation (at 0 cs.conditions)).1)
          else at k cs.conditions))
unfolding add_fed_ticks remove_fed
add_fed_ticks_lem cs current_tick delta k v room =
    let found =
      find_map-at 0 (live_fed current_tick) (no_live_fed current_tick) cs.conditions v.distinct in
    elim (Option-cases (find_map (live_fed current_tick) cs.conditions)) [
      | inl hungry ↦
          rw (add_fed_ticks, hungry)
            (
              push_generation-IsValid (remove_fed cs) fresh (retain-IsValid cs p v) room gone
                  (omega arith),
              ground (arith, found, hungry),
              at-push k fresh (retain p cs.conditions) gone
                  ∙ ground (arith, found, hungry, at-retain 0 p not_fed k cs.conditions),
            )
      | inr (live, there) ↦
          rw (add_fed_ticks, there)
            (
              record {
                distinct = update_first-IsDistinct 0 extend others keeps cs.conditions v.distinct;
                old = All-update_first cs.next_generation extend cs.conditions older v.old;
              },
              ground (arith, found, there),
              at-update_first 0 extend others keeps k cs.conditions v.distinct
                  ∙ ground (arith, found, there),
            )
    ]
  where
    p : Condition → Bool
    p c = not (is_fed c)

    fresh : Condition
    fresh = Condition.fed (after current_tick delta) cs.next_generation

    gone : at 0 (retain p cs.conditions) ≡ none
    gone = at-retain 0 p not_fed 0 cs.conditions

    extend : Condition → Option Condition
    extend = extend_fed current_tick delta

    others : (c : Condition) → slot c ≢ 0 → extend c ≡ none
    others (Condition.fed until generation) n = absurd (n refl)
    others (Condition.logout_block until) n = refl
    others (Condition.speed effect change generation) n = refl
    others (Condition.magic_shield until) n = refl
    others (Condition.damage_over_time dot) n = refl

    keeps : (c d : Condition) → extend c ≡ some d → slot d ≡ 0
    keeps c d e = ground arith

    older :
        (c d : Condition)
        → extend c ≡ some d
        → IsOld cs.next_generation c
        → IsOld cs.next_generation d
    older c d e o = ground arith
