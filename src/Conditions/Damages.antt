-- ===== src/Conditions/Damages.antt =====
-- Damage over time in the table of conditions: what replaces what, and which hits are taken.
use rustibia_server.Prelude.{
  ℕ, ◌+◌, ◌%◌, ◌==◌, ◌≡◌, ◌≢◌, refl, ap, ◌∙◌, ltb, Bool, true, ◌&&◌, leb, if◌then◌else◌, Option,
  none, some, find_map, update_first, arith, Bool-cases, Option-cases, inl, inr,
}
use rustibia_server.Combat.{CombatElement, eq_element, element_number}
use rustibia_server.DamageOverTime.{DamageOverTime, u32_mod, remaining}
use rustibia_server.Conditions.Kinds.{Condition}
use rustibia_server.Conditions.{Conditions}
use rustibia_server.Conditions.View.{
  slot, at, damage_slot, IsOld, IsValid, still_before, at-push, at-update_first,
  update_first-IsDistinct, find_map-at, at-missing,
}
use rustibia_server.Conditions.Laws.{IsRoomy, push_generation-IsValid, All-update_first}
use rustibia_server.Conditions.Damage.{damage_of, replace_damage, apply_damage_over_time}

-- The damage that stands in a slot, and whether a new one is to replace it.
abbrev pub is_stronger : DamageOverTime → Option Condition → Bool
is_stronger incoming (some (Condition.damage_over_time dot)) =
    ltb (remaining dot.schedule) (remaining incoming.schedule)
is_stronger incoming _ = true

element_iff : (a b : CombatElement) → (damage_slot a ≡ damage_slot b) → eq_element a b ≡ true
element_iff a b e = ground (arith, e)

only_damage :
    (element : CombatElement) (c : Condition)
    → slot c ≢ damage_slot element
    → damage_of element c ≡ none
only_damage element (Condition.fed until generation) n = refl
only_damage element (Condition.logout_block until) n = refl
only_damage element (Condition.speed effect change generation) n = refl
only_damage element (Condition.magic_shield until) n = refl
only_damage element (Condition.damage_over_time dot) n = ground arith

no_damage_low :
    (e : CombatElement)
    → (4 + element_number e ≢ 0)
      × (4 + element_number e ≢ 1)
      × (4 + element_number e ≢ 2)
      × (4 + element_number e ≢ 3)
no_damage_low e = (omega arith, omega arith, omega arith, omega arith)

found_damage :
    (element : CombatElement) (c : Condition)
    → slot c ≡ damage_slot element
    → damage_of element c ≢ none
found_damage element (Condition.fed until generation) e n = absurd (omega (arith, e))
found_damage element (Condition.logout_block until) e n = absurd (omega (arith, e))
found_damage element (Condition.speed effect change generation) e n = absurd (omega (arith, e))
found_damage element (Condition.magic_shield until) e n = absurd (omega (arith, e))
found_damage element (Condition.damage_over_time dot) e n = ground arith

-- In a valid table whose generation counter does not wrap: damage over time is put on unless
-- damage of its element is there that has as much left to deal; then its generation is new, it
-- takes the place of what was there, and every other condition stays. The table stays valid.
pub apply_damage_over_time_lem :
    (cs : Conditions) (incoming : DamageOverTime) (k : ℕ)
    → IsValid cs
    → IsRoomy cs
    → IsValid (apply_damage_over_time cs incoming).0
      × ((apply_damage_over_time cs incoming).1 ≡ (
          if is_stronger incoming (at (damage_slot incoming.element) cs.conditions)
          then some cs.next_generation
          else none))
      × (at k (apply_damage_over_time cs incoming).0.conditions ≡ (
          if (k == damage_slot incoming.element)
            && is_stronger incoming (at (damage_slot incoming.element) cs.conditions)
          then some
              (Condition.damage_over_time (record incoming { generation = cs.next_generation }))
          else at k cs.conditions))
unfolding apply_damage_over_time
apply_damage_over_time_lem cs incoming k v room =
    let s = damage_slot incoming.element in
    let found =
      find_map-at s (damage_of incoming.element) (only_damage incoming.element) cs.conditions
        v.distinct in
    elim (Option-cases (find_map (damage_of incoming.element) cs.conditions)) [
      | inl missing ↦
          let free : at s cs.conditions ≡ none =
            at-missing s (damage_of incoming.element) (found_damage incoming.element) cs.conditions
              missing in
          rw (apply_damage_over_time, missing, free)
            (
              push_generation-IsValid cs (Condition.damage_over_time fresh) v room free
                  (omega arith),
              refl,
              at-push k (Condition.damage_over_time fresh) cs.conditions free
                  ∙ ground (arith, free),
            )
      | inr (current, there) ↦ elim (Option-cases (at s cs.conditions)) [
        | inl empty ↦ absurd (ground (arith, found, there, empty))
        | inr (c, stands) ↦
            let same : c ≡ Condition.damage_over_time current =
              damage_there incoming.element c current (ground (arith, found, there, stands)) in
            let here : at s cs.conditions ≡ some (Condition.damage_over_time current) =
              stands ∙ ap some same in
            elim (Bool-cases (leb (remaining incoming.schedule) (remaining current.schedule))) [
              | inl weaker ↦
                  rw (apply_damage_over_time, there, weaker, here) (v, ground arith, ground arith)
              | inr stronger ↦
                  rw (apply_damage_over_time, there, stronger, here)
                    (
                      replaced,
                      ground arith,
                      at-update_first s (replace_damage fresh) others keeps k cs.conditions
                            v.distinct
                          ∙ ground (arith, here),
                    )
            ]
      ]
    ]
  where
    fresh : DamageOverTime
    fresh = record incoming { generation = cs.next_generation }

    damage_there :
        (e : CombatElement) (c : Condition) (dot : DamageOverTime)
        → damage_of e c ≡ some dot
        → c ≡ Condition.damage_over_time dot
    damage_there e c dot h = ground arith

    others : (c : Condition) → slot c ≢ damage_slot incoming.element → replace_damage fresh c ≡ none
    others (Condition.fed until generation) n = refl
    others (Condition.logout_block until) n = refl
    others (Condition.speed effect change generation) n = refl
    others (Condition.magic_shield until) n = refl
    others (Condition.damage_over_time dot) n = ground arith

    keeps :
        (c d : Condition) → replace_damage fresh c ≡ some d → slot d ≡ damage_slot incoming.element
    keeps c d e = ground arith

    counted : (cs.next_generation + 1) % u32_mod ≡ cs.next_generation + 1
    counted = omega (arith, room)

    older :
        (c d : Condition)
        → replace_damage fresh c ≡ some d
        → IsOld (cs.next_generation + 1) c
        → IsOld (cs.next_generation + 1) d
    older c d e o = ground arith

    replaced : IsValid (record {
      conditions = update_first (replace_damage fresh) cs.conditions;
      next_generation = (cs.next_generation + 1) % u32_mod;
    })
    replaced = rw counted (record {
      distinct =
          update_first-IsDistinct (damage_slot incoming.element) (replace_damage fresh) others keeps
            cs.conditions v.distinct;
      old = All-update_first (cs.next_generation + 1) (replace_damage fresh) cs.conditions older (
          still_before cs.next_generation (cs.next_generation + 1) cs.conditions (omega arith)
            v.old);
    })
