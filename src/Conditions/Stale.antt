-- ===== src/Conditions/Stale.antt =====
-- The hits of `entities/conditions.rs` that were scheduled for damage that has been replaced
-- since.
use rustibia_server.Prelude.{
  ℕ, ◌<◌, ◌==◌, ◌≡◌, refl, Bool, true, false, Option, none, some, List, [], ◌∷◌, arith, Bool-cases,
  ==→≡, inl, inr,
}
use rustibia_server.Combat.{CombatElement, eq_element}
use rustibia_server.DamageOverTime.{DamageOverTime}
use rustibia_server.Conditions.Kinds.{Condition}
use rustibia_server.Conditions.{Conditions}
use rustibia_server.Conditions.Damage.{apply_damage_over_time, hit_first, next_damage_hit}
use rustibia_server.Conditions.View.{at, damage_slot, IsDistinct, IsValid}
use rustibia_server.Conditions.Laws.{IsRoomy}
use rustibia_server.Conditions.Damages.{is_stronger, apply_damage_over_time_lem}

-- Whether the damage that stands in a slot has this generation.
abbrev pub is_current : ℕ → Option Condition → Bool
is_current generation (some (Condition.damage_over_time dot)) = dot.generation == generation
is_current generation _ = false

module _ (falls : ℕ → ℕ → ℕ → Bool) (element : CombatElement) (generation : ℕ) where
  hit_first-absent :
      (cs : List Condition)
      → is_current generation (at (damage_slot element) cs) ≡ false
      → IsDistinct cs
      → hit_first falls element generation cs ≡ none
  unfolding hit_first at
  hit_first-absent [] h v = refl
  hit_first-absent (Condition.fed until g ∷ cs) h v =
      rw (hit_first-absent cs (ground (arith, h)) v.1) refl
  hit_first-absent (Condition.logout_block until ∷ cs) h v =
      rw (hit_first-absent cs (ground (arith, h)) v.1) refl
  hit_first-absent (Condition.speed effect change g ∷ cs) h v =
      rw (hit_first-absent cs (ground (arith, h)) v.1) refl
  hit_first-absent (Condition.magic_shield until ∷ cs) h v =
      rw (hit_first-absent cs (ground (arith, h)) v.1) refl
  hit_first-absent (Condition.damage_over_time dot ∷ cs) h v =
      elim (Bool-cases (damage_slot dot.element == damage_slot element)) [
        | inl same ↦
            let there : damage_slot dot.element ≡ damage_slot element = ==→≡ _ _ same in
            let alone : at (damage_slot element) cs ≡ none = rw (← there) v.0 in
            let other : (dot.generation == generation) ≡ false = ground (arith, h, same) in
            let later = hit_first-absent cs (rw alone refl) v.1 in
            rw (hit_first, other, later) (ground arith)
        | inr differs ↦
            let later = hit_first-absent cs (ground (arith, h, differs)) v.1 in
            let other : eq_element dot.element element ≡ false = ground (arith, differs) in
            rw (hit_first, other, later) refl
      ]

-- In a valid table whose generation counter does not wrap: once damage over time has been put on, no
-- event that was scheduled for an older generation of its element hits or changes anything.
pub next_damage_hit-apply_damage_over_time :
    (falls : ℕ → ℕ → ℕ → Bool) (cs : Conditions) (incoming : DamageOverTime) (generation : ℕ)
    → IsValid cs
    → IsRoomy cs
    → is_stronger incoming (at (damage_slot incoming.element) cs.conditions) ≡ true
    → generation < cs.next_generation
    → next_damage_hit falls (apply_damage_over_time cs incoming).0 incoming.element generation
      ≡ ((apply_damage_over_time cs incoming).0, none)
unfolding next_damage_hit
next_damage_hit-apply_damage_over_time falls cs incoming generation v room stronger old =
    let applied = apply_damage_over_time_lem cs incoming (damage_slot incoming.element) v room in
    let stale : is_current generation
          (at (damage_slot incoming.element) (apply_damage_over_time cs incoming).0.conditions)
        ≡ false =
      ground (arith, applied.2, stronger, old) in
    rw
      (
        next_damage_hit,
        hit_first-absent falls incoming.element generation
            (apply_damage_over_time cs incoming).0.conditions stale applied.0.distinct,
      )
      refl
