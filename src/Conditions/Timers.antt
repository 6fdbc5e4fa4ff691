-- ===== src/Conditions/Timers.antt =====
-- The conditions with a deadline and no generation, and the expiry of a change of speed.
use rustibia_server.Prelude.{
  ℕ, ◌==◌, ◌≡◌, ◌≢◌, refl, ◌∙◌, max, Bool, true, false, not, if◌then◌else◌, Option, none, some, [],
  ◌∷◌, ◌++◌, All-append, find_map, arith, Option-cases, inl, inr,
}
use rustibia_server.Conditions.Kinds.{Condition}
use rustibia_server.Conditions.{
  Conditions, after, reset_logout_block, logout_until, restart_logout, extend_magic_shield,
  shield_until, lengthen_shield,
}
use rustibia_server.Conditions.View.{
  slot, at, IsOld, IsValid, at-push, push-IsDistinct, at-update_first, update_first-IsDistinct,
  find_map-at, at-missing,
}
use rustibia_server.Conditions.Laws.{All-update_first}

push-IsValid :
    (cs : Conditions) (c : Condition)
    → IsValid cs
    → at (slot c) cs.conditions ≡ none
    → IsOld cs.next_generation c
    → IsValid (record cs { conditions = cs.conditions ++ (c ∷ []) })
push-IsValid cs c v free old = record {
  distinct = push-IsDistinct c cs.conditions free v.distinct;
  old = All-append (IsOld cs.next_generation) cs.conditions (c ∷ []) v.old (old, tt);
}

abbrev pub is_there : Option Condition → Bool
is_there none = false
is_there (some c) = true

only_logout : (c : Condition) → slot c ≢ 1 → logout_until c ≡ none
only_logout (Condition.fed until generation) n = refl
only_logout (Condition.logout_block until) n = absurd (n refl)
only_logout (Condition.speed effect change generation) n = refl
only_logout (Condition.magic_shield until) n = refl
only_logout (Condition.damage_over_time dot) n = refl

found_logout : (c : Condition) → slot c ≡ 1 → logout_until c ≢ none
found_logout c same e = ground arith

-- In a valid table: a fight (re)starts the one logout block, whose deadline counts from now,
-- and reports whether there was none; every other condition stays, and the table stays valid.
pub reset_logout_block_lem :
    (logout_block_ticks : ℕ) (cs : Conditions) (current_tick k : ℕ)
    → IsValid cs
    → IsValid (reset_logout_block logout_block_ticks cs current_tick).0
      × ((reset_logout_block logout_block_ticks cs current_tick).1
          ≡ not (is_there (at 1 cs.conditions)))
      × (at k (reset_logout_block logout_block_ticks cs current_tick).0.conditions ≡ (
          if k == 1
          then some (Condition.logout_block (after current_tick logout_block_ticks))
          else at k cs.conditions))
unfolding reset_logout_block
reset_logout_block_lem ticks cs current_tick k v =
    let found = find_map-at 1 logout_until only_logout cs.conditions v.distinct in
    elim (Option-cases (find_map logout_until cs.conditions)) [
      | inl missing ↦
          let free : at 1 cs.conditions ≡ none =
            at-missing 1 logout_until found_logout cs.conditions missing in
          rw (reset_logout_block, missing)
            (
              push-IsValid cs fresh v free tt,
              ground (arith, free),
              at-push k fresh cs.conditions free,
            )
      | inr (old, there) ↦
          rw (reset_logout_block, there)
            (
              record {
                distinct = update_first-IsDistinct 1 restart others keeps cs.conditions v.distinct;
                old = All-update_first cs.next_generation restart cs.conditions older v.old;
              },
              ground (arith, found, there),
              at-update_first 1 restart others keeps k cs.conditions v.distinct
                  ∙ ground (arith, found, there),
            )
    ]
  where
    fresh : Condition
    fresh = Condition.logout_block (after current_tick ticks)

    restart : Condition → Option Condition
    restart = restart_logout (after current_tick ticks)

    others : (c : Condition) → slot c ≢ 1 → restart c ≡ none
    others (Condition.fed until generation) n = refl
    others (Condition.logout_block until) n = absurd (n refl)
    others (Condition.speed effect change generation) n = refl
    others (Condition.magic_shield until) n = refl
    others (Condition.damage_over_time dot) n = refl

    keeps : (c d : Condition) → restart c ≡ some d → slot d ≡ 1
    keeps c d e = ground arith

    older :
        (c d : Condition)
        → restart c ≡ some d
        → IsOld cs.next_generation c
        → IsOld cs.next_generation d
    older c d e o = ground arith

only_shield : (c : Condition) → slot c ≢ 3 → shield_until c ≡ none
only_shield (Condition.fed until generation) n = refl
only_shield (Condition.logout_block until) n = refl
only_shield (Condition.speed effect change generation) n = refl
only_shield (Condition.magic_shield x) n = absurd (n refl)
only_shield (Condition.damage_over_time dot) n = refl

found_shield : (c : Condition) → slot c ≡ 3 → shield_until c ≢ none
found_shield c same e = ground arith

-- The later of the deadlines of a shield that is there and a new one.
abbrev pub later_of : Option Condition → ℕ → ℕ
later_of (some (Condition.magic_shield old)) until = max old until
later_of _ until = until

-- In a valid table: a magic shield is lengthened and never shortened, and the answer says
-- whether there was none; every other condition stays, and the table stays valid.
pub extend_magic_shield_lem :
    (cs : Conditions) (until k : ℕ)
    → IsValid cs
    → IsValid (extend_magic_shield cs until).0
      × ((extend_magic_shield cs until).1 ≡ not (is_there (at 3 cs.conditions)))
      × (at k (extend_magic_shield cs until).0.conditions ≡ (
          if k == 3
          then some (Condition.magic_shield (later_of (at 3 cs.conditions) until))
          else at k cs.conditions))
unfolding extend_magic_shield
extend_magic_shield_lem cs until k v =
    let found = find_map-at 3 shield_until only_shield cs.conditions v.distinct in
    elim (Option-cases (find_map shield_until cs.conditions)) [
      | inl missing ↦
          let free : at 3 cs.conditions ≡ none =
            at-missing 3 shield_until found_shield cs.conditions missing in
          rw (extend_magic_shield, missing)
            (
              push-IsValid cs fresh v free tt,
              ground (arith, free),
              at-push k fresh cs.conditions free ∙ ground (arith, free),
            )
      | inr (old, there) ↦
          rw (extend_magic_shield, there)
            (
              record {
                distinct = update_first-IsDistinct 3 lengthen others keeps cs.conditions v.distinct;
                old = All-update_first cs.next_generation lengthen cs.conditions older v.old;
              },
              ground (arith, found, there),
              at-update_first 3 lengthen others keeps k cs.conditions v.distinct
                  ∙ ground (arith, found, there),
            )
    ]
  where
    fresh : Condition
    fresh = Condition.magic_shield until

    lengthen : Condition → Option Condition
    lengthen = lengthen_shield until

    others : (c : Condition) → slot c ≢ 3 → lengthen c ≡ none
    others (Condition.fed until generation) n = refl
    others (Condition.logout_block until) n = refl
    others (Condition.speed effect change generation) n = refl
    others (Condition.magic_shield x) n = absurd (n refl)
    others (Condition.damage_over_time dot) n = refl

    keeps : (c d : Condition) → lengthen c ≡ some d → slot d ≡ 3
    keeps c d e = ground arith

    older :
        (c d : Condition)
        → lengthen c ≡ some d
        → IsOld cs.next_generation c
        → IsOld cs.next_generation d
    older c d e o = ground arith
