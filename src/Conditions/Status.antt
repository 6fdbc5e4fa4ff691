-- ===== src/Conditions/Status.antt =====
-- `status` of `crates/server/src/entities/conditions.rs`: the word of icons that a client is sent.
use Prim.Native.Nat.{bit_or}
use rustibia_server.Prelude.{
  ℕ, ◌+◌, ◌≡◌, ◌≤◌, refl, ◌∙◌, max, Bool, true, false, ◌||◌, if◌then◌else◌, List, [], ◌∷◌, any,
  arith, Bool-cases, inl, inr,
}
use rustibia_server.Prelude.Bits.{digit, digit-bit_or}
use rustibia_server.Combat.{CombatElement}
use rustibia_server.Conditions.Kinds.{Condition, SpeedEffect}
use rustibia_server.Conditions.{Conditions, is_fed, is_magic_shield, is_damage}

abbrev pub logout_block_bit : ℕ
logout_block_bit = 1

abbrev pub hungry_bit : ℕ
hungry_bit = 2

abbrev pub paralyzed_bit : ℕ
paralyzed_bit = 4

abbrev pub burning_bit : ℕ
burning_bit = 8

abbrev pub poisoned_bit : ℕ
poisoned_bit = 16

abbrev pub electrified_bit : ℕ
electrified_bit = 32

abbrev pub hasted_bit : ℕ
hasted_bit = 64

abbrev pub magic_shield_bit : ℕ
magic_shield_bit = 128

abbrev pub element_bit : CombatElement → ℕ
element_bit CombatElement.fire = burning_bit
element_bit CombatElement.earth = poisoned_bit
element_bit CombatElement.energy = electrified_bit
element_bit _ = 0

abbrev pub condition_bit : Condition → ℕ
condition_bit (Condition.fed until generation) = 0
condition_bit (Condition.logout_block until) = logout_block_bit
condition_bit (Condition.speed SpeedEffect.paralysis change generation) = paralyzed_bit
condition_bit (Condition.speed SpeedEffect.haste change generation) = hasted_bit
condition_bit (Condition.magic_shield until) = magic_shield_bit
condition_bit (Condition.damage_over_time dot) = element_bit dot.element

-- The loop, over the word and whether food was seen.
unfoldable pub status_loop : List Condition → ℕ → Bool → ℕ × Bool
status_loop [] status fed = (status, fed)
status_loop (c ∷ rest) status fed =
    status_loop rest (bit_or status (condition_bit c)) (if is_fed c then true else fed)

unfoldable pub status : Conditions → ℕ
unfolding status_loop
status cs =
    let seen = status_loop cs.conditions 0 false in
    if seen.1 then seen.0 else bit_or seen.0 hungry_bit

-- The icons, by place.
abbrev pub is_logout_block : Condition → Bool
is_logout_block (Condition.logout_block until) = true
is_logout_block _ = false

abbrev pub is_paralysis : Condition → Bool
is_paralysis (Condition.speed SpeedEffect.paralysis change generation) = true
is_paralysis _ = false

abbrev pub is_haste : Condition → Bool
is_haste (Condition.speed SpeedEffect.haste change generation) = true
is_haste _ = false

abbrev pub icon : (Condition → Bool) → Conditions → ℕ
icon p cs = if any p cs.conditions then 1 else 0

status_loop-fed :
    (cs : List Condition) (w : ℕ) (fed : Bool) → (status_loop cs w fed).1 ≡ (fed || any is_fed cs)
unfolding status_loop
status_loop-fed [] w fed = ground arith
status_loop-fed (c ∷ cs) w fed =
    ground (arith, status_loop-fed cs (bit_or w (condition_bit c)) (if is_fed c then true else fed))

module _ (k : ℕ) (p : Condition → Bool)
    (lit : (c : Condition) → digit (condition_bit c) k ≡ (if p c then 1 else 0)) where
  status_loop-digit :
      (cs : List Condition) (w : ℕ) (fed : Bool)
      → digit w k ≤ 1
      → digit (status_loop cs w fed).0 k ≡ max (digit w k) (if any p cs then 1 else 0)
  unfolding status_loop
  status_loop-digit [] w fed h = omega arith
  status_loop-digit (c ∷ cs) w fed h =
      let here = digit-bit_or k w (condition_bit c) in
      let small : digit (bit_or w (condition_bit c)) k ≤ 1 = ground (arith, here, lit c, h) in
      let later =
        status_loop-digit cs (bit_or w (condition_bit c)) (if is_fed c then true else fed) small in
      ground (arith, here, later, lit c)

  status-digit :
      (cs : Conditions) → digit 0 k ≡ 0 → digit hungry_bit k ≡ 0 → digit (status cs) k ≡ icon p cs
  unfolding status
  status-digit cs h hungry =
      let seen = status_loop-digit cs.conditions 0 false (omega (arith, h)) in
      ground
        (arith, seen, h, hungry, digit-bit_or k (status_loop cs.conditions 0 false).0 hungry_bit)

no_icon_for_food :
    (cs : List Condition) (w : ℕ) (fed : Bool)
    → digit w 1 ≡ 0
    → digit (status_loop cs w fed).0 1 ≡ 0
unfolding status_loop
no_icon_for_food [] w fed h = h
no_icon_for_food (c ∷ cs) w fed h =
    let dark : digit (condition_bit c) 1 ≡ 0 = ground arith in
    no_icon_for_food cs (bit_or w (condition_bit c)) (if is_fed c then true else fed)
      (digit-bit_or 1 w (condition_bit c) ∙ rw (h, dark) refl)

-- The hungry icon is lit exactly if no food is there.
status-hungry : (cs : Conditions) → digit (status cs) 1 + icon is_fed cs ≡ 1
unfolding status
status-hungry cs =
    let dark = no_icon_for_food cs.conditions 0 false refl in
    let seen = status_loop-fed cs.conditions 0 false in
    let lit = digit-bit_or 1 (status_loop cs.conditions 0 false).0 hungry_bit in
    elim (Bool-cases (any is_fed cs.conditions)) [
      | inl fed ↦ rw (seen, fed, dark) refl
      | inr hungry ↦ rw (seen, hungry, lit, dark) refl
    ]

-- Each icon of the status word is lit exactly if a condition of its kind is there, and the hungry
-- icon exactly if no food is.
pub status_icons :
    (cs : Conditions)
    → (digit (status cs) 0 ≡ icon is_logout_block cs)
      × (digit (status cs) 1 + icon is_fed cs ≡ 1)
      × (digit (status cs) 2 ≡ icon is_paralysis cs)
      × (digit (status cs) 3 ≡ icon (is_damage CombatElement.fire) cs)
      × (digit (status cs) 4 ≡ icon (is_damage CombatElement.earth) cs)
      × (digit (status cs) 5 ≡ icon (is_damage CombatElement.energy) cs)
      × (digit (status cs) 6 ≡ icon is_haste cs)
      × (digit (status cs) 7 ≡ icon is_magic_shield cs)
status_icons cs = (
  status-digit 0 is_logout_block (λ c. ground arith) cs refl refl,
  status-hungry cs,
  status-digit 2 is_paralysis (λ c. ground arith) cs refl refl,
  status-digit 3 (is_damage CombatElement.fire) (λ c. ground arith) cs refl refl,
  status-digit 4 (is_damage CombatElement.earth) (λ c. ground arith) cs refl refl,
  status-digit 5 (is_damage CombatElement.energy) (λ c. ground arith) cs refl refl,
  status-digit 6 is_haste (λ c. ground arith) cs refl refl,
  status-digit 7 is_magic_shield (λ c. ground arith) cs refl refl,
)
