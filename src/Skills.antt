-- ===== src/Skills.antt =====
-- `crates/server/src/game/skills.rs`: what each step of a skill costs, how progress raises it, and
-- what a death takes back. The source's curve for all skills but the level is a power in floating
-- point; the power is a parameter here, with its multipliers of any type, and the theorems hold for
-- any cost of the steps. `u64` and `u16` sums saturate where the source says so.
pub mod Experience
pub mod Advance
pub mod Regress
mod Tests
use rustibia_server.Prelude.{
  ℕ, zero, suc, ◌+◌, ◌-◌, ◌*◌, ◌/◌, ◌≤◌, ◌<◌, min, max, Bool, true, false, ◌||◌, ◌&&◌, ltb, leb,
  if◌then◌else◌, saturating_add, u16_max, u64_max,
}
use rustibia_server.Prelude.Outcome.{Outcome, ok, spin}
use rustibia_server.Prelude.Int.{ℤ, pos, negsuc, ◌+ℤ◌, ◌-ℤ◌, ◌*ℤ◌, sub_ℕ}
use rustibia_server.Codes.Vocation.{Vocation}
use rustibia_server.Codes.Vocation
use rustibia_server.Codes.SkillType.{SkillType}
use rustibia_server.Codes.SkillType

pub record SkillValue : Type 0 where
  pub value : ℕ
  pub current_ticks : ℕ

-- Division of an `i64` by a positive number, towards zero.
abbrev quotient : ℤ → ℕ → ℤ
quotient (pos n) d = pos (n / d)
quotient (negsuc n) d = sub_ℕ 0 (suc n / d)

abbrev clamp_u64 : ℤ → ℕ
clamp_u64 (pos n) = n
clamp_u64 (negsuc n) = 0

unfoldable pub exp_for_level : ℕ → ℕ
unfolding ◌+ℤ◌ ◌-ℤ◌ ◌*ℤ◌
exp_for_level level =
    let lv = pos level in
    clamp_u64 (quotient (((lv -ℤ pos 6) *ℤ lv +ℤ pos 17) *ℤ lv -ℤ pos 12) 6 *ℤ pos 100)

-- `VocationMultipliers`, `VocationCurves`, `SkillBases` and `SkillsConfig` of `game/config.rs`.
pub record VocationMultipliers (F : Type 0) : Type 0 where
  pub melee : F
  pub distance : F
  pub magic : F
  pub shielding : F

pub record VocationCurves (F : Type 0) : Type 0 where
  pub knight : VocationMultipliers F
  pub paladin : VocationMultipliers F
  pub sorcerer : VocationMultipliers F
  pub druid : VocationMultipliers F

pub get_curve : {F : Type 0} → VocationCurves F → Vocation → VocationMultipliers F
get_curve c Vocation.knight = c.knight
get_curve c Vocation.paladin = c.paladin
get_curve c Vocation.sorcerer = c.sorcerer
get_curve c Vocation.druid = c.druid

pub record SkillBases : Type 0 where
  pub melee : ℕ
  pub distance : ℕ
  pub magic : ℕ
  pub shielding : ℕ

pub record SkillsConfig (F : Type 0) : Type 0 where
  pub min_level : ℕ
  pub base : SkillBases
  pub vocations : VocationCurves F

pub bp_from : ℕ → ℕ → ℕ → ℕ
bp_from current_ticks current_cost next_cost =
    if leb next_cost current_cost then 10000 else min (current_ticks * 10000 / next_cost) 10000

-- `power base multiplier steps` stands for `((base as f64) * (multiplier as f64).powi(steps))`,
-- rounded to a `u64`.
module _ {F : Type 0} (power : ℕ → F → ℤ → ℕ) where
  pub geometric : ℕ → F → ℤ → ℕ
  geometric base multiplier steps = max (power base multiplier steps) 1

  pub required_ticks_in : SkillsConfig F → Vocation → SkillType → ℕ → ℕ
  unfolding geometric get_curve ◌-ℤ◌
  required_ticks_in cfg vocation skill level =
      let mult = get_curve cfg.vocations vocation in
      let weapon_steps = pos level -ℤ pos (cfg.min_level + 1) in
      let step = exp_for_level level - exp_for_level (level - 1) in
      elim skill [
        | SkillType.level ↦ step
        | SkillType.magic ↦ geometric cfg.base.magic mult.magic (pos level -ℤ pos 1)
        | SkillType.distance ↦ geometric cfg.base.distance mult.distance weapon_steps
        | SkillType.sword ↦ geometric cfg.base.melee mult.melee weapon_steps
        | SkillType.axe ↦ geometric cfg.base.melee mult.melee weapon_steps
        | SkillType.club ↦ geometric cfg.base.melee mult.melee weapon_steps
        | SkillType.shielding ↦ geometric cfg.base.shielding mult.shielding weapon_steps
      ]

  pub progress_bp_in : SkillsConfig F → Vocation → SkillType → SkillValue → ℕ
  unfolding required_ticks_in bp_from
  progress_bp_in cfg vocation skill value =
      bp_from value.current_ticks (required_ticks_in cfg vocation skill value.value)
        (required_ticks_in cfg vocation skill (saturating_add u16_max value.value 1))

pub total_experience : SkillValue → ℕ
total_experience value = saturating_add u64_max (exp_for_level value.value) value.current_ticks

-- `required level` is the cost of the step into `level`.
module _ (required : ℕ → ℕ) where
  -- The loop of `advance`, with fuel.
  advance_loop : ℕ → SkillValue → ℕ → Outcome (SkillValue × ℕ)
  advance_loop zero skill gained = spin
  advance_loop (suc fuel) skill gained =
      let current_cost = required skill.value in
      let next_cost = required (saturating_add u16_max skill.value 1) in
      let raised : SkillValue = record {
        current_ticks = skill.current_ticks - next_cost;
        value = saturating_add u16_max skill.value 1;
      } in
      let rest = advance_loop fuel raised (saturating_add u16_max gained 1) in
      if leb next_cost current_cost || ltb skill.current_ticks next_cost
      then ok (skill, gained)
      else rest

  -- Each round but the last raises the value, which stops at `u16::MAX`.
  pub advance : SkillValue → ℕ → Outcome (SkillValue × ℕ)
  advance skill ticks =
      advance_loop 65536
        (record skill { current_ticks = saturating_add u64_max skill.current_ticks ticks }) 0

  -- The loop of `regress`, with fuel.
  regress_loop : ℕ → SkillValue → ℕ → ℕ → ℕ → Outcome (SkillValue × ℕ)
  regress_loop zero skill ticks floor lost = spin
  regress_loop (suc fuel) skill ticks floor lost =
      let lowered : SkillValue = record {
        current_ticks = required skill.value;
        value = skill.value - 1;
      } in
      let rest = regress_loop fuel lowered (ticks - skill.current_ticks) floor (lost + 1) in
      if ltb skill.current_ticks ticks && ltb floor skill.value
      then rest
      else ok (record skill { current_ticks = skill.current_ticks - ticks }, lost)

  -- Each round but the last lowers the value.
  pub regress : SkillValue → ℕ → ℕ → Outcome (SkillValue × ℕ)
  regress skill ticks floor = regress_loop (skill.value + 1) skill ticks floor 0

  -- `fold` over the levels from `level` on, `left` of them.
  fold_costs : ℕ → ℕ → ℕ → ℕ
  fold_costs zero level acc = acc
  fold_costs (suc left) level acc =
      fold_costs left (level + 1) (saturating_add u64_max acc (required level))

  pub progress_above_floor : SkillValue → ℕ → ℕ
  unfolding fold_costs
  progress_above_floor skill floor =
      let first = saturating_add u16_max floor 1 in
      fold_costs (skill.value + 1 - first) first skill.current_ticks

pub percent_of : ℕ → ℕ → ℕ
percent_of amount percent = amount * min percent 100 / 100

-- What `apply_death_loss` does to one skill: the new value, and the levels that it loses.
pub death_loss : (ℕ → ℕ) → SkillValue → ℕ → ℕ → Outcome (SkillValue × ℕ)
unfolding percent_of
death_loss required skill floor percent =
    let loss = percent_of (progress_above_floor required skill floor) percent in
    regress required skill loss floor
