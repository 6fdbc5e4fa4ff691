-- ===== src/Conditions/Kinds.antt =====
-- The data of `crates/server/src/entities/conditions.rs`. Ticks are `u64`, generations `u32`, and a
-- change of speed is an `i16`; an authored damage is a pair of bounds.
use rustibia_server.Prelude.{ℕ, Option, Bool}
use rustibia_server.Prelude.Int.{ℤ}
use rustibia_server.Combat.{CombatElement}
use rustibia_server.DamageOverTime.{DamageOverTime}

pub record Bounds : Type 0 where
  pub min : ℕ
  pub max : ℕ

pub data SpecSchedule : Type 0 where
  decaying : Option ℕ → SpecSchedule
  flat : ℕ → SpecSchedule

pub record ConditionSpec : Type 0 where
  pub element : CombatElement
  pub damage : Bounds
  pub interval : ℕ
  pub schedule : SpecSchedule
  pub delayed : Bool

pub data SpeedEffect : Type 0 where
  haste paralysis : SpeedEffect

pub data TimedCondition : Type 0 where
  fed logout_block magic_shield : TimedCondition

pub record DamageHit : Type 0 where
  pub value : ℕ
  pub source : Option ℕ
  pub interval : ℕ
  pub exhausted : Bool

pub data Condition : Type 0 where
  fed : (until generation : ℕ) → Condition
  logout_block : (until : ℕ) → Condition
  damage_over_time : DamageOverTime → Condition
  speed : SpeedEffect → (change : ℤ) → (generation : ℕ) → Condition
  magic_shield : (until : ℕ) → Condition
