-- ===== src/DamageOverTime/Schedules.antt =====
-- `Schedule` of `crates/server/src/entities/conditions.rs`.
use rustibia_server.Prelude.{ℕ}

pub data Schedule : Type 0 where
  decaying : (total start value dealt : ℕ) → Schedule
  flat : (value remaining : ℕ) → Schedule
