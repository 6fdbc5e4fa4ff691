-- ===== src/DamageOverTime.antt =====
-- `DamageOverTime` and its `Schedule` of `crates/server/src/entities/conditions.rs`: the hits that a
-- burning, poisoned or electrified agent takes. The numbers are `u32` and wrap. The comparison
-- `with_another >= as_is` is made in floating point, and is the parameter `falls`: it is given
-- `*dealt + *value`, `*dealt` and `med`.
pub mod Schedules
pub mod Hits
mod Tests
use rustibia_server.Prelude.{
  ℕ, ◌+◌, ◌-◌, ◌*◌, ◌/◌, ◌%◌, ◌==◌, leb, min, max, Bool, true, false, ◌||◌, if◌then◌else◌, Option,
  none, some,
}
use rustibia_server.Combat.{CombatElement}
use rustibia_server.DamageOverTime.Schedules.{Schedule}

abbrev pub u32_mod : ℕ
u32_mod = 4294967296

-- An `AgentKey` is only kept, and is a number.
pub record DamageOverTime : Type 0 where
  pub element : CombatElement
  pub source : Option ℕ
  pub interval : ℕ
  pub generation : ℕ
  pub schedule : Schedule

unfoldable pub new : CombatElement → Option ℕ → ℕ → Schedule → DamageOverTime
new element source interval schedule = record {
  element = element;
  source = source;
  interval = interval;
  generation = 0;
  schedule = schedule;
}

-- `start.unwrap_or_else(|| total.div_ceil(20)).clamp(1, total.max(1))`
abbrev pub first_value : ℕ → Option ℕ → ℕ
first_value total none = min (max ((total + 19) / 20) 1) (max total 1)
first_value total (some start) = min (max start 1) (max total 1)

unfoldable pub decaying : CombatElement → Option ℕ → ℕ → ℕ → Option ℕ → DamageOverTime
unfolding new
decaying element source interval total start =
    let first = first_value total start in
    new element source interval (Schedule.decaying total first first 0)

unfoldable pub flat : CombatElement → Option ℕ → ℕ → ℕ → ℕ → DamageOverTime
unfolding new
flat element source interval value count = new element source interval (Schedule.flat value count)

unfoldable pub remaining : Schedule → ℕ
remaining (Schedule.decaying total start value dealt) = total - dealt
remaining (Schedule.flat value left) = value * left % u32_mod

-- A hit, and the schedule after it. A `start` of 0, on which the source would panic, is made by none
-- of the constructors above.
unfoldable pub next_hit : (ℕ → ℕ → ℕ → Bool) → Schedule → Option (ℕ × Schedule)
next_hit falls (Schedule.decaying total start value dealt) =
    if (value == 0) || leb total dealt
    then none
    else let spent = (dealt + value) % u32_mod in
      let n = (start + 1 + u32_mod - value) % u32_mod in
      let med = n * total % u32_mod / start in
      let next = if falls ((spent + value) % u32_mod) spent med then value - 1 else value in
      some (value, Schedule.decaying total start next spent)
next_hit falls (Schedule.flat value left) =
    if left == 0 then none else some (value, Schedule.flat value (left - 1))
