-- ===== src/Skills/Tests.antt =====
-- Runs of the skill arithmetic at a curve that costs a hundred more for each level.
use rustibia_server.Prelude.{ℕ, ◌+◌, ◌*◌, ◌≡◌, arith, saturating_add, u64_max}
use rustibia_server.Prelude.Outcome.{ok}
use rustibia_server.Prelude.Int.{ℤ}
use rustibia_server.Codes.Vocation
use rustibia_server.Codes.SkillType.{SkillType}
use rustibia_server.Skills.{
  SkillValue, SkillsConfig, VocationMultipliers, advance, regress, required_ticks_in,
}
use rustibia_server.Skills.Advance.{Advances, advance-Advances, advance_level_two}
use rustibia_server.Skills.Regress.{Regresses, regress-Regresses}

abbrev linear : ℕ → ℕ
linear level = 100 * level

abbrev seasoned : SkillValue
seasoned = record { value = 12; current_ticks = 500 }

-- A whole number stands for each multiplier, and is ignored.
abbrev flat_power : ℕ → ℕ → ℤ → ℕ
flat_power base multiplier steps = base

abbrev multipliers : VocationMultipliers ℕ
multipliers = record { melee = 1; distance = 1; magic = 1; shielding = 1 }

abbrev config : SkillsConfig ℕ
config = record {
  min_level = 10;
  base = record { melee = 50; distance = 30; magic = 1600; shielding = 100 };
  vocations = record {
    knight = multipliers;
    paladin = multipliers;
    sorcerer = multipliers;
    druid = multipliers;
  };
}

advance_level_two_example :
    advance
      (required_ticks_in flat_power config Vocation.knight SkillType.level)
      (record { value = 2; current_ticks = 0 })
      1_000_000
    ≡ ok (record { value = 2; current_ticks = saturating_add u64_max 0 1_000_000 }, 0)
advance_level_two_example = advance_level_two flat_power config Vocation.knight 0 1_000_000

advance-Advances_example :
    Advances linear
      (record seasoned { current_ticks = 500 + 3650 })
      0
      (advance linear seasoned 3650)
advance-Advances_example = advance-Advances linear seasoned 3650 (omega arith) (omega arith)

regress-Regresses_example : Regresses linear seasoned 1700 10 0 (regress linear seasoned 1700 10)
regress-Regresses_example = regress-Regresses linear seasoned 1700 10 (omega arith)
