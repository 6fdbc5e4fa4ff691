-- ===== src/Participation.antt =====
-- `Participation` of `crates/server/src/entities/combat.rs`: who has damaged an agent, and how the
-- experience for it is shared. An `AgentKey` is only compared, and is a number; the damages are
-- `u64`, whose sums and products wrap.
pub mod Record
pub mod Shares
mod Tests
use rustibia_server.Prelude.{
  ℕ, ◌+◌, ◌*◌, ◌/◌, ◌%◌, ◌==◌, ltb, Bool, true, false, ◌||◌, if◌then◌else◌, List, [], ◌∷◌, ◌++◌,
  saturating_add, u64_max, sum, map,
}

abbrev pub u64_mod : ℕ
u64_mod = 18446744073709551616

abbrev pub Entries : Type 0
Entries = List (ℕ × ℕ)

-- `find` and `push`: the first entry of the attacker grows, or a new one is put at the end.
pub record_damage : Entries → ℕ → ℕ → Entries
record_damage [] attacker damage = (attacker, damage) ∷ []
record_damage ((key, total) ∷ rest) attacker damage =
    let later = record_damage rest attacker damage in
    if key == attacker
    then (key, saturating_add u64_max total damage) ∷ rest
    else (key, total) ∷ later

pub contains : Entries → ℕ → Bool
contains [] attacker = false
contains ((key, damage) ∷ rest) attacker = (key == attacker) || contains rest attacker

pub forget : Entries → ℕ → Entries
forget [] attacker = []
forget ((key, damage) ∷ rest) attacker =
    let kept = forget rest attacker in if key == attacker then kept else (key, damage) ∷ kept

abbrev pub damages : Entries → List ℕ
damages [] = []
damages ((key, damage) ∷ rest) = damage ∷ damages rest

pub total : Entries → ℕ
total entries = sum (damages entries) % u64_mod

pub shares_of : ℕ → ℕ → Entries → Entries
shares_of pool total [] = []
shares_of pool total ((key, damage) ∷ rest) =
    let share = pool * damage % u64_mod / total in
    let later = shares_of pool total rest in if ltb 0 share then (key, share) ∷ later else later

pub shares : Entries → ℕ → Entries
unfolding total shares_of
shares entries pool =
    if (total entries == 0) || (pool == 0) then [] else shares_of pool (total entries) entries
