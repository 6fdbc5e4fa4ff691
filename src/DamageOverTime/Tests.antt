-- ===== src/DamageOverTime/Tests.antt =====
-- Poison and fire, with the comparison made on exact fractions: `|1 - a / med| >= |1 - b / med|`.
use rustibia_server.Prelude.{
  ℕ, ◌+◌, ◌-◌, ◌<◌, ◌≤◌, ◌≡◌, leb, max, Bool, none, some, sum, replicate, arith,
}
use rustibia_server.Combat.{CombatElement}
use rustibia_server.DamageOverTime.{decaying, flat, remaining, first_value}
use rustibia_server.DamageOverTime.Hits.{
  hits, IsNearer, decaying-hits, flat-hits, decaying_overspends,
}

-- The distance of `a` from `med`.
abbrev apart : ℕ → ℕ → ℕ
apart a med = (a - med) + (med - a)

exact : ℕ → ℕ → ℕ → Bool
exact more dealt med = leb (apart dealt med) (apart more med)

exact-IsNearer : IsNearer exact
unfolding exact
exact-IsNearer dealt med h = ground arith

decaying-hits_example :
    (100 ≤ sum (hits exact 100 (decaying CombatElement.earth none 80 100 none).schedule).0)
    × (sum (hits exact 100 (decaying CombatElement.earth none 80 100 none).schedule).0
        < max 100 1 + first_value 100 none)
    × (first_value 100 none ≤ max 100 1)
    × (remaining (hits exact 100 (decaying CombatElement.earth none 80 100 none).schedule).1 ≡ 0)
decaying-hits_example =
    decaying-hits exact CombatElement.earth none 80 100 none exact-IsNearer (omega arith)
      (omega arith)

flat-hits_example :
    ((hits exact 7 (flat CombatElement.fire none 200 10 7).schedule).0 ≡ replicate 7 10)
    × (remaining (flat CombatElement.fire none 200 10 7).schedule
        ≡ sum (hits exact 7 (flat CombatElement.fire none 200 10 7).schedule).0)
    × (remaining (hits exact 7 (flat CombatElement.fire none 200 10 7).schedule).1 ≡ 0)
flat-hits_example = flat-hits exact CombatElement.fire none 200 10 7 (omega arith)

decaying_overspends_example :
    100 < sum (hits exact 2 (decaying CombatElement.fire none 180 100 (some 60)).schedule).0
decaying_overspends_example =
    decaying_overspends exact CombatElement.fire none 180 100 60 exact-IsNearer (omega arith)
      (omega arith) (omega arith) (omega arith)
