-- ===== src/Geometry/Distances.antt =====
-- `Position::distance` and `is_within` of `entities/position.rs`.
use rustibia_server.Prelude.{ℕ, ◌+◌, ◌≤◌, ◌≡◌, ◌↔◌, true, arith}
use rustibia_server.Geometry.{Position, distance, is_within}

-- The distance is symmetric, 0 exactly between the same coordinates, and no longer than a detour.
pub distance_metric :
    (p q r : Position)
    → (distance p q ≡ distance q p)
      × ((distance p q ≡ 0) ↔ ((p.x ≡ q.x) × (p.y ≡ q.y)))
      × (distance p r ≤ distance p q + distance q r)
unfolding distance
distance_metric p q r =
    (omega arith, (λ h. (omega arith, omega arith), λ h. omega (arith, h.0, h.1)), omega arith)

-- From a tile within one range of a second, which is within another of a third, the third is
-- within the sum of the ranges.
pub is_within_trans :
    (p q r : Position) (m n : ℕ)
    → is_within p q m ≡ true
    → is_within q r n ≡ true
    → is_within p r (m + n) ≡ true
unfolding is_within
is_within_trans p q r m n h k = ground (arith, (distance_metric p q r).2)
