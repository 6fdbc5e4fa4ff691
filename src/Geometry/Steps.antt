-- ===== src/Geometry/Steps.antt =====
-- Directions and steps of `position.rs`.
use rustibia_server.Prelude.{
  ◌≤◌, ◌<◌, ◌≡◌, ◌≢◌, ◌⊎◌, ◌↔◌, refl, ap, none, some, List, [], ◌∷◌, arith,
}
use rustibia_server.Prelude.Int.{ℤ}
use rustibia_server.Geometry.{
  Position, Direction, delta, find_step, from_step, all_directions, step, step_back, checked_offset,
  distance,
}

find_step-delta :
    (dx dy : ℤ) (ds : List Direction) (d : Direction)
    → find_step dx dy ds ≡ some d
    → delta d ≡ (dx, dy)
unfolding find_step
find_step-delta dx dy [] d h = cc
find_step-delta dx dy (e ∷ ds) d h = ground (arith, find_step-delta dx dy ds d)

delta-from_step : (d : Direction) → from_step (delta d).0 (delta d).1 ≡ some d
unfolding from_step
delta-from_step Direction.north = refl
delta-from_step Direction.east = refl
delta-from_step Direction.west = refl
delta-from_step Direction.south = refl
delta-from_step Direction.north_east = refl
delta-from_step Direction.south_east = refl
delta-from_step Direction.north_west = refl
delta-from_step Direction.south_west = refl

-- A pair of offsets is read as a direction exactly if it is that direction's delta.
pub from_step_iff : (dx dy : ℤ) (d : Direction) → (from_step dx dy ≡ some d) ↔ (delta d ≡ (dx, dy))
unfolding from_step
from_step_iff dx dy d = (
  find_step-delta dx dy all_directions d,
  λ e. rw (← ap (λ (t : ℤ × ℤ). from_step t.0 t.1) e) (delta-from_step d),
)

-- Inside the map a step is undone by the step back, and it moves one tile on the same floor.
pub step_back-step :
    (p : Position) (d : Direction)
    → 0 < p.x
    → p.x < 65535
    → 0 < p.y
    → p.y < 65535
    → (step_back (step p d) d ≡ p) × (distance p (step p d) ≡ 1) × ((step p d).z ≡ p.z)
unfolding step step_back distance
step_back-step p Direction.north x0 x1 y0 y1 = ground arith
step_back-step p Direction.east x0 x1 y0 y1 = ground arith
step_back-step p Direction.west x0 x1 y0 y1 = ground arith
step_back-step p Direction.south x0 x1 y0 y1 = ground arith
step_back-step p Direction.north_east x0 x1 y0 y1 = ground arith
step_back-step p Direction.south_east x0 x1 y0 y1 = ground arith
step_back-step p Direction.north_west x0 x1 y0 y1 = ground arith
step_back-step p Direction.south_west x0 x1 y0 y1 = ground arith

-- Where the checked offset by a direction's delta exists, it is the saturating step; it exists
-- exactly if the step changes each coordinate by the delta.
pub checked_offset-step :
    (p : Position) (d : Direction)
    → p.x ≤ 65535
    → p.y ≤ 65535
    → (checked_offset p (delta d).0 (delta d).1 ≡ some (step p d))
      ⊎ ((checked_offset p (delta d).0 (delta d).1 ≡ none) × (step_back (step p d) d ≢ p))
unfolding checked_offset step step_back
checked_offset-step p Direction.north hx hy = ground arith
checked_offset-step p Direction.east hx hy = ground arith
checked_offset-step p Direction.west hx hy = ground arith
checked_offset-step p Direction.south hx hy = ground arith
checked_offset-step p Direction.north_east hx hy = ground arith
checked_offset-step p Direction.south_east hx hy = ground arith
checked_offset-step p Direction.north_west hx hy = ground arith
checked_offset-step p Direction.south_west hx hy = ground arith
