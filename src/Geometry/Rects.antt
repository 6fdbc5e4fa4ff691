-- ===== src/Geometry/Rects.antt =====
-- `Rect::radius` and `Rect::contains` of `entities/position.rs`.
use rustibia_server.Prelude.{
  ℕ, ◌≤◌, ◌≡◌, ◌↔◌, ◌&&◌, true, ◌==◌, leb, arith, max, ◌-◌, saturating_add, Bool, false, refl,
}
use rustibia_server.Geometry.{Position, abs_diff, is_within, radius, contains}

-- The rectangle of two radii around a tile holds exactly the tiles of the map that differ from it
-- by at most the radii, on every floor.
pub contains-radius :
    (p q : Position) (rx ry : ℕ)
    → q.x ≤ 65535
    → q.y ≤ 65535
    → (contains (radius p rx ry) q ≡ true) ↔ ((abs_diff p.x q.x ≤ rx) × (abs_diff p.y q.y ≤ ry))
unfolding contains radius
contains-radius p q rx ry hx hy = (λ h. (ground arith, ground arith), λ h. ground (arith, h.0, h.1))

near_axis :
    (a b r : ℕ)
    → a ≤ 65535
    → leb (abs_diff a b) r ≡ (leb (b - r) a && leb a (saturating_add 65535 b r))
near_axis a b r h = ground arith

leb-max : (a b r : ℕ) → leb (max a b) r ≡ (leb a r && leb b r)
leb-max a b r = ground arith

regroup : (a b c d : Bool) → ((a && b) && (c && d)) ≡ (a && b && c && d)
regroup true true true d = refl
regroup true true false d = refl
regroup true false c d = ground arith
regroup false b c d = ground arith

-- Being within a range is lying in the square of that radius on the same floor.
pub is_within-radius :
    (p q : Position) (range : ℕ)
    → p.x ≤ 65535
    → p.y ≤ 65535
    → is_within p q range ≡ ((p.z == q.z) && contains (radius q range range) p)
unfolding is_within contains radius
is_within-radius p q range hx hy =
    rw
      (
        leb-max (abs_diff p.x q.x) (abs_diff p.y q.y) range,
        near_axis p.x q.x range hx,
        near_axis p.y q.y range hy,
        regroup _ _ _ _,
      )
      refl
