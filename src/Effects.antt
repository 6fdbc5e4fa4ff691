-- ===== src/Effects.antt =====
-- `AreaShape` of `crates/server/src/entities/effects.rs`: a mask of tiles and its quarter turns, for
-- the four ways that a spell or a weapon can face. An `i8` offset is an integer from -128 to 127.
pub mod Turns
mod Tests
use rustibia_server.Prelude.{
  ℕ, zero, suc, Option, none, some, List, [], ◌∷◌, map, Bool, true, false, ◌==◌, ltb, if◌then◌else◌,
}
use rustibia_server.Prelude.Int.{ℤ, pos, negsuc, ltb_ℤ}
use rustibia_server.Codes.Facing.{Facing}

abbrev pub Tile : Type 0
Tile = ℤ × ℤ

-- `-dy` of an `i8`: the negation of -128 wraps to itself.
abbrev pub negate_i8 : ℤ → ℤ
negate_i8 (pos n) = elim n [ zero ↦ pos 0 | suc k ↦ negsuc k ]
negate_i8 (negsuc n) = if n == 127 then negsuc 127 else pos (suc n)

abbrev pub turn : Tile → Tile
turn (dx, dy) = (negate_i8 dy, dx)

pub rotate_cw : List Tile → List Tile
rotate_cw tiles = map turn tiles

pub record Rotations : Type 0 where
  pub up : List Tile
  pub right : List Tile
  pub down : List Tile
  pub left : List Tile

pub rotations : List Tile → Rotations
unfolding rotate_cw
rotations mask =
    let quarter = rotate_cw mask in
    let half = rotate_cw quarter in
    let three_quarters = rotate_cw half in
    record { up = mask; right = quarter; down = half; left = three_quarters }

pub record AreaShape : Type 0 where
  pub delta : Rotations
  pub diagonal : Option Rotations

pub new : List Tile → AreaShape
unfolding rotations
new north_facing = record { delta = rotations north_facing; diagonal = none }

pub with_diagonal : List Tile → List Tile → AreaShape
unfolding rotations
with_diagonal north_facing north_west_facing = record {
  delta = rotations north_facing;
  diagonal = some (rotations north_west_facing);
}

pub get_delta : AreaShape → List Tile
get_delta shape = shape.delta.up

pub get_delta_facing : AreaShape → Facing → List Tile
get_delta_facing shape Facing.north = shape.delta.up
get_delta_facing shape Facing.east = shape.delta.right
get_delta_facing shape Facing.south = shape.delta.down
get_delta_facing shape Facing.west = shape.delta.left

abbrev is_zero : ℤ → Bool
is_zero (pos n) = n == 0
is_zero (negsuc n) = false

abbrev is_positive : ℤ → Bool
is_positive (pos n) = ltb 0 n
is_positive (negsuc n) = false

abbrev is_negative : ℤ → Bool
is_negative (pos n) = false
is_negative (negsuc n) = true

abbrev corner : Rotations → Bool → Bool → List Tile
corner r false false = r.up
corner r true false = r.right
corner r true true = r.down
corner r false true = r.left

-- The facing of a throw along `(dx, dy)`.
abbrev pub facing_towards : ℤ → ℤ → Facing → Facing
facing_towards dx dy facing =
    if is_zero dx
    then (if is_zero dy then facing else if is_negative dy then Facing.north else Facing.south)
    else if is_negative dx
    then Facing.west
    else Facing.east

pub get_delta_towards : AreaShape → ℤ → ℤ → Facing → List Tile
unfolding get_delta_facing
get_delta_towards shape dx dy facing =
    let straight = get_delta_facing shape (facing_towards dx dy facing) in
    elim shape.diagonal [
      | none ↦ straight
      | some diagonal ↦
          if is_zero dx
          then straight
          else if is_zero dy
          then straight
          else corner diagonal (is_positive dx) (is_positive dy)
    ]
