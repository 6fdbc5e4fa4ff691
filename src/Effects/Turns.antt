-- ===== src/Effects/Turns.antt =====
-- Turning an `AreaShape` of `entities/effects.rs` and the throws that use it.
use rustibia_server.Prelude.{zero, suc, ◌≤◌, ◌≡◌, refl, sym, List, [], ◌∷◌, All, arith}
use rustibia_server.Prelude.Int.{ℤ, pos, negsuc, ◌-ℤ◌}
use rustibia_server.Codes.Facing.{Facing}
use rustibia_server.Effects.{Tile, negate_i8, rotate_cw, new, get_delta_facing}

-- Offsets from -127 to 127, as masks are authored.
abbrev pub IsOffset : ℤ → Type 0
IsOffset (pos n) = n ≤ 127
IsOffset (negsuc n) = suc n ≤ 127

negate_twice : (d : ℤ) → IsOffset d → negate_i8 (negate_i8 d) ≡ d
negate_twice (pos zero) h = refl
negate_twice (pos (suc n)) h = ground arith
negate_twice (negsuc n) h = ground arith

-- A full turn brings every mask back; the mask of the opposite facing is the half turn.
pub rotate_cw_four :
    (mask : List Tile)
    → All (λ t. IsOffset t.0 × IsOffset t.1) mask
    → rotate_cw (rotate_cw (rotate_cw (rotate_cw mask))) ≡ mask
unfolding rotate_cw
rotate_cw_four [] h = refl
rotate_cw_four ((dx, dy) ∷ mask) h =
    ground (arith, negate_twice dx h.0.0, negate_twice dy h.0.1, rotate_cw_four mask h.1)

abbrev pub clockwise : Facing → Facing
clockwise Facing.north = Facing.east
clockwise Facing.east = Facing.south
clockwise Facing.south = Facing.west
clockwise Facing.west = Facing.north

-- Turning the facing by a quarter turns the mask by a quarter, all the way round.
pub get_delta_facing-clockwise :
    (mask : List Tile) (facing : Facing)
    → All (λ t. IsOffset t.0 × IsOffset t.1) mask
    → get_delta_facing (new mask) (clockwise facing)
      ≡ rotate_cw (get_delta_facing (new mask) facing)
unfolding new get_delta_facing
get_delta_facing-clockwise mask Facing.north h = refl
get_delta_facing-clockwise mask Facing.east h = refl
get_delta_facing-clockwise mask Facing.south h = refl
get_delta_facing-clockwise mask Facing.west h = sym (rotate_cw_four mask h)

-- The quarter turn of an offset of any size: (dx, dy) becomes (-dy, dx).
abbrev pub quarter : ℤ × ℤ → ℤ × ℤ
quarter (dx, dy) = (pos 0 -ℤ dy, dx)
