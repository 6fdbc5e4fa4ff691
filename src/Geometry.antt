-- ===== src/Geometry.antt =====
-- `crates/server/src/entities/position.rs`: tiles, steps, where an item sits, and rectangles. A
-- `u16` or `u8` is a number, an `i32` an integer; the additions of the source that can leave the
-- range saturate or are checked, and are written out.
pub mod Steps
pub mod Distances
pub mod Rects
pub mod Placements
mod Tests
use rustibia_server.Prelude.{
  ℕ, suc, ◌+◌, ◌-◌, max, Bool, true, false, ◌&&◌, leb, ltb, ◌==◌, if◌then◌else◌, Option, none, some,
  List, [], ◌∷◌, saturating_add, u16_max,
}
use rustibia_server.Prelude.Int.{ℤ, pos, negsuc, ◌+ℤ◌}
use rustibia_server.Codes.InventorySlot.{InventorySlot}

abbrev container_coord_flag : ℕ
container_coord_flag = 0xFFFF

abbrev inventory_coord_flag : ℕ
inventory_coord_flag = 0xFFFE

abbrev carried_search_flag : ℕ
carried_search_flag = 0xFFFF

pub record Position : Type 0 where
  pub x : ℕ
  pub y : ℕ
  pub z : ℕ

pub is_container_coord : Position → Bool
is_container_coord p = p.x == container_coord_flag

pub is_inventory_coord : Position → Bool
is_inventory_coord p = p.x == inventory_coord_flag

pub is_carried_search_coord : Position → Bool
is_carried_search_coord p = (p.x == inventory_coord_flag) && (p.y == carried_search_flag)

-- `u16::abs_diff`
abbrev pub abs_diff : ℕ → ℕ → ℕ
abs_diff a b = (a - b) + (b - a)

unfoldable pub distance : Position → Position → ℕ
distance p q = max (abs_diff p.x q.x) (abs_diff p.y q.y)

unfoldable pub is_within : Position → Position → ℕ → Bool
unfolding distance
is_within p q range = (p.z == q.z) && leb (distance p q) range

-- `u16::try_from` of an `i32`.
abbrev pub u16_of : ℤ → Option ℕ
u16_of (pos n) = if leb n u16_max then some n else none
u16_of (negsuc n) = none

infixl 5 ◌>>=◌
abbrev ◌>>=◌ : {A B : Type 0} → Option A → (A → Option B) → Option B
none >>= f = none
some a >>= f = f a

-- The `i32` sums of a `u16` and an offset: where one leaves the range of `i32`, the wrapped sum is
-- negative and the exact one above `u16::MAX`, and `u16::try_from` refuses both.
unfoldable pub checked_offset : Position → ℤ → ℤ → Option Position
unfolding ◌+ℤ◌
checked_offset p dx dy = u16_of (pos p.x +ℤ dx) >>= λ x.
    u16_of (pos p.y +ℤ dy) >>= λ y. some (record { x = x; y = y; z = p.z })

pub data Direction : Type 0 where
  north east west south north_east south_east north_west south_west : Direction

unfoldable pub is_diagonal : Direction → Bool
is_diagonal north_east = true
is_diagonal north_west = true
is_diagonal south_east = true
is_diagonal south_west = true
is_diagonal d = false

unfoldable pub delta : Direction → ℤ × ℤ
delta north = (pos 0, negsuc 0)
delta north_east = (pos 1, negsuc 0)
delta east = (pos 1, pos 0)
delta south_east = (pos 1, pos 1)
delta south = (pos 0, pos 1)
delta south_west = (negsuc 0, pos 1)
delta west = (negsuc 0, pos 0)
delta north_west = (negsuc 0, negsuc 0)

abbrev pub all_directions : List Direction
all_directions =
    north ∷ north_east ∷ east ∷ south_east ∷ south ∷ south_west ∷ west ∷ north_west ∷ []

abbrev pub eq_ℤ : ℤ → ℤ → Bool
eq_ℤ (pos a) (pos b) = a == b
eq_ℤ (negsuc a) (negsuc b) = a == b
eq_ℤ a b = false

pub find_step : ℤ → ℤ → List Direction → Option Direction
unfolding delta
find_step dx dy [] = none
find_step dx dy (d ∷ ds) =
    let (ex, ey) = delta d in if eq_ℤ ex dx && eq_ℤ ey dy then some d else find_step dx dy ds

pub from_step : ℤ → ℤ → Option Direction
unfolding find_step
from_step dx dy = find_step dx dy all_directions

-- `u16::saturating_add_signed` and `u16::saturating_sub_signed`.
abbrev pub saturating_add_signed : ℕ → ℤ → ℕ
saturating_add_signed a (pos n) = saturating_add u16_max a n
saturating_add_signed a (negsuc n) = a - suc n

abbrev pub saturating_sub_signed : ℕ → ℤ → ℕ
saturating_sub_signed a (pos n) = a - n
saturating_sub_signed a (negsuc n) = saturating_add u16_max a (suc n)

-- `impl Add<Direction> for Position` and `impl Sub<Direction> for Position`.
unfoldable pub step : Position → Direction → Position
unfolding delta
step p d =
    let (dx, dy) = delta d in
    record { x = saturating_add_signed p.x dx; y = saturating_add_signed p.y dy; z = p.z }

unfoldable pub step_back : Position → Direction → Position
unfolding delta
step_back p d =
    let (dx, dy) = delta d in
    record { x = saturating_sub_signed p.x dx; y = saturating_sub_signed p.y dy; z = p.z }

-- An `AgentKey` and an `ItemGuid` are only compared here, and are numbers.
pub data ItemPlacement : Type 0 where
  on_map : Position → ItemPlacement
  inventory : InventorySlot → ℕ → ItemPlacement
  in_container : ℕ → ItemPlacement → ℕ → ItemPlacement

pub data PlacementSite : Type 0 where
  tile : Position → PlacementSite
  slot : InventorySlot → ℕ → PlacementSite

unfoldable pub site : ItemPlacement → PlacementSite
site (on_map p) = tile p
site (inventory s k) = slot s k
site (in_container guid within i) = site within

unfoldable pub container : ItemPlacement → Option (ℕ × ℕ)
container (in_container guid within i) = some (guid, i)
container other = none

abbrev of_site : PlacementSite → ItemPlacement
of_site (tile p) = on_map p
of_site (slot s k) = inventory s k

pub site_placement : ItemPlacement → ItemPlacement
unfolding site
site_placement i = of_site (site i)

abbrev site_is_adjacent : Position → PlacementSite → Bool
site_is_adjacent p (tile q) = is_within p q 1
site_is_adjacent p (slot s k) = true

pub placement_is_adjacent : Position → ItemPlacement → Bool
unfolding site is_within
placement_is_adjacent p i = site_is_adjacent p (site i)

pub record Rect : Type 0 where
  pub min_x : ℕ
  pub min_y : ℕ
  pub max_x : ℕ
  pub max_y : ℕ

unfoldable pub radius : Position → ℕ → ℕ → Rect
radius p rx ry = record {
  min_x = p.x - rx;
  min_y = p.y - ry;
  max_x = saturating_add u16_max p.x rx;
  max_y = saturating_add u16_max p.y ry;
}

unfoldable pub contains : Rect → Position → Bool
contains r p = leb r.min_x p.x && leb p.x r.max_x && leb r.min_y p.y && leb p.y r.max_y
