-- ===== src/Geometry/Placements.antt =====
-- Where an item rests: the site at the root of its chain of containers.
use rustibia_server.Prelude.{ℕ, ◌≡◌, refl, none, List, [], ◌∷◌}
use rustibia_server.Geometry.{
  Position, ItemPlacement, on_map, inventory, in_container, site, container, site_placement,
  placement_is_adjacent,
}

-- `i` is put into a chain of containers, each with its guid and the slot within it, innermost
-- first.
abbrev pub nest : List (ℕ × ℕ) → ItemPlacement → ItemPlacement
nest [] i = i
nest ((guid, index) ∷ chain) i = in_container guid (nest chain i) index

site-nest : (chain : List (ℕ × ℕ)) (i : ItemPlacement) → site (nest chain i) ≡ site i
unfolding site
site-nest [] i = refl
site-nest ((guid, index) ∷ chain) i = site-nest chain i

-- However deep an item is nested, its site is that of the tile or slot at the root; the site's own
-- placement is no container and has the same site; and a tile beside the item is one beside its
-- root tile.
pub site_placement-nest :
    (chain : List (ℕ × ℕ)) (i : ItemPlacement) (p : Position)
    → (site (site_placement (nest chain i)) ≡ site i)
      × (container (site_placement (nest chain i)) ≡ none)
      × (placement_is_adjacent p (nest chain i) ≡ placement_is_adjacent p i)
unfolding site_placement placement_is_adjacent site container
site_placement-nest chain i p = (
  rw (site-nest chain i) (root i),
  rw (site-nest chain i) (no_container i),
  rw (site-nest chain i) refl,
)
  where
    root : (j : ItemPlacement) → site (site_placement j) ≡ site j
    root (on_map q) = refl
    root (inventory s k) = refl
    root (in_container guid within index) = root within

    no_container : (j : ItemPlacement) → container (site_placement j) ≡ none
    no_container (on_map q) = refl
    no_container (inventory s k) = refl
    no_container (in_container guid within index) = no_container within
