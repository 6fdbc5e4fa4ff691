-- ===== src/Codes/InventorySlot.antt =====
-- `InventorySlot` of `crates/server/src/entities/inventory.rs`.
use rustibia_server.Prelude.{ℕ, ◌≡◌, ◌↔◌, refl, Option, some, List, [], ◌∷◌}
use rustibia_server.Codes.Table.{from_repr, from_repr_iff}

pub data InventorySlot : Type 0 where
  both_hands head amulet backpack chest right_hand left_hand legs feet ring trinket : InventorySlot

unfoldable pub as_id : InventorySlot → ℕ
as_id both_hands = 0
as_id head = 1
as_id amulet = 2
as_id backpack = 3
as_id chest = 4
as_id right_hand = 5
as_id left_hand = 6
as_id legs = 7
as_id feet = 8
as_id ring = 9
as_id trinket = 10

-- The variants in the order of their discriminants.
abbrev pub all : List InventorySlot
all =
    both_hands ∷ head ∷ amulet ∷ backpack ∷ chest ∷ right_hand ∷ left_hand ∷ legs ∷ feet ∷ ring
    ∷ trinket ∷ []

unfoldable pub from_id : ℕ → Option InventorySlot
from_id n = from_repr all n

decodes_own : (x : InventorySlot) → from_repr all (as_id x) ≡ some x
unfolding as_id
decodes_own both_hands = refl
decodes_own head = refl
decodes_own amulet = refl
decodes_own backpack = refl
decodes_own chest = refl
decodes_own right_hand = refl
decodes_own left_hand = refl
decodes_own legs = refl
decodes_own feet = refl
decodes_own ring = refl
decodes_own trinket = refl

-- A number decodes to a variant exactly if it is the variant's code; all others are refused.
pub inventory_slot_codes : (n : ℕ) (x : InventorySlot) → (from_id n ≡ some x) ↔ (as_id x ≡ n)
unfolding as_id from_id
inventory_slot_codes n x =
    from_repr_iff as_id all n x
      (refl, (refl, (refl, (refl, (refl, (refl, (refl, (refl, (refl, (refl, (refl, tt)))))))))))
      (decodes_own x)
