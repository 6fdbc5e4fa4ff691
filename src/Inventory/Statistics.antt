-- ===== src/Inventory/Statistics.antt =====
-- What the statistics of the equipment should be: sums over what is worn, which wrap once at the
-- end, and a table of what the two hands defend.
use rustibia_server.Prelude.{
  ℕ, ◌+◌, ◌-◌, ◌%◌, ◌<◌, ◌≡◌, refl, ap, sym, ◌∙◌, Bool-cases, inl, inr, Option, Option-cases, none,
  some, List, [], ◌∷◌, if◌then◌else◌, arith,
}
use rustibia_server.Prelude.Int.{ℤ, pos, negsuc, ◌+ℤ◌, pos_part, neg_part, +ℤ_parts, +ℤ_comm}
use rustibia_server.Prelude.Keys.{lookup}
use rustibia_server.Codes.InventorySlot.{InventorySlot, left_hand, right_hand}
use rustibia_server.Items.{Item, head}
use rustibia_server.Items.Attributes.{attr_armor, attr_speed, attr_defense, attr_extra_def}
use rustibia_server.Inventory.{
  slot_key, Slots, Inventory, Wearer, EquipmentStats, can_wear, armor_of, speed_of, worn,
  defense_of, unwrap_or, at_least_zero, to_i16, i16_of, update_equipment_stats, update_armor,
  update_defense, update_speed,
}

abbrev residue : ℤ → ℕ
residue (pos n) = n % 65536
residue (negsuc n) = 65535 - n % 65536

residue_lem : (z : ℤ) → (residue z + neg_part z) % 65536 ≡ pos_part z % 65536
residue_lem (pos n) = omega arith
residue_lem (negsuc n) = omega arith

residue_below : (z : ℤ) → residue z < 65536
residue_below (pos n) = omega arith
residue_below (negsuc n) = omega arith

i16_of_lem : (n : ℕ) → n < 65536 → (n + neg_part (i16_of n)) % 65536 ≡ pos_part (i16_of n) % 65536
i16_of_lem n h = ground arith

to_i16-residue : (z : ℤ) → to_i16 z ≡ i16_of (residue z)
to_i16-residue (pos n) = refl
to_i16-residue (negsuc n) = refl

-- Wrapping a part of a sum does not change what it wraps to.
to_i16-add : (a b : ℤ) → to_i16 (a +ℤ to_i16 b) ≡ to_i16 (a +ℤ b)
to_i16-add a b =
    let same : residue (a +ℤ i16_of (residue b)) ≡ residue (a +ℤ b) = omega (
      arith,
      residue_lem (a +ℤ i16_of (residue b)),
      residue_below (a +ℤ i16_of (residue b)),
      residue_lem (a +ℤ b),
      residue_below (a +ℤ b),
      residue_lem b,
      residue_below b,
      i16_of_lem (residue b) (residue_below b),
      +ℤ_parts a (i16_of (residue b)),
      +ℤ_parts a b,
    ) in
    rw (to_i16-residue b, to_i16-residue (a +ℤ i16_of (residue b)), to_i16-residue (a +ℤ b), same)
      refl

-- The items that the wearer can wear.
abbrev worn_items : Wearer → Slots → List Item
worn_items wearer [] = []
worn_items wearer ((slot, item) ∷ slots) =
    let rest = worn_items wearer slots in if can_wear wearer item then item ∷ rest else rest

abbrev total_armor : List Item → ℕ
total_armor [] = 0
total_armor (item ∷ items) = unwrap_or 0 (attr_armor (head item).config) + total_armor items

abbrev total_speed : List Item → ℤ
total_speed [] = pos 0
total_speed (item ∷ items) = unwrap_or (pos 0) (attr_speed (head item).config) +ℤ total_speed items

-- What is in a hand, if the wearer can wear it.
abbrev usable : Wearer → Option Item → Option Item
usable wearer none = none
usable wearer (some item) = if can_wear wearer item then some item else none

abbrev held : Inventory → InventorySlot → Option Item
held inventory slot = usable inventory.wearer (lookup slot inventory.slots)

abbrev defense_in : Item → ℤ
defense_in item = pos (unwrap_or 0 (attr_defense (head item).config))

abbrev extra_in : Item → ℤ
extra_in item = unwrap_or (pos 0) (attr_extra_def (head item).config)

-- What the left and the right hand defend: a shield counts for itself, a weapon only without one, and
-- what the weapon adds counts with both.
abbrev defends : Option Item → Option Item → ℕ
defends none none = 0
defends (some weapon) none = at_least_zero (to_i16 (extra_in weapon +ℤ defense_in weapon))
defends none (some shield) = at_least_zero (to_i16 (defense_in shield))
defends (some weapon) (some shield) = at_least_zero (to_i16 (extra_in weapon +ℤ defense_in shield))

-- The statistics kept are those of what is worn.
pub record IsEquipped (inventory : Inventory) : Type 0 where
  pub armor :
      inventory.stats.armor ≡ total_armor (worn_items inventory.wearer inventory.slots) % 65536
  pub speed :
      inventory.stats.speed ≡ to_i16 (total_speed (worn_items inventory.wearer inventory.slots))
  pub defense :
      inventory.stats.defense ≡ defends (held inventory left_hand) (held inventory right_hand)

armor_of_lem :
    (wearer : Wearer) (slots : Slots)
    → armor_of wearer slots ≡ total_armor (worn_items wearer slots) % 65536
unfolding armor_of
armor_of_lem wearer [] = refl
armor_of_lem wearer ((slot, item) ∷ slots) = elim (Bool-cases (can_wear wearer item)) [
  | inl e ↦ rw e (omega (arith, armor_of_lem wearer slots))
  | inr e ↦ rw e (armor_of_lem wearer slots)
]

speed_of_lem :
    (wearer : Wearer) (slots : Slots)
    → speed_of wearer slots ≡ to_i16 (total_speed (worn_items wearer slots))
unfolding speed_of
speed_of_lem wearer [] = refl
speed_of_lem wearer ((slot, item) ∷ slots) = elim (Bool-cases (can_wear wearer item)) [
  | inl e ↦ rw (e, speed_of_lem wearer slots) (to_i16-add _ _)
  | inr e ↦ rw e (speed_of_lem wearer slots)
]

worn_lem :
    (inventory : Inventory) (slot : InventorySlot) → worn inventory slot ≡ held inventory slot
unfolding worn
worn_lem inventory slot = elim (Option-cases (lookup slot inventory.slots)) [
  | inl e ↦ rw (worn, e) refl
  | inr (item, e) ↦ rw (worn, e) refl
]

wrapped_twice : (a b : ℤ) → to_i16 (to_i16 a +ℤ b) ≡ to_i16 (b +ℤ a)
wrapped_twice a b = rw (+ℤ_comm (to_i16 a) b) (to_i16-add b a)

zero_added : (n : ℕ) → pos 0 +ℤ pos n ≡ pos n
unfolding ◌+ℤ◌
zero_added n = ground arith

defense_of_lem : (weapon shield : Option Item) → defense_of weapon shield ≡ defends weapon shield
defense_of_lem none none = refl
defense_of_lem none (some s) =
    ap at_least_zero (wrapped_twice (defense_in s) (pos 0) ∙ ap to_i16 (zero_added _))
defense_of_lem (some w) none = ap at_least_zero (wrapped_twice (defense_in w) (extra_in w))
defense_of_lem (some w) (some s) = ap at_least_zero (wrapped_twice (defense_in s) (extra_in w))

hands_lem :
    (inventory : Inventory)
    → defense_of (worn inventory left_hand) (worn inventory right_hand)
      ≡ defends (held inventory left_hand) (held inventory right_hand)
hands_lem inventory =
    defense_of_lem (worn inventory left_hand) (worn inventory right_hand)
    ∙ rw (worn_lem inventory left_hand, worn_lem inventory right_hand) refl

-- What `update_equipment_stats` computes is what is worn.
pub recomputed :
    (inventory : Inventory)
    → inventory.stats ≡ (update_equipment_stats inventory).stats
    → IsEquipped inventory
unfolding update_equipment_stats update_armor update_defense update_speed
recomputed inventory e = record {
  armor = ap (λ s. s.armor) e ∙ armor_of_lem inventory.wearer inventory.slots;
  speed = ap (λ s. s.speed) e ∙ speed_of_lem inventory.wearer inventory.slots;
  defense = ap (λ s. s.defense) e ∙ hands_lem inventory;
}

all_equal :
    (s : EquipmentStats) (d a : ℕ) (v : ℤ)
    → s.defense ≡ d
    → s.armor ≡ a
    → s.speed ≡ v
    → s ≡ record { defense = d; armor = a; speed = v }
all_equal s d a v h g k = rw (← h, ← g, ← k) refl

pub recomputes :
    (inventory : Inventory)
    → IsEquipped inventory
    → inventory.stats ≡ (update_equipment_stats inventory).stats
unfolding update_equipment_stats update_armor update_defense update_speed
recomputes inventory e =
    all_equal inventory.stats _ _ _ (e.defense ∙ sym (hands_lem inventory))
      (e.armor ∙ sym (armor_of_lem inventory.wearer inventory.slots))
      (e.speed ∙ sym (speed_of_lem inventory.wearer inventory.slots))
