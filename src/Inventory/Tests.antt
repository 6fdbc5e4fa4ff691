-- ===== src/Inventory/Tests.antt =====
-- An inventory with a helmet.
use rustibia_server.Prelude.{ℕ, ◌≡◌, refl, none, some, [], ◌∷◌, arith}
use rustibia_server.Prelude.Keys.{lookup}
use rustibia_server.Codes.InventorySlot.{head, backpack}
use rustibia_server.Codes.Vocation.{Vocation}
use rustibia_server.Items.{Item, Items, Head}
use rustibia_server.Items.Config.{ItemAttribute}
use rustibia_server.Items.Removal.{IsSmall, IsKept, remove_nested-IsKept}
use rustibia_server.Items.{remove_nested, total_weight}
use rustibia_server.Inventory.{
  slot_key, Inventory, Wearer, from_snapshot, insert, remove, take_slot, set_wearer_level,
  update_equipment_stats, update_armor, update_defense, update_speed,
}
use rustibia_server.Inventory.Guids.{IsSound}
use rustibia_server.Inventory.Stowing.{stow_item, IsStowed, stow_item_lem}
use rustibia_server.Inventory.Weight.{
  IsWeighed, IsWeighedAfter, from_snapshot-IsWeighed, carried_weight_kept,
}
use rustibia_server.Inventory.Statistics.{IsEquipped}
use rustibia_server.Inventory.Equipment.{
  IsEquippedAfter, from_snapshot-IsEquipped, equipment_stats_kept,
}

abbrev made : ℕ → ℕ → Head
made guid amount = record {
  guid = guid;
  config = record {
    id = 7;
    flags = 0;
    attributes = ItemAttribute.weight 300 ∷ ItemAttribute.armor 5 ∷ ItemAttribute.capacity 4 ∷ [];
  };
  amount = amount;
  fluid = none;
  text = none;
  owner = none;
  action_id = none;
}

-- A bag with three pieces of something in it.
abbrev bag : Item
bag = Item.holder (made 1 1) (Items.more (Item.bare (made 2 3)) Items.empty)

abbrev wearer : Wearer
wearer = record { level = 8; vocation = Vocation.knight }

abbrev dressed : Inventory
dressed = from_snapshot ((head, bag) ∷ []) wearer

bag-IsSmall : IsSmall bag
bag-IsSmall = (omega arith, (omega arith, tt))

remove_nested-IsKept_example : IsKept (remove_nested 9 2 1 bag) (total_weight bag)
remove_nested-IsKept_example = remove_nested-IsKept 9 2 1 bag bag-IsSmall

slots-IsSmall : (outer : Item) → lookup head dressed.slots ≡ some outer → IsSmall outer
unfolding from_snapshot update_equipment_stats update_armor update_defense update_speed
slots-IsSmall outer e = let same : bag ≡ outer = ground arith in rw (← same) bag-IsSmall

carried_weight_kept_example :
    IsWeighedAfter (insert head (some (1, 0)) (Item.bare (made 3 2)) dressed)
    × IsWeighed (remove 9 head 2 1 dressed).1
    × IsWeighed (take_slot head dressed).1
carried_weight_kept_example =
    carried_weight_kept 9 head (some (1, 0)) (Item.bare (made 3 2)) 2 1 dressed
      (from_snapshot-IsWeighed ((head, bag) ∷ []) wearer) slots-IsSmall

equipment_stats_kept_example :
    IsEquippedAfter (insert head (some (1, 0)) (Item.bare (made 3 2)) dressed)
    × IsEquipped (remove 9 head 2 1 dressed).1
    × IsEquipped (take_slot head dressed).1
    × IsEquipped (set_wearer_level 9 dressed)
equipment_stats_kept_example =
    equipment_stats_kept 9 head (some (1, 0)) (Item.bare (made 3 2)) 2 1 9 dressed
      (from_snapshot-IsEquipped ((head, bag) ∷ []) wearer)

abbrev sack : ℕ → Head
sack guid = record (made guid 1) {
  config = record { id = 8; flags = 0; attributes = ItemAttribute.capacity 1 ∷ [] };
}

-- A full backpack with an empty sack in it.
abbrev pack : Item
pack = Item.holder (sack 1) (Items.more (Item.holder (sack 2) Items.empty) Items.empty)

abbrev packed : Inventory
packed = from_snapshot ((backpack, pack) ∷ []) wearer

pack-IsSound : (outer : Item) → lookup backpack packed.slots ≡ some outer → IsSound outer
unfolding from_snapshot update_equipment_stats update_armor update_defense update_speed
pack-IsSound outer e =
    let same : pack ≡ outer = ground arith in
    rw (← same) (refl, ((λ guid k. absurd ground arith), (refl, tt), tt))

stow_item_lem_example :
    IsStowed (Item.bare (made 3 2)) packed (stow_item (Item.bare (made 3 2)) packed)
stow_item_lem_example =
    stow_item_lem (Item.bare (made 3 2)) packed
      (from_snapshot-IsWeighed ((backpack, pack) ∷ []) wearer) pack-IsSound
