-- ===== src/Inventory.antt =====
-- `crates/server/src/entities/inventory.rs`: what an agent wears and carries, the weight of it and
-- what it adds to the agent. The hash map of the slots is a list of entries; the sums over its
-- values do not depend on their order. A `u32`, a `u16` and an `i16` wrap.
pub mod Nested
pub mod Weight
pub mod Equipment
pub mod Statistics
pub mod Stowing
pub mod Room
pub mod Guids
pub mod SameKind
mod Tests
use rustibia_server.Prelude.{
  ℕ, zero, suc, ◌+◌, ◌-◌, ◌%◌, ◌≡◌, ◌↔◌, true, refl, ap, ◌∙◌, sym, ◌==◌ as nat_same, ==_iff, leb,
  ltb, Bool, if◌then◌else◌, Option, none, some, List, [], ◌∷◌, arith,
}
use rustibia_server.Prelude.Int.{ℤ, pos, negsuc, ◌+ℤ◌}
use rustibia_server.Prelude.Outcome.{Outcome, ok, panic}
use rustibia_server.Prelude.Keys.{Key, lookup, insert as enter, erase}
use rustibia_server.Codes.InventorySlot.{
  InventorySlot, as_id, from_id, inventory_slot_codes, left_hand, right_hand, backpack,
}
use rustibia_server.Codes.Vocation.{Vocation}
use rustibia_server.Items.{
  Head, Item, Items, head, count, content, total_weight, split_off, remove_nested,
  available_capacity,
}
use rustibia_server.Items.Attributes.{
  attr_capacity, attr_armor, attr_defense, attr_extra_def, attr_speed, can_be_worn_by,
}

pub same_slot : (k j : InventorySlot) → (nat_same (as_id k) (as_id j) ≡ true) ↔ (k ≡ j)
same_slot k j = (
  λ e.
      let there : from_id (as_id k) ≡ some j =
        (inventory_slot_codes (as_id k) j).1 (sym ((==_iff (as_id k) (as_id j)).0 e)) in
      let here : from_id (as_id k) ≡ some k = (inventory_slot_codes (as_id k) k).1 refl in cc,
  λ e. (==_iff (as_id k) (as_id j)).1 (ap as_id e),
)

instance abbrev pub slot_key : Key InventorySlot
slot_key = record { agrees = λ k j. nat_same (as_id k) (as_id j); agrees_iff = same_slot }

pub record EquipmentStats : Type 0 where
  pub defense : ℕ
  pub armor : ℕ
  pub speed : ℤ

pub record Wearer : Type 0 where
  pub level : ℕ
  pub vocation : Vocation

abbrev pub Slots : Type 0
Slots = List (InventorySlot × Item)

pub record Inventory : Type 0 where
  pub slots : Slots
  pub carried_weight : ℕ
  pub stats : EquipmentStats
  pub wearer : Wearer

-- Of these the inventory gives the second and the third.
pub data ItemMovementError : Type 0 where
  tile_does_not_exist item_not_in_position container_is_full not_enough_cap player_despawned
        cannot_equip :
      ItemMovementError

abbrev pub u32_sub : ℕ → ℕ → ℕ
u32_sub a b = (a + 4294967296 - b) % 4294967296

abbrev pub u32_add : ℕ → ℕ → ℕ
u32_add a b = (a + b) % 4294967296

-- The `i16` of 16 bits, and of an integer.
abbrev pub i16_of : ℕ → ℤ
i16_of n = if ltb n 32768 then pos n else negsuc (65535 - n)

abbrev pub to_i16 : ℤ → ℤ
to_i16 (pos n) = i16_of (n % 65536)
to_i16 (negsuc n) = i16_of (65535 - n % 65536)

abbrev pub unwrap_or {ℓ} : {A : Type ℓ} → A → Option A → A
unwrap_or a none = a
unwrap_or a (some x) = x

unfoldable pub can_wear : Wearer → Item → Bool
can_wear wearer item = can_be_worn_by (head item).config wearer.level wearer.vocation

-- The sum over the values of the slots, of those worn.
unfoldable pub armor_of : Wearer → Slots → ℕ
unfolding can_wear
armor_of wearer [] = 0
armor_of wearer ((slot, item) ∷ slots) =
    let rest = armor_of wearer slots in
    if can_wear wearer item
    then (unwrap_or 0 (attr_armor (head item).config) + rest) % 65536
    else rest

unfoldable pub speed_of : Wearer → Slots → ℤ
unfolding can_wear
speed_of wearer [] = pos 0
speed_of wearer ((slot, item) ∷ slots) =
    let rest = speed_of wearer slots in
    if can_wear wearer item
    then to_i16 (unwrap_or (pos 0) (attr_speed (head item).config) +ℤ rest)
    else rest

unfoldable pub worn : Inventory → InventorySlot → Option Item
unfolding can_wear
worn inventory slot = elim (lookup slot inventory.slots) [
  | none ↦ none
  | some item ↦ if can_wear inventory.wearer item then some item else none
]

-- `.max(0) as u16`
abbrev pub at_least_zero : ℤ → ℕ
at_least_zero (pos n) = n
at_least_zero (negsuc n) = 0

-- The shield in the right hand, or else the weapon in the left, and what the weapon adds.
abbrev pub defense_of : Option Item → Option Item → ℕ
defense_of weapon shield =
    let extra : ℤ = elim weapon [
      | none ↦ pos 0
      | some w ↦ unwrap_or (pos 0) (attr_extra_def (head w).config)
    ] in
    let guard : Option Item = elim shield [ none ↦ weapon | some s ↦ some s ] in
    elim guard [
      | none ↦ 0
      | some it ↦
          at_least_zero
            (to_i16 (to_i16 (pos (unwrap_or 0 (attr_defense (head it).config))) +ℤ extra))
    ]

unfoldable pub update_armor : Inventory → Inventory
unfolding armor_of
update_armor inventory = record inventory {
  stats = record inventory.stats { armor = armor_of inventory.wearer inventory.slots };
}

unfoldable pub update_defense : Inventory → Inventory
unfolding worn
update_defense inventory = record inventory {
  stats = record inventory.stats {
    defense = defense_of (worn inventory left_hand) (worn inventory right_hand);
  };
}

unfoldable pub update_speed : Inventory → Inventory
unfolding speed_of
update_speed inventory = record inventory {
  stats = record inventory.stats { speed = speed_of inventory.wearer inventory.slots };
}

unfoldable pub update_equipment_stats : Inventory → Inventory
unfolding update_armor update_defense update_speed
update_equipment_stats inventory = update_speed (update_defense (update_armor inventory))

-- The sum of the weights of the slots.
unfoldable pub weight_of : Slots → ℕ
weight_of [] = 0
weight_of ((slot, item) ∷ slots) = u32_add (total_weight item) (weight_of slots)

unfoldable pub from_snapshot : Slots → Wearer → Inventory
unfolding weight_of update_equipment_stats
from_snapshot slots wearer = update_equipment_stats (record {
  slots = slots;
  carried_weight = weight_of slots;
  stats = record { defense = 0; armor = 0; speed = pos 0 };
  wearer = wearer;
})

unfoldable pub set_wearer_level : ℕ → Inventory → Inventory
unfolding update_equipment_stats
set_wearer_level level inventory =
    if nat_same inventory.wearer.level level
    then inventory
    else update_equipment_stats
        (record inventory { wearer = record inventory.wearer { level = level } })

-- What became of an insertion into a container inside: no such container, a panic, an error, or the
-- thing after it.
pub data Insertion (T : Type 0) : Type 0 where
  missing panicked : Insertion T
  refused : ItemMovementError → Insertion T
  done : T → Insertion T

abbrev pub mapped : {S T : Type 0} → (S → T) → Insertion S → Insertion T
mapped f missing = missing
mapped f panicked = panicked
mapped f (refused e) = refused e
mapped f (done s) = done (f s)

abbrev pub first_of : {T : Type 0} → Insertion T → Insertion T → Insertion T
first_of missing later = later
first_of panicked later = panicked
first_of (refused e) later = refused e
first_of (done t) later = done t

-- `Vec::insert`, which panics past the end.
abbrev pub insert_at : ℕ → Item → Items → Insertion Items
insert_at zero item items = done (Items.more item items)
insert_at (suc n) item Items.empty = panicked
insert_at (suc n) item (Items.more i items) = mapped (Items.more i) (insert_at n item items)

-- The first container with the guid, from the outside in, as `find_by_guid_mut` finds it.
unfoldable mutual
  pub insert_nested : ℕ → ℕ → Item → Item → Insertion Item
  insert_nested guid place item (Item.bare h) =
      if nat_same h.guid guid
      then elim (attr_capacity h.config) [
        | none ↦ panicked
        | some cap ↦ refused item_not_in_position
      ]
      else missing
  insert_nested guid place item (Item.holder h items) =
      let inside = insert_within guid place item items in
      if nat_same h.guid guid
      then elim (attr_capacity h.config) [
        | none ↦ panicked
        | some cap ↦
            if leb cap (count items)
            then refused container_is_full
            else mapped (Item.holder h) (insert_at place item items)
      ]
      else mapped (Item.holder h) inside

  pub insert_within : ℕ → ℕ → Item → Items → Insertion Items
  insert_within guid place item Items.empty = missing
  insert_within guid place item (Items.more i items) =
      first_of (mapped (λ j. Items.more j items) (insert_nested guid place item i))
        (mapped (Items.more i) (insert_within guid place item items))

-- `Ok` with the item that was displaced, or `Err`.
pub data Answer : Type 0 where
  accepted : Option Item → Answer
  rejected : ItemMovementError → Answer

unfoldable pub insert_in_slot : InventorySlot → Item → Inventory → Answer × Inventory
unfolding update_equipment_stats
insert_in_slot slot item inventory =
    let old = lookup slot inventory.slots in
    let lighter : ℕ = elim old [
      | none ↦ inventory.carried_weight
      | some i ↦ u32_sub inventory.carried_weight (total_weight i)
    ] in
    (
      accepted old,
      update_equipment_stats (record inventory {
        slots = enter slot item inventory.slots;
        carried_weight = u32_add lighter (total_weight item);
      }),
    )

unfoldable pub insert_in_container :
    InventorySlot → ℕ → ℕ → Item → Inventory → Outcome (Answer × Inventory)
unfolding insert_nested
insert_in_container slot guid place item inventory = elim (lookup slot inventory.slots) [
  | none ↦ ok (rejected item_not_in_position, inventory)
  | some slot_item ↦ elim (insert_nested guid place item slot_item) [
    | missing ↦ ok (rejected item_not_in_position, inventory)
    | panicked ↦ panic
    | refused e ↦ ok (rejected e, inventory)
    | done after ↦ ok (
      accepted none,
      record inventory {
        slots = enter slot after inventory.slots;
        carried_weight = u32_add inventory.carried_weight (total_weight item);
      },
    )
  ]
]

unfoldable pub insert :
    InventorySlot → Option (ℕ × ℕ) → Item → Inventory → Outcome (Answer × Inventory)
unfolding insert_in_slot insert_in_container
insert slot none item inventory = ok (insert_in_slot slot item inventory)
insert slot (some (guid, place)) item inventory = insert_in_container slot guid place item inventory

-- What was removed and the container it came out of.
abbrev pub Removed : Type 0
Removed = Option (Item × Option (ℕ × ℕ))

unfoldable pub remove_whole : InventorySlot → Item → Inventory → Removed × Inventory
unfolding update_equipment_stats
remove_whole slot item inventory = (
  some (item, none),
  update_equipment_stats (record inventory {
    slots = erase slot inventory.slots;
    carried_weight = u32_sub inventory.carried_weight (total_weight item);
  }),
)

-- A part or an item from inside, and the item in the slot after it.
abbrev pub remove_some :
    InventorySlot → Item → Item → Option (ℕ × ℕ) → Inventory → Removed × Inventory
remove_some slot after taken parent inventory = (
  some (taken, parent),
  record inventory {
    slots = enter slot after inventory.slots;
    carried_weight = u32_sub inventory.carried_weight (total_weight taken);
  },
)

unfoldable pub remove : ℕ → InventorySlot → ℕ → ℕ → Inventory → Removed × Inventory
unfolding remove_whole split_off remove_nested
remove fresh slot guid amount inventory = elim (lookup slot inventory.slots) [
  | none ↦ (none, inventory)
  | some item ↦
      if nat_same (head item).guid guid
      then (if ltb amount (head item).amount
          then remove_some slot (split_off fresh item amount).0 (split_off fresh item amount).1 none
              inventory
          else if nat_same (head item).amount amount
          then remove_whole slot item inventory
          else (none, inventory))
      else elim (remove_nested fresh guid amount item) [
        | none ↦ (none, inventory)
        | some (taken, owner, place, after) ↦
            remove_some slot after taken (some (owner, place)) inventory
      ]
]

unfoldable pub take_slot : InventorySlot → Inventory → Option Item × Inventory
unfolding update_equipment_stats
take_slot slot inventory = elim (lookup slot inventory.slots) [
  | none ↦ (none, inventory)
  | some item ↦ (
    some item,
    update_equipment_stats (record inventory {
      slots = erase slot inventory.slots;
      carried_weight = u32_sub inventory.carried_weight (total_weight item);
    }),
  )
]

unfoldable pub set_carried_weight : ℕ → Inventory → Inventory
set_carried_weight value inventory = record inventory { carried_weight = value }

-- The first container with room, from the outside in.
unfoldable mutual
  pub find_available_container : Item → Option ℕ
  find_available_container (Item.bare h) = elim (available_capacity (Item.bare h)) [
    | none ↦ none
    | some available ↦ if ltb 0 available then some h.guid else none
  ]
  find_available_container (Item.holder h items) =
      let inside = find_available_within items in
      elim (available_capacity (Item.holder h items)) [
        | none ↦ none
        | some available ↦ if ltb 0 available then some h.guid else inside
      ]

  pub find_available_within : Items → Option ℕ
  find_available_within Items.empty = none
  find_available_within (Items.more i items) =
      let later = find_available_within items in
      elim (find_available_container i) [ none ↦ later | some guid ↦ some guid ]

unfoldable pub first_available_container : Inventory → Option ℕ
unfolding find_available_container
first_available_container inventory = elim (lookup backpack inventory.slots) [
  | none ↦ none
  | some item ↦ find_available_container item
]
