-- ===== src/Inventory/Weight.antt =====
-- The weight that is kept is the weight of what is carried.
use rustibia_server.Prelude.{
  ℕ, ◌+◌, ◌%◌, ◌<◌, ◌≡◌, refl, sym, ◌==◌, ltb, ltb→lt, Bool-cases, inl, inr, Option, none, some,
  Option-cases, [], ◌∷◌, arith,
}
use rustibia_server.Prelude.Outcome.{Outcome, ok, panic, spin}
use rustibia_server.Prelude.Keys.{lookup, insert as enter, erase}
use rustibia_server.Codes.InventorySlot.{InventorySlot}
use rustibia_server.Items.{Item, head, total_weight, split_off, remove_nested}
use rustibia_server.Items.Stacks.{split_off_lem}
use rustibia_server.Items.Removal.{IsSmall, IsKept, small_amount, remove_nested-IsKept}
use rustibia_server.Inventory.{
  slot_key, Slots, Inventory, Wearer, Insertion, missing, panicked, refused, done, Answer, accepted,
  rejected, item_not_in_position, u32_add, u32_sub, weight_of, from_snapshot, insert,
  insert_in_slot, insert_in_container, insert_nested, remove, remove_some, Removed, remove_whole,
  take_slot, update_equipment_stats, update_armor, update_defense, update_speed,
}
use rustibia_server.Inventory.Nested.{IsHeavier, insert_nested-IsHeavier}

abbrev pub IsWeighed : Inventory → Type 0
IsWeighed inventory = inventory.carried_weight ≡ weight_of inventory.slots

item_below : (i : Item) → total_weight i < 4294967296
unfolding total_weight
item_below (Item.bare h) = omega arith
item_below (Item.holder h items) = omega arith

slots_below : (m : Slots) → weight_of m < 4294967296
unfolding weight_of
slots_below [] = omega arith
slots_below ((k, i) ∷ m) = omega arith

-- An entry written over another, over none, and taken out.
enter_new :
    (k : InventorySlot) (i : Item) (m : Slots)
    → lookup k m ≡ none
    → weight_of (enter k i m) ≡ u32_add (weight_of m) (total_weight i)
unfolding weight_of
enter_new k i [] h = omega arith
enter_new k i ((j, w) ∷ m) h = elim (Bool-cases (slot_key.agrees j k)) [
  | inl e ↦ absurd ground arith
  | inr e ↦ let rest = enter_new k i m (ground arith) in rw e (omega (arith, rest))
]

enter_over :
    (k : InventorySlot) (v i : Item) (m : Slots)
    → lookup k m ≡ some v
    → weight_of (enter k i m) ≡ u32_add (u32_sub (weight_of m) (total_weight v)) (total_weight i)
unfolding weight_of
enter_over k v i [] h = absurd ground arith
enter_over k v i ((j, w) ∷ m) h = elim (Bool-cases (slot_key.agrees j k)) [
  | inl e ↦
      let same : w ≡ v = ground arith in
      rw e (rw (← same) (omega (arith, slots_below m, item_below w)))
  | inr e ↦
      let rest = enter_over k v i m (ground arith) in
      rw e (omega (arith, rest, slots_below m, item_below v, item_below w))
]

erase_found :
    (k : InventorySlot) (v : Item) (m : Slots)
    → lookup k m ≡ some v
    → weight_of (erase k m) ≡ u32_sub (weight_of m) (total_weight v)
unfolding weight_of
erase_found k v [] h = absurd ground arith
erase_found k v ((j, w) ∷ m) h = elim (Bool-cases (slot_key.agrees j k)) [
  | inl e ↦
      let same : w ≡ v = ground arith in
      rw e (rw (← same) (omega (arith, slots_below m, item_below w)))
  | inr e ↦
      let rest = erase_found k v m (ground arith) in
      rw e (omega (arith, rest, slots_below m, item_below v, item_below w))
]

pub from_snapshot-IsWeighed :
    (slots : Slots) (wearer : Wearer) → IsWeighed (from_snapshot slots wearer)
unfolding from_snapshot update_equipment_stats update_armor update_defense update_speed
from_snapshot-IsWeighed slots wearer = refl

in_slot :
    (slot : InventorySlot) (item : Item) (inventory : Inventory)
    → IsWeighed inventory
    → IsWeighed (insert_in_slot slot item inventory).1
unfolding insert_in_slot update_equipment_stats update_armor update_defense update_speed
in_slot slot item inventory w = elim (Option-cases (lookup slot inventory.slots)) [
  | inl e ↦ rw (e, w) (sym (enter_new slot item inventory.slots e))
  | inr (old, e) ↦ rw (e, w) (sym (enter_over slot old item inventory.slots e))
]

-- What an insertion gives back, where it returns.
abbrev pub IsWeighedAfter : Outcome (Answer × Inventory) → Type 0
IsWeighedAfter (ok p) = IsWeighed p.1
IsWeighedAfter panic = Unit
IsWeighedAfter spin = Unit

pub insert_in_container-IsWeighedAfter :
    (slot : InventorySlot) (guid place : ℕ) (item : Item) (inventory : Inventory)
    → IsWeighed inventory
    → IsWeighedAfter (insert_in_container slot guid place item inventory)
unfolding insert_in_container
insert_in_container-IsWeighedAfter slot guid place item inventory w =
    elim (Option-cases (lookup slot inventory.slots)) [
      | inl e ↦ rw (insert_in_container, e) w
      | inr (outer, e) ↦
          rw (insert_in_container, e)
            (answered outer e (insert_nested guid place item outer)
              (insert_nested-IsHeavier guid place item outer))
    ]
  where
    answered :
        (outer : Item)
        → lookup slot inventory.slots ≡ some outer
        → (r : Insertion Item) → IsHeavier r (total_weight outer) (total_weight item)
        → IsWeighedAfter (elim r [
          | missing ↦ ok (rejected item_not_in_position, inventory)
          | panicked ↦ panic
          | refused f ↦ ok (rejected f, inventory)
          | done after ↦ ok (
            accepted none,
            record inventory {
              slots = enter slot after inventory.slots;
              carried_weight = u32_add inventory.carried_weight (total_weight item);
            },
          )
        ])
    answered outer e missing h = w
    answered outer e panicked h = tt
    answered outer e (refused f) h = w
    answered outer e (done after) h = omega (
      arith,
      w,
      enter_over slot outer after inventory.slots e,
      slots_below inventory.slots,
      item_below outer,
      item_below item,
      h,
    )

some_taken :
    (slot : InventorySlot) (outer after taken : Item) (parent : Option (ℕ × ℕ))
    (inventory : Inventory)
    → IsWeighed inventory
    → lookup slot inventory.slots ≡ some outer
    → (total_weight after + total_weight taken) % 4294967296 ≡ total_weight outer
    → IsWeighed (remove_some slot after taken parent inventory).1
some_taken slot outer after taken parent inventory w e h = omega (
  arith,
  w,
  enter_over slot outer after inventory.slots e,
  slots_below inventory.slots,
  item_below outer,
  item_below after,
  item_below taken,
)

whole_taken :
    (slot : InventorySlot) (item : Item) (inventory : Inventory)
    → IsWeighed inventory
    → lookup slot inventory.slots ≡ some item
    → IsWeighed (remove_whole slot item inventory).1
unfolding remove_whole update_equipment_stats update_armor update_defense update_speed
whole_taken slot item inventory w e = rw w (sym (erase_found slot item inventory.slots e))

inside_taken :
    (slot : InventorySlot) (outer : Item) (inventory : Inventory)
    → IsWeighed inventory
    → lookup slot inventory.slots ≡ some outer
    → (r : Option (Item × ℕ × ℕ × Item)) → IsKept r (total_weight outer)
    → IsWeighed
        (elim r as (λ _. Removed × Inventory) [
          | none ↦ (none, inventory)
          | some (taken, owner, place, after) ↦
              remove_some slot after taken (some (owner, place)) inventory
        ]).1
inside_taken slot outer inventory w e none k = w
inside_taken slot outer inventory w e (some (taken, owner, place, after)) k =
    some_taken slot outer after taken (some (owner, place)) inventory w e k

removed :
    (fresh : ℕ) (slot : InventorySlot) (guid amount : ℕ) (inventory : Inventory)
    → IsWeighed inventory
    → ((item : Item) → lookup slot inventory.slots ≡ some item → IsSmall item)
    → IsWeighed (remove fresh slot guid amount inventory).1
unfolding remove
removed fresh slot guid amount inventory w small =
    elim (Option-cases (lookup slot inventory.slots)) [
      | inl e ↦ rw (remove, e) w
      | inr (item, e) ↦ elim (Bool-cases ((head item).guid == guid)) [
        | inr g ↦
            rw (remove, e, g)
              (inside_taken slot item inventory w e (remove_nested fresh guid amount item)
                (remove_nested-IsKept fresh guid amount item (small item e)))
        | inl g ↦ elim (Bool-cases (ltb amount (head item).amount)) [
          | inl l ↦
              rw (remove, e, g, l)
                (some_taken slot item (split_off fresh item amount).0
                  (split_off fresh item amount).1 none inventory w e
                  (split_off_lem fresh item amount
                    (omega (arith, ltb→lt amount (head item).amount l))
                    (small_amount item (small item e))).1)
          | inr l ↦ elim (Bool-cases ((head item).amount == amount)) [
            | inl q ↦ rw (remove, e, g, l, q) (whole_taken slot item inventory w e)
            | inr q ↦ rw (remove, e, g, l, q) w
          ]
        ]
      ]
    ]

taken :
    (slot : InventorySlot) (inventory : Inventory)
    → IsWeighed inventory
    → IsWeighed (take_slot slot inventory).1
unfolding take_slot update_equipment_stats update_armor update_defense update_speed
taken slot inventory w = elim (Option-cases (lookup slot inventory.slots)) [
  | inl e ↦ rw (take_slot, e) w
  | inr (item, e) ↦ rw (take_slot, e) (rw w (sym (erase_found slot item inventory.slots e)))
]

-- Where the weight that an inventory keeps is the sum of the weights of its slots, it is so after an
-- insertion into a slot or a container, at any depth, after the removal of an item, of a part of it
-- or of one inside it, where every amount is a `u8`, and after a slot is emptied.
pub carried_weight_kept :
    (fresh : ℕ) (slot : InventorySlot) (container : Option (ℕ × ℕ)) (item : Item) (guid amount : ℕ)
    (inventory : Inventory)
    → IsWeighed inventory
    → ((outer : Item) → lookup slot inventory.slots ≡ some outer → IsSmall outer)
    → IsWeighedAfter (insert slot container item inventory)
      × IsWeighed (remove fresh slot guid amount inventory).1
      × IsWeighed (take_slot slot inventory).1
unfolding insert
carried_weight_kept fresh slot none item guid amount inventory w small = (
  in_slot slot item inventory w,
  removed fresh slot guid amount inventory w small,
  taken slot inventory w,
)
carried_weight_kept fresh slot (some (target, place)) item guid amount inventory w small = (
  insert_in_container-IsWeighedAfter slot target place item inventory w,
  removed fresh slot guid amount inventory w small,
  taken slot inventory w,
)
