-- ===== src/Inventory/Stowing.antt =====
-- `stow_item` of `crates/server/src/game/item_movement.rs`: into the first container of the backpack
-- that has room.
use mathlib.Core.Path.{subst}
use rustibia_server.Prelude.{
  ℕ, ◌-◌, ◌≡◌, ◌⊎◌, refl, ap, ◌==◌, leb, ltb, Bool-cases, true, false, inl, inr, Option-cases, none,
  some, arith,
}
use rustibia_server.Prelude.Keys.{lookup, insert as enter}
use rustibia_server.Prelude.Outcome.{Outcome, ok}
use rustibia_server.Codes.InventorySlot.{backpack}
use rustibia_server.Items.{Item, Items, total_weight, count, available_capacity, content}
use rustibia_server.Items.Attributes.{attr_capacity}
use rustibia_server.Inventory.{
  slot_key, Inventory, done, insert_nested, insert_within, insert, insert_in_container, Answer,
  accepted, rejected, cannot_equip, find_available_container, find_available_within,
  first_available_container, u32_add, weight_of,
}
use rustibia_server.Inventory.Room.{
  HasRoom, put_in, put_within, no_room, puts_none, found_room, puts_some, put_some_within,
}
use rustibia_server.Inventory.Weight.{IsWeighed, IsWeighedAfter, insert_in_container-IsWeighedAfter}
use rustibia_server.Inventory.Guids.{
  IsSound, AreSound, missed, found_within, filled, all_filled, guids_differ,
}

-- The inventory of the agent after the insertion; the agent is there.
unfoldable pub stow_item : Item → Inventory → Outcome (Answer × Inventory)
unfolding first_available_container insert
stow_item item inventory = elim (first_available_container inventory) [
  | none ↦ ok (rejected cannot_equip, inventory)
  | some guid ↦ insert backpack (some (guid, 0)) item inventory
]

-- The insertion by guid puts the item where the first room is.
mutual
  unfolding insert_nested find_available_container available_capacity content put_in

  accepts :
      (guid : ℕ) (item i after : Item)
      → IsSound i
      → find_available_container i ≡ some guid
      → put_in item i ≡ some after
      → insert_nested guid 0 item i ≡ done after
  accepts guid item (Item.bare h) after s e p = ground arith
  accepts guid item (Item.holder h items) after s e p =
      elim (Option-cases (attr_capacity h.config)) [
        | inl f ↦ ground arith
        | inr (room, f) ↦ elim (Bool-cases (ltb 0 (room - count items))) [
          | inl g ↦
              let same : (h.guid == guid) ≡ true = ground arith in
              let free : leb room (count items) ≡ false = ground arith in
              let here : Item.holder h (Items.more item items) ≡ after = ground arith in
              rw (same, f, free) (ap done here)
          | inr g ↦
              let rest : find_available_within items ≡ some guid = ground arith in
              let inside = found_within guid items rest in
              let (inner, put) = put_some_within guid item items (all_filled items s.1) rest in
              let here : Item.holder h inner ≡ after = ground arith in
              rw
                (
                  guids_differ h.guid guid items s.0 inside,
                  accepts_within guid item items inner s.1 rest put,
                )
                (ap done here)
        ]
      ]

  accepts_within :
      (guid : ℕ) (item : Item) (items after : Items)
      → AreSound items
      → find_available_within items ≡ some guid
      → put_within item items ≡ some after
      → insert_within guid 0 item items ≡ done after
  accepts_within guid item Items.empty after s e p = ground arith
  accepts_within guid item (Items.more i items) after s e p =
      elim (Option-cases (find_available_container i)) [
        | inl f ↦
            let rest : find_available_within items ≡ some guid = ground arith in
            let front = missed guid 0 item i (s.0 guid (found_within guid items rest)) in
            let (later, put) = put_some_within guid item items (all_filled items s.2) rest in
            let none_here = puts_none item i f in
            let here : Items.more i later ≡ after = ground arith in
            rw (front, accepts_within guid item items later s.2 rest put) (ap done here)
        | inr (other, f) ↦
            let front : find_available_container i ≡ some guid = ground arith in
            let (j, put) = puts_some guid item i (filled i s.1) front in
            let here : Items.more j items ≡ after = ground arith in
            rw (accepts guid item i j s.1 front put) (ap done here)
      ]

-- The inventory with the backpack as it is after and the item on the weight.
abbrev filled_with : Item → Item → Inventory → Inventory
filled_with after item before = record before {
  slots = enter backpack after before.slots;
  carried_weight = u32_add before.carried_weight (total_weight item);
}

abbrev pub HasRoomFor : Inventory → Type 0
HasRoomFor inventory =
    (outer : Item) × (lookup backpack inventory.slots ≡ some outer) × HasRoom outer

-- What becomes of an item that is stowed.
abbrev pub IsStowed : Item → Inventory → Outcome (Answer × Inventory) → Type 0
IsStowed item before r =
    ((outer after : Item) × (lookup backpack before.slots ≡ some outer)
      × HasRoom outer
      × (put_in item outer ≡ some after)
      × (r ≡ ok (accepted none, filled_with after item before))
      × (weight_of (enter backpack after before.slots)
          ≡ u32_add (weight_of before.slots) (total_weight item)))
    ⊎ ((¬ HasRoomFor before) × (r ≡ ok (rejected cannot_equip, before)))

entered :
    (guid : ℕ) (item outer after : Item) (inventory : Inventory)
    → lookup backpack inventory.slots ≡ some outer
    → insert_nested guid 0 item outer ≡ done after
    → insert_in_container backpack guid 0 item inventory
      ≡ ok (accepted none, filled_with after item inventory)
unfolding insert_in_container
entered guid item outer after inventory e f = rw (insert_in_container, e, f) refl

heavier :
    (guid : ℕ) (item after : Item) (inventory : Inventory)
    → IsWeighed inventory
    → insert_in_container backpack guid 0 item inventory
      ≡ ok (accepted none, filled_with after item inventory)
    → weight_of (enter backpack after inventory.slots)
      ≡ u32_add (weight_of inventory.slots) (total_weight item)
heavier guid item after inventory w step =
    let kept : IsWeighedAfter (ok (accepted none, filled_with after item inventory)) =
      subst IsWeighedAfter step
        (insert_in_container-IsWeighedAfter backpack guid 0 item inventory w) in
    omega (arith, w, kept)

available_in :
    (guid : ℕ) (inventory : Inventory)
    → first_available_container inventory ≡ some guid
    → (outer : Item) × (lookup backpack inventory.slots ≡ some outer)
      × (find_available_container outer ≡ some guid)
unfolding first_available_container
available_in guid inventory e = elim (Option-cases (lookup backpack inventory.slots)) [
  | inl f ↦ absurd ground arith
  | inr (outer, f) ↦ (outer, f, ground arith)
]

no_room_for :
    (inventory : Inventory) → first_available_container inventory ≡ none → ¬ HasRoomFor inventory
unfolding first_available_container
no_room_for inventory none_free (outer, e, room) = no_room outer (ground arith) room

-- Where the inventory keeps the sum of the weights of its slots and, in the backpack, no guid occurs
-- twice and what has a capacity has contents, stowing returns. If the backpack or a container in it,
-- reached through containers, holds fewer items than its capacity, the item is taken, nothing is
-- displaced, the item stands at the front of the first such container, where each comes before those
-- inside it, and the slots and the weight kept get heavier by it, as a `u32`, nothing else changing.
-- Otherwise it is refused and nothing changes.
pub stow_item_lem :
    (item : Item) (inventory : Inventory)
    → IsWeighed inventory
    → ((outer : Item) → lookup backpack inventory.slots ≡ some outer → IsSound outer)
    → IsStowed item inventory (stow_item item inventory)
unfolding stow_item insert
stow_item_lem item inventory w sound = elim (Option-cases (first_available_container inventory)) [
  | inl none_free ↦ inr (no_room_for inventory none_free, rw (stow_item, none_free) refl)
  | inr (guid, e) ↦
      let (outer, f, g) = available_in guid inventory e in
      let whole = filled outer (sound outer f) in
      let (after, put) = puts_some guid item outer whole g in
      let step =
        entered guid item outer after inventory f
          (accepts guid item outer after (sound outer f) g put) in
      inl (
        outer,
        after,
        f,
        found_room guid outer whole g,
        put,
        rw (stow_item, e) step,
        heavier guid item after inventory w step,
      )
]
