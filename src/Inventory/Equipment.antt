-- ===== src/Inventory/Equipment.antt =====
-- What the equipment adds is what is worn adds.
use rustibia_server.Prelude.{
  ℕ, ◌≡◌, refl, ◌==◌, ltb, Bool-cases, inl, inr, Option, none, some, Option-cases,
}
use rustibia_server.Prelude.Outcome.{Outcome, ok, panic, spin}
use rustibia_server.Prelude.Keys.{lookup, insert as enter}
use rustibia_server.Codes.InventorySlot.{InventorySlot}
use rustibia_server.Items.{Item, head, split_off, remove_nested, total_weight}
use rustibia_server.Inventory.Statistics.{IsEquipped, recomputed, recomputes}
use rustibia_server.Inventory.{
  from_snapshot, slot_key, Slots, Inventory, Wearer, Insertion, missing, panicked, refused, done,
  Answer, accepted, rejected, item_not_in_position, u32_add, u32_sub, set_wearer_level, insert,
  insert_in_slot, insert_in_container, insert_nested, remove, remove_some, Removed, remove_whole,
  take_slot, update_equipment_stats, update_armor, update_defense, update_speed, worn,
}
use rustibia_server.Inventory.SameKind.{
  IsCurrent, replaced, split_same, KeepsConfig, nested_same, Stays, inserted_same,
}

abbrev IsCurrentAfter : Outcome (Answer × Inventory) → Type 0
IsCurrentAfter (ok p) = IsCurrent p.1
IsCurrentAfter panic = Unit
IsCurrentAfter spin = Unit

in_container :
    (slot : InventorySlot) (guid place : ℕ) (item : Item) (inventory : Inventory)
    → IsCurrent inventory
    → IsCurrentAfter (insert_in_container slot guid place item inventory)
unfolding insert_in_container
in_container slot guid place item inventory w = elim (Option-cases (lookup slot inventory.slots)) [
  | inl e ↦ rw (insert_in_container, e) w
  | inr (outer, e) ↦
      rw (insert_in_container, e)
        (answered outer e (insert_nested guid place item outer)
          (inserted_same guid place item outer))
]
  where
    answered :
        (outer : Item)
        → lookup slot inventory.slots ≡ some outer
        → (r : Insertion Item) → Stays r outer
        → IsCurrentAfter (elim r [
          | missing ↦ ok (rejected item_not_in_position, inventory)
          | panicked ↦ panic
          | refused f ↦ ok (rejected f, inventory)
          | done after ↦ ok (
            accepted none,
            record inventory {
              slots = enter slot after inventory.slots;
              carried_weight = u32_add inventory.carried_weight (total_weight item);
            },
          )
        ])
    answered outer e missing h = w
    answered outer e panicked h = tt
    answered outer e (refused f) h = w
    answered outer e (done after) h = replaced slot outer after _ inventory w e h

inside_taken :
    (slot : InventorySlot) (outer : Item) (inventory : Inventory)
    → IsCurrent inventory
    → lookup slot inventory.slots ≡ some outer
    → (r : Option (Item × ℕ × ℕ × Item)) → KeepsConfig r outer
    → IsCurrent
        (elim r as (λ _. Removed × Inventory) [
          | none ↦ (none, inventory)
          | some (taken, owner, place, after) ↦
              remove_some slot after taken (some (owner, place)) inventory
        ]).1
inside_taken slot outer inventory w e none k = w
inside_taken slot outer inventory w e (some (taken, owner, place, after)) k =
    replaced slot outer after _ inventory w e k

whole_taken :
    (slot : InventorySlot) (item : Item) (inventory : Inventory)
    → IsCurrent (remove_whole slot item inventory).1
unfolding remove_whole update_equipment_stats update_armor update_defense update_speed worn
whole_taken slot item inventory = refl

removed :
    (fresh : ℕ) (slot : InventorySlot) (guid amount : ℕ) (inventory : Inventory)
    → IsCurrent inventory
    → IsCurrent (remove fresh slot guid amount inventory).1
unfolding remove
removed fresh slot guid amount inventory w = elim (Option-cases (lookup slot inventory.slots)) [
  | inl e ↦ rw (remove, e) w
  | inr (item, e) ↦ elim (Bool-cases ((head item).guid == guid)) [
    | inr g ↦
        rw (remove, e, g)
          (inside_taken slot item inventory w e (remove_nested fresh guid amount item)
            (nested_same fresh guid amount item))
    | inl g ↦ elim (Bool-cases (ltb amount (head item).amount)) [
      | inl l ↦
          rw (remove, e, g, l)
            (replaced slot item (split_off fresh item amount).0
              (u32_sub inventory.carried_weight (total_weight (split_off fresh item amount).1))
              inventory w e (split_same fresh item amount))
      | inr l ↦ elim (Bool-cases ((head item).amount == amount)) [
        | inl q ↦ rw (remove, e, g, l, q) (whole_taken slot item inventory)
        | inr q ↦ rw (remove, e, g, l, q) w
      ]
    ]
  ]
]

taken :
    (slot : InventorySlot) (inventory : Inventory)
    → IsCurrent inventory
    → IsCurrent (take_slot slot inventory).1
unfolding take_slot update_equipment_stats update_armor update_defense update_speed worn
taken slot inventory w = elim (Option-cases (lookup slot inventory.slots)) [
  | inl e ↦ rw (take_slot, e) w
  | inr (item, e) ↦ rw (take_slot, e) refl
]

inserted :
    (slot : InventorySlot) (container : Option (ℕ × ℕ)) (item : Item) (inventory : Inventory)
    → IsCurrent inventory
    → IsCurrentAfter (insert slot container item inventory)
unfolding insert insert_in_slot update_equipment_stats update_armor update_defense update_speed worn
inserted slot none item inventory w = refl
inserted slot (some (target, place)) item inventory w =
    in_container slot target place item inventory w

levelled :
    (level : ℕ) (inventory : Inventory)
    → IsCurrent inventory
    → IsCurrent (set_wearer_level level inventory)
unfolding set_wearer_level update_equipment_stats update_armor update_defense update_speed worn
levelled level inventory w = elim (Bool-cases (inventory.wearer.level == level)) [
  | inl e ↦ rw e w
  | inr e ↦ rw e refl
]

-- The same of what an operation returns, by what is worn.
abbrev pub IsEquippedAfter : Outcome (Answer × Inventory) → Type 0
IsEquippedAfter (ok p) = IsEquipped p.1
IsEquippedAfter panic = Unit
IsEquippedAfter spin = Unit

equipped_after : (r : Outcome (Answer × Inventory)) → IsCurrentAfter r → IsEquippedAfter r
equipped_after (ok p) e = recomputed p.1 e
equipped_after panic e = tt
equipped_after spin e = tt

pub from_snapshot-IsEquipped :
    (slots : Slots) (wearer : Wearer) → IsEquipped (from_snapshot slots wearer)
unfolding from_snapshot update_equipment_stats update_armor update_defense update_speed worn
from_snapshot-IsEquipped slots wearer = recomputed (from_snapshot slots wearer) refl

-- Where the armor and the speed that an inventory keeps are the sums over the items that the wearer
-- can wear, wrapped to 16 bits, and the defense is that of the shield, or else of the weapon, with what
-- the weapon adds, wrapped likewise and at least 0, of the hands' items that the wearer can wear: they
-- are so after an insertion that returns, a removal, the emptying of a slot
-- and a change of the wearer's level, those that do not compute them anew included.
pub equipment_stats_kept :
    (fresh : ℕ) (slot : InventorySlot) (container : Option (ℕ × ℕ)) (item : Item)
    (guid amount level : ℕ) (inventory : Inventory)
    → IsEquipped inventory
    → IsEquippedAfter (insert slot container item inventory)
      × IsEquipped (remove fresh slot guid amount inventory).1
      × IsEquipped (take_slot slot inventory).1
      × IsEquipped (set_wearer_level level inventory)
equipment_stats_kept fresh slot container item guid amount level inventory e =
    let w = recomputes inventory e in
    (
      equipped_after _ (inserted slot container item inventory w),
      recomputed _ (removed fresh slot guid amount inventory w),
      recomputed _ (taken slot inventory w),
      recomputed _ (levelled level inventory w),
    )
