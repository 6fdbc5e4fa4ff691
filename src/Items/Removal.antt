-- ===== src/Items/Removal.antt =====
-- `remove_nested` of `entities/items.rs` loses no weight.
use rustibia_server.Prelude.{
  ℕ, ◌+◌, ◌%◌, ◌<◌, ◌≡◌, refl, ◌==◌, ltb, Bool-cases, inl, inr, Option, none, some, arith, ltb→lt,
}
use rustibia_server.Items.{
  Head, Item, Items, head, total_weight, weight_of_all, split_off, holds, remove_here,
  remove_nested, remove_within, cons_taken, or_else, refill, put_back,
}
use rustibia_server.Items.Stacks.{split_off_lem}

-- Every amount in it is a `u8`.
abbrev mutual
  pub IsSmall : Item → Type 0
  IsSmall (Item.bare h) = h.amount < 256
  IsSmall (Item.holder h items) = (h.amount < 256) × AreSmall items

  pub AreSmall : Items → Type 0
  AreSmall Items.empty = Unit
  AreSmall (Items.more i items) = IsSmall i × AreSmall items

-- Where something was taken, it and what is left weigh `w` together.
abbrev pub IsKept : Option (Item × ℕ × ℕ × Item) → ℕ → Type 0
IsKept none w = Unit
IsKept (some (taken, owner, place, left)) w =
    (total_weight left + total_weight taken) % 4294967296 ≡ w

abbrev AreKept : Option (Item × ℕ × ℕ × Items) → ℕ → Type 0
AreKept none w = Unit
AreKept (some (taken, owner, place, left)) w =
    (weight_of_all left + total_weight taken) % 4294967296 ≡ w

pub small_amount : (i : Item) → IsSmall i → (head i).amount < 256
small_amount (Item.bare h) s = s
small_amount (Item.holder h items) s = s.0

below : (items : Items) → weight_of_all items % 4294967296 ≡ weight_of_all items
unfolding weight_of_all
below Items.empty = refl
below (Items.more i items) = omega arith

cons_taken-AreKept :
    (i : Item) (o : Option (Item × ℕ × ℕ × Items)) (items : Items)
    → AreKept o (weight_of_all items)
    → AreKept (cons_taken i o) (weight_of_all (Items.more i items))
unfolding weight_of_all
cons_taken-AreKept i none items k = tt
cons_taken-AreKept i (some (taken, owner, place, left)) items k = omega arith

put_back-AreKept :
    (o : Option (Item × ℕ × ℕ × Item)) (i : Item) (items : Items)
    → IsKept o (total_weight i)
    → AreKept (put_back o items) (weight_of_all (Items.more i items))
unfolding weight_of_all
put_back-AreKept none i items k = tt
put_back-AreKept (some (taken, owner, place, left)) i items k = omega arith

or_else-AreKept :
    (o p : Option (Item × ℕ × ℕ × Items)) (w : ℕ)
    → AreKept o w
    → AreKept p w
    → AreKept (or_else o p) w
or_else-AreKept none p w k l = l
or_else-AreKept (some t) p w k l = k

refill-IsKept :
    (h : Head) (o : Option (Item × ℕ × ℕ × Items)) (items : Items)
    → AreKept o (weight_of_all items)
    → IsKept (refill h o) (total_weight (Item.holder h items))
unfolding total_weight weight_of_all
refill-IsKept h none items k = tt
refill-IsKept h (some (taken, owner, place, left)) items k = omega arith

whole_kept :
    (i : Item) (items : Items)
    → (weight_of_all items + total_weight i) % 4294967296 ≡ weight_of_all (Items.more i items)
unfolding weight_of_all
whole_kept i items = omega arith

part_kept :
    (fresh amount : ℕ) (i : Item) (items : Items)
    → amount < (head i).amount
    → IsSmall i
    → (weight_of_all (Items.more (split_off fresh i amount).0 items)
          + total_weight (split_off fresh i amount).1)
        % 4294967296
      ≡ weight_of_all (Items.more i items)
unfolding weight_of_all
part_kept fresh amount i items l s =
    omega (arith, (split_off_lem fresh i amount (omega arith) (small_amount i s)).1)

remove_here-AreKept :
    (fresh own guid amount place : ℕ) (items : Items)
    → AreSmall items
    → AreKept (remove_here fresh own guid amount place items) (weight_of_all items)
unfolding remove_here
remove_here-AreKept fresh own guid amount place Items.empty s = tt
remove_here-AreKept fresh own guid amount place (Items.more i items) s =
    elim (Bool-cases ((head i).guid == guid)) [
      | inr e ↦
          rw (remove_here, e)
            (cons_taken-AreKept i _ items
              (remove_here-AreKept fresh own guid amount (1 + place) items s.1))
      | inl e ↦ elim (Bool-cases (ltb amount (head i).amount)) [
        | inl l ↦
            rw (remove_here, e, l)
              (part_kept fresh amount i items (ltb→lt amount (head i).amount l) s.0)
        | inr l ↦ elim (Bool-cases (amount == (head i).amount)) [
          | inl q ↦ rw (remove_here, e, l, q) (whole_kept i items)
          | inr q ↦ rw (remove_here, e, l, q) tt
        ]
      ]
    ]

mutual
  unfolding remove_nested

  nested :
      (fresh guid amount : ℕ) (i : Item)
      → IsSmall i
      → IsKept (remove_nested fresh guid amount i) (total_weight i)
  nested fresh guid amount (Item.bare h) s = tt
  nested fresh guid amount (Item.holder h items) s = elim (Bool-cases (holds guid items)) [
    | inl e ↦
        rw e (refill-IsKept h _ items (remove_here-AreKept fresh h.guid guid amount 0 items s.1))
    | inr e ↦ rw e (refill-IsKept h _ items (within fresh guid amount items s.1))
  ]

  within :
      (fresh guid amount : ℕ) (items : Items)
      → AreSmall items
      → AreKept (remove_within fresh guid amount items) (weight_of_all items)
  within fresh guid amount Items.empty s = tt
  within fresh guid amount (Items.more i items) s =
      or_else-AreKept _ _ _
        (put_back-AreKept (remove_nested fresh guid amount i) i items
          (nested fresh guid amount i s.0))
        (cons_taken-AreKept i _ items (within fresh guid amount items s.1))

-- Removing an amount of an item from inside a container, at any depth, loses no weight: what is
-- taken and the container after it weigh what it did, in the arithmetic of a `u32`, where every
-- amount inside is a `u8`.
pub remove_nested-IsKept :
    (fresh guid amount : ℕ) (i : Item)
    → IsSmall i
    → IsKept (remove_nested fresh guid amount i) (total_weight i)
remove_nested-IsKept fresh guid amount i s = nested fresh guid amount i s
