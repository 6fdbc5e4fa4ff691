-- ===== src/Inventory/Nested.antt =====
-- Insertion into a container adds the weight of the item.
use rustibia_server.Prelude.{
  ℕ, zero, suc, ◌+◌, ◌%◌, ◌≡◌, ◌==◌, leb, Bool-cases, inl, inr, Option, none, some, if◌then◌else◌,
  arith,
}
use rustibia_server.Items.{Head, Item, Items, total_weight, weight_of_all, count}
use rustibia_server.Items.Attributes.{attr_capacity}
use rustibia_server.Inventory.{
  Insertion, missing, panicked, refused, done, mapped, first_of, insert_at, insert_nested,
  insert_within, container_is_full, item_not_in_position,
}

-- What was inserted adds `x` to the weight `w`.
abbrev pub IsHeavier : Insertion Item → ℕ → ℕ → Type 0
IsHeavier (done i) w x = total_weight i ≡ (w + x) % 4294967296
IsHeavier r w x = Unit

abbrev AreHeavier : Insertion Items → ℕ → ℕ → Type 0
AreHeavier (done items) w x = weight_of_all items ≡ (w + x) % 4294967296
AreHeavier r w x = Unit

behind :
    (i : Item) (items : Items) (r : Insertion Items) (x : ℕ)
    → AreHeavier r (weight_of_all items) x
    → AreHeavier (mapped (Items.more i) r) (weight_of_all (Items.more i items)) x
unfolding weight_of_all
behind i items missing x h = tt
behind i items panicked x h = tt
behind i items (refused e) x h = tt
behind i items (done t) x h = omega arith

insert_at-AreHeavier :
    (place : ℕ) (item : Item) (items : Items)
    → AreHeavier (insert_at place item items) (weight_of_all items) (total_weight item)
unfolding weight_of_all
insert_at-AreHeavier zero item items = omega arith
insert_at-AreHeavier (suc n) item Items.empty = tt
insert_at-AreHeavier (suc n) item (Items.more i items) =
    behind i items (insert_at n item items) (total_weight item) (insert_at-AreHeavier n item items)

in_front :
    (i : Item) (items : Items) (r : Insertion Item) (x : ℕ)
    → IsHeavier r (total_weight i) x
    → AreHeavier (mapped (λ j. Items.more j items) r) (weight_of_all (Items.more i items)) x
unfolding weight_of_all
in_front i items missing x h = tt
in_front i items panicked x h = tt
in_front i items (refused e) x h = tt
in_front i items (done t) x h = omega arith

around :
    (h : Head) (items : Items) (r : Insertion Items) (x : ℕ)
    → AreHeavier r (weight_of_all items) x
    → IsHeavier (mapped (Item.holder h) r) (total_weight (Item.holder h items)) x
unfolding total_weight
around h items missing x k = tt
around h items panicked x k = tt
around h items (refused e) x k = tt
around h items (done t) x k = omega arith

either :
    (r s : Insertion Items) (w x : ℕ)
    → AreHeavier r w x
    → AreHeavier s w x
    → AreHeavier (first_of r s) w x
either missing s w x h k = k
either panicked s w x h k = tt
either (refused e) s w x h k = tt
either (done t) s w x h k = h

here :
    (cap : Option ℕ) (place : ℕ) (item : Item) (h : Head) (items : Items)
    → IsHeavier
        (elim cap [
          | none ↦ panicked
          | some c ↦
              if leb c (count items)
              then refused container_is_full
              else mapped (Item.holder h) (insert_at place item items)
        ])
        (total_weight (Item.holder h items))
        (total_weight item)
here none place item h items = tt
here (some c) place item h items = elim (Bool-cases (leb c (count items))) [
  | inl e ↦ rw e tt
  | inr e ↦ rw e (
      around h items (insert_at place item items) (total_weight item)
        (insert_at-AreHeavier place item items))
]

refusal :
    (cap : Option ℕ) (h : Head) (item : Item)
    → IsHeavier
        (elim cap [ none ↦ panicked | some c ↦ refused item_not_in_position ])
        (total_weight (Item.bare h))
        (total_weight item)
refusal none h item = tt
refusal (some c) h item = tt

mutual
  unfolding insert_nested

  nested :
      (guid place : ℕ) (item i : Item)
      → IsHeavier (insert_nested guid place item i) (total_weight i) (total_weight item)
  nested guid place item (Item.bare h) = elim (Bool-cases (h.guid == guid)) [
    | inl e ↦ rw e (refusal (attr_capacity h.config) h item)
    | inr e ↦ rw e tt
  ]
  nested guid place item (Item.holder h items) = elim (Bool-cases (h.guid == guid)) [
    | inl e ↦ rw e (here (attr_capacity h.config) place item h items)
    | inr e ↦ rw e (around h items _ (total_weight item) (within guid place item items))
  ]

  within :
      (guid place : ℕ) (item : Item) (items : Items)
      → AreHeavier (insert_within guid place item items) (weight_of_all items) (total_weight item)
  within guid place item Items.empty = tt
  within guid place item (Items.more i items) =
      either _ _ _ _
        (in_front i items (insert_nested guid place item i) (total_weight item)
          (nested guid place item i))
        (behind i items (insert_within guid place item items) (total_weight item)
          (within guid place item items))

pub insert_nested-IsHeavier :
    (guid place : ℕ) (item i : Item)
    → IsHeavier (insert_nested guid place item i) (total_weight i) (total_weight item)
insert_nested-IsHeavier guid place item i = nested guid place item i
