-- ===== src/Inventory/SameKind.antt =====
-- An item written over one of the same kind changes no statistic of the equipment, and what stays of an
-- item that is taken from or put into is of its kind.
use rustibia_server.Prelude.{
  ℕ, ◌≡◌, refl, ap, ◌∙◌, ◌==◌, leb, Bool-cases, inl, inr, Option, none, some, Option-cases, [], ◌∷◌,
  if◌then◌else◌, arith,
}
use rustibia_server.Prelude.Int.{ℤ, pos, ◌+ℤ◌}
use rustibia_server.Prelude.Keys.{lookup, insert as enter, lookup-insert}
use rustibia_server.Codes.InventorySlot.{InventorySlot, left_hand, right_hand}
use rustibia_server.Items.{
  Head, Item, Items, head, split_off, remove_nested, remove_here, remove_within, holds, refill,
  count,
}
use rustibia_server.Items.Attributes.{attr_extra_def, attr_defense, attr_capacity}
use rustibia_server.Items.Config.{ItemConfig}
use rustibia_server.Inventory.{
  slot_key, Slots, Inventory, Wearer, EquipmentStats, Insertion, missing, panicked, refused, done,
  mapped, insert_nested, insert_at, insert_within, update_equipment_stats, update_armor,
  update_defense, update_speed, can_wear, armor_of, speed_of, worn, defense_of, unwrap_or,
  at_least_zero, to_i16,
}

-- The statistics are those that `update_equipment_stats` computes.
abbrev pub IsCurrent : Inventory → Type 0
IsCurrent inventory = inventory.stats ≡ (update_equipment_stats inventory).stats

abbrev pub SameConfig : Item → Item → Type 0
SameConfig i j = (head i).config ≡ (head j).config

can_wear_same :
    (wearer : Wearer) (i j : Item) → SameConfig i j → can_wear wearer i ≡ can_wear wearer j
unfolding can_wear
can_wear_same wearer i j h = rw h refl

armor_same :
    (wearer : Wearer) (slot : InventorySlot) (old new : Item) (m : Slots)
    → lookup slot m ≡ some old
    → SameConfig new old
    → armor_of wearer (enter slot new m) ≡ armor_of wearer m
unfolding armor_of
armor_same wearer slot old new [] e h = absurd ground arith
armor_same wearer slot old new ((k, i) ∷ m) e h = elim (Bool-cases (slot_key.agrees k slot)) [
  | inl q ↦
      let same : i ≡ old = ground arith in rw q (rw (same, can_wear_same wearer new old h, h) refl)
  | inr q ↦ let rest = armor_same wearer slot old new m (ground arith) h in rw q (rw rest refl)
]

speed_same :
    (wearer : Wearer) (slot : InventorySlot) (old new : Item) (m : Slots)
    → lookup slot m ≡ some old
    → SameConfig new old
    → speed_of wearer (enter slot new m) ≡ speed_of wearer m
unfolding speed_of
speed_same wearer slot old new [] e h = absurd ground arith
speed_same wearer slot old new ((k, i) ∷ m) e h = elim (Bool-cases (slot_key.agrees k slot)) [
  | inl q ↦
      let same : i ≡ old = ground arith in rw q (rw (same, can_wear_same wearer new old h, h) refl)
  | inr q ↦ let rest = speed_same wearer slot old new m (ground arith) h in rw q (rw rest refl)
]

abbrev config_of : Option Item → Option ItemConfig
config_of none = none
config_of (some i) = some (head i).config

worn_one :
    (wearer : Wearer) (old new : Item)
    → SameConfig new old
    → config_of (if can_wear wearer new then some new else none)
      ≡ config_of (if can_wear wearer old then some old else none)
worn_one wearer old new h = elim (Bool-cases (can_wear wearer old)) [
  | inl c ↦ rw (can_wear_same wearer new old h, c) (ap some h)
  | inr c ↦ rw (can_wear_same wearer new old h, c) refl
]

worn_same :
    (slot k : InventorySlot) (old new : Item) (inventory : Inventory)
    → lookup slot inventory.slots ≡ some old
    → SameConfig new old
    → config_of (worn (record inventory { slots = enter slot new inventory.slots }) k)
      ≡ config_of (worn inventory k)
unfolding worn
worn_same slot k old new inventory e h = elim (Bool-cases (slot_key.agrees slot k)) [
  | inl q ↦
      let there : lookup k inventory.slots ≡ some old = rw (← (slot_key.agrees_iff slot k).0 q) e in
      rw (worn, lookup-insert slot k new inventory.slots, q, there)
        (worn_one inventory.wearer old new h)
  | inr q ↦ rw (worn, lookup-insert slot k new inventory.slots, q) refl
]

-- The defense by what the two items are.
abbrev by_config : Option ItemConfig → Option ItemConfig → ℕ
by_config weapon shield =
    let extra : ℤ = elim weapon [ none ↦ pos 0 | some w ↦ unwrap_or (pos 0) (attr_extra_def w) ] in
    let guard : Option ItemConfig = elim shield [ none ↦ weapon | some s ↦ some s ] in
    elim guard [
      | none ↦ 0
      | some it ↦ at_least_zero (to_i16 (to_i16 (pos (unwrap_or 0 (attr_defense it))) +ℤ extra))
    ]

defense_by : (a b : Option Item) → defense_of a b ≡ by_config (config_of a) (config_of b)
defense_by none none = refl
defense_by none (some j) = refl
defense_by (some i) none = refl
defense_by (some i) (some j) = refl

defense_same :
    (a c b d : Option Item)
    → config_of a ≡ config_of c
    → config_of b ≡ config_of d
    → defense_of a b ≡ defense_of c d
defense_same a c b d h g = rw (defense_by a b, defense_by c d, h, g) refl

abbrev stats_of : ℕ → ℕ → ℤ → EquipmentStats
stats_of d a s = record { defense = d; armor = a; speed = s }

stats_same :
    (d d' a a' : ℕ) (s s' : ℤ) → d ≡ d' → a ≡ a' → s ≡ s' → stats_of d' a' s' ≡ stats_of d a s
stats_same d d' a a' s s' x y z = rw (x, y, z) refl

-- An item written over one of the same kind changes no statistic.
pub replaced :
    (slot : InventorySlot) (old new : Item) (weight : ℕ) (inventory : Inventory)
    → IsCurrent inventory
    → lookup slot inventory.slots ≡ some old
    → SameConfig new old
    → IsCurrent
        (record inventory { slots = enter slot new inventory.slots; carried_weight = weight })
unfolding update_equipment_stats update_armor update_defense update_speed worn
replaced slot old new weight inventory q e h =
    q
    ∙ stats_same _ _ _ _ _ _
        (defense_same _ _ _ _ (worn_same slot left_hand old new inventory e h)
          (worn_same slot right_hand old new inventory e h))
        (armor_same inventory.wearer slot old new inventory.slots e h)
        (speed_same inventory.wearer slot old new inventory.slots e h)

-- What stays of an item, and an item with something put into it, are of the same kind.
pub split_same : (fresh : ℕ) (i : Item) (amount : ℕ) → SameConfig (split_off fresh i amount).0 i
unfolding split_off
split_same fresh (Item.bare h) amount = refl
split_same fresh (Item.holder h items) amount = refl

abbrev pub KeepsConfig : Option (Item × ℕ × ℕ × Item) → Item → Type 0
KeepsConfig none i = Unit
KeepsConfig (some (taken, owner, place, left)) i = SameConfig left i

refill_same :
    (h : Head) (items : Items) (o : Option (Item × ℕ × ℕ × Items))
    → KeepsConfig (refill h o) (Item.holder h items)
refill_same h items none = tt
refill_same h items (some (taken, owner, place, left)) = refl

pub nested_same :
    (fresh guid amount : ℕ) (i : Item) → KeepsConfig (remove_nested fresh guid amount i) i
unfolding remove_nested
nested_same fresh guid amount (Item.bare h) = tt
nested_same fresh guid amount (Item.holder h items) = elim (Bool-cases (holds guid items)) [
  | inl e ↦ rw e (refill_same h items (remove_here fresh h.guid guid amount 0 items))
  | inr e ↦ rw e (refill_same h items (remove_within fresh guid amount items))
]

abbrev pub Stays : Insertion Item → Item → Type 0
Stays (done i) j = SameConfig i j
Stays r j = Unit

mapped_same :
    (h : Head) (items : Items) (r : Insertion Items)
    → Stays (mapped (Item.holder h) r) (Item.holder h items)
mapped_same h items missing = tt
mapped_same h items panicked = tt
mapped_same h items (refused e) = tt
mapped_same h items (done t) = refl

pub inserted_same : (guid place : ℕ) (item i : Item) → Stays (insert_nested guid place item i) i
unfolding insert_nested
inserted_same guid place item (Item.bare h) = elim (Bool-cases (h.guid == guid)) [
  | inr e ↦ rw e tt
  | inl e ↦ elim (Option-cases (attr_capacity h.config)) [
    | inl c ↦ rw (e, c) tt
    | inr (cap, c) ↦ rw (e, c) tt
  ]
]
inserted_same guid place item (Item.holder h items) = elim (Bool-cases (h.guid == guid)) [
  | inr e ↦ rw e (mapped_same h items (insert_within guid place item items))
  | inl e ↦ elim (Option-cases (attr_capacity h.config)) [
    | inl c ↦ rw (e, c) tt
    | inr (cap, c) ↦ elim (Bool-cases (leb cap (count items))) [
      | inl l ↦ rw (e, c, l) tt
      | inr l ↦ rw (e, c, l) (mapped_same h items (insert_at place item items))
    ]
  ]
]
