-- ===== src/Inventory/Guids.antt =====
-- Items in which no guid occurs twice, so that a search by guid finds the container it is for.
use rustibia_server.Prelude.{
  ℕ, ◌-◌, ◌≡◌, refl, ◌==◌, ==_iff, ltb, Bool, Bool-cases, true, false, inl, inr, Option-cases, none,
  some, if◌then◌else◌, arith,
}
use rustibia_server.Items.{Item, Items, count, available_capacity, content}
use rustibia_server.Items.Attributes.{attr_capacity}
use rustibia_server.Inventory.{
  slot_key, missing, insert_nested, insert_within, find_available_container, find_available_within,
}
use rustibia_server.Inventory.Room.{IsFilled, AreFilled}

-- An item with the guid is here.
abbrev mutual
  occurs : ℕ → Item → Bool
  occurs guid (Item.bare h) = h.guid == guid
  occurs guid (Item.holder h items) = if h.guid == guid then true else occurs_within guid items

  pub occurs_within : ℕ → Items → Bool
  occurs_within guid Items.empty = false
  occurs_within guid (Items.more i items) =
      let later = occurs_within guid items in if occurs guid i then true else later

-- No guid occurs twice, and what has a capacity has contents.
abbrev mutual
  pub IsSound : Item → Type 0
  IsSound (Item.bare h) = attr_capacity h.config ≡ none
  IsSound (Item.holder h items) = (occurs_within h.guid items ≡ false) × AreSound items

  pub AreSound : Items → Type 0
  AreSound Items.empty = Unit
  AreSound (Items.more i items) =
      ((guid : ℕ) → occurs_within guid items ≡ true → occurs guid i ≡ false)
      × IsSound i
      × AreSound items

mutual
  unfolding insert_nested

  pub missed :
      (guid place : ℕ) (item i : Item)
      → occurs guid i ≡ false
      → insert_nested guid place item i ≡ missing
  missed guid place item (Item.bare h) e = rw e refl
  missed guid place item (Item.holder h items) e = elim (Bool-cases (h.guid == guid)) [
    | inl f ↦ ground arith
    | inr f ↦ let rest = missed_within guid place item items (ground arith) in rw (f, rest) refl
  ]

  missed_within :
      (guid place : ℕ) (item : Item) (items : Items)
      → occurs_within guid items ≡ false
      → insert_within guid place item items ≡ missing
  missed_within guid place item Items.empty e = refl
  missed_within guid place item (Items.more i items) e =
      let front = missed guid place item i (ground arith) in
      let rest = missed_within guid place item items (ground arith) in rw (front, rest) refl

mutual
  unfolding find_available_container available_capacity content

  found : (guid : ℕ) (i : Item) → find_available_container i ≡ some guid → occurs guid i ≡ true
  found guid (Item.bare h) e = elim (Option-cases (attr_capacity h.config)) [
    | inl f ↦ (ground arith)
    | inr (c, f) ↦ (ground arith)
  ]
  found guid (Item.holder h items) e = elim (Option-cases (attr_capacity h.config)) [
    | inl f ↦ (ground arith)
    | inr (c, f) ↦ elim (Bool-cases (ltb 0 (c - count items))) [
      | inl g ↦ (ground arith)
      | inr g ↦ let inside = found_within guid items (ground arith) in ground arith
    ]
  ]

  pub found_within :
      (guid : ℕ) (items : Items)
      → find_available_within items ≡ some guid
      → occurs_within guid items ≡ true
  found_within guid Items.empty e = ground arith
  found_within guid (Items.more i items) e = elim (Option-cases (find_available_container i)) [
    | inl f ↦ let rest = found_within guid items (ground arith) in ground arith
    | inr (other, f) ↦ let front = found guid i (ground arith) in ground arith
  ]

mutual
  pub filled : (i : Item) → IsSound i → IsFilled i
  filled (Item.bare h) s = s
  filled (Item.holder h items) s = all_filled items s.1

  pub all_filled : (items : Items) → AreSound items → AreFilled items
  all_filled Items.empty s = tt
  all_filled (Items.more i items) s = (filled i s.1, all_filled items s.2)

pub guids_differ :
    (a b : ℕ) (items : Items)
    → occurs_within a items ≡ false
    → occurs_within b items ≡ true
    → (a == b) ≡ false
guids_differ a b items h k = elim (Bool-cases (a == b)) [
  | inl e ↦ let same : a ≡ b = (==_iff a b).0 e in let no : true ≡ false = cc in absurd ground arith
  | inr e ↦ e
]
