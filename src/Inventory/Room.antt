-- ===== src/Inventory/Room.antt =====
-- Which container has room, and what an item becomes when something is put into the first one that has.
use rustibia_server.Prelude.{
  ℕ, ◌-◌, ◌<◌, ◌≡◌, ◌⊎◌, refl, ltb, Bool-cases, false, true, inl, inr, Option, Option-cases, none,
  some, if◌then◌else◌, arith,
}
use rustibia_server.Items.{Head, Item, Items, count, available_capacity, content}
use rustibia_server.Items.Attributes.{attr_capacity}
use rustibia_server.Inventory.{find_available_container, find_available_within}

-- The item is a container with room, or a container that has such an item inside.
abbrev mutual
  pub HasRoom : Item → Type 0
  HasRoom (Item.bare h) = ⊥
  HasRoom (Item.holder h items) =
      (room : ℕ) × (attr_capacity h.config ≡ some room) × ((count items < room) ⊎ AnyRoom items)

  AnyRoom : Items → Type 0
  AnyRoom Items.empty = ⊥
  AnyRoom (Items.more i items) = HasRoom i ⊎ AnyRoom items

-- What has a capacity has contents.
abbrev mutual
  pub IsFilled : Item → Type 0
  IsFilled (Item.bare h) = attr_capacity h.config ≡ none
  IsFilled (Item.holder h items) = AreFilled items

  pub AreFilled : Items → Type 0
  AreFilled Items.empty = Unit
  AreFilled (Items.more i items) = IsFilled i × AreFilled items

abbrev pub changed {ℓ κ} : {A : Type ℓ} {B : Type κ} → (A → B) → Option A → Option B
changed f none = none
changed f (some a) = some (f a)

-- By the capacity of the container, and by what its contents become.
abbrev put_here : Item → Head → Items → Option ℕ → Option Items → Option Item
put_here item h items none inside = none
put_here item h items (some room) inside =
    if ltb (count items) room
    then some (Item.holder h (Items.more item items))
    else changed (Item.holder h) inside

abbrev put_front : Item → Items → Option Item → Option Items → Option Items
put_front i items none later = changed (Items.more i) later
put_front i items (some j) later = some (Items.more j items)

-- The item with another at the front of the first container with room, where each comes before those in it.
unfoldable mutual
  pub put_in : Item → Item → Option Item
  put_in item (Item.bare h) = none
  put_in item (Item.holder h items) =
      put_here item h items (attr_capacity h.config) (put_within item items)

  pub put_within : Item → Items → Option Items
  put_within item Items.empty = none
  put_within item (Items.more i items) = put_front i items (put_in item i) (put_within item items)

mutual
  unfolding find_available_container available_capacity content

  pub no_room : (i : Item) → find_available_container i ≡ none → HasRoom i → ⊥
  no_room (Item.bare h) e r = r
  no_room (Item.holder h items) e (room, f, r) = elim (Bool-cases (ltb 0 (room - count items))) [
    | inl g ↦ ground arith
    | inr g ↦ elim r [
      | inl less ↦ ground arith
      | inr inside ↦ none_room items (ground arith) inside
    ]
  ]

  none_room : (items : Items) → find_available_within items ≡ none → AnyRoom items → ⊥
  none_room Items.empty e r = r
  none_room (Items.more i items) e r = elim (Option-cases (find_available_container i)) [
    | inl f ↦ elim r [
      | inl front ↦ no_room i f front
      | inr later ↦ none_room items (ground arith) later
    ]
    | inr (g, f) ↦ ground arith
  ]

mutual
  unfolding find_available_container available_capacity content put_in

  pub puts_none : (item i : Item) → find_available_container i ≡ none → put_in item i ≡ none
  puts_none item (Item.bare h) e = refl
  puts_none item (Item.holder h items) e = elim (Option-cases (attr_capacity h.config)) [
    | inl f ↦ rw f refl
    | inr (room, f) ↦ elim (Bool-cases (ltb 0 (room - count items))) [
      | inl g ↦ ground arith
      | inr g ↦
          let full : ltb (count items) room ≡ false = ground arith in
          let rest = put_none_within item items (ground arith) in rw (f, full, rest) refl
    ]
  ]

  put_none_within :
      (item : Item) (items : Items)
      → find_available_within items ≡ none
      → put_within item items ≡ none
  put_none_within item Items.empty e = refl
  put_none_within item (Items.more i items) e = elim (Option-cases (find_available_container i)) [
    | inl f ↦ rw (puts_none item i f, put_none_within item items (ground arith)) refl
    | inr (g, f) ↦ ground arith
  ]

mutual
  unfolding find_available_container available_capacity content

  pub found_room :
      (guid : ℕ) (i : Item) → IsFilled i → find_available_container i ≡ some guid → HasRoom i
  found_room guid (Item.bare h) s e = ground arith
  found_room guid (Item.holder h items) s e = elim (Option-cases (attr_capacity h.config)) [
    | inl f ↦ ground arith
    | inr (room, f) ↦ elim (Bool-cases (ltb 0 (room - count items))) [
      | inl g ↦ (room, f, inl (ground arith))
      | inr g ↦ (room, f, inr (found_within guid items s (ground arith)))
    ]
  ]

  found_within :
      (guid : ℕ) (items : Items)
      → AreFilled items
      → find_available_within items ≡ some guid
      → AnyRoom items
  found_within guid Items.empty s e = ground arith
  found_within guid (Items.more i items) s e = elim (Option-cases (find_available_container i)) [
    | inl f ↦ inr (found_within guid items s.1 (ground arith))
    | inr (other, f) ↦ inl (found_room other i s.0 f)
  ]

mutual
  unfolding find_available_container available_capacity content put_in

  pub puts_some :
      (guid : ℕ) (item i : Item)
      → IsFilled i
      → find_available_container i ≡ some guid
      → (filled : Item) × (put_in item i ≡ some filled)
  puts_some guid item (Item.bare h) s e = ground arith
  puts_some guid item (Item.holder h items) s e = elim (Option-cases (attr_capacity h.config)) [
    | inl f ↦ ground arith
    | inr (room, f) ↦ elim (Bool-cases (ltb 0 (room - count items))) [
      | inl g ↦
          let free : ltb (count items) room ≡ true = ground arith in
          (Item.holder h (Items.more item items), rw (f, free) refl)
      | inr g ↦
          let full : ltb (count items) room ≡ false = ground arith in
          let (inside, rest) = put_some_within guid item items s (ground arith) in
          (Item.holder h inside, rw (f, full, rest) refl)
    ]
  ]

  pub put_some_within :
      (guid : ℕ) (item : Item) (items : Items)
      → AreFilled items
      → find_available_within items ≡ some guid
      → (filled : Items) × (put_within item items ≡ some filled)
  put_some_within guid item Items.empty s e = ground arith
  put_some_within guid item (Items.more i items) s e =
      elim (Option-cases (find_available_container i)) [
        | inl f ↦
            let (later, rest) = put_some_within guid item items s.1 (ground arith) in
            (Items.more i later, rw (puts_none item i f, rest) refl)
        | inr (other, f) ↦
            let (j, front) = puts_some other item i s.0 f in (Items.more j items, rw front refl)
      ]
