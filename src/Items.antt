-- ===== src/Items.antt =====
-- `Item` of `crates/server/src/entities/items.rs`: a stack or a container, with what lies in it. A
-- text is only compared, and is a number; a fresh guid is an argument of what makes an item.
pub mod Flags
pub mod Config
pub mod Attributes
pub mod Stacks
pub mod Removal
mod Tests
use rustibia_server.Prelude.{
  ℕ, ◌+◌, ◌-◌, ◌*◌, ◌%◌, ◌==◌, ltb, min, Bool, true, false, ◌&&◌, ◌||◌, if◌then◌else◌, Option, none,
  some, List, [], ◌∷◌,
}
use rustibia_server.Codes.FluidType.{FluidType, as_u8}
use rustibia_server.Items.Flags.{ItemFlag}
use rustibia_server.Items.Config.{ItemConfig, has_flag}
use rustibia_server.Items.Attributes.{attr_weight, attr_capacity}

pub record Head : Type 0 where
  pub guid : ℕ
  pub config : ItemConfig
  pub amount : ℕ
  pub fluid : Option FluidType
  pub text : Option ℕ
  pub owner : Option ℕ
  pub action_id : Option ℕ

-- `content` is `None` for `bare` and `Some` for `holder`.
mutual
  pub data Item : Type 0 where
    bare : Head → Item
    holder : Head → Items → Item

  pub data Items : Type 0 where
    empty : Items
    more : Item → Items → Items

abbrev pub head : Item → Head
head (Item.bare h) = h
head (Item.holder h items) = h

abbrev pub with_head : (Head → Head) → Item → Item
with_head f (Item.bare h) = Item.bare (f h)
with_head f (Item.holder h items) = Item.holder (f h) items

unfoldable pub new : ℕ → ItemConfig → ℕ → Item
new guid config amount =
    let fluid : Option FluidType =
      if has_flag config ItemFlag.liquid_container then some FluidType.empty else none in
    let h : Head = record {
      guid = guid;
      config = config;
      amount = amount;
      fluid = fluid;
      text = none;
      owner = none;
      action_id = none;
    } in
    if has_flag config ItemFlag.container then Item.holder h Items.empty else Item.bare h

unfoldable pub new_fluid : ℕ → ItemConfig → FluidType → Item
new_fluid guid config fluid = Item.bare (record {
  guid = guid;
  config = config;
  amount = 1;
  fluid = some fluid;
  text = none;
  owner = none;
  action_id = none;
})

unfoldable pub content : Item → Option Items
content (Item.bare h) = none
content (Item.holder h items) = some items

unfoldable pub wire_subtype : Item → ℕ
wire_subtype i = elim (head i).fluid [ none ↦ (head i).amount | some fluid ↦ as_u8 fluid ]

abbrev pub count : Items → ℕ
count Items.empty = 0
count (Items.more i items) = 1 + count items

unfoldable pub available_capacity : Item → Option ℕ
unfolding content
available_capacity i =
    let used : ℕ = elim (content i) [ none ↦ 0 | some items ↦ count items ] in
    elim (attr_capacity (head i).config) [ none ↦ none | some cap ↦ some (cap - used) ]

-- `attr_weight().unwrap_or(0) * amount as u32`; sums and products wrap.
abbrev pub each_weight : Head → ℕ
each_weight h = elim (attr_weight h.config) [ none ↦ 0 | some weight ↦ weight ]

abbrev pub own_weight : Head → ℕ
own_weight h = each_weight h * h.amount % 4294967296

unfoldable mutual
  pub total_weight : Item → ℕ
  total_weight (Item.bare h) = own_weight h
  total_weight (Item.holder h items) = (own_weight h + weight_of_all items) % 4294967296

  pub weight_of_all : Items → ℕ
  weight_of_all Items.empty = 0
  weight_of_all (Items.more i items) = (total_weight i + weight_of_all items) % 4294967296

-- `split_off` with `amount` under the item's own: what stays, and the part.
unfoldable pub split_off : ℕ → Item → ℕ → Item × Item
split_off guid i amount =
    let h = head i in
    let part : Head = record {
      guid = guid;
      config = h.config;
      amount = amount;
      fluid = none;
      text = h.text;
      owner = none;
      action_id = h.action_id;
    } in
    (with_head (λ k. record k { amount = (k.amount + 256 - amount) % 256 }) i, Item.bare part)

abbrev pub eq_option : Option ℕ → Option ℕ → Bool
eq_option none none = true
eq_option (some a) (some b) = a == b
eq_option _ _ = false

unfoldable pub stacks_with : Item → Item → Bool
stacks_with i j =
    ((head i).config.id == (head j).config.id)
    && eq_option (head i).action_id (head j).action_id
    && eq_option (head i).text (head j).text
    && has_flag (head i).config ItemFlag.cumulative
    && ltb (head i).amount 100

-- Both stacks after it, and how many were moved. `MAX_STACK_AMOUNT - self.amount` wraps.
unfoldable pub top_up_from : Item → Item → Item × Item × ℕ
top_up_from i j =
    let moved = min (head j).amount ((100 + 256 - (head i).amount) % 256) in
    (
      with_head (λ k. record k { amount = (k.amount + moved) % 256 }) i,
      with_head (λ k. record k { amount = k.amount - moved }) j,
      moved,
    )

-- Whether an item with this guid lies here, at the top.
unfoldable pub holds : ℕ → Items → Bool
holds guid Items.empty = false
holds guid (Items.more i items) = ((head i).guid == guid) || holds guid items

-- What is taken, the container's guid and the place in it, and what is left.
abbrev Taken : Type 0
Taken = Item × ℕ × ℕ × Items

abbrev pub cons_taken : Item → Option Taken → Option Taken
cons_taken i none = none
cons_taken i (some (taken, owner, place, rest)) = some (taken, owner, place, Items.more i rest)

-- `remove_nested` where the container itself holds the guid: a part, the whole, or nothing where
-- there are fewer.
unfoldable pub remove_here : ℕ → ℕ → ℕ → ℕ → ℕ → Items → Option Taken
unfolding split_off
remove_here fresh own_guid guid amount place Items.empty = none
remove_here fresh own_guid guid amount place (Items.more i items) =
    let later = remove_here fresh own_guid guid amount (1 + place) items in
    if (head i).guid == guid
    then (if ltb amount (head i).amount
        then some (
          (split_off fresh i amount).1,
          own_guid,
          place,
          Items.more (split_off fresh i amount).0 items,
        )
        else if amount == (head i).amount
        then some (i, own_guid, place, items)
        else none)
    else cons_taken i later

abbrev pub or_else : Option Taken → Option Taken → Option Taken
or_else none later = later
or_else (some t) later = some t

abbrev Removed : Type 0
Removed = Item × ℕ × ℕ × Item

abbrev pub refill : Head → Option Taken → Option Removed
refill h none = none
refill h (some (taken, owner, place, rest)) = some (taken, owner, place, Item.holder h rest)

abbrev pub put_back : Option Removed → Items → Option Taken
put_back none items = none
put_back (some (taken, owner, place, i)) items = some (taken, owner, place, Items.more i items)

-- The item that is removed, the container that it came out of and its place, and the outer item
-- after it.
unfoldable mutual
  unfolding remove_here holds

  pub remove_nested : ℕ → ℕ → ℕ → Item → Option Removed
  remove_nested fresh guid amount (Item.bare h) = none
  remove_nested fresh guid amount (Item.holder h items) =
      let inner = remove_within fresh guid amount items in
      if holds guid items
      then refill h (remove_here fresh h.guid guid amount 0 items)
      else refill h inner

  pub remove_within : ℕ → ℕ → ℕ → Items → Option Taken
  remove_within fresh guid amount Items.empty = none
  remove_within fresh guid amount (Items.more i items) =
      or_else (put_back (remove_nested fresh guid amount i) items)
        (cons_taken i (remove_within fresh guid amount items))
