-- ===== src/Money.antt =====
-- `crates/server/src/game/money.rs`: change, and what a player's coins can pay. The inventory is a map
-- from slots to items whose order is not fixed: it is a list in any order. `GAME_CONFIG` and
-- `ITEM_CONFIGS` decide which coins there are, cheapest first; fresh guids are left at 0. A coin worth nothing, on which the source would
-- panic, is in no such list. `pay` and
-- `give_change`, which move the coins in the game's world, are left out.
pub mod Change
pub mod Paying
pub mod Plans
pub mod Worth
mod Tests
use rustibia_server.Prelude.{
  ℕ, zero, suc, ◌+◌, ◌-◌, ◌*◌, ◌/◌, ◌%◌, ◌==◌, ltb, leb, min, Bool, true, false, if◌then◌else◌,
  Option, none, some, List, [], ◌∷◌, ◌++◌, find_map,
}
use rustibia_server.Codes.InventorySlot.{InventorySlot}
use rustibia_server.Items.Config.{ItemConfig}
use rustibia_server.Items.{Head, Item, Items, head, new}

abbrev pub u64_mod : ℕ
u64_mod = 18446744073709551616

abbrev pub Coins : Type 0
Coins = List (ItemConfig × ℕ)

-- `sort_by_key`, which is stable: a place before the first element with a larger key.
abbrev pub insert_by {ℓ} : {A : Type ℓ} → (A → ℕ) → A → List A → List A
insert_by key x [] = x ∷ []
insert_by key x (y ∷ ys) =
    let rest = insert_by key x ys in if ltb (key x) (key y) then x ∷ y ∷ ys else y ∷ rest

-- Elements are put in one after the other, each behind those with its key.
unfoldable pub sort_from {ℓ} : {A : Type ℓ} → (A → ℕ) → List A → List A → List A
sort_from key sorted [] = sorted
sort_from key sorted (x ∷ xs) = sort_from key (insert_by key x sorted) xs

unfoldable pub coins_new : List (ItemConfig × ℕ) → Coins
unfolding sort_from
coins_new coins = sort_from (λ c. c.1) [] coins

unfoldable pub worth : Coins → Item → Option ℕ
worth [] i = none
worth ((config, value) ∷ coins) i =
    let later = worth coins i in if config.id == (head i).config.id then some value else later

-- The stacks of one coin: `count` in stacks of at most 100. The fuel `count` is enough.
unfoldable pub stacks : ℕ → ItemConfig → ℕ → List Item
stacks zero config count = []
stacks (suc fuel) config count =
    let stack = min count 100 in
    let rest = stacks fuel config (count - stack) in
    if count == 0 then [] else new 0 config (stack % 256) ∷ rest

-- The loop over the coins, dearest first.
unfoldable pub change_loop : Coins → ℕ → List Item
unfolding stacks
change_loop [] amount = []
change_loop ((config, value) ∷ coins) amount =
    stacks (amount / value) config (amount / value) ++ change_loop coins (amount % value)

abbrev pub rev_onto {ℓ} : {A : Type ℓ} → List A → List A → List A
rev_onto [] acc = acc
rev_onto (x ∷ xs) acc = rev_onto xs (x ∷ acc)

unfoldable pub make_change : Coins → ℕ → List Item
unfolding change_loop
make_change coins amount = change_loop (rev_onto coins []) amount

pub record Payment : Type 0 where
  pub takes : List (InventorySlot × ℕ × ℕ)
  pub change : ℕ

unfoldable pub and : Payment → Payment → Payment
and p q = record { takes = p.takes ++ q.takes; change = (p.change + q.change) % u64_mod }

unfoldable pub taking : List (InventorySlot × ℕ × ℕ) → Payment
taking takes = record { takes = takes; change = 0 }

abbrev pub Inventory : Type 0
Inventory = List (InventorySlot × Item)

abbrev or_else {ℓ} : {A : Type ℓ} → Option A → Option A → Option A
or_else none later = later
or_else (some a) later = some a

unfoldable mutual
  pub find_item : ℕ → Item → Option ℕ
  find_item id (Item.bare h) = if h.config.id == id then some h.guid else none
  find_item id (Item.holder h items) =
      let inner = find_item_in id items in if h.config.id == id then some h.guid else inner

  pub find_item_in : ℕ → Items → Option ℕ
  find_item_in id Items.empty = none
  find_item_in id (Items.more i items) = or_else (find_item id i) (find_item_in id items)

unfoldable pub plan_item_payment : Inventory → ℕ → Option Payment
unfolding find_item
plan_item_payment [] id = none
plan_item_payment ((slot, i) ∷ inventory) id =
    let later = plan_item_payment inventory id in
    elim (find_item id i) [
      | none ↦ later
      | some guid ↦ some (record { takes = (slot, guid, 1) ∷ []; change = 0 })
    ]

-- A stack of coins: its slot, guid, worth and amount.
pub record Stack : Type 0 where
  pub slot : InventorySlot
  pub guid : ℕ
  pub worth : ℕ
  pub amount : ℕ

abbrev pub own_coins : InventorySlot → Head → Option ℕ → List Stack
own_coins slot h none = []
own_coins slot h (some value) =
    record { slot = slot; guid = h.guid; worth = value; amount = h.amount } ∷ []

unfoldable mutual
  pub collect_coins : Coins → InventorySlot → Item → List Stack
  collect_coins coins slot (Item.bare h) = own_coins slot h (worth coins (Item.bare h))
  collect_coins coins slot (Item.holder h items) =
      own_coins slot h (worth coins (Item.holder h items)) ++ collect_coins_in coins slot items

  pub collect_coins_in : Coins → InventorySlot → Items → List Stack
  collect_coins_in coins slot Items.empty = []
  collect_coins_in coins slot (Items.more i items) =
      collect_coins coins slot i ++ collect_coins_in coins slot items

unfoldable pub coin_stacks : Coins → Inventory → List Stack
unfolding collect_coins
coin_stacks coins [] = []
coin_stacks coins ((slot, i) ∷ inventory) =
    collect_coins coins slot i ++ coin_stacks coins inventory

-- The loop of `plan_payment` over the sorted stacks.
unfoldable pub plan_loop : List Stack → List (InventorySlot × ℕ × ℕ) → ℕ → Option Payment
plan_loop [] takes left = if left == 0 then some (record { takes = takes; change = 0 }) else none
plan_loop (s ∷ rest) takes left =
    let taken = min ((left + s.worth - 1) / s.worth) s.amount in
    let more = takes ++ ((s.slot, s.guid, taken % 256) ∷ []) in
    let paid = taken * s.worth % u64_mod in
    let later = plan_loop rest more (left - paid) in
    if left == 0
    then some (record { takes = takes; change = 0 })
    else if leb left paid
    then some (record { takes = more; change = paid - left })
    else later

unfoldable pub plan_payment : Inventory → Coins → ℕ → Option Payment
unfolding plan_loop coin_stacks sort_from
plan_payment inventory coins cost =
    plan_loop (sort_from (λ s. s.worth) [] (coin_stacks coins inventory)) [] cost

abbrev pub value_of : List Stack → ℕ
value_of [] = 0
value_of (s ∷ rest) = s.worth * s.amount + value_of rest

unfoldable pub coins_held : Inventory → Coins → ℕ
unfolding coin_stacks
coins_held inventory coins = value_of (coin_stacks coins inventory) % u64_mod

-- `cost - held` wraps.
unfoldable pub plan_payment_with_bank : Inventory → Coins → ℕ → ℕ → Option (Payment × ℕ)
unfolding plan_payment coins_held
plan_payment_with_bank inventory coins balance cost = elim (plan_payment inventory coins cost) [
  | some payment ↦ some (payment, 0)
  | none ↦
      let held = coins_held inventory coins in
      let from_bank = (cost + u64_mod - held) % u64_mod in
      if ltb balance from_bank then none else elim (plan_payment inventory coins held) [
        | none ↦ none
        | some payment ↦ some (payment, from_bank)
      ]
]
