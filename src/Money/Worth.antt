-- ===== src/Money/Worth.antt =====
-- What the coins that a player carries are worth, counted item by item.
use rustibia_server.Prelude.{ℕ, ◌+◌, ◌*◌, ◌≡◌, refl, Option, none, some, List, [], ◌∷◌, ◌++◌, arith}
use rustibia_server.Codes.InventorySlot.{InventorySlot}
use rustibia_server.Items.{Head, Item, Items}
use rustibia_server.Money.{
  Coins, Inventory, Stack, worth, own_coins, collect_coins, collect_coins_in, coin_stacks, value_of,
}

-- The worth of an item itself: nothing unless it is a stack of coins.
abbrev coin_worth : Option ℕ → ℕ → ℕ
coin_worth none amount = 0
coin_worth (some value) amount = value * amount

-- The worth of an item and of all that is in it, at any depth.
abbrev mutual
  worth_of : Coins → Item → ℕ
  worth_of coins (Item.bare h) = coin_worth (worth coins (Item.bare h)) h.amount
  worth_of coins (Item.holder h items) =
      coin_worth (worth coins (Item.holder h items)) h.amount + worth_within coins items

  worth_within : Coins → Items → ℕ
  worth_within coins Items.empty = 0
  worth_within coins (Items.more i items) = worth_of coins i + worth_within coins items

abbrev pub carried_worth : Coins → Inventory → ℕ
carried_worth coins [] = 0
carried_worth coins ((slot, i) ∷ inventory) = worth_of coins i + carried_worth coins inventory

value-append : (xs ys : List Stack) → value_of (xs ++ ys) ≡ value_of xs + value_of ys
value-append [] ys = omega arith
value-append (x ∷ xs) ys = omega (arith, value-append xs ys)

value-own_coins :
    (slot : InventorySlot) (h : Head) (value : Option ℕ)
    → value_of (own_coins slot h value) ≡ coin_worth value h.amount
value-own_coins slot h none = refl
value-own_coins slot h (some value) = omega arith

mutual
  unfolding collect_coins

  value-collect_coins :
      (coins : Coins) (slot : InventorySlot) (i : Item)
      → value_of (collect_coins coins slot i) ≡ worth_of coins i
  value-collect_coins coins slot (Item.bare h) = value-own_coins slot h (worth coins (Item.bare h))
  value-collect_coins coins slot (Item.holder h items) = omega (
    arith,
    value-append (own_coins slot h (worth coins (Item.holder h items)))
        (collect_coins_in coins slot items),
    value-own_coins slot h (worth coins (Item.holder h items)),
    value-collect_coins_in coins slot items,
  )

  value-collect_coins_in :
      (coins : Coins) (slot : InventorySlot) (items : Items)
      → value_of (collect_coins_in coins slot items) ≡ worth_within coins items
  value-collect_coins_in coins slot Items.empty = refl
  value-collect_coins_in coins slot (Items.more i items) = omega (
    arith,
    value-append (collect_coins coins slot i) (collect_coins_in coins slot items),
    value-collect_coins coins slot i,
    value-collect_coins_in coins slot items,
  )

-- The stacks found are worth what the coins anywhere in the inventory are.
pub value-coin_stacks :
    (coins : Coins) (inventory : Inventory)
    → value_of (coin_stacks coins inventory) ≡ carried_worth coins inventory
unfolding coin_stacks
value-coin_stacks coins [] = refl
value-coin_stacks coins ((slot, i) ∷ inventory) = omega (
  arith,
  value-append (collect_coins coins slot i) (coin_stacks coins inventory),
  value-collect_coins coins slot i,
  value-coin_stacks coins inventory,
)
