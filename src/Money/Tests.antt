-- ===== src/Money/Tests.antt =====
-- The game's three coins, and a player who carries two stacks of them.
use rustibia_server.Prelude.{
  ℕ, ◌+◌, ◌-◌, ◌<◌, ◌≤◌, ◌≡◌, ◌↔◌, ◌⊎◌, refl, none, some, [], ◌∷◌, All, arith,
}
use rustibia_server.Codes.InventorySlot.{InventorySlot}
use rustibia_server.Items.{Item}
use rustibia_server.Items.Config.{ItemConfig}
use rustibia_server.Money.{
  Coins, Inventory, Payment, make_change, rev_onto, plan_payment, plan_payment_with_bank,
  coin_stacks, collect_coins, worth, value_of, u64_mod,
}
use rustibia_server.Money.Change.{total_of, IsStack, IsPurse, make_change_lem}
use rustibia_server.Money.Paying.{IsCountable, IsTaken}
use rustibia_server.Money.Worth.{carried_worth}
use rustibia_server.Money.Plans.{by_worth, plan_payment_lem, plan_payment_with_bank_lem}

abbrev coin : ℕ → ItemConfig
coin id = record { id = id; flags = 64; attributes = [] }

abbrev coins : Coins
coins = (coin 3031, 1) ∷ (coin 3035, 100) ∷ (coin 3043, 10_000) ∷ []

purse : IsPurse (rev_onto coins [])
purse = (omega arith, (refl, (refl, tt)), (omega arith, (refl, tt), refl))

make_change_lem_example :
    (total_of (rev_onto coins []) (make_change coins 20_345) ≡ 20_345)
    × All IsStack (make_change coins 20_345)
make_change_lem_example = make_change_lem coins 20_345 purse

abbrev stack : ℕ → ℕ → ℕ → Item
stack guid id amount = Item.bare (record {
  guid = guid;
  config = coin id;
  amount = amount;
  fluid = none;
  text = none;
  owner = none;
  action_id = none;
})

abbrev carried : Inventory
carried = (InventorySlot.backpack, stack 1 3035 2) ∷ (InventorySlot.trinket, stack 2 3031 50) ∷ []

countable : All IsCountable (coin_stacks coins carried)
unfolding coin_stacks collect_coins worth
countable = ((omega arith, omega arith, omega arith), ((omega arith, omega arith, omega arith), tt))

plan_payment_lem_example :
    ((plan_payment carried coins 120 ≡ none) ↔ (value_of (coin_stacks coins carried) < 120))
    × ((p : Payment)
        → plan_payment carried coins 120 ≡ some p
        → IsTaken (by_worth coins carried) p.takes (120 + p.change))
    × (value_of (coin_stacks coins carried) ≡ carried_worth coins carried)
plan_payment_lem_example = plan_payment_lem carried coins 120 countable

worth_little : value_of (coin_stacks coins carried) < u64_mod
unfolding coin_stacks collect_coins worth
worth_little = omega arith

plan_payment_with_bank_lem_example :
    ((plan_payment_with_bank carried coins 1000 400 ≡ none)
      × (value_of (coin_stacks coins carried) + 1000 < 400))
    ⊎ ((p : Payment) × (from_bank : ℕ) × (plan_payment_with_bank carried coins 1000 400
          ≡ some (p, from_bank))
        × (from_bank ≡ 400 - value_of (coin_stacks coins carried))
        × (from_bank ≤ 1000)
        × IsTaken (by_worth coins carried) p.takes (400 - from_bank + p.change))
plan_payment_with_bank_lem_example =
    plan_payment_with_bank_lem carried coins 1000 400 countable worth_little (omega arith)
