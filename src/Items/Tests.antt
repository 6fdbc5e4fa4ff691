-- ===== src/Items/Tests.antt =====
-- Stacks of a cumulative item.
use rustibia_server.Prelude.{ℕ, ◌+◌, ◌≡◌, refl, min, true, none, [], ◌∷◌, arith}
use rustibia_server.Items.{Item, head, top_up_from, stacks_with}
use rustibia_server.Items.Config.{ItemConfig, ItemAttribute, has_flag}
use rustibia_server.Items.Flags.{contains}
use rustibia_server.Items.Stacks.{top_up_from_lem}

abbrev gold : ItemConfig
gold = record { id = 3031; flags = 64; attributes = ItemAttribute.weight 10 ∷ [] }

abbrev stack : ℕ → ℕ → Item
stack guid amount = Item.bare (record {
  guid = guid;
  config = gold;
  amount = amount;
  fluid = none;
  text = none;
  owner = none;
  action_id = none;
})

mergeable : stacks_with (stack 1 60) (stack 2 70) ≡ true
unfolding stacks_with has_flag contains
mergeable = refl

top_up_from_lem_example :
    ((head (top_up_from (stack 1 60) (stack 2 70)).0).amount
        + (head (top_up_from (stack 1 60) (stack 2 70)).1).amount
      ≡ 60 + 70)
    × ((head (top_up_from (stack 1 60) (stack 2 70)).0).amount ≡ min (60 + 70) 100)
    × ((head (top_up_from (stack 1 60) (stack 2 70)).1).amount
          + (top_up_from (stack 1 60) (stack 2 70)).2
        ≡ 70)
    × ((head (top_up_from (stack 1 60) (stack 2 70)).0).guid ≡ 1)
top_up_from_lem_example = top_up_from_lem (stack 1 60) (stack 2 70) mergeable (omega arith)
