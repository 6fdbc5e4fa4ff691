-- ===== src/Items/Stacks.antt =====
-- Splitting stacks and topping them up.
use rustibia_server.Prelude.{
  ℕ, ◌+◌, ◌-◌, ◌*◌, ◌%◌, ◌≤◌, ◌<◌, ◌≡◌, refl, min, ltb, ◌==◌, ◌&&◌, Bool, true, arith,
}
use rustibia_server.Items.{
  Item, head, each_weight, eq_option, split_off, top_up_from, stacks_with, total_weight,
  weight_of_all,
}
use rustibia_server.Items.Flags.{ItemFlag}
use rustibia_server.Items.Config.{has_flag}

room : (a b c d : Bool) (n : ℕ) → (a && b && c && d && ltb n 100) ≡ true → n < 100
room a b c d n m = ground arith

stacks_with-room : (i j : Item) → stacks_with i j ≡ true → (head i).amount < 100
unfolding stacks_with
stacks_with-room i j m =
    room ((head i).config.id == (head j).config.id)
      (eq_option (head i).action_id (head j).action_id) (eq_option (head i).text (head j).text)
      (has_flag (head i).config ItemFlag.cumulative) (head i).amount m

topped :
    (a b guid : ℕ)
    → a < 100
    → b ≤ 100
    → ((a + min b ((100 + 256 - a) % 256)) % 256 + (b - min b ((100 + 256 - a) % 256)) ≡ a + b)
      × ((a + min b ((100 + 256 - a) % 256)) % 256 ≡ min (a + b) 100)
      × (b - min b ((100 + 256 - a) % 256) + min b ((100 + 256 - a) % 256) ≡ b)
      × (guid ≡ guid)
topped a b guid h k =
    let left : (100 + 256 - a) % 256 ≡ 100 - a = omega arith in
    rw left (omega arith, omega arith, omega arith, refl)

-- Where the stacks can be merged and the other holds at most 100: units go over until the first
-- holds 100 or the other is empty; none is lost, the answer is how many went, and the first
-- item keeps its guid.
pub top_up_from_lem :
    (i j : Item)
    → stacks_with i j ≡ true
    → (head j).amount ≤ 100
    → ((head (top_up_from i j).0).amount + (head (top_up_from i j).1).amount
        ≡ (head i).amount + (head j).amount)
      × ((head (top_up_from i j).0).amount ≡ min ((head i).amount + (head j).amount) 100)
      × ((head (top_up_from i j).1).amount + (top_up_from i j).2 ≡ (head j).amount)
      × ((head (top_up_from i j).0).guid ≡ (head i).guid)
unfolding top_up_from stacks_with
top_up_from_lem (Item.bare h) (Item.bare k) m few =
    topped h.amount k.amount h.guid (stacks_with-room (Item.bare h) (Item.bare k) m) few
top_up_from_lem (Item.bare h) (Item.holder k ks) m few =
    topped h.amount k.amount h.guid (stacks_with-room (Item.bare h) (Item.holder k ks) m) few
top_up_from_lem (Item.holder h hs) (Item.bare k) m few =
    topped h.amount k.amount h.guid (stacks_with-room (Item.holder h hs) (Item.bare k) m) few
top_up_from_lem (Item.holder h hs) (Item.holder k ks) m few =
    topped h.amount k.amount h.guid (stacks_with-room (Item.holder h hs) (Item.holder k ks) m) few

spread_weight :
    (each a b : ℕ)
    → b ≤ a
    → (each * (a - b) % 4294967296 + each * b % 4294967296) % 4294967296 ≡ each * a % 4294967296
spread_weight each a b h =
    let split : each * a ≡ each * (a - b) + each * b = parts each a b h in omega (arith, split)
  where
    parts : (e a b : ℕ) → b ≤ a → e * a ≡ e * (a - b) + e * b
    parts e a b h = grind arith

-- Splitting off at most what a stack of a `u8` holds loses none of it and no weight: the two
-- parts together weigh what the stack did, whatever lies in it, in the arithmetic of a `u32`.
pub split_off_lem :
    (guid : ℕ) (i : Item) (amount : ℕ)
    → amount ≤ (head i).amount
    → (head i).amount < 256
    → ((head (split_off guid i amount).0).amount + (head (split_off guid i amount).1).amount
        ≡ (head i).amount)
      × ((total_weight (split_off guid i amount).0 + total_weight (split_off guid i amount).1)
            % 4294967296
          ≡ total_weight i)
unfolding split_off total_weight
split_off_lem guid (Item.bare h) amount less fits =
    let left : (h.amount + 256 - amount) % 256 ≡ h.amount - amount = omega arith in
    rw left (omega (arith, less), spread_weight (each_weight h) h.amount amount less)
split_off_lem guid (Item.holder h items) amount less fits =
    let left : (h.amount + 256 - amount) % 256 ≡ h.amount - amount = omega arith in
    rw left (omega (arith, less), inside (each_weight h) h.amount amount (weight_of_all items) less)
  where
    inside :
        (each a b w : ℕ)
        → b ≤ a
        → ((each * (a - b) % 4294967296 + w) % 4294967296 + each * b % 4294967296) % 4294967296
          ≡ (each * a % 4294967296 + w) % 4294967296
    inside each a b w h = omega (arith, spread_weight each a b h)
