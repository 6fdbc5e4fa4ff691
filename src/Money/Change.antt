-- ===== src/Money/Change.antt =====
-- `make_change` of `game/money.rs`.
use rustibia_server.Prelude.{
  ℕ, zero, suc, ◌+◌, ◌-◌, ◌*◌, ◌/◌, ◌%◌, ◌≤◌, ◌<◌, ◌==◌, ◌≡◌, refl, ◌∙◌, min, true, false,
  if◌then◌else◌, List, [], ◌∷◌, ◌++◌, All, All-append, arith, Bool-cases, inl, inr,
}
use rustibia_server.Items.Config.{ItemConfig}
use rustibia_server.Items.{Item, head, new}
use rustibia_server.Money.{Coins, stacks, change_loop, make_change, rev_onto}

-- How many of a coin there are, over all stacks of its id.
abbrev pub counted : ℕ → List Item → ℕ
counted id [] = 0
counted id (i ∷ items) =
    (if (head i).config.id == id then (head i).amount else 0) + counted id items

abbrev pub IsStack : Item → Type 0
IsStack i = (1 ≤ (head i).amount) × ((head i).amount ≤ 100)

-- What coins are worth in all: each stack by its own coin's worth.
abbrev pub total_of : Coins → List Item → ℕ
total_of [] items = 0
total_of ((config, value) ∷ coins) items = value * counted config.id items + total_of coins items

counted-append :
    (id : ℕ) (xs ys : List Item) → counted id (xs ++ ys) ≡ counted id xs + counted id ys
counted-append id [] ys = omega arith
counted-append id (x ∷ xs) ys = omega (arith, counted-append id xs ys)

new-amount :
    (guid amount : ℕ) (config : ItemConfig)
    → ((head (new guid config amount)).amount ≡ amount)
      × ((head (new guid config amount)).config ≡ config)
unfolding new
new-amount guid amount config = ground arith

stacks-counted :
    (fuel : ℕ) (config : ItemConfig) (count id : ℕ)
    → count ≤ fuel
    → counted id (stacks fuel config count) ≡ (if config.id == id then count else 0)
unfolding stacks
stacks-counted zero config count id h = ground arith
stacks-counted (suc fuel) config count id h =
    let n = new-amount 0 (min count 100 % 256) config in
    ground (arith, stacks-counted fuel config (count - min count 100) id, n.0, n.1)

stacks-IsStack :
    (fuel : ℕ) (config : ItemConfig) (count : ℕ) → All IsStack (stacks fuel config count)
unfolding stacks
stacks-IsStack zero config count = tt
stacks-IsStack (suc fuel) config count = elim (Bool-cases (count == 0)) [
  | inl done ↦ rw done tt
  | inr go ↦
      let n = new-amount 0 (min count 100 % 256) config in
      rw go (
        (ground (arith, n.0), ground (arith, n.0)),
        stacks-IsStack fuel config (count - min count 100),
      )
]

-- No coin of this list has the id.
abbrev pub IsAbsent : ℕ → Coins → Type 0
IsAbsent id [] = Unit
IsAbsent id ((config, value) ∷ coins) = ((config.id == id) ≡ false) × IsAbsent id coins

-- Coins dearest first: their ids differ, and the cheapest is worth 1.
abbrev pub IsPurse : Coins → Type 0
IsPurse [] = ⊥
IsPurse ((config, value) ∷ []) = value ≡ 1
IsPurse ((config, value) ∷ next ∷ coins) =
    (0 < value) × IsAbsent config.id (next ∷ coins) × IsPurse (next ∷ coins)

counted-change_loop :
    (coins : Coins) (amount id : ℕ) → IsAbsent id coins → counted id (change_loop coins amount) ≡ 0
unfolding change_loop
counted-change_loop [] amount id h = refl
counted-change_loop ((config, value) ∷ coins) amount id h =
    let here = stacks-counted (amount / value) config (amount / value) id (omega arith) in
    counted-append id (stacks (amount / value) config (amount / value))
      (change_loop coins (amount % value))
    ∙ rw (here, h.0, counted-change_loop coins (amount % value) id h.1) refl

total_of-append :
    (coins : Coins) (xs ys : List Item)
    → total_of coins (xs ++ ys) ≡ total_of coins xs + total_of coins ys
total_of-append [] xs ys = omega arith
total_of-append ((config, value) ∷ coins) xs ys =
    rw (counted-append config.id xs ys, total_of-append coins xs ys) (spread value _ _ _ _)
  where
    spread : (v a b s t : ℕ) → v * (a + b) + (s + t) ≡ v * a + s + (v * b + t)
    spread v a b s t = grind arith

total_of-stacks :
    (coins : Coins) (config : ItemConfig) (count : ℕ)
    → IsAbsent config.id coins
    → total_of coins (stacks count config count) ≡ 0
total_of-stacks [] config count h = refl
total_of-stacks ((other, value) ∷ coins) config count h =
    let here = stacks-counted count config count other.id (omega arith) in
    let differ : (config.id == other.id) ≡ false = ground (arith, h.0) in
    rw (here, differ, total_of-stacks coins config count h.1) (omega arith)

divided : (a v : ℕ) → 0 < v → v * (a / v) + a % v ≡ a
divided a v h = grind arith

one_coin :
    (coins : Coins) (config : ItemConfig) (value amount : ℕ)
    → 0 < value
    → IsAbsent config.id coins
    → total_of coins (change_loop coins (amount % value)) ≡ amount % value
    → total_of
        ((config, value) ∷ coins)
        (stacks (amount / value) config (amount / value) ++ change_loop coins (amount % value))
      ≡ amount
one_coin coins config value amount pos absent rest =
    let same : (config.id == config.id) ≡ true = ground arith in
    let here = stacks-counted (amount / value) config (amount / value) config.id (omega arith) in
    rw
      (
        counted-append config.id (stacks (amount / value) config (amount / value))
            (change_loop coins (amount % value)),
        here,
        same,
        counted-change_loop coins (amount % value) config.id absent,
        total_of-append coins (stacks (amount / value) config (amount / value))
            (change_loop coins (amount % value)),
        total_of-stacks coins config (amount / value) absent,
        rest,
      )
      (plain (amount / value) ∙ divided amount value pos)
  where
    plain : (q : ℕ) → value * (q + 0) + (0 + amount % value) ≡ value * q + amount % value
    plain q = grind arith

total_of-change_loop :
    (coins : Coins) (amount : ℕ)
    → IsPurse coins
    → total_of coins (change_loop coins amount) ≡ amount
unfolding change_loop
total_of-change_loop [] amount p = elim p [ ]
total_of-change_loop ((config, value) ∷ []) amount p =
    one_coin [] config value amount (omega (arith, p)) tt (rw p (omega arith))
total_of-change_loop ((config, value) ∷ next ∷ coins) amount p =
    one_coin (next ∷ coins) config value amount p.0 p.1
      (total_of-change_loop (next ∷ coins) (amount % value) p.2)

change_loop-IsStack : (coins : Coins) (amount : ℕ) → All IsStack (change_loop coins amount)
unfolding change_loop
change_loop-IsStack [] amount = tt
change_loop-IsStack ((config, value) ∷ coins) amount =
    All-append IsStack (stacks (amount / value) config (amount / value))
      (change_loop coins (amount % value)) (stacks-IsStack (amount / value) config (amount / value))
      (change_loop-IsStack coins (amount % value))

-- Where the coins' ids differ, each is worth something and the cheapest is worth 1, the change
-- of an amount is worth exactly that amount, and comes in stacks of 1 to 100 coins.
pub make_change_lem :
    (coins : Coins) (amount : ℕ)
    → IsPurse (rev_onto coins [])
    → (total_of (rev_onto coins []) (make_change coins amount) ≡ amount)
      × All IsStack (make_change coins amount)
unfolding make_change
make_change_lem coins amount p = (
  total_of-change_loop (rev_onto coins []) amount p,
  change_loop-IsStack (rev_onto coins []) amount,
)
