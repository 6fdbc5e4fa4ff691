-- ===== src/Money/Plans.antt =====
-- `plan_payment` and `plan_payment_with_bank` of `game/money.rs`.
use rustibia_server.Prelude.{
  ℕ, ◌+◌, ◌-◌, ◌*◌, ◌%◌, ◌≤◌, ◌<◌, ltb, ◌≡◌, refl, Option, none, some, List, [], ◌∷◌, All, arith,
  Bool-cases, inl, inr, ◌⊎◌, ◌↔◌, ap, Option-cases,
}
use rustibia_server.Money.{
  Coins, Inventory, Stack, Payment, insert_by, sort_from, coin_stacks, plan_payment, value_of,
  coins_held, plan_payment_with_bank, u64_mod,
}
use rustibia_server.Money.Worth.{carried_worth, value-coin_stacks}
use rustibia_server.Money.Paying.{Take, IsCountable, IsTaken, IsPaid, times_le, plan_loop-IsPaid}

-- Sorting keeps what the stacks are worth, and that they can be counted.
value-insert_by :
    (key : Stack → ℕ) (s : Stack) (stacks : List Stack)
    → value_of (insert_by key s stacks) ≡ s.worth * s.amount + value_of stacks
value-insert_by key s [] = refl
value-insert_by key s (x ∷ stacks) = ground (arith, value-insert_by key s stacks)

value-sort_from :
    (key : Stack → ℕ) (sorted stacks : List Stack)
    → value_of (sort_from key sorted stacks) ≡ value_of sorted + value_of stacks
unfolding sort_from
value-sort_from key sorted [] = omega arith
value-sort_from key sorted (s ∷ stacks) =
    omega (arith, value-sort_from key (insert_by key s sorted) stacks, value-insert_by key s sorted)

IsCountable-insert_by :
    (key : Stack → ℕ) (s : Stack) (stacks : List Stack)
    → IsCountable s
    → All IsCountable stacks
    → All IsCountable (insert_by key s stacks)
IsCountable-insert_by key s [] h a = (h, tt)
IsCountable-insert_by key s (x ∷ stacks) h a = elim (Bool-cases (ltb (key s) (key x))) [
  | inl before ↦ rw (insert_by, before) (h, a)
  | inr behind ↦ rw (insert_by, behind) (a.0, IsCountable-insert_by key s stacks h a.1)
]

IsCountable-sort_from :
    (key : Stack → ℕ) (sorted stacks : List Stack)
    → All IsCountable sorted
    → All IsCountable stacks
    → All IsCountable (sort_from key sorted stacks)
unfolding sort_from
IsCountable-sort_from key sorted [] h a = h
IsCountable-sort_from key sorted (s ∷ stacks) h a =
    IsCountable-sort_from key (insert_by key s sorted) stacks
      (IsCountable-insert_by key s sorted a.0 h) a.1

-- The stacks in the order in which a payment takes them.
abbrev pub by_worth : Coins → Inventory → List Stack
by_worth coins inventory = sort_from (λ s. s.worth) [] (coin_stacks coins inventory)

taken_within :
    (stacks : List Stack) (takes : List Take) (paid : ℕ)
    → IsTaken stacks takes paid
    → paid ≤ value_of stacks
taken_within [] [] paid h = omega (arith, h)
taken_within (s ∷ stacks) [] paid h = omega (arith, h)
taken_within [] (t ∷ takes) paid h = elim h [ ]
taken_within (s ∷ stacks) ((slot, guid, amount) ∷ takes) paid (_, _, few, rest, total, later) =
    omega (arith, total, taken_within stacks takes rest later, times_le amount s.amount s.worth few)

-- What the answer of `plan_payment` says, whichever it is.
plan_payment-IsPaid :
    (inventory : Inventory) (coins : Coins) (cost : ℕ) (plan : Option Payment)
    → plan_payment inventory coins cost ≡ plan
    → All IsCountable (coin_stacks coins inventory)
    → IsPaid (by_worth coins inventory) [] cost plan
unfolding plan_payment
plan_payment-IsPaid inventory coins cost plan e h =
    let countable = IsCountable-sort_from (λ s. s.worth) [] (coin_stacks coins inventory) tt h in
    rw (← e) (plan_loop-IsPaid (by_worth coins inventory) [] cost countable)

value-by_worth :
    (coins : Coins) (inventory : Inventory)
    → value_of (by_worth coins inventory) ≡ value_of (coin_stacks coins inventory)
value-by_worth coins inventory =
    omega (arith, value-sort_from (λ s. s.worth) [] (coin_stacks coins inventory))

-- Where every stack can be counted: a payment is planned exactly if the coins that the player
-- carries are worth the cost, and what it takes, from the cheapest stacks on, is worth the cost and
-- the change together. The stacks that can be taken are worth what all coins in the inventory are,
-- those in containers at any depth included.
pub plan_payment_lem :
    (inventory : Inventory) (coins : Coins) (cost : ℕ)
    → All IsCountable (coin_stacks coins inventory)
    → ((plan_payment inventory coins cost ≡ none) ↔ (value_of (coin_stacks coins inventory) < cost))
      × ((p : Payment)
          → plan_payment inventory coins cost ≡ some p
          → IsTaken (by_worth coins inventory) p.takes (cost + p.change))
      × (value_of (coin_stacks coins inventory) ≡ carried_worth coins inventory)
unfolding plan_payment
plan_payment_lem inventory coins cost h = (
  (
    λ e.
        omega (
          arith,
          plan_payment-IsPaid inventory coins cost none e h,
          value-by_worth coins inventory,
        ),
    λ poor. elim (Option-cases (plan_payment inventory coins cost)) [
      | inl nothing ↦ nothing
      | inr (p, planned) ↦
          let paid = plan_payment-IsPaid inventory coins cost (some p) planned h in
          absurd (
            omega (
              arith,
              poor,
              taken_within (by_worth coins inventory) paid.0 (cost + p.change) paid.2,
              value-by_worth coins inventory,
            ))
    ],
  ),
  λ p e. let paid = plan_payment-IsPaid inventory coins cost (some p) e h in rw paid.1 paid.2,
  value-coin_stacks coins inventory,
)

-- Where every stack can be counted and the coins' worth and the cost fit in a `u64`: the answer
-- is nothing exactly if coins and balance together are worth less than the cost; otherwise the
-- bank covers exactly what the coins carried do not, within the balance, and what is taken is
-- worth the rest of the cost and the change together.
pub plan_payment_with_bank_lem :
    (inventory : Inventory) (coins : Coins) (balance cost : ℕ)
    → All IsCountable (coin_stacks coins inventory)
    → value_of (coin_stacks coins inventory) < u64_mod
    → cost < u64_mod
    → ((plan_payment_with_bank inventory coins balance cost ≡ none)
        × (value_of (coin_stacks coins inventory) + balance < cost))
      ⊎ ((p : Payment) × (from_bank : ℕ) × (plan_payment_with_bank inventory coins balance cost
            ≡ some (p, from_bank))
          × (from_bank ≡ cost - value_of (coin_stacks coins inventory))
          × (from_bank ≤ balance)
          × IsTaken (by_worth coins inventory) p.takes (cost - from_bank + p.change))
unfolding plan_payment_with_bank coins_held
plan_payment_with_bank_lem inventory coins balance cost h fits small =
    elim (Option-cases (plan_payment inventory coins cost)) [
      | inr (p, planned) ↦
          let paid = plan_payment-IsPaid inventory coins cost (some p) planned h in
          let enough = taken_within (by_worth coins inventory) paid.0 (cost + p.change) paid.2 in
          inr (
            p,
            0,
            rw (plan_payment_with_bank, planned) refl,
            omega (arith, enough, value-by_worth coins inventory),
            omega arith,
            let same : cost - 0 ≡ cost = omega arith in rw (same, paid.1) paid.2,
          )
      | inl poor ↦
          let short : held < cost = omega (
            arith,
            plan_payment-IsPaid inventory coins cost none poor h,
            value-by_worth coins inventory,
          ) in
          let whole : held % u64_mod ≡ held = omega (arith, fits) in
          let rest : (cost + u64_mod - held) % u64_mod ≡ cost - held =
            omega (arith, short, small) in
          let asked : (cost + u64_mod - coins_held inventory coins) % u64_mod ≡ cost - held =
            rw whole rest in
          elim (Bool-cases (ltb balance (cost - held))) [
            | inl broke ↦
                inl (
                  rw (plan_payment_with_bank, poor, whole, rest, broke) refl,
                  ground (arith, short),
                )
            | inr covered ↦ elim (Option-cases (plan_payment inventory coins held)) [
              | inl nothing ↦
                  absurd (omega (arith, (plan_payment_lem inventory coins held h).0.0 nothing))
              | inr (p, planned) ↦
                  let paid = plan_payment-IsPaid inventory coins held (some p) planned h in
                  let all : cost - (cost - held) ≡ held = omega (arith, short) in
                  inr (
                    p,
                    cost - held,
                    rw (plan_payment_with_bank, poor, whole, rest, covered, planned)
                        (ap (λ b. some (p, b)) asked),
                    refl,
                    ground (arith, covered),
                    rw (all, paid.1) paid.2,
                  )
            ]
          ]
    ]
  where
    held : ℕ
    held = value_of (coin_stacks coins inventory)
