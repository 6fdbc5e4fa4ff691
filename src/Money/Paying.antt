-- ===== src/Money/Paying.antt =====
-- The loop of `plan_payment` of `game/money.rs` over stacks of coins.
use rustibia_server.Prelude.{
  ℕ, ◌+◌, ◌-◌, ◌*◌, ◌/◌, ◌%◌, ◌≤◌, ◌<◌, ◌==◌, leb, ◌≡◌, refl, sym, ◌∙◌, min, Option, none, some,
  List, [], ◌∷◌, ◌++◌, All, append-nil, append_assoc, arith, Bool-cases, inl, inr, leb→le, ==→≡,
}
use rustibia_server.Codes.InventorySlot.{InventorySlot}
use rustibia_server.Money.{Stack, Payment, plan_loop, value_of, u64_mod}

abbrev pub Take : Type 0
Take = InventorySlot × ℕ × ℕ

-- A stack that a payment can count: a coin of some worth, a `u8` of them, and a value in a `u64`.
abbrev pub IsCountable : Stack → Type 0
IsCountable s = (0 < s.worth) × (s.amount < 256) × (s.amount * s.worth < u64_mod)

-- The value of takes from the stacks in their order: each from its own stack, no more than it holds.
abbrev pub IsTaken : List Stack → List Take → ℕ → Type 0
IsTaken stacks [] paid = paid ≡ 0
IsTaken [] (t ∷ takes) paid = ⊥
IsTaken (s ∷ stacks) ((slot, guid, amount) ∷ takes) paid =
    (slot ≡ s.slot)
    × (guid ≡ s.guid)
    × (amount ≤ s.amount)
    × (rest : ℕ) × (paid ≡ amount * s.worth + rest)
    × IsTaken stacks takes rest

abbrev pub IsPaid : List Stack → List Take → ℕ → Option Payment → Type 0
IsPaid stacks before cost none = value_of stacks < cost
IsPaid stacks before cost (some p) =
    (takes : List Take) × (p.takes ≡ before ++ takes) × IsTaken stacks takes (cost + p.change)

ceil_covers : (a w : ℕ) → 0 < w → a ≤ (a + w - 1) / w * w
ceil_covers a w h = grind arith

pub times_le : (a b c : ℕ) → a ≤ b → a * c ≤ b * c
times_le a b c h = grind arith

-- One stack: what is taken of it either covers what is left, or is all of it.
taken_all :
    (left worth amount : ℕ)
    → 0 < worth
    → min ((left + worth - 1) / worth) amount * worth < left
    → min ((left + worth - 1) / worth) amount ≡ amount
taken_all left worth amount h short = elim (Bool-cases (leb amount ((left + worth - 1) / worth))) [
  | inl all ↦ ground arith
  | inr part ↦
      let some_left : min ((left + worth - 1) / worth) amount ≡ (left + worth - 1) / worth =
        ground arith in
      let short' : (left + worth - 1) / worth * worth < left = rw (← some_left) short in
      absurd (omega (arith, ceil_covers left worth h, short'))
]

nothing_more :
    (stacks : List Stack) (before : List Take)
    → IsPaid stacks before 0 (some (record { takes = before; change = 0 }))
nothing_more [] before = ([], sym (append-nil before), refl)
nothing_more (s ∷ stacks) before = ([], sym (append-nil before), refl)

after_stack :
    (s : Stack) (rest : List Stack) (before : List Take) (left : ℕ) (later : Option Payment)
    → s.amount * s.worth < left
    → IsPaid rest (before ++ ((s.slot, s.guid, s.amount) ∷ [])) (left - s.amount * s.worth) later
    → IsPaid (s ∷ rest) before left later
after_stack s rest before left none short h = omega (arith, short, h)
after_stack s rest before left (some p) short (takes, e, taken) = (
  (s.slot, s.guid, s.amount) ∷ takes,
  e ∙ append_assoc before ((s.slot, s.guid, s.amount) ∷ []) takes,
  (refl, refl, omega arith, left - s.amount * s.worth + p.change, omega (arith, short), taken),
)

pub plan_loop-IsPaid :
    (stacks : List Stack) (before : List Take) (left : ℕ)
    → All IsCountable stacks
    → IsPaid stacks before left (plan_loop stacks before left)
unfolding plan_loop
plan_loop-IsPaid [] before left h = elim (Bool-cases (left == 0)) [
  | inl done ↦ rw (done, ==→≡ left 0 done) (nothing_more [] before)
  | inr more ↦ rw more (ground arith)
]
plan_loop-IsPaid (s ∷ rest) before left h = elim (Bool-cases (left == 0)) [
  | inl done ↦ rw (done, ==→≡ left 0 done) (nothing_more (s ∷ rest) before)
  | inr more ↦ elim (Bool-cases (leb left (taken * s.worth))) [
    | inl covered ↦
        rw (more, whole, small, covered)
          (
            (s.slot, s.guid, taken) ∷ [],
            refl,
            (
              refl,
              refl,
              omega arith,
              0,
              omega (arith, leb→le left (taken * s.worth) covered),
              refl,
            ),
          )
    | inr short ↦
        let all : taken ≡ s.amount =
          taken_all left s.worth s.amount h.0.0 (ground (arith, short)) in
        rw (more, whole, small, short, all)
          (after_stack s rest before left
            (plan_loop rest (before ++ ((s.slot, s.guid, s.amount) ∷ []))
              (left - s.amount * s.worth))
            (rw (← all) (ground (arith, short)))
            (plan_loop-IsPaid rest (before ++ ((s.slot, s.guid, s.amount) ∷ []))
              (left - s.amount * s.worth) h.1))
  ]
]
  where
    taken : ℕ
    taken = min ((left + s.worth - 1) / s.worth) s.amount

    below : taken * s.worth ≤ s.amount * s.worth
    below = times_le taken s.amount s.worth (omega arith)

    whole : taken * s.worth % u64_mod ≡ taken * s.worth
    whole = omega (arith, below, h.0.2)

    small : taken % 256 ≡ taken
    small = omega (arith, h.0.1)
