-- ===== src/Skills/Regress.antt =====
-- `regress` and the loss at death of `game/skills.rs`.
use rustibia_server.Prelude.{
  ℕ, zero, suc, ◌+◌, ◌-◌, ◌≤◌, ◌<◌, ◌≡◌, refl, ap, ◌∙◌, inl, inr, false, ◌&&◌, ltb, arith,
  Bool-cases,
}
use rustibia_server.Prelude.Outcome.{Outcome, ok}
use rustibia_server.Skills.{SkillValue, regress, regress_loop}
use rustibia_server.Skills.Advance.{costs, returned}

module _ (required : ℕ → ℕ) where
  costs_last :
      (n level : ℕ) → costs required (suc n) level ≡ costs required n level + required (level + n)
  costs_last zero level =
      let same : level ≡ level + 0 = omega arith in omega (arith, ap required same)
  costs_last (suc n) level =
      let shift : level + 1 + n ≡ level + suc n = omega arith in
      omega (arith, costs_last n (level + 1), ap required shift)

  -- The progress above a floor, without saturation: the steps taken above it and the current one.
  abbrev pub progress : SkillValue → ℕ → ℕ
  progress s floor = s.current_ticks + costs required (s.value - floor) (floor + 1)

  pub record Regresses (s : SkillValue) (ticks floor lost : ℕ) (r : Outcome (SkillValue × ℕ))
      : Type 0 where
    pub out : SkillValue
    pub steps : ℕ
    pub returns : r ≡ ok (out, lost + steps)
    pub lowered : out.value + steps ≡ s.value
    pub kept_floor : floor ≤ out.value
    pub taken : progress out floor ≡ progress s floor - ticks
    pub needed : ticks ≤ s.current_ticks → steps ≡ 0

  regress_loop-Regresses :
      (fuel : ℕ) (s : SkillValue) (ticks floor lost : ℕ)
      → floor ≤ s.value
      → s.value < fuel
      → Regresses s ticks floor lost (regress_loop required fuel s ticks floor lost)
  unfolding regress_loop
  regress_loop-Regresses zero s ticks floor lost above enough = absurd (omega arith)
  regress_loop-Regresses (suc fuel) s ticks floor lost above enough =
      elim (Bool-cases (ltb s.current_ticks ticks && ltb floor s.value)) [
        | inr stop ↦ record {
          out = record s { current_ticks = s.current_ticks - ticks };
          steps = 0;
          returns =
              rw stop (
                ap (returned (record s { current_ticks = s.current_ticks - ticks })) (omega arith));
          lowered = omega arith;
          kept_floor = above;
          taken = at_end stop;
          needed = λ h. refl;
        }
        | inl more ↦
            let over : s.current_ticks < ticks = ground arith in
            let higher : floor < s.value = ground arith in
            let lower : SkillValue = record {
              current_ticks = required s.value;
              value = s.value - 1;
            } in
            let rest =
              regress_loop-Regresses fuel lower (ticks - s.current_ticks) floor (lost + 1)
                (omega arith) (omega arith) in
            record {
              out = rest.out;
              steps = suc rest.steps;
              returns = rw more (rest.returns ∙ ap (returned rest.out) (omega arith));
              lowered = omega (arith, rest.lowered, higher);
              kept_floor = rest.kept_floor;
              taken = omega (arith, rest.taken, whole higher, over);
              needed = λ h. absurd (omega (arith, h, over));
            }
      ]
    where
      at_end :
          (ltb s.current_ticks ticks && ltb floor s.value) ≡ false
          → progress (record s { current_ticks = s.current_ticks - ticks }) floor
            ≡ progress s floor - ticks
      at_end stop = elim (Bool-cases (ltb s.current_ticks ticks)) [
        | inr covered ↦ let small : ticks ≤ s.current_ticks = ground arith in omega (arith, small)
        | inl short ↦ let at_floor : s.value - floor ≡ 0 = ground arith in rw at_floor (omega arith)
      ]

      whole :
          floor < s.value
          → required s.value + costs required (s.value - 1 - floor) (floor + 1)
            ≡ costs required (s.value - floor) (floor + 1)
      whole h =
          let n = s.value - 1 - floor in
          let size : s.value - floor ≡ suc n = omega arith in
          let top : floor + 1 + n ≡ s.value = omega arith in
          omega (
            arith,
            ap (λ k. costs required k (floor + 1)) size,
            costs_last n (floor + 1),
            ap required top,
          )

  -- A call of `regress` from a value at or above the floor returns, at or above it. The progress
  -- above the floor falls by the ticks, and to 0 if there are more; the levels reported are those by
  -- which the value has fallen, and none is lost where the current progress covers the ticks.
  pub regress-Regresses :
      (s : SkillValue) (ticks floor : ℕ)
      → floor ≤ s.value
      → Regresses s ticks floor 0 (regress required s ticks floor)
  unfolding regress
  regress-Regresses s ticks floor above =
      regress_loop-Regresses (s.value + 1) s ticks floor 0 above (omega arith)
