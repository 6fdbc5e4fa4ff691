-- ===== src/Skills/Advance.antt =====
-- `advance` of `game/skills.rs`, and the costs of experience levels.
use rustibia_server.Prelude.{
  ℕ, zero, suc, ◌+◌, ◌-◌, ◌*◌, ◌≤◌, ◌<◌, ◌≡◌, refl, ap, ◌∙◌, inl, inr, Bool, true, ◌||◌, ltb, leb,
  arith, Bool-cases, saturating_add, u16_max, u64_max,
}
use rustibia_server.Prelude.Outcome.{Outcome, ok}
use rustibia_server.Prelude.Int.{ℤ}
use rustibia_server.Codes.Vocation.{Vocation}
use rustibia_server.Codes.SkillType.{SkillType}
use rustibia_server.Skills.{
  SkillValue, SkillsConfig, advance, advance_loop, required_ticks_in, exp_for_level,
}
use rustibia_server.Skills.Experience.{exp_for_level_closed, step_closed}

-- What `n` steps cost, the first of them into `level`.
abbrev pub costs : (ℕ → ℕ) → ℕ → ℕ → ℕ
costs required zero level = 0
costs required (suc n) level = required level + costs required n (level + 1)

abbrev pub returned : SkillValue → ℕ → Outcome (SkillValue × ℕ)
returned s n = ok (s, n)

module _ (required : ℕ → ℕ) where
  -- The next level cannot be taken: the costs rise no more, or the progress is short of it.
  abbrev pub Settled : SkillValue → Type 0
  Settled s =
      (leb (required (saturating_add u16_max s.value 1)) (required s.value)
        || ltb s.current_ticks (required (saturating_add u16_max s.value 1)))
      ≡ true

  pub record Advances (s : SkillValue) (gained : ℕ) (r : Outcome (SkillValue × ℕ)) : Type 0 where
    pub out : SkillValue
    pub steps : ℕ
    pub returns : r ≡ ok (out, gained + steps)
    pub raised : out.value ≡ s.value + steps
    pub in_range : out.value ≤ 65535
    pub spent : out.current_ticks + costs required steps (s.value + 1) ≡ s.current_ticks
    pub settled : Settled out

  advance_loop-Advances :
      (fuel : ℕ) (s : SkillValue) (gained : ℕ)
      → s.value ≤ 65535
      → gained ≤ s.value
      → 65536 ≤ s.value + fuel
      → Advances s gained (advance_loop required fuel s gained)
  unfolding advance_loop
  advance_loop-Advances zero s gained small less enough = absurd (omega arith)
  advance_loop-Advances (suc fuel) s gained small less enough = elim (Bool-cases stop) [
    | inl done ↦ record {
      out = s;
      steps = 0;
      returns = rw done (same_gain (gained));
      raised = omega arith;
      in_range = small;
      spent = omega arith;
      settled = done;
    }
    | inr more ↦
        let below : s.value < 65535 = ground arith in
        let next : SkillValue = record {
          current_ticks = s.current_ticks - required (saturating_add u16_max s.value 1);
          value = saturating_add u16_max s.value 1;
        } in
        let level : saturating_add u16_max s.value 1 ≡ s.value + 1 = ground arith in
        let count : saturating_add u16_max gained 1 ≡ gained + 1 = ground arith in
        let rest =
          advance_loop-Advances fuel next (saturating_add u16_max gained 1) (ground arith)
            (ground arith) (ground arith) in
        record {
          out = rest.out;
          steps = suc rest.steps;
          returns = rw more (rest.returns ∙ same_total rest.out rest.steps count);
          raised = omega (arith, rest.raised, level);
          in_range = rest.in_range;
          spent = spend rest.steps rest.out.current_ticks level rest.spent (ground arith);
          settled = rest.settled;
        }
  ]
    where
      stop : Bool
      stop =
          leb (required (saturating_add u16_max s.value 1)) (required s.value)
          || ltb s.current_ticks (required (saturating_add u16_max s.value 1))

      same_gain : (n : ℕ) → returned s n ≡ returned s (n + 0)
      same_gain n = ap (returned s) (omega arith)

      same_total :
          (o : SkillValue) (k : ℕ)
          → saturating_add u16_max gained 1 ≡ gained + 1
          → returned o (saturating_add u16_max gained 1 + k) ≡ returned o (gained + suc k)
      same_total o k e = ap (returned o) (omega (arith, e))

      spend :
          (k left : ℕ)
          → saturating_add u16_max s.value 1 ≡ s.value + 1
          → left + costs required k (saturating_add u16_max s.value 1 + 1)
            ≡ s.current_ticks - required (saturating_add u16_max s.value 1)
          → required (saturating_add u16_max s.value 1) ≤ s.current_ticks
          → left + (required (s.value + 1) + costs required k (s.value + 1 + 1)) ≡ s.current_ticks
      spend k left e p q = rw (← e) (omega (arith, p, q))

  -- Where the value is a `u16`, and the ticks held and the new ticks together fit in a `u64`: a call
  -- of `advance` returns. The levels that it reports are those by which the value has risen;
  -- their costs are what the progress, with the new ticks added, has lost; and the value it ends
  -- at is one from which no further level can be taken.
  pub advance-Advances :
      (s : SkillValue) (ticks : ℕ)
      → s.value ≤ 65535
      → s.current_ticks + ticks ≤ u64_max
      → Advances (record s { current_ticks = s.current_ticks + ticks }) 0 (advance required s ticks)
  unfolding advance
  advance-Advances s ticks small fits =
      let exact : saturating_add u64_max s.current_ticks ticks ≡ s.current_ticks + ticks =
        ground arith in
      rw exact (
        advance_loop-Advances 65536 (record s { current_ticks = s.current_ticks + ticks }) 0 small
          (omega arith) (omega arith))

-- What a level costs: with `m` the level that the step leaves, 50 (m² - 3 m + 4).
pub level_cost :
    {F : Type 0} (power : ℕ → F → ℤ → ℕ) (cfg : SkillsConfig F) (v : Vocation) (k : ℕ)
    → required_ticks_in power cfg v SkillType.level (k + 2) + 150 * (k + 1)
      ≡ 50 * ((k + 1) * (k + 1)) + 200
unfolding required_ticks_in
level_cost power cfg v k =
    let upper = exp_for_level_closed (suc k) in
    let lower = exp_for_level_closed k in
    let a : k + 2 ≡ suc (suc k) = omega arith in
    let b : k + 2 - 1 ≡ suc k = omega arith in
    rw (b, a, upper, lower) (omega (arith, step_closed k))

-- The steps into levels 2 and 3 cost the same 100, and `advance` takes costs that do not rise for
-- the end of the curve: a character of level 2 gains no level, whatever experience it is given.
pub advance_level_two :
    {F : Type 0} (power : ℕ → F → ℤ → ℕ) (cfg : SkillsConfig F) (v : Vocation) (held ticks : ℕ)
    → advance
        (required_ticks_in power cfg v SkillType.level)
        (record { value = 2; current_ticks = held })
        ticks
      ≡ ok (record { value = 2; current_ticks = saturating_add u64_max held ticks }, 0)
unfolding advance advance_loop required_ticks_in exp_for_level
advance_level_two power cfg v held ticks = refl
