-- ===== src/Skills/Experience.antt =====
-- `exp_for_level` of `game/skills.rs`.
use rustibia_server.Prelude.{ℕ, zero, suc, ◌+◌, ◌-◌, ◌*◌, ◌≤◌, ◌≡◌, ◌∙◌, refl, ap, arith}
use rustibia_server.Prelude.Int.{pos, ◌+ℤ◌, ◌-ℤ◌, ◌*ℤ◌}
use rustibia_server.Skills.{exp_for_level, clamp_u64, quotient}

-- Half of k² - k + 2: a hundredth of what the step into level k + 2 costs.
abbrev pub step_hundredth : ℕ → ℕ
step_hundredth zero = 1
step_hundredth (suc k) = step_hundredth k + k

-- A hundredth of the experience of level k + 1.
abbrev pub hundredth : ℕ → ℕ
hundredth zero = 0
hundredth (suc k) = hundredth k + step_hundredth k

pub step_closed : (k : ℕ) → k * k + 2 ≡ k + 2 * step_hundredth k
step_closed zero = refl
step_closed (suc k) = omega (arith, step_closed k)

cubic : (k : ℕ) → k * k * k + 8 * k ≡ 3 * (k * k) + 6 * hundredth k
cubic zero = refl
cubic (suc k) = omega (arith, cubic k, step_closed k)

pos_minus : (a b : ℕ) → b ≤ a → pos a -ℤ pos b ≡ pos (a - b)
unfolding ◌-ℤ◌
pos_minus a b h = ground arith

pos_plus : (a b : ℕ) → pos a +ℤ pos b ≡ pos (a + b)
unfolding ◌+ℤ◌
pos_plus a b = ground arith

pos_times : (a b : ℕ) → pos a *ℤ pos b ≡ pos (a * b)
unfolding ◌*ℤ◌
pos_times a b = ground arith

poly : (j n k : ℕ) → n ≡ j + 6 → k ≡ j + 5 → (j * n + 17) * n ≡ 6 * hundredth k + 12
poly j n k e f = rw (e, f) (omega (arith, cubic (j + 5)))

-- From level 6 on no intermediate value is negative.
level_six :
    (n k : ℕ)
    → n ≡ k + 1
    → 6 ≤ n
    → ((pos n -ℤ pos 6) *ℤ pos n +ℤ pos 17) *ℤ pos n -ℤ pos 12 ≡ pos (6 * hundredth k)
level_six n k e h =
    let whole : ((n - 6) * n + 17) * n ≡ 6 * hundredth k + 12 =
      poly (n - 6) n k (omega arith) (omega arith) in
    simp (pos_minus n 6 h, pos_times, pos_plus, whole)
      (pos_minus (6 * hundredth k + 12) 12 (omega arith) ∙ ap pos (omega arith))

scaled : (h : ℕ) → clamp_u64 (quotient (pos (6 * h)) 6 *ℤ pos 100) ≡ 100 * h
unfolding ◌*ℤ◌
scaled h = ground arith

-- The experience to reach a level: nothing for the first, and each step costs 50 (k² - k + 2) more,
-- `k` being one less than the level that it leaves.
pub exp_for_level_closed : (k : ℕ) → exp_for_level (suc k) ≡ 100 * hundredth k
unfolding exp_for_level
exp_for_level_closed zero = refl
exp_for_level_closed (suc zero) = refl
exp_for_level_closed (suc (suc zero)) = refl
exp_for_level_closed (suc (suc (suc zero))) = refl
exp_for_level_closed (suc (suc (suc (suc zero)))) = refl
exp_for_level_closed (suc (suc (suc (suc (suc k))))) =
    let n = suc (suc (suc (suc (suc (suc k))))) in
    let six = level_six n (suc (suc (suc (suc (suc k))))) (omega arith) (omega arith) in
    ap (λ x. clamp_u64 (quotient x 6 *ℤ pos 100)) six ∙ scaled _
