-- ===== src/DamageOverTime/Hits.antt =====
-- The hits of a schedule of `entities/conditions.rs`, one after the other.
use rustibia_server.Prelude.{
  ℕ, zero, suc, ◌+◌, ◌-◌, ◌*◌, ◌/◌, ◌%◌, ◌≤◌, ◌<◌, ◌≡◌, refl, ◌==◌, leb, max, Bool, false, ◌||◌,
  if◌then◌else◌, Option, none, some, List, [], ◌∷◌, sum, replicate, arith, Bool-cases, ap, ltb,
  ltb→lt, ==→≡, inl, inr,
}
use rustibia_server.Combat.{CombatElement}
use rustibia_server.DamageOverTime.Schedules.{Schedule}
use rustibia_server.DamageOverTime.{decaying, flat, new, remaining, next_hit, u32_mod, first_value}

-- At most `n` hits in a row, and the schedule that they leave.
unfoldable pub hits : (ℕ → ℕ → ℕ → Bool) → ℕ → Schedule → List ℕ × Schedule
hits falls zero s = ([], s)
hits falls (suc n) s = elim (next_hit falls s) [
  | none ↦ ([], s)
  | some r ↦ let more = hits falls n r.1 in (r.0 ∷ more.0, more.1)
]

hits-none :
    (falls : ℕ → ℕ → ℕ → Bool) (n : ℕ) (s : Schedule)
    → next_hit falls s ≡ none
    → hits falls n s ≡ ([], s)
unfolding hits
hits-none falls zero s e = refl
hits-none falls (suc n) s e = rw (hits, e) refl

hits-some :
    (falls : ℕ → ℕ → ℕ → Bool) (n value : ℕ) (s later : Schedule)
    → next_hit falls s ≡ some (value, later)
    → hits falls (suc n) s ≡ (value ∷ (hits falls n later).0, (hits falls n later).1)
unfolding hits
hits-some falls n value s later e = rw (hits, e) refl

-- A schedule whose total and products fit in a `u32`, between its first hit and its last.
abbrev pub IsSchedule : Schedule → Type 0
IsSchedule (Schedule.decaying total start value dealt) =
    (1 ≤ start)
    × (start ≤ max total 1)
    × (value ≤ start)
    × (dealt < total → 1 ≤ value)
    × (total * start < u32_mod)
    × (total + total + start < u32_mod)
    × (dealt < max total 1 + start)
IsSchedule (Schedule.flat value left) = value * left < u32_mod

-- `falls` is exact on the last value: a running total under the line is brought nearer by one more.
abbrev pub IsNearer : (ℕ → ℕ → ℕ → Bool) → Type 0
IsNearer falls = (dealt med : ℕ) → dealt < med → falls (dealt + 1) dealt med ≡ false

quotient : (s t : ℕ) → 1 ≤ s → s * t / s ≡ t
quotient s t h = grind arith

last_value :
    (falls : ℕ → ℕ → ℕ → Bool) (total start spent : ℕ)
    → IsNearer falls
    → 1 ≤ start
    → total * start < u32_mod
    → total + total + start < u32_mod
    → spent < total
    → falls
        ((spent + 1) % u32_mod)
        spent
        ((start + 1 + u32_mod - 1) % u32_mod * total % u32_mod / start)
      ≡ false
last_value falls total start spent exact some_start product bound under =
    rw (line, whole) (exact spent total under)
  where
    whole : (spent + 1) % u32_mod ≡ spent + 1
    whole = omega arith

    n : (start + 1 + u32_mod - 1) % u32_mod ≡ start
    n = omega arith

    line : (start + 1 + u32_mod - 1) % u32_mod * total % u32_mod / start ≡ total
    line = rw n (
        let small : start * total % u32_mod ≡ start * total = omega (arith, product) in
        rw small (quotient start total some_start))

-- A hit while the total is not dealt: it is of the schedule's value, and more follow until it is.
next_hit-step :
    (falls : ℕ → ℕ → ℕ → Bool) (total start value dealt : ℕ)
    → IsNearer falls
    → IsSchedule (Schedule.decaying total start value dealt)
    → dealt < total
    → (next : ℕ) × (next_hit falls (Schedule.decaying total start value dealt)
        ≡ some (value, Schedule.decaying total start next (dealt + value)))
      × (next ≤ value)
      × (value ≤ next + 1)
      × IsSchedule (Schedule.decaying total start next (dealt + value))
unfolding next_hit
next_hit-step falls total start value dealt exact v under =
    let some_value = v.3 under in
    let whole : (dealt + value) % u32_mod ≡ dealt + value = omega (arith, v.2, v.5) in
    let go : ((value == 0) || leb total dealt) ≡ false = ground arith in
    let n = (start + 1 + u32_mod - value) % u32_mod in
    let med = n * total % u32_mod / start in
    let down = falls ((dealt + value + value) % u32_mod) (dealt + value) med in
    let lasting : dealt + value < total → value ≡ 1 → down ≡ false = λ more one.
      rw one
        (last_value falls total start (dealt + 1) exact v.0 v.4 v.5 (omega (arith, more, one))) in
    let rest = if down then value - 1 else value in
    let lasts : dealt + value < total → 1 ≤ rest = λ more. elim (Bool-cases (value == 1)) [
      | inl one ↦ rw (lasting more (==→≡ value 1 one)) some_value
      | inr two ↦ ground arith
    ] in
    let lower : rest ≤ value = ground arith in
    let slow : value ≤ rest + 1 = ground arith in
    (
      rest,
      rw (go, whole) refl,
      lower,
      slow,
      (v.0, v.1, omega (arith, lower, v.2), lasts, v.4, v.5, omega (arith, v.2)),
    )

next_hit_over :
    (falls : ℕ → ℕ → ℕ → Bool) (total start value dealt : ℕ)
    → total ≤ dealt
    → next_hit falls (Schedule.decaying total start value dealt) ≡ none
unfolding next_hit
next_hit_over falls total start value dealt h = ground arith

sum-replicate : (n v : ℕ) → sum (replicate n v) ≡ v * n
sum-replicate zero v = omega arith
sum-replicate (suc n) v = omega (arith, sum-replicate n v)

-- What is still to come of a decaying schedule: the hits go on until the total is dealt, and the
-- last one passes it by less than the first hit.
spends_all :
    (falls : ℕ → ℕ → ℕ → Bool) (n total start value dealt : ℕ)
    → IsNearer falls
    → IsSchedule (Schedule.decaying total start value dealt)
    → total ≤ dealt + n
    → (total ≤ dealt + sum (hits falls n (Schedule.decaying total start value dealt)).0)
      × (dealt + sum (hits falls n (Schedule.decaying total start value dealt)).0
          < max total 1 + start)
      × (remaining (hits falls n (Schedule.decaying total start value dealt)).1 ≡ 0)
unfolding remaining hits
spends_all falls zero total start value dealt exact v enough =
    (omega arith, omega (arith, v.6), omega arith)
spends_all falls (suc n) total start value dealt exact v enough =
    elim (Bool-cases (ltb dealt total)) [
      | inr over ↦
          let none_left : next_hit falls (Schedule.decaying total start value dealt) ≡ none =
            next_hit_over falls total start value dealt (ground arith) in
          rw (hits-none falls (suc n) (Schedule.decaying total start value dealt) none_left)
            (ground arith, omega (arith, v.6), ground arith)
      | inl under ↦
          let more = ltb→lt dealt total under in
          let s = next_hit-step falls total start value dealt exact v more in
          let ih =
            spends_all falls n total start s.0 (dealt + value) exact s.4
              (omega (arith, v.3 more, enough)) in
          rw
            (hits-some falls n value (Schedule.decaying total start value dealt)
              (Schedule.decaying total start s.0 (dealt + value)) s.1)
            (omega (arith, ih.0), omega (arith, ih.1), ih.2)
    ]

deals_count :
    (falls : ℕ → ℕ → ℕ → Bool) (n value left : ℕ)
    → left ≤ n
    → ((hits falls n (Schedule.flat value left)).0 ≡ replicate left value)
      × (remaining (hits falls n (Schedule.flat value left)).1 ≡ 0)
unfolding next_hit remaining hits
deals_count falls zero value left enough =
    let done : left ≡ 0 = omega arith in rw done (refl, omega arith)
deals_count falls (suc n) value zero enough = (refl, omega arith)
deals_count falls (suc n) value (suc left) enough =
    let ih = deals_count falls n value left (omega (arith, enough)) in
    rw
      (hits-some falls n value (Schedule.flat value (suc left)) (Schedule.flat value left)
        (ground arith))
      (ap (λ xs. value ∷ xs) ih.0, ih.1)

-- A decaying condition whose total and products fit in a `u32` hits until its total is dealt,
-- within as many hits as the total, and passes the total by less than its first hit, which is
-- at most the total or 1; nothing remains then. The comparison in floating point is only asked
-- to be exact on the last value.
pub decaying-hits :
    (falls : ℕ → ℕ → ℕ → Bool) (element : CombatElement) (source : Option ℕ) (interval total : ℕ)
    (start : Option ℕ)
    → IsNearer falls
    → total * first_value total start < u32_mod
    → total + total + first_value total start < u32_mod
    → (total ≤ sum (hits falls total (decaying element source interval total start).schedule).0)
      × (sum (hits falls total (decaying element source interval total start).schedule).0
          < max total 1 + first_value total start)
      × (first_value total start ≤ max total 1)
      × (remaining (hits falls total (decaying element source interval total start).schedule).1 ≡ 0)
unfolding decaying new
decaying-hits falls element source interval total none exact product bound =
    let h =
      spends_all falls total total (first_value total none) (first_value total none) 0 exact
        (ground arith, ground arith, omega arith, λ _. ground arith, product, bound, ground arith)
        (omega arith) in
    (omega (arith, h.0), omega (arith, h.1), ground arith, h.2)
decaying-hits falls element source interval total (some start) exact product bound =
    let h =
      spends_all falls total total (first_value total (some start)) (first_value total (some start))
        0 exact
        (ground arith, ground arith, omega arith, λ _. ground arith, product, bound, ground arith)
        (omega arith) in
    (omega (arith, h.0), omega (arith, h.1), ground arith, h.2)

-- A flat condition whose product fits in a `u32` deals its value as often as it was told, what
-- remains at first being what the hits add up to, and nothing remaining then.
pub flat-hits :
    (falls : ℕ → ℕ → ℕ → Bool) (element : CombatElement) (source : Option ℕ)
    (interval value count : ℕ)
    → value * count < u32_mod
    → ((hits falls count (flat element source interval value count).schedule).0
        ≡ replicate count value)
      × (remaining (flat element source interval value count).schedule
          ≡ sum (hits falls count (flat element source interval value count).schedule).0)
      × (remaining (hits falls count (flat element source interval value count).schedule).1 ≡ 0)
unfolding flat new remaining
flat-hits falls element source interval value count fits =
    let h = deals_count falls count value count (omega arith) in
    (h.0, rw h.0 (rw (sum-replicate count value) (omega (arith, fits))), h.1)

-- Where the total and products fit in a `u32` and the comparison is exact on the last value: a
-- condition whose authored first hit is under the total, with twice that hit over the total and
-- 1, deals more than the total in its first two hits.
pub decaying_overspends :
    (falls : ℕ → ℕ → ℕ → Bool) (element : CombatElement) (source : Option ℕ)
    (interval total start : ℕ)
    → IsNearer falls
    → total * start < u32_mod
    → total + total + start < u32_mod
    → start < total
    → total + 1 < start + start
    → total < sum (hits falls 2 (decaying element source interval total (some start)).schedule).0
unfolding hits next_hit decaying
decaying_overspends falls element source interval total start exact product bound under over =
    let same : first_value total (some start) ≡ start = ground arith in
    let first =
      next_hit-step falls total start start 0 exact
        (ground arith, ground arith, omega arith, λ _. ground arith, product, bound, ground arith)
        (omega arith) in
    let second =
      next_hit-step falls total start first.0 (0 + start) exact first.4 (omega (arith, under)) in
    rw
      (
        same,
        hits-some falls 1 start (Schedule.decaying total start start 0)
            (Schedule.decaying total start first.0 (0 + start)) first.1,
        hits-some falls 0 first.0 (Schedule.decaying total start first.0 (0 + start))
            (Schedule.decaying total start second.0 (0 + start + first.0)) second.1,
      )
      (omega (arith, first.3, over))
