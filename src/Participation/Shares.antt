-- ===== src/Participation/Shares.antt =====
-- `Participation::shares` of `entities/combat.rs`: the shares of a pool of experience.
use rustibia_server.Prelude.{
  ℕ, ◌+◌, ◌*◌, ◌/◌, ◌%◌, ◌≤◌, ◌<◌, ◌≡◌, refl, ltb, [], ◌∷◌, sum, length, arith, Bool-cases, ◌∙◌,
  ==→≡, ◌-◌, ap, inl, inr, ◌==◌, false,
}
use rustibia_server.Participation.{Entries, contains, damages, shares_of, shares, total, u64_mod}
use rustibia_server.Participation.Record.{dealt, IsDistinct}

share_bounds :
    (pool damage t : ℕ)
    → 0 < t
    → (pool * damage / t * t ≤ pool * damage) × (pool * damage < pool * damage / t * t + t)
share_bounds pool damage t h = grind arith

absent_dealt : (es : Entries) (k w : ℕ) → contains es k ≡ false → k ≡ w → dealt w es ≡ 0
unfolding contains
absent_dealt [] k w c e = refl
absent_dealt ((j, d) ∷ es) k w c e = ground (arith, absent_dealt es k w)

module _ (pool t : ℕ) (some_total : 0 < t) where
  shares_of_bounds :
      (entries : Entries)
      → pool * sum (damages entries) < u64_mod
      → (sum (damages (shares_of pool t entries)) * t ≤ pool * sum (damages entries))
        × (pool * sum (damages entries) + length entries
            ≤ sum (damages (shares_of pool t entries)) * t + length entries * t)
  unfolding shares_of
  shares_of_bounds [] fits = (omega arith, omega arith)
  shares_of_bounds ((key, damage) ∷ rest) fits =
      let exact : pool * damage % u64_mod ≡ pool * damage = small in
      let ih = shares_of_bounds rest tail in
      let here = share_bounds pool damage t some_total in
      rw exact (elim (Bool-cases (ltb 0 (pool * damage / t))) [
        | inl given ↦
            rw given
              (omega (arith, ih.0, ih.1, here.0, here.1), omega (arith, ih.0, ih.1, here.0, here.1))
        | inr nothing ↦
            let none_given : pool * damage / t ≡ 0 = ground arith in
            rw nothing (
              omega (arith, ih.0, ih.1, here.0, here.1, none_given, zero_share none_given),
              omega (arith, ih.0, ih.1, here.0, here.1, none_given, zero_share none_given),
            )
      ])
    where
      small : pool * damage % u64_mod ≡ pool * damage
      small = let below : pool * damage < u64_mod = omega (arith, fits) in omega arith

      tail : pool * sum (damages rest) < u64_mod
      tail = omega (arith, fits)

      zero_share : pool * damage / t ≡ 0 → pool * damage / t * t ≡ 0
      zero_share e = rw e (omega arith)

  shares_of-dealt :
      (entries : Entries) (who : ℕ)
      → IsDistinct entries
      → pool * sum (damages entries) < u64_mod
      → dealt who (shares_of pool t entries) ≡ pool * dealt who entries / t
  unfolding shares_of
  shares_of-dealt [] who h fits = rw zero_product (zero_quotient)
    where
      zero_product : pool * 0 ≡ 0
      zero_product = omega arith

      zero_quotient : 0 ≡ 0 / t
      zero_quotient = omega arith
  shares_of-dealt ((key, damage) ∷ rest) who h fits =
      let exact : pool * damage % u64_mod ≡ pool * damage = small in
      let ih = shares_of-dealt rest who h.1 tail in
      rw exact (elim (Bool-cases (ltb 0 (pool * damage / t))) [
        | inl given ↦ rw given (ground (arith, ih))
        | inr nothing ↦ elim (Bool-cases (key == who)) [
          | inl same ↦
              let absent : dealt who rest ≡ 0 = absent_dealt rest key who h.0 (==→≡ key who same) in
              let none_given : pool * damage / t ≡ 0 = ground arith in
              rw (nothing, same) (ih ∙ rw (absent, none_given) (omega arith))
          | inr other ↦ rw (nothing, other) ih
        ]
      ])
    where
      small : pool * damage % u64_mod ≡ pool * damage
      small = let below : pool * damage < u64_mod = omega (arith, fits) in omega arith

      tail : pool * sum (damages rest) < u64_mod
      tail = omega (arith, fits)

fewer_than : (pool s n t : ℕ) → pool * t + n ≤ s * t + n * t → 0 < n → pool < s + n
fewer_than pool s n t h some_n = elim (Bool-cases (ltb pool (s + n))) [
  | inl less ↦ ground arith
  | inr more ↦
      let split : pool ≡ s + n + (pool - (s + n)) = ground arith in
      let product : pool * t ≡ (s + n + (pool - (s + n))) * t = ap (λ x. x * t) split in
      absurd (omega (arith, h, product, some_n))
]

-- Where no attacker stands twice, the pool and the damages are not zero and their product fits
-- in a `u64`: each contributor gets its damage's part of the pool, rounded down, and nobody
-- else gets anything; the shares add up to no more than the pool, and to more than the pool
-- less one for each contributor.
pub shares_fair :
    (entries : Entries) (pool who : ℕ)
    → IsDistinct entries
    → 0 < pool
    → 0 < sum (damages entries)
    → pool * sum (damages entries) < u64_mod
    → (dealt who (shares entries pool) ≡ pool * dealt who entries / sum (damages entries))
      × (sum (damages (shares entries pool)) ≤ pool)
      × (pool < sum (damages (shares entries pool)) + length entries)
unfolding shares total
shares_fair entries pool who h some_pool some_total fits =
    let small : sum (damages entries) < u64_mod = grind arith in
    let exact : sum (damages entries) % u64_mod ≡ sum (damages entries) = omega arith in
    let b = shares_of_bounds pool (sum (damages entries)) some_total entries fits in
    let filled : 0 < length entries = nonempty entries some_total in
    let runs : shares entries pool ≡ shares_of pool (sum (damages entries)) entries =
      ground (arith, exact) in
    rw runs (
      shares_of-dealt pool (sum (damages entries)) some_total entries who h fits,
      grind (arith, b.0),
      fewer_than pool _ _ _ b.1 filled,
    )
  where
    nonempty : (es : Entries) → 0 < sum (damages es) → 0 < length es
    nonempty [] p = absurd (omega arith)
    nonempty (x ∷ es) p = omega arith
