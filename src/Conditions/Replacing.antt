-- ===== src/Conditions/Replacing.antt =====
-- What a later condition does to the events that an earlier one left behind.
use rustibia_server.Prelude.{
  ℕ, suc, ◌≤◌, ◌==◌, ◌≡◌, refl, ap, ◌∙◌, Bool, true, false, not, ◌&&◌, if◌then◌else◌, Option, none,
  some, List, [], ◌∷◌, retain, length, arith, Bool-cases, inl, inr,
}
use rustibia_server.Prelude.Int.{ℤ}
use rustibia_server.Conditions.Kinds.{Condition, SpeedEffect}
use rustibia_server.Conditions.{Conditions, apply_speed, expire_speed, is_speed_of}
use rustibia_server.Conditions.View.{at, damage_slot, IsDistinct, IsValid}
use rustibia_server.Conditions.Laws.{IsRoomy, apply_speed_lem, retain-IsValid}

-- Whether the speed condition that is there has this generation.
abbrev pub is_live : ℕ → Option Condition → Bool
is_live generation none = false
is_live generation (some c) = is_speed_of generation c

retain-expired :
    (generation k : ℕ) (cs : List Condition)
    → IsDistinct cs
    → at k (retain (λ c. not (is_speed_of generation c)) cs)
      ≡ (if (k == 2) && is_live generation (at 2 cs) then none else at k cs)
unfolding at
retain-expired generation k [] v = ground arith
retain-expired generation k (c ∷ cs) v = ground (arith, retain-expired generation k cs v.1)

length-retain_le : (p : Condition → Bool) (cs : List Condition) → length (retain p cs) ≤ length cs
length-retain_le p [] = omega arith
length-retain_le p (c ∷ cs) = ground (arith, length-retain_le p cs)

shorter : (a b : ℕ) → a ≤ b → not (a == suc b) ≡ true
shorter a b h = ground arith

suc_same : (a b : ℕ) (r : Bool) → not (a == b) ≡ r → not (suc a == suc b) ≡ r
suc_same a b r h = ground arith

same_length : (n : ℕ) → not (n == n) ≡ false
same_length n = ground arith

untouched :
    (generation : ℕ) (cs : List Condition)
    → at 2 cs ≡ none
    → retain (λ c. not (is_speed_of generation c)) cs ≡ cs
unfolding at
untouched generation [] h = refl
untouched generation (Condition.speed effect change live ∷ cs) h = absurd (ground (arith, h))
untouched generation (Condition.fed until live ∷ cs) h =
    ap (λ xs. Condition.fed until live ∷ xs) (untouched generation cs h)
untouched generation (Condition.logout_block until ∷ cs) h =
    ap (λ xs. Condition.logout_block until ∷ xs) (untouched generation cs h)
untouched generation (Condition.magic_shield until ∷ cs) h =
    ap (λ xs. Condition.magic_shield until ∷ xs) (untouched generation cs h)
untouched generation (Condition.damage_over_time dot ∷ cs) h =
    ap (λ xs. Condition.damage_over_time dot ∷ xs) (untouched generation cs (ground (arith, h)))

dropped_any :
    (generation : ℕ) (cs : List Condition)
    → IsDistinct cs
    → not (length (retain (λ c. not (is_speed_of generation c)) cs) == length cs)
      ≡ is_live generation (at 2 cs)
unfolding at
dropped_any generation [] v = refl
dropped_any generation (Condition.speed effect change live ∷ cs) v =
    elim (Bool-cases (live == generation)) [
      | inl same ↦ rw same (shorter _ _ (length-retain_le (λ c. not (is_speed_of generation c)) cs))
      | inr other ↦ rw (other, untouched generation cs v.0) (same_length (suc (length cs)))
    ]
dropped_any generation (Condition.fed until live ∷ cs) v =
    suc_same _ _ _ (dropped_any generation cs v.1)
dropped_any generation (Condition.logout_block until ∷ cs) v =
    suc_same _ _ _ (dropped_any generation cs v.1)
dropped_any generation (Condition.magic_shield until ∷ cs) v =
    suc_same _ _ _ (dropped_any generation cs v.1)
dropped_any generation (Condition.damage_over_time dot ∷ cs) v =
    let skip : (damage_slot dot.element == 2) ≡ false = ground arith in
    rw skip (suc_same _ _ _ (dropped_any generation cs v.1))

-- An expiry takes the change of speed away exactly if it is of the generation that is there, and
-- says so; nothing else changes.
pub expire_speed_lem :
    (cs : Conditions) (generation k : ℕ)
    → IsValid cs
    → IsValid (expire_speed cs generation).0
      × ((expire_speed cs generation).1 ≡ is_live generation (at 2 cs.conditions))
      × ((expire_speed cs generation).0.next_generation ≡ cs.next_generation)
      × (at k (expire_speed cs generation).0.conditions ≡ (
          if (k == 2) && is_live generation (at 2 cs.conditions) then none else at k cs.conditions))
unfolding expire_speed
expire_speed_lem cs generation k v = (
  retain-IsValid cs (λ c. not (is_speed_of generation c)) v,
  dropped_any generation cs.conditions v.distinct,
  refl,
  retain-expired generation k cs.conditions v.distinct,
)

-- An expiry of a generation that is not there changes nothing.
stays :
    (generation : ℕ) (cs : List Condition)
    → IsDistinct cs
    → is_live generation (at 2 cs) ≡ false
    → retain (λ c. not (is_speed_of generation c)) cs ≡ cs
unfolding at
stays generation [] v h = refl
stays generation (Condition.speed effect change live ∷ cs) v h =
    rw (h, untouched generation cs v.0) refl
stays generation (Condition.fed until live ∷ cs) v h =
    ap (λ xs. Condition.fed until live ∷ xs) (stays generation cs v.1 h)
stays generation (Condition.logout_block until ∷ cs) v h =
    ap (λ xs. Condition.logout_block until ∷ xs) (stays generation cs v.1 h)
stays generation (Condition.magic_shield until ∷ cs) v h =
    ap (λ xs. Condition.magic_shield until ∷ xs) (stays generation cs v.1 h)
stays generation (Condition.damage_over_time dot ∷ cs) v h =
    ap (λ xs. Condition.damage_over_time dot ∷ xs) (stays generation cs v.1 (ground (arith, h)))

expire_speed_idle :
    (cs : Conditions) (generation : ℕ)
    → IsValid cs
    → (if is_live generation (at 2 cs.conditions) then cs else (expire_speed cs generation).0) ≡ cs
unfolding expire_speed
expire_speed_idle cs generation v = elim (Bool-cases (is_live generation (at 2 cs.conditions))) [
  | inl e ↦ rw e refl
  | inr e ↦ rw (e, stays generation cs.conditions v.distinct e) refl
]

-- In a valid table whose generation counter does not wrap, after a change of speed, for an expiry of
-- any generation: it says whether it is of the new one; if it is not, the table and
-- the counter are what they were; if it is, the change of speed is gone and every other condition
-- stays. The counter is never changed and the table stays valid.
pub expire_speed-apply_speed :
    (cs : Conditions) (effect : SpeedEffect) (change : ℤ) (generation k : ℕ)
    → IsValid cs
    → IsRoomy cs
    → IsValid (expire_speed (apply_speed cs effect change).0 generation).0
      × ((expire_speed (apply_speed cs effect change).0 generation).1
          ≡ (generation == cs.next_generation))
      × ((if generation == cs.next_generation
            then (apply_speed cs effect change).0
            else (expire_speed (apply_speed cs effect change).0 generation).0)
          ≡ (apply_speed cs effect change).0)
      × ((expire_speed (apply_speed cs effect change).0 generation).0.next_generation
          ≡ (apply_speed cs effect change).0.next_generation)
      × (at k (expire_speed (apply_speed cs effect change).0 generation).0.conditions ≡ (
          if k == 2
          then (if generation == cs.next_generation
              then none
              else some (Condition.speed effect change cs.next_generation))
          else at k cs.conditions))
expire_speed-apply_speed cs effect change generation k v room =
    let applied = apply_speed_lem cs effect change 2 v room in
    let others = apply_speed_lem cs effect change k v room in
    let expired = expire_speed_lem (apply_speed cs effect change).0 generation k applied.0 in
    let idle = expire_speed_idle (apply_speed cs effect change).0 generation applied.0 in
    let live : is_live generation (at 2 (apply_speed cs effect change).0.conditions)
        ≡ (generation == cs.next_generation) =
      ground (arith, applied.2) in
    (
      expired.0,
      expired.1 ∙ live,
      rw (← live) idle,
      expired.2,
      expired.3 ∙ ground (arith, live, others.2),
    )
