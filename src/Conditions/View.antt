-- ===== src/Conditions/View.antt =====
-- The list of conditions of `entities/conditions.rs` read as a table of slots, and its
-- well-formedness.
use rustibia_server.Prelude.{
  ℕ, ◌+◌, ◌<◌, ◌≤◌, ◌==◌, ◌≡◌, ◌≢◌, refl, sym, ap, ◌∙◌, Bool, not, if◌then◌else◌, Option, none,
  some, List, [], ◌∷◌, ◌++◌, All, retain, find_map, update_first, arith, Bool-cases, Option-cases,
  inl, inr, ==→≡, ==→≢,
}
use rustibia_server.Combat.{CombatElement, element_number}
use rustibia_server.Conditions.Kinds.{Condition}
use rustibia_server.Conditions.{Conditions}

abbrev pub damage_slot : CombatElement → ℕ
damage_slot element = 4 + element_number element

abbrev pub slot : Condition → ℕ
slot (Condition.fed until generation) = 0
slot (Condition.logout_block until) = 1
slot (Condition.speed effect change generation) = 2
slot (Condition.magic_shield until) = 3
slot (Condition.damage_over_time dot) = damage_slot dot.element

unfoldable pub at : ℕ → List Condition → Option Condition
at k [] = none
at k (c ∷ cs) = let later = at k cs in if slot c == k then some c else later

abbrev pub IsDistinct : List Condition → Type 0
IsDistinct [] = Unit
IsDistinct (c ∷ cs) = (at (slot c) cs ≡ none) × IsDistinct cs

abbrev pub IsOld : ℕ → Condition → Type 0
IsOld next (Condition.fed until generation) = generation < next
IsOld next (Condition.speed effect change generation) = generation < next
IsOld next (Condition.damage_over_time dot) = dot.generation < next
IsOld next _ = Unit

pub record IsValid (cs : Conditions) : Type 0 where
  pub distinct : IsDistinct cs.conditions
  pub old : All (IsOld cs.next_generation) cs.conditions

abbrev pub then_try : Option Condition → (Condition → Option Condition) → Option Condition
then_try none f = none
then_try (some c) f = f c

pub still_before : (n m : ℕ) (cs : List Condition) → n ≤ m → All (IsOld n) cs → All (IsOld m) cs
still_before n m [] h a = tt
still_before n m (c ∷ cs) h a = (older c a.0, still_before n m cs h a.1)
  where
    older : (c : Condition) → IsOld n c → IsOld m c
    older (Condition.fed until generation) o = omega (arith, o)
    older (Condition.speed effect change generation) o = omega (arith, o)
    older (Condition.damage_over_time dot) o = omega (arith, o)
    older (Condition.logout_block until) o = tt
    older (Condition.magic_shield until) o = tt

-- Dropping a slot.
module _ (s : ℕ) (p : Condition → Bool) (drops : (c : Condition) → p c ≡ not (slot c == s)) where
  pub at-retain :
      (k : ℕ) (cs : List Condition) → at k (retain p cs) ≡ (if k == s then none else at k cs)
  unfolding at
  at-retain k [] = ground arith
  at-retain k (c ∷ cs) = ground (arith, drops c, at-retain k cs)

module _ {κ} (P : Condition → Type κ) (p : Condition → Bool) where
  pub All-retain : (cs : List Condition) → All P cs → All P (retain p cs)
  All-retain [] a = tt
  All-retain (c ∷ cs) a = elim (Bool-cases (p c)) [
    | inl kept ↦ rw kept (a.0, All-retain cs a.1)
    | inr gone ↦ rw gone (All-retain cs a.1)
  ]

pub at-retain-none :
    (p : Condition → Bool) (k : ℕ) (cs : List Condition)
    → at k cs ≡ none
    → at k (retain p cs) ≡ none
unfolding at
at-retain-none p k [] h = refl
at-retain-none p k (c ∷ cs) h = ground (arith, at-retain-none p k cs)

pub retain-IsDistinct :
    (p : Condition → Bool) (cs : List Condition) → IsDistinct cs → IsDistinct (retain p cs)
retain-IsDistinct p [] h = tt
retain-IsDistinct p (c ∷ cs) h = elim (Bool-cases (p c)) [
  | inl kept ↦ rw kept (at-retain-none p (slot c) cs h.0, retain-IsDistinct p cs h.1)
  | inr gone ↦ rw gone (retain-IsDistinct p cs h.1)
]

-- Adding a condition whose slot is free.
pub at-push :
    (k : ℕ) (c : Condition) (cs : List Condition)
    → at (slot c) cs ≡ none
    → at k (cs ++ (c ∷ [])) ≡ (if k == slot c then some c else at k cs)
unfolding at
at-push k c [] h = ground arith
at-push k c (d ∷ cs) h = ground (arith, at-push k c cs)

at-push_other :
    (k : ℕ) (c : Condition) (cs : List Condition)
    → slot c ≢ k
    → at k cs ≡ none
    → at k (cs ++ (c ∷ [])) ≡ none
unfolding at
at-push_other k c [] n h = ground arith
at-push_other k c (d ∷ cs) n h = ground (arith, at-push_other k c cs)

pub push-IsDistinct :
    (c : Condition) (cs : List Condition)
    → at (slot c) cs ≡ none
    → IsDistinct cs
    → IsDistinct (cs ++ (c ∷ []))
unfolding at
push-IsDistinct c [] h v = (refl, tt)
push-IsDistinct c (d ∷ cs) h v = elim (Bool-cases (slot d == slot c)) [
  | inl same ↦ absurd (ground (arith, h, same))
  | inr other ↦
      let free : at (slot c) cs ≡ none = ground (arith, h, other) in
      (
        at-push_other (slot d) c cs (λ e. ==→≢ (slot d) (slot c) other (sym e)) v.0,
        push-IsDistinct c cs free v.1,
      )
]

-- Changing the condition of a slot in place.
module _ (s : ℕ) (f : Condition → Option Condition)
    (other_slots : (c : Condition) → slot c ≢ s → f c ≡ none)
    (same_slot : (c d : Condition) → f c ≡ some d → slot d ≡ s) where
  absent : (cs : List Condition) → at s cs ≡ none → update_first f cs ≡ cs
  unfolding at
  absent [] h = refl
  absent (c ∷ cs) h = elim (Bool-cases (slot c == s)) [
    | inl same ↦ absurd (ground (arith, h, same))
    | inr other ↦
        let none_here : f c ≡ none = other_slots c (==→≢ (slot c) s other) in
        rw (update_first, none_here) (ap (λ xs. c ∷ xs) (absent cs (ground (arith, h, other))))
  ]

  changed_slot : (c d : Condition) → f c ≡ some d → slot c ≡ s
  changed_slot c d e = elim (Bool-cases (slot c == s)) [
    | inl same ↦ ==→≡ (slot c) s same
    | inr other ↦ absurd (ground (arith, e, other_slots c (==→≢ (slot c) s other)))
  ]

  pub at-update_first :
      (k : ℕ) (cs : List Condition)
      → IsDistinct cs
      → at k (update_first f cs) ≡ (
          if k == s
          then elim (then_try (at s cs) f) [ none ↦ at s cs | some d ↦ some d ]
          else at k cs)
  unfolding at
  at-update_first k [] v = ground arith
  at-update_first k (c ∷ cs) v = elim (Option-cases (f c)) [
    | inl untouched ↦ elim (Bool-cases (slot c == s)) [
      | inl same ↦
          let alone : at s cs ≡ none = rw (← ==→≡ (slot c) s same) v.0 in
          rw (update_first, untouched, absent cs alone) (ground (arith, untouched, same))
      | inr other ↦ rw (update_first, untouched) (ground (arith, at-update_first k cs v.1, other))
    ]
    | inr (d, changed) ↦
        let there : slot d ≡ s = same_slot c d changed in
        let here : slot c ≡ s = changed_slot c d changed in
        rw (update_first, changed) (ground (arith, there, here, changed))
  ]

  update_first-none :
      (k : ℕ) (cs : List Condition)
      → IsDistinct cs
      → at k cs ≡ none
      → at k (update_first f cs) ≡ none
  update_first-none k cs v h = elim (Bool-cases (k == s)) [
    | inl same ↦
        let alone : at s cs ≡ none = rw (← ==→≡ k s same) h in
        at-update_first k cs v ∙ rw (same, alone) alone
    | inr other ↦ at-update_first k cs v ∙ rw (other, h) refl
  ]

  pub update_first-IsDistinct :
      (cs : List Condition) → IsDistinct cs → IsDistinct (update_first f cs)
  update_first-IsDistinct [] v = tt
  update_first-IsDistinct (c ∷ cs) v = elim (Option-cases (f c)) [
    | inl untouched ↦
        rw (update_first, untouched)
          (update_first-none (slot c) cs v.1 v.0, update_first-IsDistinct cs v.1)
    | inr (d, changed) ↦
        let kept : slot c ≡ slot d = changed_slot c d changed ∙ sym (same_slot c d changed) in
        rw (update_first, changed) (rw (← kept) v.0, v.1)
  ]

module _ {κ} {B : Type κ} (s : ℕ) (g : Condition → Option B)
    (others : (c : Condition) → slot c ≢ s → g c ≡ none) where
  -- A search among distinct slots looks at one condition.
  pub find_map-at :
      (cs : List Condition)
      → IsDistinct cs
      → find_map g cs ≡ elim (at s cs) [ none ↦ none | some c ↦ g c ]
  unfolding at
  find_map-at [] v = refl
  find_map-at (c ∷ cs) v = elim (Option-cases (g c)) [
    | inl missing ↦ elim (Bool-cases (slot c == s)) [
      | inl same ↦
          let alone : at s cs ≡ none = rw (← ==→≡ (slot c) s same) v.0 in
          rw (find_map, missing, same, find_map-at cs v.1, alone) (sym missing)
      | inr other ↦ rw (find_map, missing, other) (find_map-at cs v.1)
    ]
    | inr (b, found) ↦ elim (Bool-cases (slot c == s)) [
      | inl same ↦ rw (find_map, found, same) (sym found)
      | inr other ↦ absurd (ground (arith, found, others c (==→≢ (slot c) s other)))
    ]
  ]

module _ {κ} {B : Type κ} (s : ℕ) (g : Condition → Option B)
    (total : (c : Condition) → slot c ≡ s → g c ≢ none) where
  pub at-missing : (cs : List Condition) → find_map g cs ≡ none → at s cs ≡ none
  unfolding at
  at-missing [] h = refl
  at-missing (c ∷ cs) h = elim (Bool-cases (slot c == s)) [
    | inl same ↦ absurd (total c (==→≡ (slot c) s same) (ground (arith, h)))
    | inr other ↦ rw other (at-missing cs (ground (arith, h)))
  ]
