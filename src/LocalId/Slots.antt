-- ===== src/LocalId/Slots.antt =====
-- The slots of a `LocalIdMap`: how many are taken, and what one write changes.
use rustibia_server.Prelude.{
  ℕ, zero, suc, ◌+◌, ◌≤◌, ◌<◌, ◌≡◌, refl, inl, inr, ◌==◌, if◌then◌else◌, Option, none, some, List,
  [], ◌∷◌, ◌++◌, arith, length, get_elem?, set, replicate, Option-cases, get_elem?-set_self,
  get_elem?-set_ne, get_elem?-lt,
}
use rustibia_server.LocalId.{Slot, free_slot}

abbrev pub taken : {G : Type 0} → Option G → ℕ
taken none = 0
taken (some g) = 1

abbrev pub occupied : {G : Type 0} → List (Slot G) → ℕ
occupied [] = 0
occupied (s ∷ ss) = taken s.occupant + occupied ss

module _ {G : Type 0} where
  pub occupied-set :
      (ss : List (Slot G)) (i : ℕ) (s t : Slot G)
      → get_elem? ss i ≡ some s
      → occupied (set ss i t) + taken s.occupant ≡ occupied ss + taken t.occupant
  occupied-set [] i s t h = cc
  occupied-set (x ∷ ss) zero s t h = ground arith
  occupied-set (x ∷ ss) (suc i) s t h = omega (arith, occupied-set ss i s t h)

  pub occupied-grow :
      (ss : List (Slot G)) (n : ℕ) → occupied (ss ++ replicate n free_slot) ≡ occupied ss
  occupied-grow [] zero = refl
  occupied-grow [] (suc n) = omega (arith, occupied-grow [] n)
  occupied-grow (x ∷ ss) n = omega (arith, occupied-grow ss n)

  pub get_elem?-set :
      (ss : List (Slot G)) (i j : ℕ) (s t : Slot G)
      → get_elem? ss i ≡ some s
      → get_elem? (set ss i t) j ≡ (if i == j then some t else get_elem? ss j)
  get_elem?-set ss i j s t h =
      ground (arith, get_elem?-set_self ss i t, get_elem?-set_ne ss i j t, get_elem?-lt ss i s h)

  pub get_elem?-grow :
      (ss : List (Slot G)) (n i : ℕ)
      → i < length ss + n
      → length ss ≤ i
      → get_elem? (ss ++ replicate n free_slot) i ≡ some free_slot
  get_elem?-grow [] zero i h p = absurd (omega arith)
  get_elem?-grow [] (suc n) zero h p = refl
  get_elem?-grow [] (suc n) (suc i) h p = get_elem?-grow [] n i (omega arith) (omega arith)
  get_elem?-grow (x ∷ ss) n zero h p = absurd (omega arith)
  get_elem?-grow (x ∷ ss) n (suc i) h p = get_elem?-grow ss n i (omega arith) (omega arith)

  -- Some slot is free where fewer are taken than there are.
  pub find_free :
      (ss : List (Slot G))
      → occupied ss < length ss
      → (i : ℕ) × (s : Slot G) × (get_elem? ss i ≡ some s) × (s.occupant ≡ none)
  find_free [] h = elim h [ ]
  find_free (s ∷ ss) h = elim (Option-cases s.occupant) [
    | inl free ↦ (0, s, refl, free)
    | inr (g, e) ↦
        let below : occupied ss < length ss = ground arith in
        let (i, t, at, free) = find_free ss below in (suc i, t, at, free)
  ]
