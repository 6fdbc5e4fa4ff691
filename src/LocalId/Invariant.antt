-- ===== src/LocalId/Invariant.antt =====
-- The well-formedness of a `LocalIdMap` of `local_id.rs`.
use rustibia_server.Prelude.{
  ℕ, zero, suc, ◌+◌, ◌*◌, ◌/◌, ◌%◌, ◌≤◌, ◌<◌, ◌≡◌, refl, none, some, List, [], ◌∷◌, arith, length,
  get_elem?,
}
use rustibia_server.Prelude.Keys.{Key, lookup, IsMap}
use rustibia_server.LocalId.{Slot, LocalIdMap, free_slot, new}
use rustibia_server.LocalId.Slots.{occupied}

-- The slot that an id names, and that it is held by `g` under the id's generation.
pub record Holds {G : Type 0} (slots : List (Slot G)) (l : ℕ) (g : G) : Type 0 where
  pub slot : Slot G
  pub at : get_elem? slots (l / 16) ≡ some slot
  pub current : slot.generation ≡ l % 16
  pub holder : slot.occupant ≡ some g

pub record IsValid {G : Type 0} ⦃e : Key G⦄ (m : LocalIdMap G) : Type 0 where
  pub has_first : 1 ≤ length m.slots
  pub bounded : length m.slots ≤ 4095
  pub cursor_low : 1 ≤ m.next_index
  pub cursor_high : m.next_index ≤ 4094
  -- Index 0 is never handed out.
  pub first_free : (s : Slot G) → get_elem? m.slots 0 ≡ some s → s.occupant ≡ none
  pub generations : (i : ℕ) (s : Slot G) → get_elem? m.slots i ≡ some s → s.generation < 16
  pub distinct : IsMap m.global_to_local
  pub forward : (g : G) (l : ℕ) → lookup g m.global_to_local ≡ some l → Holds m.slots l g
  pub backward :
      (i : ℕ) (s : Slot G) (g : G)
      → get_elem? m.slots i ≡ some s
      → s.occupant ≡ some g
      → lookup g m.global_to_local ≡ some (i * 16 + s.generation)
  pub counted : occupied m.slots ≡ length m.global_to_local

module _ {G : Type 0} ⦃e : Key G⦄ where
  pub new-IsValid : IsValid (new {G = G})
  unfolding new
  new-IsValid = record {
    has_first = omega arith;
    bounded = omega arith;
    cursor_low = omega arith;
    cursor_high = omega arith;
    first_free = λ s h. cc;
    generations = at_most_one;
    distinct = tt;
    forward = λ g l h. cc;
    backward = none_held;
    counted = refl;
  }
    where
      at_most_one : (i : ℕ) (s : Slot G) → get_elem? (free_slot ∷ []) i ≡ some s → s.generation < 16
      at_most_one zero s h = ground arith
      at_most_one (suc i) s h = cc

      none_held :
          (i : ℕ) (s : Slot G) (g : G)
          → get_elem? (free_slot ∷ []) i ≡ some s
          → s.occupant ≡ some g
          → lookup {V = ℕ} g [] ≡ some (i * 16 + s.generation)
      none_held zero s g h k = ground arith
      none_held (suc i) s g h k = cc
