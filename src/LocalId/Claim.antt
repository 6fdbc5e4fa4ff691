-- ===== src/LocalId/Claim.antt =====
-- `claim_index` of `local_id.rs`: the search for a free slot.
use rustibia_server.Prelude.{
  ℕ, zero, suc, ◌+◌, ◌-◌, ◌/◌, ◌≤◌, ◌<◌, ◌≡◌, ◌≢◌, ◌⊎◌, refl, inl, inr, ltb, leb, if◌then◌else◌,
  none, some, List, [], ◌∷◌, ◌++◌, arith, length, get_elem?, replicate, Bool-cases, Option-cases,
  length-append, length-replicate, get_elem?-append_left, get_elem?-replicate_append,
  get_elem?_total, leb→le, lt→ltb, le→ltb,
}
use rustibia_server.Prelude.Outcome.{Outcome, ok, panic}
use rustibia_server.Prelude.Keys.{Key}
use rustibia_server.LocalId.{Slot, LocalIdMap, free_slot, advance, claim_loop, claim_index}
use rustibia_server.LocalId.Slots.{occupied, occupied-grow, get_elem?-grow, find_free}
use rustibia_server.LocalId.Invariant.{IsValid}

-- How many moves take the cursor from `c` to `i`.
abbrev distance : ℕ → ℕ → ℕ
distance c i = if leb c i then i - c else i + 4094 - c

advance_closer :
    (c i : ℕ)
    → 1 ≤ c
    → c ≤ 4094
    → 1 ≤ i
    → i ≤ 4094
    → c ≢ i
    → (suc (distance (advance c) i) ≡ distance c i) × (1 ≤ advance c) × (advance c ≤ 4094)
unfolding advance
advance_closer c i h1 h2 h3 h4 ne = ground arith

advance_in_range : (c : ℕ) → 1 ≤ c → c ≤ 4094 → (1 ≤ advance c) × (advance c ≤ 4094)
unfolding advance
advance_in_range c low high = ground arith

taken_apart :
    {G : Type 0} (m : LocalIdMap G) (i : ℕ) (s : Slot G) (g : G)
    → m.next_index < length m.slots
    → get_elem? m.slots m.next_index ≡ some s
    → s.occupant ≡ some g
    → (length m.slots ≤ i) ⊎ ((t : Slot G) × (get_elem? m.slots i ≡ some t) × (t.occupant ≡ none))
    → m.next_index ≢ i
taken_apart m i s g inside at held (inl past) = omega arith
taken_apart m i s g inside at held (inr (t, here, free)) =
    λ same. let other : get_elem? m.slots m.next_index ≡ some t = rw same here in cc

module _ {G : Type 0} ⦃e : Key G⦄ where
  -- An index that `claim_loop` may stop at.
  abbrev Free : LocalIdMap G → ℕ → Type 0
  Free m i =
      (length m.slots ≤ i) ⊎ ((s : Slot G) × (get_elem? m.slots i ≡ some s) × (s.occupant ≡ none))

  pub record Claimed (m : LocalIdMap G) (r : Outcome (ℕ × LocalIdMap G)) : Type 0 where
    pub index : ℕ
    pub out : LocalIdMap G
    pub returns : r ≡ ok (index, out)
    pub same : out.global_to_local ≡ m.global_to_local
    pub slot : Slot G
    pub at : get_elem? out.slots index ≡ some slot
    pub free : slot.occupant ≡ none
    pub index_low : 1 ≤ index
    pub index_high : index ≤ 4094
    pub valid : IsValid out
    pub kept : (i : ℕ) (s : Slot G) → get_elem? m.slots i ≡ some s → get_elem? out.slots i ≡ some s

  moved-IsValid :
      (m : LocalIdMap G) (c : ℕ)
      → 1 ≤ c
      → c ≤ 4094
      → IsValid m
      → IsValid (record m { next_index = c })
  moved-IsValid m c low high v = record {
    has_first = v.has_first;
    bounded = v.bounded;
    cursor_low = low;
    cursor_high = high;
    first_free = v.first_free;
    generations = v.generations;
    distinct = v.distinct;
    forward = v.forward;
    backward = v.backward;
    counted = v.counted;
  }

  abbrev grow : LocalIdMap G → ℕ → LocalIdMap G
  grow m index = record m { slots = m.slots ++ replicate (index + 1 - length m.slots) free_slot }

  grown_kept :
      (m : LocalIdMap G) (index i : ℕ) (s : Slot G)
      → get_elem? m.slots i ≡ some s
      → i < length m.slots
      → get_elem? (grow m index).slots i ≡ some s
  grown_kept m index i s at below = rw (get_elem?-append_left m.slots _ i below) at

  get_lt : (ss : List (Slot G)) (i : ℕ) (s : Slot G) → get_elem? ss i ≡ some s → i < length ss
  get_lt [] i s h = cc
  get_lt (x ∷ ss) zero s h = omega arith
  get_lt (x ∷ ss) (suc i) s h = omega (arith, get_lt ss i s h)

  grow-IsValid :
      (m : LocalIdMap G) (index : ℕ)
      → index ≤ 4094
      → length m.slots ≤ index
      → IsValid m
      → IsValid (grow m index)
  grow-IsValid m index high past v = record {
    has_first = omega (arith, size, v.has_first);
    bounded = omega (arith, size);
    cursor_low = v.cursor_low;
    cursor_high = v.cursor_high;
    first_free =
        λ s at. v.first_free s (rw (get_elem?-append_left m.slots fresh 0 v.has_first) at at);
    generations = λ i s at. elim (get_elem?-replicate_append m.slots n i free_slot s at) [
      | inl old ↦ v.generations i s old
      | inr new ↦ ground arith
    ];
    distinct = v.distinct;
    forward = λ g l found.
        let h = v.forward g l found in
        record {
          slot = h.slot;
          at = grown_kept m index (l / 16) h.slot h.at (get_lt m.slots (l / 16) h.slot h.at);
          current = h.current;
          holder = h.holder;
        };
    backward = λ i s g at held. elim (get_elem?-replicate_append m.slots n i free_slot s at) [
      | inl old ↦ v.backward i s g old held
      | inr new ↦ absurd (ground arith)
    ];
    counted = rw (occupied-grow m.slots n) v.counted;
  }
    where
      n : ℕ
      n = index + 1 - length m.slots

      fresh : List (Slot G)
      fresh = replicate n free_slot

      size : length (m.slots ++ replicate n free_slot) ≡ index + 1
      size = omega (arith, length-append m.slots fresh, length-replicate n (free_slot {G = G}))

  -- The cursor stands past the slots: they grow up to it.
  stops_past :
      (fuel : ℕ) (m : LocalIdMap G)
      → IsValid m
      → length m.slots ≤ m.next_index
      → Claimed m (claim_loop (suc fuel) m)
  unfolding claim_loop
  stops_past fuel m v past =
      let index = m.next_index in
      let moved = record m { next_index = advance index } in
      let step = advance_in_range index v.cursor_low v.cursor_high in
      record {
        index = index;
        out = grow moved index;
        returns = ground arith;
        same = refl;
        slot = free_slot;
        at = get_elem?-grow m.slots (index + 1 - length m.slots) index (omega arith) past;
        free = refl;
        index_low = v.cursor_low;
        index_high = v.cursor_high;
        valid =
            grow-IsValid moved index v.cursor_high past
              (moved-IsValid m (advance index) step.0 step.1 v);
        kept = λ i s at. grown_kept m index i s at (get_lt m.slots i s at);
      }

  -- It stands on a free slot.
  stops_free :
      (fuel : ℕ) (m : LocalIdMap G) (s : Slot G)
      → IsValid m
      → m.next_index < length m.slots
      → get_elem? m.slots m.next_index ≡ some s
      → s.occupant ≡ none
      → Claimed m (claim_loop (suc fuel) m)
  unfolding claim_loop
  stops_free fuel m s v inside at free =
      let index = m.next_index in
      let step = advance_in_range index v.cursor_low v.cursor_high in
      record {
        index = index;
        out = record m { next_index = advance index };
        returns = ground arith;
        same = refl;
        slot = s;
        at = at;
        free = free;
        index_low = v.cursor_low;
        index_high = v.cursor_high;
        valid = moved-IsValid m (advance index) step.0 step.1 v;
        kept = λ i t h. h;
      }

  -- It stands on a taken slot: the loop goes on with the cursor moved.
  goes_on :
      (fuel : ℕ) (m : LocalIdMap G) (s : Slot G) (g : G)
      → m.next_index < length m.slots
      → get_elem? m.slots m.next_index ≡ some s
      → s.occupant ≡ some g
      → claim_loop (suc fuel) m ≡ claim_loop fuel (record m { next_index = advance m.next_index })
  unfolding claim_loop
  goes_on fuel m s g inside at held = ground arith

  claim_loop-Claimed :
      (fuel : ℕ) (m : LocalIdMap G) (i : ℕ)
      → IsValid m
      → 1 ≤ i
      → i ≤ 4094
      → Free m i
      → distance m.next_index i < fuel
      → Claimed m (claim_loop fuel m)
  claim_loop-Claimed zero m i v low high free near = absurd (omega arith)
  claim_loop-Claimed (suc fuel) m i v low high free near =
      elim (Bool-cases (leb (length m.slots) m.next_index)) [
        | inl past ↦ stops_past fuel m v (leb→le _ _ past)
        | inr inside ↦
            let below : m.next_index < length m.slots = ground arith in
            let (s, at) = get_elem?_total m.slots m.next_index below in
            elim (Option-cases s.occupant) [
              | inl empty ↦ stops_free fuel m s v below at empty
              | inr (g, held) ↦
                  let ne : m.next_index ≢ i = taken_apart m i s g below at held free in
                  let step = advance_closer m.next_index i v.cursor_low v.cursor_high low high ne in
                  let moved = moved-IsValid m (advance m.next_index) step.1 step.2 v in
                  let rest =
                    claim_loop-Claimed fuel (record m { next_index = advance m.next_index }) i moved
                      low high free (omega arith) in
                  rw (goes_on fuel m s g below at held) (record {
                    index = rest.index;
                    out = rest.out;
                    returns = rest.returns;
                    same = rest.same;
                    slot = rest.slot;
                    at = rest.at;
                    free = rest.free;
                    index_low = rest.index_low;
                    index_high = rest.index_high;
                    valid = rest.valid;
                    kept = rest.kept;
                  })
            ]
      ]

  vacancy :
      (m : LocalIdMap G)
      → IsValid m
      → length m.global_to_local < 4094
      → (i : ℕ) × (1 ≤ i) × (i ≤ 4094) × Free m i
  vacancy m v room = elim (Bool-cases (ltb (length m.slots) 4095)) [
    | inl short ↦ (4094, omega arith, omega arith, inl (ground arith))
    | inr full ↦ free_below m.slots v.first_free v.counted (ground (arith, v.bounded))
  ]
    where
      free_below :
          (ss : List (Slot G))
          → ((s : Slot G) → get_elem? ss 0 ≡ some s → s.occupant ≡ none)
          → occupied ss ≡ length m.global_to_local
          → length ss ≡ 4095
          → (i : ℕ) × (1 ≤ i)
            × (i ≤ 4094)
            × ((length ss ≤ i) ⊎ ((s : Slot G) × (get_elem? ss i ≡ some s) × (s.occupant ≡ none)))
      free_below [] first count size = absurd (omega arith)
      free_below (s ∷ ss) first count size =
          let few : occupied ss < length ss = ground (arith, first s refl) in
          let (i, t, at, free) = find_free ss few in
          (suc i, omega arith, omega (arith, get_lt ss i t at), inr (t, at, free))

  -- With room left, `claim_index` finds an index and loses no slot; with none it panics.
  pub claim_index-Claimed :
      (m : LocalIdMap G) → IsValid m → length m.global_to_local < 4094 → Claimed m (claim_index m)
  unfolding claim_index
  claim_index-Claimed m v room =
      let (i, low, high, free) = vacancy m v room in
      let run =
        claim_loop-Claimed 4094 m i v low high free (ground (arith, v.cursor_low, v.cursor_high)) in
      rw (lt→ltb (length m.global_to_local) 4094 room) run

  pub claim_index_full :
      (m : LocalIdMap G) → 4094 ≤ length m.global_to_local → claim_index m ≡ panic
  unfolding claim_index
  claim_index_full m full = rw (le→ltb (length m.global_to_local) 4094 full)
