-- ===== src/LocalId/Laws/Insert.antt =====
-- `get_or_insert` of `local_id.rs`.
use rustibia_server.Prelude.{
  ℕ, ◌+◌, ◌*◌, ◌/◌, ◌≤◌, ◌<◌, ◌≡◌, ◌≢◌, ◌⊎◌, refl, inl, inr, if◌then◌else◌, none, some, arith,
  length, get_elem?, set, Bool-cases, Option-cases, length-set,
}
use rustibia_server.Prelude.{◌==◌ as nat_same, ==→≡}
use rustibia_server.Prelude.Outcome.{Outcome, ok, panic}
use rustibia_server.Prelude.Keys.{
  Key, ◌==◌, lookup, insert, lookup-insert, insert-IsMap, length-insert_new,
}
use rustibia_server.LocalId.{Slot, LocalIdMap, occupy, get_or_insert, get_local, get_global}
use rustibia_server.LocalId.Codec.{compose_lem, split_lem}
use rustibia_server.LocalId.Slots.{occupied, occupied-set, get_elem?-set}
use rustibia_server.LocalId.Invariant.{IsValid, Holds}
use rustibia_server.LocalId.Claim.{claim_index-Claimed, claim_index_full}

module _ {G : Type 0} ⦃e : Key G⦄ where
  -- `get_global` finds exactly the holders.
  pub get_global-Holds :
      (m : LocalIdMap G) (l : ℕ) (g : G) → Holds m.slots l g → get_global m l ≡ some g
  unfolding get_global
  get_global-Holds m l g h = ground (arith, split_lem l, h.at, h.current, h.holder)

  pub Holds-get_global :
      (m : LocalIdMap G) (l : ℕ) (g : G) → get_global m l ≡ some g → Holds m.slots l g
  unfolding get_global
  Holds-get_global m l g found = elim (Option-cases (get_elem? m.slots (l / 16))) [
    | inl missing ↦ absurd (ground (arith, split_lem l))
    | inr (s, at) ↦ record {
      slot = s;
      at = at;
      current = ground (arith, split_lem l);
      holder = ground (arith, split_lem l);
    }
  ]

  -- The map with `g` in the free slot at `index`.
  abbrev place : LocalIdMap G → G → ℕ → Slot G → LocalIdMap G
  place m g index slot = record m {
    slots = set m.slots index (record slot { occupant = some g });
    global_to_local = insert g (index * 16 + slot.generation) m.global_to_local;
  }

  place-Holds_new :
      (m : LocalIdMap G) (g : G) (index : ℕ) (slot : Slot G)
      → get_elem? m.slots index ≡ some slot
      → slot.generation < 16
      → Holds (place m g index slot).slots (index * 16 + slot.generation) g
  place-Holds_new m g index slot at small =
      let there : (index * 16 + slot.generation) / 16 ≡ index = omega arith in
      record {
        slot = record slot { occupant = some g };
        at = rw there (
            ground (
              arith,
              get_elem?-set m.slots index index slot (record slot { occupant = some g }) at,
            ));
        current = omega arith;
        holder = refl;
      }

  place-Holds_old :
      (m : LocalIdMap G) (g h : G) (index l : ℕ) (slot : Slot G)
      → get_elem? m.slots index ≡ some slot
      → slot.occupant ≡ none
      → Holds m.slots l h
      → Holds (place m g index slot).slots l h
  place-Holds_old m g h index l slot at free held = record {
    slot = held.slot;
    at = ground (
      arith,
      held.at,
      held.holder,
      get_elem?-set m.slots index (l / 16) slot (record slot { occupant = some g }) at,
    );
    current = held.current;
    holder = held.holder;
  }

  place-IsValid :
      (m : LocalIdMap G) (g : G) (index : ℕ) (slot : Slot G)
      → IsValid m
      → get_elem? m.slots index ≡ some slot
      → slot.occupant ≡ none
      → 1 ≤ index
      → lookup g m.global_to_local ≡ none
      → IsValid (place m g index slot)
  place-IsValid m g index slot v at free low absent = record {
    has_first = rw (length-set m.slots index filled) v.has_first;
    bounded = rw (length-set m.slots index filled) v.bounded;
    cursor_low = v.cursor_low;
    cursor_high = v.cursor_high;
    first_free = λ s here. v.first_free s (ground (arith, here, written 0));
    generations =
        λ i s here. ground (arith, written i, v.generations i s, v.generations index slot at);
    distinct = insert-IsMap g local m.global_to_local v.distinct;
    forward = λ h l found. elim (Bool-cases (g == h)) [
      | inl same ↦
          let here : l ≡ local = ground (arith, lookup-insert g h local m.global_to_local) in
          let who : g ≡ h = (e.agrees_iff g h).0 same in
          rw (here, ← who) (place-Holds_new m g index slot at (v.generations index slot at))
      | inr other ↦
          place-Holds_old m g h index l slot at free
            (v.forward h l (ground (arith, lookup-insert g h local m.global_to_local)))
    ];
    backward = λ i s h here held. ground (
      arith,
      written i,
      e.agrees_iff g h,
      lookup-insert g h local m.global_to_local,
      v.backward i s h,
    );
    counted = omega (arith, counts, v.counted, length-insert_new g local m.global_to_local absent);
  }
    where
      local : ℕ
      local = index * 16 + slot.generation

      filled : Slot G
      filled = record slot { occupant = some g }

      written :
          (i : ℕ)
          → get_elem? (set m.slots index filled) i
            ≡ (if nat_same index i then some filled else get_elem? m.slots i)
      written i = get_elem?-set m.slots index i slot filled at

      counts : occupied (set m.slots index filled) ≡ occupied m.slots + 1
      counts = ground (arith, occupied-set m.slots index slot filled at)

  occupy-place :
      (m : LocalIdMap G) (g : G) (index : ℕ) (slot : Slot G)
      → get_elem? m.slots index ≡ some slot
      → index ≤ 4094
      → slot.generation < 16
      → occupy m g index ≡ ok (index * 16 + slot.generation, place m g index slot)
  unfolding occupy
  occupy-place m g index slot at high small =
      rw (at, occupy) (rw (compose_lem index slot.generation (omega arith) small))

  -- What a call of `get_or_insert` that returns has done.
  pub record Inserted (m : LocalIdMap G) (g : G) (r : Outcome (ℕ × LocalIdMap G)) : Type 0 where
    pub local : ℕ
    pub out : LocalIdMap G
    pub returns : r ≡ ok (local, out)
    pub valid : IsValid out
    pub resolves : get_global out local ≡ some g
    pub named : get_local out g ≡ some local
    pub others : (h : G) → g ≢ h → get_local out h ≡ get_local m h
    pub live : (l : ℕ) (h : G) → get_global m l ≡ some h → get_global out l ≡ some h
    pub slots_kept :
        (i : ℕ) (s : Slot G)
        → get_elem? m.slots i ≡ some s
        → (t : Slot G) × (get_elem? out.slots i ≡ some t) × (t.generation ≡ s.generation)

  present-Inserted :
      (m : LocalIdMap G) (g : G) (l : ℕ)
      → IsValid m
      → lookup g m.global_to_local ≡ some l
      → Inserted m g (get_or_insert m g)
  unfolding get_or_insert get_local
  present-Inserted m g l v found = record {
    local = l;
    out = m;
    returns = rw (found, get_or_insert);
    valid = v;
    resolves = get_global-Holds m l g (v.forward g l found);
    named = found;
    others = λ h ne. refl;
    live = λ k h old. old;
    slots_kept = λ i s at. (s, at, refl);
  }

  absent-Inserted :
      (m : LocalIdMap G) (g : G)
      → IsValid m
      → lookup g m.global_to_local ≡ none
      → length m.global_to_local < 4094
      → Inserted m g (get_or_insert m g)
  unfolding get_or_insert get_local
  absent-Inserted m g v absent room =
      let c = claim_index-Claimed m v room in
      let free_in : lookup g c.out.global_to_local ≡ none = rw c.same absent in
      let small = c.valid.generations c.index c.slot c.at in
      let out = place c.out g c.index c.slot in
      let valid = place-IsValid c.out g c.index c.slot c.valid c.at c.free c.index_low free_in in
      record {
        local = c.index * 16 + c.slot.generation;
        out = out;
        returns =
            rw (absent, get_or_insert, c.returns)
              (occupy-place c.out g c.index c.slot c.at c.index_high small);
        valid = valid;
        resolves = get_global-Holds out _ g (place-Holds_new c.out g c.index c.slot c.at small);
        named = ground (
          arith,
          e.agrees_iff g g,
          lookup-insert g g (c.index * 16 + c.slot.generation) c.out.global_to_local,
        );
        others = λ h ne. ground (
          arith,
          e.agrees_iff g h,
          c.same,
          lookup-insert g h (c.index * 16 + c.slot.generation) c.out.global_to_local,
        );
        live = λ l h old.
            let was = Holds-get_global m l h old in
            get_global-Holds out l h (
              place-Holds_old c.out g h c.index l c.slot c.at c.free (record {
                slot = was.slot;
                at = c.kept (l / 16) was.slot was.at;
                current = was.current;
                holder = was.holder;
              }));
        slots_kept = λ i s at. slot_after c.out g c.index i c.slot s c.at (c.kept i s at);
      }
    where
      slot_after :
          (n : LocalIdMap G) (h : G) (index i : ℕ) (slot s : Slot G)
          → get_elem? n.slots index ≡ some slot
          → get_elem? n.slots i ≡ some s
          → (t : Slot G) × (get_elem? (place n h index slot).slots i ≡ some t)
            × (t.generation ≡ s.generation)
      slot_after n h index i slot s here at = elim (Bool-cases (nat_same index i)) [
        | inl same ↦ (
          record slot { occupant = some h },
          ground
              (arith, get_elem?-set n.slots index i slot (record slot { occupant = some h }) here),
          ground (arith, ==→≡ index i same),
        )
        | inr other ↦ (
          s,
          ground
              (arith, get_elem?-set n.slots index i slot (record slot { occupant = some h }) here),
          refl,
        )
      ]

  -- In a valid map, a global that is known or for which an index is left gets an id: it resolves
  -- to the global and is the global's id from then on, the map stays valid, every other global
  -- keeps its id, and every id that resolved still resolves to the same global.
  pub get_or_insert-Inserted :
      (m : LocalIdMap G) (g : G)
      → IsValid m
      → (length m.global_to_local < 4094) ⊎ (get_local m g ≢ none)
      → Inserted m g (get_or_insert m g)
  unfolding get_local
  get_or_insert-Inserted m g v can = elim (Option-cases (lookup g m.global_to_local)) [
    | inr (l, found) ↦ present-Inserted m g l v found
    | inl absent ↦ elim can [
      | inl room ↦ absent-Inserted m g v absent room
      | inr known ↦ absurd (known absent)
    ]
  ]

  -- With every index taken, a new global makes the call panic.
  pub get_or_insert_full :
      (m : LocalIdMap G) (g : G)
      → 4094 ≤ length m.global_to_local
      → get_local m g ≡ none
      → get_or_insert m g ≡ panic
  unfolding get_or_insert get_local
  get_or_insert_full m g full absent = rw (absent, get_or_insert, claim_index_full m full)
