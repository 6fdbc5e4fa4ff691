-- ===== src/LocalId/Laws/Remove.antt =====
-- `remove_by_local` of `local_id.rs`.
use rustibia_server.Prelude.{
  ℕ, suc, ◌+◌, ◌*◌, ◌/◌, ◌%◌, ◌<◌, ◌≡◌, ◌≢◌, inl, inr, if◌then◌else◌, none, some, arith, length,
  get_elem?, set, Bool-cases, length-set,
}
use Prim.Native.Nat.{bit_and}
use rustibia_server.Prelude.{◌==◌ as nat_same}
use rustibia_server.Prelude.Bits.{bit_and_fifteen}
use rustibia_server.Prelude.Keys.{
  Key, ◌==◌, lookup, erase, lookup-erase_ne, lookup-erase_self, erase-IsMap, length-erase,
}
use rustibia_server.LocalId.{Slot, LocalIdMap, remove_by_local, get_local, get_global}
use rustibia_server.LocalId.Codec.{split_lem}
use rustibia_server.LocalId.Slots.{occupied, occupied-set, get_elem?-set}
use rustibia_server.LocalId.Invariant.{IsValid, Holds}
use rustibia_server.LocalId.Laws.Insert.{get_global-Holds, Holds-get_global}

module _ {G : Type 0} ⦃e : Key G⦄ where
  -- The map once the slot at `index`, which `g` holds, is freed.
  abbrev vacate : LocalIdMap G → G → ℕ → Slot G → LocalIdMap G
  vacate m g index slot = record m {
    global_to_local = erase g m.global_to_local;
    slots = set m.slots index (record { generation = (slot.generation + 1) % 16; occupant = none });
  }

  remove-vacate :
      (m : LocalIdMap G) (l : ℕ) (g : G) (h : Holds m.slots l g)
      → h.slot.generation < 16
      → remove_by_local m l ≡ vacate m g (l / 16) h.slot
  unfolding remove_by_local
  remove-vacate m l g h small =
      let next : bit_and ((h.slot.generation + 1) % 65536) 15 ≡ (h.slot.generation + 1) % 16 =
        omega (arith, bit_and_fifteen ((h.slot.generation + 1) % 65536)) in
      ground (arith, split_lem l, h.at, h.current, h.holder, next)

  vacate-IsValid :
      (m : LocalIdMap G) (g : G) (index : ℕ) (slot : Slot G)
      → IsValid m
      → get_elem? m.slots index ≡ some slot
      → slot.occupant ≡ some g
      → IsValid (vacate m g index slot)
  vacate-IsValid m g index slot v at held = record {
    has_first = rw (length-set m.slots index freed) v.has_first;
    bounded = rw (length-set m.slots index freed) v.bounded;
    cursor_low = v.cursor_low;
    cursor_high = v.cursor_high;
    first_free = λ s here. ground (arith, here, written 0, v.first_free s);
    generations = λ i s here. ground (arith, written i, v.generations i s);
    distinct = erase-IsMap g m.global_to_local v.distinct;
    forward = λ h l found. kept h l found;
    backward = λ i s h here by. ground (
      arith,
      written i,
      e.agrees_iff g h,
      lookup-erase_ne g h m.global_to_local,
      v.backward i s h,
      known,
      v.generations i s,
      v.generations index slot at,
      lookup-erase_self g m.global_to_local v.distinct,
    );
    counted = omega (
      arith,
      counts,
      v.counted,
      length-erase g (index * 16 + slot.generation) m.global_to_local known,
    );
  }
    where
      freed : Slot G
      freed = record { generation = (slot.generation + 1) % 16; occupant = none }

      known : lookup g m.global_to_local ≡ some (index * 16 + slot.generation)
      known = v.backward index slot g at held

      written :
          (i : ℕ)
          → get_elem? (set m.slots index freed) i
            ≡ (if nat_same index i then some freed else get_elem? m.slots i)
      written i = get_elem?-set m.slots index i slot freed at

      counts : occupied (set m.slots index freed) + 1 ≡ occupied m.slots
      counts = ground (arith, occupied-set m.slots index slot freed at)

      kept :
          (h : G) (l : ℕ)
          → lookup h (erase g m.global_to_local) ≡ some l
          → Holds (set m.slots index freed) l h
      kept h l found = elim (Bool-cases (g == h)) [
        | inl same ↦
            let who : g ≡ h = (e.agrees_iff g h).0 same in
            let gone = lookup-erase_self g m.global_to_local v.distinct in absurd (cc)
        | inr other ↦
            let old : lookup h m.global_to_local ≡ some l =
              ground (arith, lookup-erase_ne g h m.global_to_local) in
            let was = v.forward h l old in
            let ne : g ≢ h = ground (arith, e.agrees_iff g h) in
            record {
              slot = was.slot;
              at = ground (arith, was.at, was.holder, at, held, written (l / 16));
              current = was.current;
              holder = was.holder;
            }
      ]

  -- What freeing the live id `l` of `g` has done.
  pub record Removed (m : LocalIdMap G) (l : ℕ) (g : G) (out : LocalIdMap G) : Type 0 where
    pub valid : IsValid out
    pub unresolved : get_global out l ≡ none
    pub forgotten : get_local out g ≡ none
    pub others : (h : G) → g ≢ h → get_local out h ≡ get_local m h
    pub live : (k : ℕ) (h : G) → g ≢ h → get_global m k ≡ some h → get_global out k ≡ some h
    pub slot_at :
        get_elem? out.slots (l / 16)
        ≡ some (record { generation = (l % 16 + 1) % 16; occupant = none })
    pub room : suc (length out.global_to_local) ≡ length m.global_to_local

  -- Freeing an id that resolves: it resolves no more, the global has no id, every other global
  -- keeps its id and every other id resolves as before, and the map stays valid.
  pub remove_by_local-Removed :
      (m : LocalIdMap G) (l : ℕ) (g : G)
      → IsValid m
      → get_global m l ≡ some g
      → Removed m l g (remove_by_local m l)
  unfolding get_global get_local
  remove_by_local-Removed m l g v found =
      let h = Holds-get_global m l g found in
      let small = v.generations (l / 16) h.slot h.at in
      let freed : Slot G = record { generation = (h.slot.generation + 1) % 16; occupant = none } in
      let here = get_elem?-set m.slots (l / 16) (l / 16) h.slot freed h.at in
      rw (remove-vacate m l g h small) (record {
        valid = vacate-IsValid m g (l / 16) h.slot v h.at h.holder;
        unresolved = ground (arith, split_lem l, here);
        forgotten = lookup-erase_self g m.global_to_local v.distinct;
        others = λ k ne. lookup-erase_ne g k m.global_to_local (ground (arith, e.agrees_iff g k));
        live = λ k w ne old.
            let was = Holds-get_global m k w old in
            get_global-Holds (vacate m g (l / 16) h.slot) k w (record {
              slot = was.slot;
              at = ground (
                arith,
                was.at,
                was.holder,
                h.at,
                h.holder,
                get_elem?-set m.slots (l / 16) (k / 16) h.slot freed h.at,
              );
              current = was.current;
              holder = was.holder;
            });
        slot_at = ground (arith, here, h.current);
        room =
            length-erase g (l / 16 * 16 + h.slot.generation) m.global_to_local
              (v.backward (l / 16) h.slot g h.at h.holder);
      })

  -- Freeing an id that does not resolve, stale or never issued, changes nothing.
  pub remove_by_local_unresolved :
      (m : LocalIdMap G) (l : ℕ) → get_global m l ≡ none → remove_by_local m l ≡ m
  unfolding remove_by_local get_global
  remove_by_local_unresolved m l gone = ground (arith, gone)
