-- ===== src/LocalId/Laws/Stale.antt =====
-- Ids of `local_id.rs` that were freed, and the requests that follow.
use rustibia_server.Prelude.{
  ℕ, ◌/◌, ◌%◌, ◌≤◌, ◌<◌, ◌≡◌, ◌≢◌, ◌⊎◌, inl, inr, none, some, List, [], ◌∷◌, arith, length,
  get_elem?, Option-cases,
}
use rustibia_server.Prelude.Outcome.{Outcome, ok, ◌>>=◌}
use rustibia_server.Prelude.Keys.{Key}
use rustibia_server.LocalId.{
  Slot, LocalIdMap, get_or_insert, remove_by_local, get_local, get_global,
}
use rustibia_server.LocalId.Codec.{split_lem}
use rustibia_server.LocalId.Invariant.{IsValid}
use rustibia_server.LocalId.Laws.Insert.{Inserted, get_or_insert-Inserted, get_or_insert_full}
use rustibia_server.LocalId.Laws.Remove.{remove_by_local-Removed}

module _ {G : Type 0} ⦃e : Key G⦄ where
  -- A session that asks for the ids of some globals in turn.
  unfoldable pub insert_all : LocalIdMap G → List G → Outcome (LocalIdMap G)
  insert_all m [] = ok m
  insert_all m (g ∷ gs) = get_or_insert m g >>= λ (local, out). insert_all out gs

  -- The slot of `l` has moved on to another generation.
  record IsStale (m : LocalIdMap G) (l : ℕ) : Type 0 where
    slot : Slot G
    at : get_elem? m.slots (l / 16) ≡ some slot
    moved_on : slot.generation ≢ l % 16

  IsStale-get_global : (m : LocalIdMap G) (l : ℕ) → IsStale m l → get_global m l ≡ none
  unfolding get_global
  IsStale-get_global m l s = ground (arith, split_lem l, s.at, s.moved_on)

  Inserted-IsStale :
      (m : LocalIdMap G) (g : G) (l : ℕ) {r : Outcome (ℕ × LocalIdMap G)}
      → (i : Inserted m g r) → IsStale m l
      → IsStale i.out l
  Inserted-IsStale m g l i s =
      let (t, at, same) = i.slots_kept (l / 16) s.slot s.at in
      record { slot = t; at = at; moved_on = ground (arith, same, s.moved_on) }

  insert_all-IsStale :
      (m : LocalIdMap G) (gs : List G) (l : ℕ) {out : LocalIdMap G}
      → IsValid m
      → IsStale m l
      → insert_all m gs ≡ ok out
      → get_global out l ≡ none
  unfolding insert_all
  insert_all-IsStale m [] l {out = o} v s done =
      let same : m ≡ o = ground arith in rw (← same) (IsStale-get_global m l s)
  insert_all-IsStale m (g ∷ gs) l v s done = elim (can_insert m g) [
    | inl full ↦ absurd (ground (arith, get_or_insert_full m g full.0 full.1))
    | inr can ↦
        let i = get_or_insert-Inserted m g v can in
        insert_all-IsStale i.out gs l i.valid (Inserted-IsStale m g l i s) (rw i.returns at done)
  ]
    where
      can_insert :
          (n : LocalIdMap G) (h : G)
          → ((4094 ≤ length n.global_to_local) × (get_local n h ≡ none))
            ⊎ ((length n.global_to_local < 4094) ⊎ (get_local n h ≢ none))
      can_insert n h = elim (Option-cases (get_local n h)) [
        | inl absent ↦ ground arith
        | inr (l, found) ↦ inr (inr (λ gone. cc))
      ]

  -- After an id that resolved is freed, it resolves to nothing, and it still does after any
  -- requests for ids that follow and return, whichever globals they name.
  pub removed_stays_dead :
      (m : LocalIdMap G) (l : ℕ) (g : G) (gs : List G) {out : LocalIdMap G}
      → IsValid m
      → get_global m l ≡ some g
      → insert_all (remove_by_local m l) gs ≡ ok out
      → get_global out l ≡ none
  removed_stays_dead m l g gs v found done =
      let r = remove_by_local-Removed m l g v found in
      insert_all-IsStale (remove_by_local m l) gs l r.valid
        (record { slot = _; at = r.slot_at; moved_on = omega arith }) done
