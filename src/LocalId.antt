-- ===== src/LocalId.antt =====
-- `crates/server/src/local_id.rs`: small reusable ids, scoped to one session, for the agents and
-- the containers that the session names on the wire. An id is a `u16`: a 12-bit slot index and a
-- 4-bit generation. `LocalId` is a newtype over `u16`, so an id is its raw number here; the hash
-- map is a list of entries, of which only lookups and the count matter.
pub mod Codec
pub mod Slots
pub mod Invariant
pub mod Claim
pub mod Laws
pub mod Tests
use Prim.Native.Nat.{bit_and, bit_or}
use rustibia_server.Prelude.{
  ℕ, zero, suc, ◌+◌, ◌-◌, ◌*◌, ◌/◌, ◌%◌, ltb, leb, ◌==◌, if◌then◌else◌, Option, none, some, List,
  [], ◌∷◌, ◌++◌, length, get_elem?, set, replicate,
}
use rustibia_server.Prelude.Outcome.{Outcome, ok, panic, spin, ◌>>=◌}
use rustibia_server.Prelude.Keys.{Key, lookup, insert, erase}

abbrev pub gen_mask : ℕ
gen_mask = 15

abbrev pub first_index : ℕ
first_index = 1

-- `(u16::MAX >> GEN_BITS) - 1`
abbrev pub last_index : ℕ
last_index = 65535 / 16 - 1

pub record Slot (G : Type 0) : Type 0 where
  pub generation : ℕ
  pub occupant : Option G

pub record LocalIdMap (G : Type 0) : Type 0 where
  pub global_to_local : List (G × ℕ)
  pub slots : List (Slot G)
  pub next_index : ℕ

pub compose : ℕ → ℕ → ℕ
compose index generation = bit_or (index * 16 % 65536) (bit_and generation gen_mask)

pub split : ℕ → ℕ × ℕ
split local = (local / 16, bit_and local gen_mask)

pub advance : ℕ → ℕ
advance index = if index == last_index then first_index else index + 1

abbrev pub free_slot : {G : Type 0} → Slot G
free_slot = record { generation = 0; occupant = none }

pub new : {G : Type 0} → LocalIdMap G
new = record { global_to_local = []; slots = free_slot ∷ []; next_index = first_index }

module _ {G : Type 0} where
  -- The loop of `claim_index`, with fuel: it moves the cursor on until it stands past the slots,
  -- which grow up to it, or on a free one.
  pub claim_loop : ℕ → LocalIdMap G → Outcome (ℕ × LocalIdMap G)
  unfolding advance
  claim_loop zero m = spin
  claim_loop (suc fuel) m =
      let index = m.next_index in
      let moved = record m { next_index = advance index } in
      let rest = claim_loop fuel moved in
      let grown = m.slots ++ replicate (index + 1 - length m.slots) free_slot in
      if leb (length m.slots) index
      then ok (index, record moved { slots = grown })
      else elim (get_elem? m.slots index) [
        | none ↦ panic
        | some slot ↦ elim slot.occupant [ none ↦ ok (index, moved) | some _ ↦ rest ]
      ]

  -- One round for each index is enough.
  pub claim_index : LocalIdMap G → Outcome (ℕ × LocalIdMap G)
  unfolding claim_loop
  claim_index m =
      let capacity = last_index - first_index + 1 in
      let claimed = claim_loop capacity m in
      if ltb (length m.global_to_local) capacity then claimed else panic

module _ {G : Type 0} ⦃e : Key G⦄ where
  pub occupy : LocalIdMap G → G → ℕ → Outcome (ℕ × LocalIdMap G)
  unfolding compose
  occupy m global index = elim (get_elem? m.slots index) [
    | none ↦ panic
    | some slot ↦
        let local = compose index slot.generation in
        ok (
          local,
          record m {
            slots = set m.slots index (record slot { occupant = some global });
            global_to_local = insert global local m.global_to_local;
          },
        )
  ]

  pub get_or_insert : LocalIdMap G → G → Outcome (ℕ × LocalIdMap G)
  unfolding claim_index occupy
  get_or_insert m global = elim (lookup global m.global_to_local) [
    | some local ↦ ok (local, m)
    | none ↦ claim_index m >>= λ (index, claimed). occupy claimed global index
  ]

  pub release : LocalIdMap G → ℕ → Slot G → LocalIdMap G
  release m index slot = elim slot.occupant [
    | none ↦ m
    | some global ↦ record m {
      global_to_local = erase global m.global_to_local;
      slots = set m.slots index (record {
        generation = bit_and ((slot.generation + 1) % 65536) gen_mask;
        occupant = none;
      });
    }
  ]

  pub remove_by_local : LocalIdMap G → ℕ → LocalIdMap G
  unfolding split release
  remove_by_local m local =
      let (index, generation) = split local in
      elim (get_elem? m.slots index) [
        | none ↦ m
        | some slot ↦ if slot.generation == generation then release m index slot else m
      ]

  pub get_local : LocalIdMap G → G → Option ℕ
  get_local m global = lookup global m.global_to_local

  pub get_global : LocalIdMap G → ℕ → Option G
  unfolding split
  get_global m local =
      let (index, generation) = split local in
      elim (get_elem? m.slots index) [
        | none ↦ none
        | some slot ↦ if slot.generation == generation then slot.occupant else none
      ]
