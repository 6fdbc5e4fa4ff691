-- ===== src/LocalId/Tests.antt =====
-- Runs of `LocalIdMap` over numbers as globals.
use rustibia_server.Prelude.{ℕ, ◌≡◌, refl, inl, none, some, [], ◌∷◌, arith}
use mathlib.Core.Path.{subst}
use rustibia_server.Prelude.Outcome.{ok}
use rustibia_server.Prelude.Keys.{nat_key}
use rustibia_server.LocalId.{LocalIdMap, new, get_or_insert, remove_by_local, get_global}
use rustibia_server.LocalId.Invariant.{IsValid, new-IsValid}
use rustibia_server.LocalId.Laws.Insert.{Inserted, get_or_insert-Inserted}
use rustibia_server.LocalId.Laws.Remove.{Removed, remove_by_local-Removed}
use rustibia_server.LocalId.Laws.Stale.{insert_all, removed_stays_dead}

-- The first id is slot 1 of generation 0.
abbrev pub one : LocalIdMap ℕ
one = record {
  global_to_local = (7, 16) ∷ [];
  slots =
      record { generation = 0; occupant = none }
      ∷ record { generation = 0; occupant = some 7 }
      ∷ [];
  next_index = 2;
}

first_call : get_or_insert new 7 ≡ ok (16, one)
unfolding new get_or_insert
first_call = refl

get_or_insert-Inserted_example : Inserted (new {G = ℕ}) 7 (get_or_insert new 7)
unfolding new
get_or_insert-Inserted_example = get_or_insert-Inserted new 7 new-IsValid (inl (omega arith))

pub one-IsValid : IsValid one
unfolding new
one-IsValid =
    let first = get_or_insert-Inserted new 7 new-IsValid (inl (omega arith)) in
    let same : first.out ≡ one = ground (arith, first.returns, first_call) in
    subst IsValid same first.valid

pub one_resolves : get_global one 16 ≡ some 7
unfolding get_global
one_resolves = refl

remove_by_local-Removed_example : Removed one 16 7 (remove_by_local one 16)
remove_by_local-Removed_example = remove_by_local-Removed one 16 7 one-IsValid one_resolves

-- The slot comes round again under the next generation, and the old id stays dead.
abbrev reissued : LocalIdMap ℕ
reissued = record {
  global_to_local = (8, 32) ∷ (9, 48) ∷ [];
  slots =
      record { generation = 0; occupant = none }
      ∷ record { generation = 1; occupant = none }
      ∷ record { generation = 0; occupant = some 8 }
      ∷ record { generation = 0; occupant = some 9 }
      ∷ [];
  next_index = 4;
}

later_calls : insert_all (remove_by_local one 16) (8 ∷ 9 ∷ []) ≡ ok reissued
unfolding insert_all remove_by_local get_or_insert
later_calls = refl

removed_stays_dead_example : get_global reissued 16 ≡ none
removed_stays_dead_example =
    removed_stays_dead one 16 7 (8 ∷ 9 ∷ []) one-IsValid one_resolves later_calls
