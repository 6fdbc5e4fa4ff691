-- ===== src/Prelude/Keys.antt =====
-- Keys with a Boolean equality, and maps as lists of entries with one entry for each key.
use rustibia_server.Prelude.Tests.{◌==◌ as nat_same, ==_iff, if◌then◌else◌}
use rustibia_server.Prelude.Lists.{length}
use Prim.Native.Nat.{ℕ, suc}
use mathlib.Core.Path.{◌≡◌, refl}
use mathlib.Core.Logic.{◌↔◌, ◌≢◌}
use mathlib.Core.Bool.{Bool, true}
use mathlib.Core.Option.{Option, none, some}
use mathlib.Core.List.{List, [], ◌∷◌}
use native.Mathlib.Omega.{arith}

pub record Key {ℓ} (A : Type ℓ) : Type ℓ where
  pub agrees : (k j : A) → Bool
  pub agrees_iff : (k j : A) → (agrees k j ≡ true) ↔ (k ≡ j)

infix 50 ◌==◌
abbrev pub ◌==◌ {ℓ} : {A : Type ℓ} ⦃e : Key A⦄ → A → A → Bool
◌==◌ ⦃e⦄ = e.agrees

instance abbrev pub nat_key : Key ℕ
nat_key = record { agrees = nat_same; agrees_iff = ==_iff }

module _ {ℓ κ} {K : Type ℓ} {V : Type κ} ⦃e : Key K⦄ where
  abbrev pub lookup : K → List (K × V) → Option V
  lookup k [] = none
  lookup k ((j, v) ∷ m) = if j == k then some v else lookup k m

  abbrev pub insert : K → V → List (K × V) → List (K × V)
  insert k v [] = (k, v) ∷ []
  insert k v ((j, w) ∷ m) = if j == k then (k, v) ∷ m else (j, w) ∷ insert k v m

  abbrev pub erase : K → List (K × V) → List (K × V)
  erase k [] = []
  erase k ((j, w) ∷ m) = if j == k then m else (j, w) ∷ erase k m

  -- No key stands twice.
  abbrev pub IsMap : List (K × V) → Type κ
  IsMap [] = Unit
  IsMap ((j, w) ∷ m) = (lookup j m ≡ none) × IsMap m

  pub lookup-insert :
      (k j : K) (v : V) (m : List (K × V))
      → lookup j (insert k v m) ≡ (if k == j then some v else lookup j m)
  lookup-insert k j v [] = refl
  lookup-insert k j v ((i, w) ∷ m) =
      ground (arith, e.agrees_iff k j, e.agrees_iff i k, e.agrees_iff i j, lookup-insert k j v m)

  pub lookup-erase_ne :
      (k j : K) (m : List (K × V)) → (k == j) ≢ true → lookup j (erase k m) ≡ lookup j m
  lookup-erase_ne k j [] h = refl
  lookup-erase_ne k j ((i, w) ∷ m) h =
      ground (arith, e.agrees_iff k j, e.agrees_iff i k, e.agrees_iff i j, lookup-erase_ne k j m h)

  pub lookup-erase_self : (k : K) (m : List (K × V)) → IsMap m → lookup k (erase k m) ≡ none
  lookup-erase_self k [] h = refl
  lookup-erase_self k ((i, w) ∷ m) h = ground (arith, e.agrees_iff i k, lookup-erase_self k m h.1)

  pub insert-IsMap : (k : K) (v : V) (m : List (K × V)) → IsMap m → IsMap (insert k v m)
  insert-IsMap k v [] h = (refl, tt)
  insert-IsMap k v ((i, w) ∷ m) h =
      ground
        (arith, e.agrees_iff i k, e.agrees_iff k i, lookup-insert k i v m, insert-IsMap k v m h.1)

  pub erase-IsMap : (k : K) (m : List (K × V)) → IsMap m → IsMap (erase k m)
  erase-IsMap k [] h = tt
  erase-IsMap k ((i, w) ∷ m) h =
      ground (arith, e.agrees_iff i k, e.agrees_iff k i, lookup-erase_ne k i m, erase-IsMap k m h.1)

  pub length-insert_new :
      (k : K) (v : V) (m : List (K × V))
      → lookup k m ≡ none
      → length (insert k v m) ≡ suc (length m)
  length-insert_new k v [] h = refl
  length-insert_new k v ((i, w) ∷ m) h = ground (arith, length-insert_new k v m)

  pub length-erase :
      (k : K) (v : V) (m : List (K × V)) → lookup k m ≡ some v → suc (length (erase k m)) ≡ length m
  length-erase k v [] h = cc
  length-erase k v ((i, w) ∷ m) h = ground (arith, length-erase k v m)
