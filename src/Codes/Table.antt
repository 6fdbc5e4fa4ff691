-- ===== src/Codes/Table.antt =====
-- strum's derived `from_repr`, the inverse of an enumeration's discriminants, behind the
-- `u8::try_from` of each `from_id`: a table of the variants in the order of their discriminants,
-- which count up from 0.
use rustibia_server.Prelude.{
  ℕ, zero, suc, ◌+◌, ◌≡◌, ◌↔◌, leb, Option, none, some, List, [], ◌∷◌, get_elem?, if◌then◌else◌,
  arith,
}

abbrev pub from_repr : {A : Type 0} → List A → ℕ → Option A
from_repr all n = if leb n 255 then get_elem? all n else none

-- Each entry's code is its place, from `k` on.
abbrev pub IsIndexed : {A : Type 0} → (A → ℕ) → ℕ → List A → Type 0
IsIndexed f k [] = Unit
IsIndexed f k (x ∷ xs) = (f x ≡ k) × IsIndexed f (suc k) xs

indexed :
    {A : Type 0} (f : A → ℕ) (k i : ℕ) (xs : List A) (x : A)
    → IsIndexed f k xs
    → get_elem? xs i ≡ some x
    → f x ≡ k + i
indexed f k i [] x h e = cc
indexed f k zero (y ∷ xs) x h e = let same : y ≡ x = cc in rw (← same) (omega (arith, h.0))
indexed f k (suc i) (y ∷ xs) x h e = omega (arith, indexed f (suc k) i xs x h.1 e)

-- The table decodes exactly the codes.
pub from_repr_iff :
    {A : Type 0} (f : A → ℕ) (all : List A) (n : ℕ) (x : A)
    → IsIndexed f 0 all
    → from_repr all (f x) ≡ some x
    → (from_repr all n ≡ some x) ↔ (f x ≡ n)
from_repr_iff f all n x h back = (λ e. ground (arith, indexed f 0 n all x h), λ e. rw e at back)
