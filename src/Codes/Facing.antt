-- ===== src/Codes/Facing.antt =====
-- `Facing` of `crates/server/src/entities/agent.rs`.
use rustibia_server.Prelude.{ℕ, ◌≡◌, ◌↔◌, refl, Option, some, List, [], ◌∷◌}
use rustibia_server.Codes.Table.{from_repr, from_repr_iff}

pub data Facing : Type 0 where
  north east south west : Facing

unfoldable pub as_id : Facing → ℕ
as_id north = 0
as_id east = 1
as_id south = 2
as_id west = 3

-- The variants in the order of their discriminants.
abbrev pub all : List Facing
all = north ∷ east ∷ south ∷ west ∷ []

unfoldable pub from_id : ℕ → Option Facing
from_id n = from_repr all n

decodes_own : (x : Facing) → from_repr all (as_id x) ≡ some x
unfolding as_id
decodes_own north = refl
decodes_own east = refl
decodes_own south = refl
decodes_own west = refl

-- A number decodes to a variant exactly if it is the variant's code; all others are refused.
pub facing_codes : (n : ℕ) (x : Facing) → (from_id n ≡ some x) ↔ (as_id x ≡ n)
unfolding as_id from_id
facing_codes n x = from_repr_iff as_id all n x (refl, (refl, (refl, (refl, tt)))) (decodes_own x)
