-- ===== src/Codes/SkillType.antt =====
-- `SkillType` of `crates/server/src/entities/skills.rs`.
use rustibia_server.Prelude.{ℕ, ◌≡◌, ◌↔◌, refl, Option, some, List, [], ◌∷◌}
use rustibia_server.Codes.Table.{from_repr, from_repr_iff}

pub data SkillType : Type 0 where
  level axe club sword distance magic shielding : SkillType

unfoldable pub as_id : SkillType → ℕ
as_id level = 0
as_id axe = 1
as_id club = 2
as_id sword = 3
as_id distance = 4
as_id magic = 5
as_id shielding = 6

-- The variants in the order of their discriminants.
abbrev pub all : List SkillType
all = level ∷ axe ∷ club ∷ sword ∷ distance ∷ magic ∷ shielding ∷ []

unfoldable pub from_id : ℕ → Option SkillType
from_id n = from_repr all n

decodes_own : (x : SkillType) → from_repr all (as_id x) ≡ some x
unfolding as_id
decodes_own level = refl
decodes_own axe = refl
decodes_own club = refl
decodes_own sword = refl
decodes_own distance = refl
decodes_own magic = refl
decodes_own shielding = refl

-- A number decodes to a variant exactly if it is the variant's code; all others are refused.
pub skill_type_codes : (n : ℕ) (x : SkillType) → (from_id n ≡ some x) ↔ (as_id x ≡ n)
unfolding as_id from_id
skill_type_codes n x =
    from_repr_iff as_id all n x (refl, (refl, (refl, (refl, (refl, (refl, (refl, tt)))))))
      (decodes_own x)

-- What a character is worth in a skill before it has a row for it.
unfoldable pub default_value : SkillType → ℕ
default_value level = 1
default_value magic = 1
default_value axe = 10
default_value club = 10
default_value sword = 10
default_value distance = 10
default_value shielding = 10
