-- ===== src/Combat.antt =====
-- The enumerations of `crates/server/src/entities/combat.rs`.
use rustibia_server.Prelude.{ℕ, Option, none, some, Bool, ◌==◌}
use rustibia_server.Codes.SkillType.{SkillType}

pub data CombatElement : Type 0 where
  physical energy fire earth ice holy death mana : CombatElement

pub data WeaponType : Type 0 where
  bare axe club sword bow crossbow distance wand rod : WeaponType

pub data AmmoType : Type 0 where
  arrow bolt : AmmoType

-- `WeaponType::skill`; `bare` is the source's `None`.
unfoldable pub skill : WeaponType → Option SkillType
skill bare = none
skill axe = some SkillType.axe
skill club = some SkillType.club
skill sword = some SkillType.sword
skill bow = some SkillType.distance
skill crossbow = some SkillType.distance
skill distance = some SkillType.distance
skill wand = some SkillType.magic
skill rod = some SkillType.magic

abbrev pub element_number : CombatElement → ℕ
element_number physical = 0
element_number energy = 1
element_number fire = 2
element_number earth = 3
element_number ice = 4
element_number holy = 5
element_number death = 6
element_number mana = 7

-- The derived `==` on elements.
abbrev pub eq_element : CombatElement → CombatElement → Bool
eq_element a b = element_number a == element_number b
