-- ===== src/Wire/ServerValues.antt =====
-- The values that only the server sends: `crates/server/src/messages.rs`.
use rustibia_server.Prelude.{
  ℕ, ◌<◌, ◌≡◌, Bool, Option, none, some, List, [], ◌∷◌, length, replicate, All,
}
use rustibia_server.Codes.SkillType.{SkillType}
use rustibia_server.Wire.Text.{String, IsUtf8}
use rustibia_server.Wire.Values.{IsU8, IsU16, IsU32, SpellGroup}
use rustibia_server.Wire.ClientMessage.{IsString}

-- `constants.rs`
abbrev pub max_visible_items : ℕ
max_visible_items = 10

-- 18 columns and 14 rows.
abbrev pub viewport_size : ℕ
viewport_size = 252

abbrev pub Slots : Type 0
Slots = List (Option (ℕ × ℕ))

-- An array of `MAX_VISIBLE_ITEMS` slots with an item's id and its amount.
abbrev pub ItemStack : Type 0
ItemStack = Slots

pub data TextMessageType : Type 0 where
  action_denied look server_message : TextMessageType

pub data FloatingTextType : Type 0 where
  hit_points creature_say : FloatingTextType

pub record SkillProgress : Type 0 where
  pub level : ℕ
  pub percent_bp : ℕ

pub record ShopOfferEntry : Type 0 where
  pub item_id : ℕ
  pub subtype : ℕ
  pub weight : ℕ
  pub buy : ℕ
  pub sell : ℕ

pub record SpellListEntry : Type 0 where
  pub id : ℕ
  pub name : String
  pub words : String
  pub level : ℕ
  pub icon : ℕ
  pub aimable : Bool
  pub group : SpellGroup

-- An entry's id is not the number that ends the entries.
abbrev pub IsEntry : ℕ × ℕ → Type 0
IsEntry e = (e.0 < 0xFFFF) × IsU8 e.1

-- Items first, and no item behind an empty slot.
abbrev pub IsPadded : Slots → Type 0
IsPadded [] = Unit
IsPadded (some e ∷ slots) = IsEntry e × IsPadded slots
IsPadded (none ∷ slots) = slots ≡ replicate (length slots) none

abbrev pub IsItemStack : ItemStack → Type 0
IsItemStack stack = (length stack ≡ max_visible_items) × IsPadded stack

-- A container's items have no gap.
abbrev pub IsContents : Slots → Type 0
IsContents [] = Unit
IsContents (some e ∷ slots) = IsEntry e × IsContents slots
IsContents (none ∷ slots) = ⊥

abbrev pub IsOptionalItem : Option ℕ → Type 0
IsOptionalItem none = Unit
IsOptionalItem (some id) = id < 0xFFFF

-- The one text whose length is in a byte.
abbrev pub IsShortString : String → Type 0
IsShortString s = IsUtf8 s × IsU8 (length s)

abbrev pub IsSkillProgress : SkillProgress → Type 0
IsSkillProgress p = IsU16 p.level × IsU16 p.percent_bp

abbrev pub IsShopOfferEntry : ShopOfferEntry → Type 0
IsShopOfferEntry e = IsU16 e.item_id × IsU8 e.subtype × IsU32 e.weight × IsU32 e.buy × IsU32 e.sell

abbrev pub IsGood : ℕ × ℕ × ℕ → Type 0
IsGood e = IsU16 e.0 × IsU8 e.1 × IsU16 e.2

abbrev pub IsSpellListEntry : SpellListEntry → Type 0
IsSpellListEntry e = IsU16 e.id × IsString e.name × IsString e.words × IsU16 e.level × IsU16 e.icon

abbrev pub IsSkill : SkillType × SkillProgress → Type 0
IsSkill p = IsSkillProgress p.1

abbrev pub IsChannel : ℕ × String → Type 0
IsChannel c = IsU16 c.0 × IsString c.1

-- The tiles of a floor, of which the step brings into view; 0xFF ends the floors.
abbrev pub IsFloor : ℕ × List ItemStack → Type 0
IsFloor f = (f.0 < 0xFF) × IsU8 (length f.1) × All IsItemStack f.1
