-- ===== src/Wire/Values.antt =====
-- The values inside the messages, and their ranges as the widths of the source's types set them.
-- The identifiers are `u16`s, in types of their own in the source.
use rustibia_server.Prelude.{ℕ, ◌<◌}
use rustibia_server.Geometry.{Position}
use rustibia_server.Wire.Text.{String}

abbrev pub IsU8 : ℕ → Type 0
IsU8 n = n < 256

abbrev pub IsU16 : ℕ → Type 0
IsU16 n = n < 65536

abbrev pub IsU32 : ℕ → Type 0
IsU32 n = n < 4294967296

abbrev pub IsU64 : ℕ → Type 0
IsU64 n = n < 18446744073709551616

abbrev pub IsPosition : Position → Type 0
IsPosition p = IsU16 p.x × IsU16 p.y × IsU8 p.z

-- `entities/items.rs`
pub record ClientItemRef : Type 0 where
  pub position : Position
  pub item_id : ℕ
  pub stack_index : ℕ

abbrev pub IsClientItemRef : ClientItemRef → Type 0
IsClientItemRef r = IsPosition r.position × IsU16 r.item_id × IsU8 r.stack_index

-- `entities/chat.rs`
pub data ChatMessageType : Type 0 where
  local channel private : ChatMessageType

pub data SayTarget : Type 0 where
  local : SayTarget
  channel : (channel : ℕ) → SayTarget
  player : (name : String) → SayTarget

-- `entities/spells.rs`
pub data SpellGroup : Type 0 where
  attack healing support : SpellGroup

unfoldable pub as_id : SpellGroup → ℕ
as_id attack = 0
as_id healing = 1
as_id support = 2

pub data SpellTarget : Type 0 where
  none : SpellTarget
  agent : (agent_id : ℕ) → SpellTarget
  position : (position : Position) → SpellTarget

-- `entities/agent.rs`
pub record OutfitColors : Type 0 where
  pub head : ℕ
  pub body : ℕ
  pub legs : ℕ
  pub feet : ℕ

abbrev pub IsOutfit : ℕ × OutfitColors → Type 0
IsOutfit o = IsU16 o.0 × IsU8 o.1.head × IsU8 o.1.body × IsU8 o.1.legs × IsU8 o.1.feet

-- `game/config.rs`
pub record Color : Type 0 where
  pub red : ℕ
  pub green : ℕ
  pub blue : ℕ
