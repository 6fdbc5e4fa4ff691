-- ===== src/Wire/Loadtest/Read.antt =====
-- Reading the values inside what the server sends.
use rustibia_server.Prelude.{
  ℕ, zero, suc, ◌==◌, ltb, Bool, not, Option, none, some, List, [], ◌∷◌, length, if◌then◌else◌, map,
}
use rustibia_server.Prelude.Int.{ℤ}
use rustibia_server.Geometry.{Position, Direction}
use rustibia_server.Vitals.{Pool}
use rustibia_server.Codes.Facing.{Facing}
use rustibia_server.Codes.AgentKind.{AgentKind, from_id as kind_of}
use rustibia_server.Codes.InventorySlot.{InventorySlot, from_id as slot_of}
use rustibia_server.Codes.SkillType.{SkillType, from_id as skill_of}
use rustibia_server.Wire.Buffer.{Buffer}
use rustibia_server.Wire.Reader.{
  err, Reader, get, ◌>>=◌, return, fail, try_get, ok_or, exhausted, with_fuel,
}
use rustibia_server.Wire.Text.{String, from_utf8}
use rustibia_server.Wire.Values.{ChatMessageType, SpellGroup, OutfitColors, Color}
use rustibia_server.Wire.ServerValues.{
  Slots, ItemStack, max_visible_items, TextMessageType, FloatingTextType, SkillProgress,
}

-- An error of the connection never comes from the codec.
pub data WireError : Type 0 where
  malformed : (opcode : ℕ) → WireError
  unknown_opcode : (opcode : ℕ) → WireError

unfoldable pub with_opcode : ℕ → WireError → WireError
with_opcode opcode (malformed o) = malformed opcode
with_opcode opcode (unknown_opcode o) = unknown_opcode o

abbrev pub WireReader : Type 0 → Type 0
WireReader A = Reader WireError A

-- The slots of an array: the entries, and the empty slots of an array behind the entries.
unfoldable pub fill : ℕ → List (ℕ × ℕ) → Slots
fill zero entries = []
fill (suc n) [] = none ∷ fill n []
fill (suc n) (e ∷ entries) = some e ∷ fill n entries

module _ ⦃b : Buffer⦄ where
  unfoldable pub try_get_u8 : WireReader ℕ
  try_get_u8 = try_get (malformed 0) b.try_get_u8

  unfoldable pub try_get_u16_le : WireReader ℕ
  try_get_u16_le = try_get (malformed 0) b.try_get_u16_le

  unfoldable pub try_get_u32_le : WireReader ℕ
  try_get_u32_le = try_get (malformed 0) b.try_get_u32_le

  unfoldable pub try_get_u64_le : WireReader ℕ
  try_get_u64_le = try_get (malformed 0) b.try_get_u64_le

  unfoldable pub try_get_i8 : WireReader ℤ
  try_get_i8 = try_get (malformed 0) b.try_get_i8

  -- A buffer shorter than `len` is refused before `split_to`, which would panic.
  unfoldable pub read_bytes : ℕ → WireReader (List ℕ)
  read_bytes len buf =
      let split = get (b.split_to len) buf in
      if ltb (length buf) len then err (malformed 0) else split

  unfoldable pub read_utf8 : ℕ → WireReader String
  read_utf8 len = do bytes ← read_bytes len; ok_or (malformed 0) (from_utf8 bytes)

  unfoldable pub read_string : WireReader String
  read_string = do len ← try_get_u16_le; read_utf8 len

  unfoldable pub read_short_string : WireReader String
  read_short_string = do len ← try_get_u8; read_utf8 len

  unfoldable pub read_position : WireReader Position
  read_position = do
    x ← try_get_u16_le
    y ← try_get_u16_le
    z ← try_get_u8
    return (record { x = x; y = y; z = z })

  unfoldable pub read_direction : WireReader Direction
  read_direction = do
    n ← try_get_u8
    if n == 0x00
        then return Direction.north
        else if n == 0x01
        then return Direction.east
        else if n == 0x02
        then return Direction.west
        else if n == 0x03
        then return Direction.south
        else if n == 0x04
        then return Direction.north_east
        else if n == 0x05
        then return Direction.north_west
        else if n == 0x06
        then return Direction.south_east
        else if n == 0x07
        then return Direction.south_west
        else fail (malformed 0)

  unfoldable pub read_facing : WireReader Facing
  read_facing = do
    n ← try_get_u8
    if n == 1
        then return Facing.north
        else if n == 2
        then return Facing.east
        else if n == 3
        then return Facing.south
        else if n == 4
        then return Facing.west
        else fail (malformed 0)

  unfoldable pub read_agent_kind : WireReader AgentKind
  read_agent_kind = do n ← try_get_u8; ok_or (malformed 0) (kind_of n)

  unfoldable pub read_slot : WireReader InventorySlot
  read_slot = do n ← try_get_u8; ok_or (malformed 0) (slot_of n)

  unfoldable pub read_skill_type : WireReader SkillType
  read_skill_type = do n ← try_get_u8; ok_or (malformed 0) (skill_of n)

  unfoldable pub read_chat_message_type : WireReader ChatMessageType
  read_chat_message_type = do
    n ← try_get_u8
    if n == 0x01
        then return ChatMessageType.local
        else if n == 0x02
        then return ChatMessageType.private
        else if n == 0x03
        then return ChatMessageType.channel
        else fail (malformed 0)

  unfoldable pub read_text_message_type : WireReader TextMessageType
  read_text_message_type = do
    n ← try_get_u8
    if n == 0x01
        then return TextMessageType.action_denied
        else if n == 0x02
        then return TextMessageType.look
        else if n == 0x03
        then return TextMessageType.server_message
        else fail (malformed 0)

  unfoldable pub read_floating_text_type : WireReader FloatingTextType
  read_floating_text_type = do
    n ← try_get_u8
    if n == 0x01
        then return FloatingTextType.hit_points
        else if n == 0x02
        then return FloatingTextType.creature_say
        else fail (malformed 0)

  unfoldable pub read_spell_group : WireReader SpellGroup
  read_spell_group = do
    n ← try_get_u8
    if n == 0
        then return SpellGroup.attack
        else if n == 1
        then return SpellGroup.healing
        else if n == 2
        then return SpellGroup.support
        else fail (malformed 0)

  unfoldable pub read_optional_item : WireReader (Option ℕ)
  read_optional_item = do raw ← try_get_u16_le; return (if raw == 0xFFFF then none else some raw)

  -- `payload.try_get_u8()? != 0`
  unfoldable pub read_flag : WireReader Bool
  read_flag = do n ← try_get_u8; return (not (n == 0))

  unfoldable pub read_pool : WireReader Pool
  read_pool = do
    current ← try_get_u32_le
    maximum ← try_get_u32_le
    return (record { current = current; maximum = maximum })

  unfoldable pub read_outfit : WireReader (ℕ × OutfitColors)
  read_outfit = do
    id ← try_get_u16_le
    head ← try_get_u8
    body ← try_get_u8
    legs ← try_get_u8
    feet ← try_get_u8
    return (id, record { head = head; body = body; legs = legs; feet = feet })

  -- The `loop`, with fuel.
  unfoldable pub read_entries : ℕ → WireReader (List (ℕ × ℕ))
  read_entries zero = exhausted
  read_entries (suc n) = do
    id ← try_get_u16_le
    if id == 0xFFFF
        then return []
        else (do amount ← try_get_u8; rest ← read_entries n; return ((id, amount) ∷ rest))

  unfoldable pub read_tile_entries : WireReader (List (ℕ × ℕ))
  read_tile_entries = with_fuel read_entries

  unfoldable pub read_item_stack : WireReader ItemStack
  read_item_stack = do
    entries ← read_tile_entries
    if ltb max_visible_items (length entries)
        then fail (malformed 0)
        else return (fill max_visible_items entries)

  unfoldable pub read_container_items : WireReader Slots
  read_container_items = do entries ← read_tile_entries; return (map some entries)

  -- `Some(read)` behind a 1, and nothing behind a 0.
  unfoldable pub read_optional : {A : Type 0} → WireReader A → WireReader (Option A)
  read_optional r = do
    tag ← try_get_u8
    if tag == 0x01
        then (do a ← r; return (some a))
        else if tag == 0x00
        then return none
        else fail (malformed 0)

  unfoldable pub read_color : WireReader Color
  read_color = do
    red ← try_get_u8
    green ← try_get_u8
    blue ← try_get_u8
    return (record { red = red; green = green; blue = blue })

  unfoldable pub read_skill_progress : WireReader SkillProgress
  read_skill_progress = do
    level ← try_get_u16_le
    percent_bp ← try_get_u16_le
    return (record { level = level; percent_bp = percent_bp })
