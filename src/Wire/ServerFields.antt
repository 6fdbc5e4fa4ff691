-- ===== src/Wire/ServerFields.antt =====
-- The load test's client reads each field as the server wrote it.
use rustibia_server.Prelude.{
  ℕ, ◌+◌, ◌%◌, ◌<◌, ◌≡◌, refl, ltb, true, false, Bool, Option, none, some, List, ◌++◌, length,
  length-append, ◌==◌, arith,
}
use rustibia_server.Prelude.Int.{ℤ}
use rustibia_server.Geometry.{Position, Direction}
use rustibia_server.Vitals.{Pool}
use rustibia_server.Codes.Facing.{Facing}
use rustibia_server.Codes.AgentKind.{AgentKind, as_id as kind_id, agent_kind_codes}
use rustibia_server.Codes.InventorySlot.{InventorySlot, as_id as slot_id, inventory_slot_codes}
use rustibia_server.Codes.SkillType.{SkillType, as_id as skill_id, skill_type_codes}
use rustibia_server.Wire.Buffer.{Buffer, IsI8}
use rustibia_server.Wire.Reader.{get}
use rustibia_server.Wire.Text.{String, IsUtf8, from_utf8-IsUtf8}
use rustibia_server.Wire.Parsing.{Parses, bind, last, ret, tried, present}
use rustibia_server.Wire.Values.{
  IsU8, IsU16, IsU32, IsU64, IsPosition, ChatMessageType, SpellGroup, as_id, OutfitColors, IsOutfit,
  Color,
}
use rustibia_server.Wire.ClientMessage.{IsString}
use rustibia_server.Wire.ServerValues.{
  TextMessageType, FloatingTextType, SkillProgress, IsOptionalItem, IsShortString, IsSkillProgress,
}
use rustibia_server.Wire.ServerMessage.{IsPool, IsOptionalPosition, IsOptionalColor}
use rustibia_server.Wire.Server.Fields.{
  encode_position, encode_facing, encode_direction, encode_string, encode_short_string,
  encode_outfit, encode_pool, encode_optional_item, encode_flag, encode_optional_position,
  encode_color, encode_text_message_type, encode_chat_message_type, encode_floating_text_type,
}
use rustibia_server.Wire.Loadtest.Read.{
  try_get_u8, try_get_u16_le, try_get_u32_le, try_get_u64_le, try_get_i8, read_bytes, read_utf8,
  read_string, read_short_string, read_position, read_direction, read_facing, read_agent_kind,
  read_slot, read_skill_type, read_chat_message_type, read_text_message_type,
  read_floating_text_type, read_spell_group, read_optional_item, read_flag, read_pool, read_outfit,
  read_optional, read_color, read_skill_progress,
}

fits16 : (n : ℕ) → IsU16 n → n % 65536 ≡ n
fits16 n h = omega arith

fits8 : (n : ℕ) → IsU8 n → n % 256 ≡ n
fits8 n h = omega arith

not_short : (s t : List ℕ) → ltb (length (s ++ t)) (length s) ≡ false
not_short s t = let h : length (s ++ t) ≡ length s + length t = length-append s t in ground arith

pub differs : (n k : ℕ) → n < k → (n == k) ≡ false
differs n k h = ground arith

module _ ⦃b : Buffer⦄ where
  pub u8 : {n : ℕ} {t : List ℕ} → IsU8 n → Parses try_get_u8 (b.put_u8 n) t n
  unfolding try_get_u8
  u8 {n} {t} h = tried _ b.try_get_u8 (b.try_get_u8-put_u8 n t h)

  pub u16 : {n : ℕ} {t : List ℕ} → IsU16 n → Parses try_get_u16_le (b.put_u16_le n) t n
  unfolding try_get_u16_le
  u16 {n} {t} h = tried _ b.try_get_u16_le (b.try_get_u16_le-put_u16_le n t h)

  pub u32 : {n : ℕ} {t : List ℕ} → IsU32 n → Parses try_get_u32_le (b.put_u32_le n) t n
  unfolding try_get_u32_le
  u32 {n} {t} h = tried _ b.try_get_u32_le (b.try_get_u32_le-put_u32_le n t h)

  pub u64 : {n : ℕ} {t : List ℕ} → IsU64 n → Parses try_get_u64_le (b.put_u64_le n) t n
  unfolding try_get_u64_le
  u64 {n} {t} h = tried _ b.try_get_u64_le (b.try_get_u64_le-put_u64_le n t h)

  pub i8 : {i : ℤ} {t : List ℕ} → IsI8 i → Parses try_get_i8 (b.put_i8 i) t i
  unfolding try_get_i8
  i8 {i} {t} h = tried _ b.try_get_i8 (b.try_get_i8-put_i8 i t h)

  pub len16 : (n : ℕ) {t : List ℕ} → IsU16 n → Parses try_get_u16_le (b.put_u16_le (n % 65536)) t n
  len16 n h = rw (fits16 n h) (u16 h)

  pub len8 : (n : ℕ) {t : List ℕ} → IsU8 n → Parses try_get_u8 (b.put_u8 (n % 256)) t n
  len8 n h = rw (fits8 n h) (u8 h)

  bytes : (s t : List ℕ) → Parses (read_bytes (length s)) s t s
  unfolding read_bytes get
  bytes s t = record { run = rw (not_short s t) (rw (get, b.split_to-append s t) refl) }

  text : (s : String) {t : List ℕ} → IsUtf8 s → Parses (read_utf8 (length s)) s t s
  unfolding read_utf8
  text s {t} h = last _ (bytes s t) (present _ (from_utf8-IsUtf8 s h))

  pub string : (s : String) {t : List ℕ} → IsString s → Parses read_string (encode_string s) t s
  unfolding read_string encode_string
  string s h = bind _ (len16 (length s) h.1) (text s h.0)

  pub short_string :
      (s : String) {t : List ℕ}
      → IsShortString s
      → Parses read_short_string (encode_short_string s) t s
  unfolding read_short_string encode_short_string
  short_string s h = bind _ (len8 (length s) h.1) (text s h.0)

  pub position :
      {p : Position} {t : List ℕ} → IsPosition p → Parses read_position (encode_position p) t p
  unfolding read_position encode_position
  position h = bind _ (u16 h.0) (bind _ (u16 h.1) (last _ (u8 h.2) ret))

  pub direction : (d : Direction) {t : List ℕ} → Parses read_direction (encode_direction d) t d
  unfolding read_direction encode_direction
  direction Direction.north = last _ (u8 (omega arith)) ret
  direction Direction.east = last _ (u8 (omega arith)) ret
  direction Direction.west = last _ (u8 (omega arith)) ret
  direction Direction.south = last _ (u8 (omega arith)) ret
  direction Direction.north_east = last _ (u8 (omega arith)) ret
  direction Direction.north_west = last _ (u8 (omega arith)) ret
  direction Direction.south_east = last _ (u8 (omega arith)) ret
  direction Direction.south_west = last _ (u8 (omega arith)) ret

  pub facing : (d : Facing) {t : List ℕ} → Parses read_facing (encode_facing d) t d
  unfolding read_facing encode_facing
  facing Facing.north = last _ (u8 (omega arith)) ret
  facing Facing.east = last _ (u8 (omega arith)) ret
  facing Facing.south = last _ (u8 (omega arith)) ret
  facing Facing.west = last _ (u8 (omega arith)) ret

  pub text_message_type :
      (v : TextMessageType) {t : List ℕ}
      → Parses read_text_message_type (b.put_u8 (encode_text_message_type v)) t v
  unfolding read_text_message_type encode_text_message_type
  text_message_type TextMessageType.action_denied = last _ (u8 (omega arith)) ret
  text_message_type TextMessageType.look = last _ (u8 (omega arith)) ret
  text_message_type TextMessageType.server_message = last _ (u8 (omega arith)) ret

  pub chat_message_type :
      (v : ChatMessageType) {t : List ℕ}
      → Parses read_chat_message_type (b.put_u8 (encode_chat_message_type v)) t v
  unfolding read_chat_message_type encode_chat_message_type
  chat_message_type ChatMessageType.local = last _ (u8 (omega arith)) ret
  chat_message_type ChatMessageType.private = last _ (u8 (omega arith)) ret
  chat_message_type ChatMessageType.channel = last _ (u8 (omega arith)) ret

  pub floating_text_type :
      (v : FloatingTextType) {t : List ℕ}
      → Parses read_floating_text_type (b.put_u8 (encode_floating_text_type v)) t v
  unfolding read_floating_text_type encode_floating_text_type
  floating_text_type FloatingTextType.hit_points = last _ (u8 (omega arith)) ret
  floating_text_type FloatingTextType.creature_say = last _ (u8 (omega arith)) ret

  pub spell_group : (v : SpellGroup) {t : List ℕ} → Parses read_spell_group (b.put_u8 (as_id v)) t v
  unfolding read_spell_group as_id
  spell_group SpellGroup.attack = last _ (u8 (omega arith)) ret
  spell_group SpellGroup.healing = last _ (u8 (omega arith)) ret
  spell_group SpellGroup.support = last _ (u8 (omega arith)) ret

  kind_id-IsU8 : (v : AgentKind) → IsU8 (kind_id v)
  unfolding kind_id
  kind_id-IsU8 v = ground arith

  slot_id-IsU8 : (v : InventorySlot) → IsU8 (slot_id v)
  unfolding slot_id
  slot_id-IsU8 v = ground arith

  skill_id-IsU8 : (v : SkillType) → IsU8 (skill_id v)
  unfolding skill_id
  skill_id-IsU8 v = ground arith

  pub agent_kind : (v : AgentKind) {t : List ℕ} → Parses read_agent_kind (b.put_u8 (kind_id v)) t v
  unfolding read_agent_kind
  agent_kind v = last _ (u8 (kind_id-IsU8 v)) (present _ ((agent_kind_codes (kind_id v) v).1 refl))

  pub slot : (v : InventorySlot) {t : List ℕ} → Parses read_slot (b.put_u8 (slot_id v)) t v
  unfolding read_slot
  slot v = last _ (u8 (slot_id-IsU8 v)) (present _ ((inventory_slot_codes (slot_id v) v).1 refl))

  pub skill_type : (v : SkillType) {t : List ℕ} → Parses read_skill_type (b.put_u8 (skill_id v)) t v
  unfolding read_skill_type
  skill_type v =
      last _ (u8 (skill_id-IsU8 v)) (present _ ((skill_type_codes (skill_id v) v).1 refl))

  pub flag : (f : Bool) {t : List ℕ} → Parses read_flag (encode_flag f) t f
  unfolding read_flag encode_flag
  flag true = last _ (u8 (omega arith)) ret
  flag false = last _ (u8 (omega arith)) ret

  pub pool : {p : Pool} {t : List ℕ} → IsPool p → Parses read_pool (encode_pool p) t p
  unfolding read_pool encode_pool
  pool h = bind _ (u32 h.0) (last _ (u32 h.1) ret)

  pub outfit :
      {o : ℕ × OutfitColors} {t : List ℕ} → IsOutfit o → Parses read_outfit (encode_outfit o) t o
  unfolding read_outfit encode_outfit
  outfit h =
      bind _ (u16 h.0) (bind _ (u8 h.1) (bind _ (u8 h.2) (bind _ (u8 h.3) (last _ (u8 h.4) ret))))

  pub optional_item :
      (o : Option ℕ) {t : List ℕ}
      → IsOptionalItem o
      → Parses read_optional_item (encode_optional_item o) t o
  unfolding read_optional_item encode_optional_item
  optional_item none h = last _ (u16 (omega arith)) ret
  optional_item (some id) h = last _ (u16 (omega arith)) (rw (differs id 0xFFFF h) ret)

  pub optional_position :
      (o : Option Position) {t : List ℕ}
      → IsOptionalPosition o
      → Parses (read_optional read_position) (encode_optional_position o) t o
  unfolding read_optional encode_optional_position
  optional_position none h = last _ (u8 (omega arith)) ret
  optional_position (some p) h = bind _ (u8 (omega arith)) (last _ (position h) ret)

  pub optional_color :
      (o : Option Color) {t : List ℕ}
      → IsOptionalColor o
      → Parses (read_optional read_color) (encode_color o) t o
  unfolding read_optional encode_color read_color
  optional_color none h = last _ (u8 (omega arith)) ret
  optional_color (some c) h =
      bind _ (u8 (omega arith))
        (last _ (bind _ (u8 h.0) (bind _ (u8 h.1) (last _ (u8 h.2) ret))) ret)

  pub skill_progress :
      {p : SkillProgress} {t : List ℕ}
      → IsSkillProgress p
      → Parses read_skill_progress (b.put_u16_le p.level ++ b.put_u16_le p.percent_bp) t p
  unfolding read_skill_progress
  skill_progress h = bind _ (u16 h.0) (last _ (u16 h.1) ret)
