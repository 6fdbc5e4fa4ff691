-- ===== src/Wire/ClientFields.antt =====
-- The server reads each field as the load test's client wrote it.
use rustibia_server.Prelude.{
  ℕ, ◌%◌, ◌<◌, ◌≡◌, refl, false, Option, none, some, List, [], length, ◌==◌, arith,
}
use rustibia_server.Geometry.{Position, Direction}
use rustibia_server.Codes.Facing.{Facing}
use rustibia_server.Wire.Buffer.{Buffer}
use rustibia_server.Wire.Text.{String, IsUtf8, from_utf8-IsUtf8}
use rustibia_server.Wire.Parsing.{Parses, bind, last, ret, got, present}
use rustibia_server.Wire.Values.{
  IsU8, IsU16, IsU32, IsPosition, ClientItemRef, IsClientItemRef, SpellTarget,
}
use rustibia_server.Wire.ClientMessage.{IsOptionalAgent, IsString, IsSpellTarget, IsParam}
use rustibia_server.Wire.Loadtest.Encode.{
  encode_direction, encode_facing, encode_position, encode_item_ref, encode_optional_agent,
  encode_string, encode_param, encode_spell_target,
}
use rustibia_server.Wire.Server.Decode.{
  wrong_sequence, get_u8, get_u16_le, get_u32_le, split_to, text_of, decode_text, decode_direction,
  decode_facing, decode_optional_agent, decode_position, decode_item_ref, decode_spell_target,
  decode_param,
}

pub direction : (d : Direction) {t : List ℕ} → Parses (decode_direction (encode_direction d)) [] t d
unfolding decode_direction encode_direction
direction Direction.north = ret
direction Direction.east = ret
direction Direction.west = ret
direction Direction.south = ret
direction Direction.north_east = ret
direction Direction.north_west = ret
direction Direction.south_east = ret
direction Direction.south_west = ret

pub facing : (d : Facing) {t : List ℕ} → Parses (decode_facing (encode_facing d)) [] t d
unfolding decode_facing encode_facing
facing Facing.north = ret
facing Facing.east = ret
facing Facing.south = ret
facing Facing.west = ret

pub encode_direction-IsU8 : (d : Direction) → IsU8 (encode_direction d)
unfolding encode_direction
encode_direction-IsU8 d = ground arith

pub encode_facing-IsU8 : (d : Facing) → IsU8 (encode_facing d)
unfolding encode_facing
encode_facing-IsU8 d = ground arith

-- The number that stands for an optional agent.
abbrev pub raw_of : Option ℕ → ℕ
raw_of none = 0xFFFF
raw_of (some id) = id

pub decode_optional_agent-raw_of :
    (o : Option ℕ) → IsOptionalAgent o → decode_optional_agent (raw_of o) ≡ o
unfolding decode_optional_agent
decode_optional_agent-raw_of none h = refl
decode_optional_agent-raw_of (some id) h = ground arith

fits : (n : ℕ) → IsU16 n → n % 65536 ≡ n
fits n h = omega arith

pub nonzero : (n : ℕ) → 0 < n → (n == 0) ≡ false
nonzero n h = ground arith

module _ ⦃b : Buffer⦄ where
  pub u8 : {n : ℕ} {t : List ℕ} → IsU8 n → Parses get_u8 (b.put_u8 n) t n
  unfolding get_u8
  u8 {n} {t} h = got b.try_get_u8 (b.try_get_u8-put_u8 n t h)

  pub u16 : {n : ℕ} {t : List ℕ} → IsU16 n → Parses get_u16_le (b.put_u16_le n) t n
  unfolding get_u16_le
  u16 {n} {t} h = got b.try_get_u16_le (b.try_get_u16_le-put_u16_le n t h)

  pub u32 : {n : ℕ} {t : List ℕ} → IsU32 n → Parses get_u32_le (b.put_u32_le n) t n
  unfolding get_u32_le
  u32 {n} {t} h = got b.try_get_u32_le (b.try_get_u32_le-put_u32_le n t h)

  pub split : (s t : List ℕ) → Parses (split_to (length s)) s t s
  unfolding split_to
  split s t = got (b.split_to (length s)) (b.split_to-append s t)

  pub text : (s : String) {t : List ℕ} → IsUtf8 s → Parses (decode_text (length s)) s t s
  unfolding decode_text text_of
  text s {t} h = last _ (split s t) (present wrong_sequence (from_utf8-IsUtf8 s h))

  pub position :
      {p : Position} {t : List ℕ} → IsPosition p → Parses decode_position (encode_position p) t p
  unfolding decode_position encode_position
  position h = bind _ (u16 h.0) (bind _ (u16 h.1) (last _ (u8 h.2) ret))

  pub item_ref :
      {r : ClientItemRef} {t : List ℕ}
      → IsClientItemRef r
      → Parses decode_item_ref (encode_item_ref r) t r
  unfolding decode_item_ref encode_item_ref
  item_ref h = bind _ (position h.0) (bind _ (u16 h.1) (last _ (u8 h.2) ret))

  pub optional_agent :
      (o : Option ℕ) {t : List ℕ}
      → IsOptionalAgent o
      → Parses get_u16_le (encode_optional_agent o) t (raw_of o)
  unfolding encode_optional_agent
  optional_agent none h = u16 (omega arith)
  optional_agent (some id) h = u16 (omega arith)

  pub len16 : (n : ℕ) {t : List ℕ} → IsU16 n → Parses get_u16_le (b.put_u16_le (n % 65536)) t n
  len16 n h = rw (fits n h) (u16 h)

  pub spell_target :
      (v : SpellTarget) {t : List ℕ}
      → IsSpellTarget v
      → Parses decode_spell_target (encode_spell_target v) t v
  unfolding decode_spell_target encode_spell_target
  spell_target SpellTarget.none h = last _ (u8 (omega arith)) ret
  spell_target (SpellTarget.agent id) h = bind _ (u8 (omega arith)) (last _ (u16 h) ret)
  spell_target (SpellTarget.position p) h = bind _ (u8 (omega arith)) (last _ (position h) ret)

  param_text :
      (s : String) {t : List ℕ}
      → IsString s
      → 0 < length s
      → Parses decode_param (encode_string s) t (some s)
  unfolding decode_param encode_string
  param_text s h k =
      bind _ (len16 (length s) h.1) (rw (nonzero (length s) k) (last _ (text s h.0) ret))

  pub param :
      (o : Option String) {t : List ℕ} → IsParam o → Parses decode_param (encode_param o) t o
  unfolding decode_param encode_param
  param none h = last _ (u16 (omega arith)) ret
  param (some s) h = param_text s h.0 h.1
