-- ===== src/Wire/Server/Fields.antt =====
-- Writing the values inside what the server sends.
use rustibia_server.Prelude.{
  ℕ, ◌%◌, Bool, Option, none, some, List, [], ◌∷◌, ◌++◌, length, if◌then◌else◌,
}
use rustibia_server.Prelude.Int.{ℤ}
use rustibia_server.Geometry.{Position, Direction}
use rustibia_server.Vitals.{Pool}
use rustibia_server.Codes.Facing.{Facing}
use rustibia_server.Codes.SkillType.{SkillType, as_id as skill_id}
use rustibia_server.Wire.Buffer.{Buffer}
use rustibia_server.Wire.Text.{String}
use rustibia_server.Wire.Values.{ChatMessageType, as_id, OutfitColors, Color}
use rustibia_server.Wire.ServerValues.{
  Slots, ItemStack, TextMessageType, FloatingTextType, SkillProgress, ShopOfferEntry,
  SpellListEntry,
}

unfoldable pub encode_text_message_type : TextMessageType → ℕ
encode_text_message_type TextMessageType.action_denied = 0x01
encode_text_message_type TextMessageType.look = 0x02
encode_text_message_type TextMessageType.server_message = 0x03

unfoldable pub encode_chat_message_type : ChatMessageType → ℕ
encode_chat_message_type ChatMessageType.local = 0x01
encode_chat_message_type ChatMessageType.private = 0x02
encode_chat_message_type ChatMessageType.channel = 0x03

unfoldable pub encode_floating_text_type : FloatingTextType → ℕ
encode_floating_text_type FloatingTextType.hit_points = 0x01
encode_floating_text_type FloatingTextType.creature_say = 0x02

-- What a `for` loop over the list appends.
unfoldable pub each : {A : Type 0} → (A → List ℕ) → List A → List ℕ
each f [] = []
each f (x ∷ xs) = f x ++ each f xs

module _ ⦃b : Buffer⦄ where
  unfoldable pub encode_position : Position → List ℕ
  encode_position pos = b.put_u16_le pos.x ++ (b.put_u16_le pos.y ++ b.put_u8 pos.z)

  unfoldable pub encode_facing : Facing → List ℕ
  encode_facing Facing.north = b.put_u8 1
  encode_facing Facing.east = b.put_u8 2
  encode_facing Facing.south = b.put_u8 3
  encode_facing Facing.west = b.put_u8 4

  unfoldable pub encode_direction : Direction → List ℕ
  encode_direction Direction.north = b.put_u8 0x00
  encode_direction Direction.east = b.put_u8 0x01
  encode_direction Direction.west = b.put_u8 0x02
  encode_direction Direction.south = b.put_u8 0x03
  encode_direction Direction.north_east = b.put_u8 0x04
  encode_direction Direction.north_west = b.put_u8 0x05
  encode_direction Direction.south_east = b.put_u8 0x06
  encode_direction Direction.south_west = b.put_u8 0x07

  unfoldable pub encode_string : String → List ℕ
  encode_string s = b.put_u16_le (length s % 65536) ++ s

  unfoldable pub encode_short_string : String → List ℕ
  encode_short_string s = b.put_u8 (length s % 256) ++ s

  unfoldable pub encode_outfit : ℕ × OutfitColors → List ℕ
  encode_outfit o =
      b.put_u16_le o.0
      ++ (b.put_u8 o.1.head ++ (b.put_u8 o.1.body ++ (b.put_u8 o.1.legs ++ b.put_u8 o.1.feet)))

  unfoldable pub encode_pool : Pool → List ℕ
  encode_pool pool = b.put_u32_le pool.current ++ b.put_u32_le pool.maximum

  -- The `break` at an empty slot ends the loop.
  unfoldable pub encode_tile : Slots → List ℕ
  encode_tile [] = b.put_u16_le 0xFFFF
  encode_tile (none ∷ items) = b.put_u16_le 0xFFFF
  encode_tile (some (id, amount) ∷ items) =
      b.put_u16_le id ++ (b.put_u8 amount ++ encode_tile items)

  unfoldable pub encode_optional_item : Option ℕ → List ℕ
  encode_optional_item (some id) = b.put_u16_le id
  encode_optional_item none = b.put_u16_le 0xFFFF

  -- `if has_parent { 1 } else { 0 }`, and `u8::from`.
  unfoldable pub encode_flag : Bool → List ℕ
  encode_flag f = b.put_u8 (if f then 1 else 0)

  -- The `match` on an optional position.
  unfoldable pub encode_optional_position : Option Position → List ℕ
  encode_optional_position (some p) = b.put_u8 0x01 ++ encode_position p
  encode_optional_position none = b.put_u8 0x00

  -- The `match` on an optional colour.
  unfoldable pub encode_color : Option Color → List ℕ
  encode_color (some c) = b.put_u8 0x01 ++ (b.put_u8 c.red ++ (b.put_u8 c.green ++ b.put_u8 c.blue))
  encode_color none = b.put_u8 0x00

  unfoldable pub encode_skill : SkillType × SkillProgress → List ℕ
  encode_skill s =
      b.put_u8 (skill_id s.0) ++ (b.put_u16_le s.1.level ++ b.put_u16_le s.1.percent_bp)

  unfoldable pub encode_channel : ℕ × String → List ℕ
  encode_channel c = b.put_u16_le c.0 ++ encode_string c.1

  unfoldable pub encode_spell : SpellListEntry → List ℕ
  encode_spell spell =
      b.put_u16_le spell.id
      ++ (encode_string spell.name
          ++ (encode_string spell.words
              ++ (b.put_u16_le spell.level
                  ++ (b.put_u16_le spell.icon
                      ++ (encode_flag spell.aimable ++ b.put_u8 (as_id spell.group))))))

  unfoldable pub encode_offer : ShopOfferEntry → List ℕ
  encode_offer offer =
      b.put_u16_le offer.item_id
      ++ (b.put_u8 offer.subtype
          ++ (b.put_u32_le offer.weight ++ (b.put_u32_le offer.buy ++ b.put_u32_le offer.sell)))

  unfoldable pub encode_good : ℕ × ℕ × ℕ → List ℕ
  encode_good good = b.put_u16_le good.0 ++ (b.put_u8 good.1 ++ b.put_u16_le good.2)

  -- A floor of `PlayerWalkAck`.
  unfoldable pub encode_floor : ℕ × List ItemStack → List ℕ
  encode_floor f = b.put_u8 f.0 ++ (b.put_u8 (length f.1 % 256) ++ each encode_tile f.1)

  unfoldable pub encode_delta : ℤ × ℤ → List ℕ
  encode_delta d = b.put_i8 d.0 ++ b.put_i8 d.1
