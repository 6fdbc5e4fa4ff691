-- ===== src/Wire/Loadtest/Encode.antt =====
-- Writing what a client sends.
use rustibia_server.Prelude.{ℕ, ◌%◌, ◌/◌, Option, none, some, List, [], ◌∷◌, ◌++◌, length}
use rustibia_server.Geometry.{Position, Direction}
use rustibia_server.Codes.Facing.{Facing}
use rustibia_server.Wire.Buffer.{Buffer}
use rustibia_server.Wire.Text.{String}
use rustibia_server.Wire.Values.{ClientItemRef, SayTarget, SpellTarget}
use rustibia_server.Wire.ClientMessage.{
  ClientMessage, ping, login, move_player, get_player_position, move_item, use_item,
  close_container, open_parent_container, change_direction, logout, use_item_with, look, say,
  request_channels, open_channel, close_channel, open_pm_chat, set_target, cast_spell, shop_buy,
  shop_sell, close_shop, cli_ping, cli_login, cli_move_player, cli_get_player_pos, cli_move_item,
  cli_use_item, cli_close_container, cli_open_parent_container, cli_change_direction, cli_logout,
  cli_use_item_with, cli_look, cli_say, cli_request_channels, cli_open_channel, cli_close_channel,
  cli_open_pm_chat, cli_set_target, cli_cast_spell, cli_shop_buy, cli_shop_sell, cli_close_shop,
}

unfoldable pub encode_direction : Direction → ℕ
encode_direction Direction.north = 0x00
encode_direction Direction.east = 0x01
encode_direction Direction.west = 0x02
encode_direction Direction.south = 0x03
encode_direction Direction.north_east = 0x04
encode_direction Direction.north_west = 0x05
encode_direction Direction.south_east = 0x06
encode_direction Direction.south_west = 0x07

unfoldable pub encode_facing : Facing → ℕ
encode_facing Facing.north = 1
encode_facing Facing.east = 2
encode_facing Facing.south = 3
encode_facing Facing.west = 4

-- `u16::to_le_bytes`
abbrev pub to_le_bytes : ℕ → List ℕ
to_le_bytes n = n % 256 ∷ n / 256 % 256 ∷ []

module _ ⦃b : Buffer⦄ where
  unfoldable pub encode_position : Position → List ℕ
  encode_position pos = b.put_u16_le pos.x ++ (b.put_u16_le pos.y ++ b.put_u8 pos.z)

  unfoldable pub encode_item_ref : ClientItemRef → List ℕ
  encode_item_ref item =
      encode_position item.position ++ (b.put_u16_le item.item_id ++ b.put_u8 item.stack_index)

  unfoldable pub encode_optional_agent : Option ℕ → List ℕ
  encode_optional_agent none = b.put_u16_le 0xFFFF
  encode_optional_agent (some id) = b.put_u16_le id

  unfoldable pub encode_string : String → List ℕ
  encode_string s = b.put_u16_le (length s % 65536) ++ s

  unfoldable pub encode_param : Option String → List ℕ
  encode_param (some s) = encode_string s
  encode_param none = b.put_u16_le 0

  unfoldable pub encode_spell_target : SpellTarget → List ℕ
  encode_spell_target SpellTarget.none = b.put_u8 0x00
  encode_spell_target (SpellTarget.agent agent_id) = b.put_u8 0x01 ++ b.put_u16_le agent_id
  encode_spell_target (SpellTarget.position p) = b.put_u8 0x02 ++ encode_position p

  unfoldable pub encode_say_target : SayTarget → List ℕ
  encode_say_target SayTarget.local = b.put_u8 0x01
  encode_say_target (SayTarget.channel c) = b.put_u8 0x03 ++ b.put_u16_le c
  encode_say_target (SayTarget.player name) = b.put_u8 0x02 ++ encode_string name

  -- What the `match` of `encode` appends behind the length.
  unfoldable pub encode_message : ClientMessage → List ℕ
  encode_message ping = b.put_u8 cli_ping
  encode_message (login auth_token) = b.put_u8 cli_login ++ auth_token
  encode_message (move_player direction) =
      b.put_u8 cli_move_player ++ b.put_u8 (encode_direction direction)
  encode_message get_player_position = b.put_u8 cli_get_player_pos
  encode_message (move_item item amount to) =
      b.put_u8 cli_move_item
      ++ (encode_position item.position
          ++ (b.put_u16_le item.item_id
              ++ (b.put_u8 amount ++ (b.put_u8 item.stack_index ++ encode_position to))))
  encode_message (use_item item) = b.put_u8 cli_use_item ++ encode_item_ref item
  encode_message (close_container id) = b.put_u8 cli_close_container ++ b.put_u16_le id
  encode_message (open_parent_container id) = b.put_u8 cli_open_parent_container ++ b.put_u16_le id
  encode_message (change_direction direction) =
      b.put_u8 cli_change_direction ++ b.put_u8 (encode_facing direction)
  encode_message logout = b.put_u8 cli_logout
  encode_message (use_item_with source target target_agent) =
      b.put_u8 cli_use_item_with
      ++ (encode_item_ref source ++ (encode_item_ref target ++ encode_optional_agent target_agent))
  encode_message (look p) = b.put_u8 cli_look ++ encode_position p
  encode_message (say message target) = b.put_u8 cli_say ++ (encode_say_target target ++ message)
  encode_message request_channels = b.put_u8 cli_request_channels
  encode_message (open_channel id) = b.put_u8 cli_open_channel ++ b.put_u16_le id
  encode_message (close_channel id) = b.put_u8 cli_close_channel ++ b.put_u16_le id
  encode_message (open_pm_chat name) = b.put_u8 cli_open_pm_chat ++ name
  encode_message (set_target agent_id seq) =
      b.put_u8 cli_set_target ++ (encode_optional_agent agent_id ++ b.put_u32_le seq)
  encode_message (cast_spell spell_id target param) =
      b.put_u8 cli_cast_spell
      ++ (b.put_u16_le spell_id ++ (encode_spell_target target ++ encode_param param))
  encode_message (shop_buy item_id subtype amount) =
      b.put_u8 cli_shop_buy ++ (b.put_u16_le item_id ++ (b.put_u8 subtype ++ b.put_u8 amount))
  encode_message (shop_sell item_id subtype amount) =
      b.put_u8 cli_shop_sell ++ (b.put_u16_le item_id ++ (b.put_u8 subtype ++ b.put_u8 amount))
  encode_message close_shop = b.put_u8 cli_close_shop

  -- The bytes that `encode` appends to its buffer: the length in front is written last.
  unfoldable pub encode : ClientMessage → List ℕ
  encode item = let body = encode_message item in to_le_bytes (length body % 65536) ++ body
