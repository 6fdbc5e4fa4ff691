-- ===== src/Wire/Server/Decode.antt =====
-- Reading what a client sends.
use rustibia_server.Prelude.{
  ℕ, ◌+◌, ◌-◌, ◌*◌, ◌==◌, ltb, Option, none, some, List, [], ◌∷◌, length, if◌then◌else◌,
}
use rustibia_server.Geometry.{Position, Direction}
use rustibia_server.Codes.Facing.{Facing}
use rustibia_server.Wire.Buffer.{Buffer}
use rustibia_server.Wire.Reader.{Result, ok, err, Reader, ◌>>=◌, return, fail, get, ok_or}
use rustibia_server.Wire.Text.{String, from_utf8}
use rustibia_server.Wire.Values.{ClientItemRef, ChatMessageType, SayTarget, SpellTarget}
use rustibia_server.Wire.ClientMessage.{
  ClientMessage, ping, login, move_player, get_player_position, move_item, use_item,
  close_container, open_parent_container, change_direction, logout, use_item_with, look, say,
  request_channels, open_channel, close_channel, open_pm_chat, set_target, cast_spell, shop_buy,
  shop_sell, close_shop, cli_ping, cli_login, cli_move_player, cli_get_player_pos, cli_move_item,
  cli_use_item, cli_close_container, cli_open_parent_container, cli_change_direction, cli_logout,
  cli_use_item_with, cli_look, cli_say, cli_request_channels, cli_open_channel, cli_close_channel,
  cli_open_pm_chat, cli_set_target, cli_cast_spell, cli_shop_buy, cli_shop_sell, cli_close_shop,
}

-- Of `MessageDecodeError`; an error of reading never comes from the codec.
pub data MessageDecodeError : Type 0 where
  wrong_sequence : MessageDecodeError

abbrev pub ServerReader : Type 0 → Type 0
ServerReader A = Reader MessageDecodeError A

unfoldable pub decode_direction : ℕ → ServerReader Direction
decode_direction n =
    if n == 0x00
    then return Direction.north
    else if n == 0x01
    then return Direction.east
    else if n == 0x02
    then return Direction.west
    else if n == 0x03
    then return Direction.south
    else if n == 0x04
    then return Direction.north_east
    else if n == 0x05
    then return Direction.north_west
    else if n == 0x06
    then return Direction.south_east
    else if n == 0x07
    then return Direction.south_west
    else fail wrong_sequence

unfoldable pub decode_facing : ℕ → ServerReader Facing
decode_facing n =
    if n == 1
    then return Facing.north
    else if n == 2
    then return Facing.east
    else if n == 3
    then return Facing.south
    else if n == 4
    then return Facing.west
    else fail wrong_sequence

unfoldable pub decode_chat_message_type : ℕ → ServerReader ChatMessageType
decode_chat_message_type n =
    if n == 0x01
    then return ChatMessageType.local
    else if n == 0x02
    then return ChatMessageType.private
    else if n == 0x03
    then return ChatMessageType.channel
    else fail wrong_sequence

unfoldable pub decode_optional_agent : ℕ → Option ℕ
decode_optional_agent raw = if raw == 0xFFFF then none else some raw

-- `String::from_utf8(..).map_err(..)?`
unfoldable pub text_of : List ℕ → ServerReader String
text_of bytes = ok_or wrong_sequence (from_utf8 bytes)

-- `u16::from_le_bytes`
abbrev pub from_le_bytes : ℕ → ℕ → ℕ
from_le_bytes b0 b1 = b0 + b1 * 256

module _ ⦃b : Buffer⦄ where
  unfoldable pub get_u8 : ServerReader ℕ
  get_u8 = get b.try_get_u8

  unfoldable pub get_u16_le : ServerReader ℕ
  get_u16_le = get b.try_get_u16_le

  unfoldable pub get_u32_le : ServerReader ℕ
  get_u32_le = get b.try_get_u32_le

  unfoldable pub split_to : ℕ → ServerReader (List ℕ)
  split_to n = get (b.split_to n)

  unfoldable pub decode_position : ServerReader Position
  decode_position = do
    x ← get_u16_le
    y ← get_u16_le
    z ← get_u8
    return (record { x = x; y = y; z = z })

  -- The three fields of a `ClientItemRef` where they stand in its order.
  unfoldable pub decode_item_ref : ServerReader ClientItemRef
  decode_item_ref = do
    position ← decode_position
    item_id ← get_u16_le
    stack_index ← get_u8
    return (record { position = position; item_id = item_id; stack_index = stack_index })

  unfoldable pub decode_spell_target : ServerReader SpellTarget
  decode_spell_target = do
    tag ← get_u8
    if tag == 0x00
        then return SpellTarget.none
        else if tag == 0x01
        then (do id ← get_u16_le; return (SpellTarget.agent id))
        else if tag == 0x02
        then (do p ← decode_position; return (SpellTarget.position p))
        else fail wrong_sequence

  unfoldable pub decode_text : ℕ → ServerReader String
  decode_text len = do bytes ← split_to len; text_of bytes

  unfoldable pub decode_param : ServerReader (Option String)
  decode_param = do
    len ← get_u16_le
    if len == 0 then return none else (do s ← decode_text len; return (some s))

  -- Whom a `Say` is to, and how many bytes its text has; `remaining` is what the payload still has.
  unfoldable pub decode_say_target : ChatMessageType → ℕ → ServerReader (SayTarget × ℕ)
  decode_say_target ChatMessageType.local remaining = return (SayTarget.local, remaining)
  decode_say_target ChatMessageType.channel remaining =
      if ltb remaining 2
      then fail wrong_sequence
      else (do id ← get_u16_le; return (SayTarget.channel id, remaining - 2))
  decode_say_target ChatMessageType.private remaining =
      if ltb remaining 2 then fail wrong_sequence else (do
        name_len ← get_u16_le
        if ltb (remaining - 2) name_len then fail wrong_sequence else (do
          name ← decode_text name_len
          return (SayTarget.player name, remaining - 2 - name_len)))

  -- The arm of `CLI_SAY`; `payload_len - 2` cannot underflow behind its guard.
  unfoldable pub decode_say : ℕ → ServerReader ClientMessage
  decode_say payload_len = if ltb payload_len 2 then fail wrong_sequence else (do
    tag ← get_u8
    kind ← decode_chat_message_type tag
    (target, remaining) ← decode_say_target kind (payload_len - 2)
    message ← decode_text remaining
    return (say message target))

  -- The arms of the `match` on the opcode.
  unfoldable pub decode_body : ℕ → ℕ → ServerReader ClientMessage
  decode_body payload_len opcode =
      if opcode == cli_ping
      then return ping
      else if opcode == cli_login
      then (do auth_token ← decode_text (payload_len - 1); return (login auth_token))
      else if opcode == cli_move_player
      then (do n ← get_u8; direction ← decode_direction n; return (move_player direction))
      else if opcode == cli_get_player_pos
      then return get_player_position
      else if opcode == cli_move_item
      then (do
        from ← decode_position
        item_id ← get_u16_le
        amount ← get_u8
        stack_index ← get_u8
        to ← decode_position
        return (
            move_item (record { position = from; item_id = item_id; stack_index = stack_index })
              amount to))
      else if opcode == cli_use_item
      then (do item ← decode_item_ref; return (use_item item))
      else if opcode == cli_close_container
      then (do id ← get_u16_le; return (close_container id))
      else if opcode == cli_open_parent_container
      then (do id ← get_u16_le; return (open_parent_container id))
      else if opcode == cli_change_direction
      then (do n ← get_u8; direction ← decode_facing n; return (change_direction direction))
      else if opcode == cli_logout
      then return logout
      else if opcode == cli_use_item_with
      then (do
        source ← decode_item_ref
        target ← decode_item_ref
        raw ← get_u16_le
        return (use_item_with source target (decode_optional_agent raw)))
      else if opcode == cli_look
      then (do p ← decode_position; return (look p))
      else if opcode == cli_say
      then decode_say payload_len
      else if opcode == cli_request_channels
      then return request_channels
      else if opcode == cli_open_channel
      then (do id ← get_u16_le; return (open_channel id))
      else if opcode == cli_close_channel
      then (do id ← get_u16_le; return (close_channel id))
      else if opcode == cli_open_pm_chat
      then (do name ← decode_text (payload_len - 1); return (open_pm_chat name))
      else if opcode == cli_set_target
      then (do
        raw ← get_u16_le
        seq ← get_u32_le
        return (set_target (decode_optional_agent raw) seq))
      else if opcode == cli_cast_spell
      then (do
        id ← get_u16_le
        target ← decode_spell_target
        param ← decode_param
        return (cast_spell id target param))
      else if opcode == cli_shop_buy
      then (do
        item_id ← get_u16_le
        subtype ← get_u8
        amount ← get_u8
        return (shop_buy item_id subtype amount))
      else if opcode == cli_shop_sell
      then (do
        item_id ← get_u16_le
        subtype ← get_u8
        amount ← get_u8
        return (shop_sell item_id subtype amount))
      else if opcode == cli_close_shop
      then return close_shop
      else fail wrong_sequence

  unfoldable pub decode_message : ℕ → ServerReader ClientMessage
  decode_message payload_len = do opcode ← get_u8; decode_body payload_len opcode

  unfoldable pub decode : List ℕ → Result MessageDecodeError (Option ClientMessage × List ℕ)
  decode [] = ok (none, [])
  decode (b0 ∷ []) = ok (none, b0 ∷ [])
  decode (b0 ∷ b1 ∷ rest) =
      let payload_len = from_le_bytes b0 b1 in
      if ltb (2 + length rest) (2 + payload_len)
      then ok (none, b0 ∷ b1 ∷ rest)
      else if payload_len == 0
      then err wrong_sequence
      else (do message ← decode_message payload_len; return (some message)) rest
