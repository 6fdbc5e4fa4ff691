-- ===== src/Wire/Loadtest/Decode.antt =====
-- Reading what the server sends.
use rustibia_server.Prelude.{
  ℕ, ◌+◌, ◌^◌, ◌%◌, ◌==◌, ltb, Option, none, some, List, [], ◌∷◌, length, if◌then◌else◌,
}
use rustibia_server.Wire.Buffer.{Buffer}
use rustibia_server.Wire.Reader.{
  Result, ok, err, panic, spin, ◌>>=◌, return, fail, read_times, map_err,
}
use rustibia_server.Wire.ServerValues.{viewport_size}
use rustibia_server.Wire.ServerMessage.{
  ServerMessage, pong, login_error, describe_map, tile_updated, player_walk_ack, player_position,
  describe_player, text_message, open_container, update_container, container_closed,
  player_walk_denied, inventory_slot_updated, player_capacity_updated, agent_changed_direction,
  remove_agent, move_agent, spawn_agent, teleport_agent, chat_message, channel_list,
  private_chat_opened, floating_text, target_lost, agent_life_changed, show_effect, launch_missile,
  agent_mana_updated, player_skills, skill_updated, experience_updated, spell_cast, spell_list,
  agent_speed_updated, player_status, damaged_by, player_died, shop, shop_closed, srv_pong,
  srv_login_error, srv_describe_map, srv_tile_updated, srv_player_walk_ack, srv_player_pos,
  srv_describe_player, srv_text_message, srv_open_container, srv_update_container,
  srv_container_closed, srv_player_walk_denied, srv_inventory_slot_updated,
  srv_player_capacity_updated, srv_agent_direction_changed, srv_remove_agent, srv_move_agent,
  srv_spawn_agent, srv_teleport_agent, srv_chat_message, srv_channel_list, srv_private_chat_opened,
  srv_floating_text, srv_target_lost, srv_agent_life_updated, srv_show_effect, srv_launch_missile,
  srv_agent_mana_updated, srv_player_skills, srv_skill_updated, srv_experience_updated,
  srv_spell_cast, srv_spell_list, srv_agent_speed_updated, srv_player_status, srv_damaged_by,
  srv_died, srv_shop, srv_shop_closed,
}
use rustibia_server.Wire.Server.Decode.{from_le_bytes}
use rustibia_server.Wire.Loadtest.Read.{
  WireError, malformed, unknown_opcode, with_opcode, WireReader, try_get_u8, try_get_u16_le,
  try_get_u32_le, try_get_u64_le, read_string, read_short_string, read_position, read_direction,
  read_facing, read_agent_kind, read_slot, read_skill_type, read_chat_message_type,
  read_text_message_type, read_floating_text_type, read_optional_item, read_flag, read_pool,
  read_outfit, read_item_stack, read_container_items, read_optional, read_color,
  read_skill_progress,
}
use rustibia_server.Wire.Loadtest.Lists.{
  read_channels, read_skills, read_spells, read_offers, read_goods, read_floors, read_deltas,
}

pub record LoadtestCodec : Type 0 where
  pub bytes_read : ℕ

-- `payload.first().copied().unwrap_or(0)`
abbrev pub first_or_zero : List ℕ → ℕ
first_or_zero [] = 0
first_or_zero (x ∷ xs) = x

module _ ⦃b : Buffer⦄ where
  unfoldable pub decode_describe_map : WireReader ServerMessage
  decode_describe_map = do
    center ← read_position
    floor ← try_get_u8
    tiles ← read_times viewport_size read_item_stack
    return (describe_map tiles center floor)

  unfoldable pub decode_player_walk_ack : WireReader ServerMessage
  decode_player_walk_ack = do
    position ← read_position
    tiles ← read_floors
    return (player_walk_ack position tiles)

  unfoldable pub decode_describe_player : WireReader ServerMessage
  decode_describe_player = do
    agent_id ← try_get_u16_le
    position ← read_position
    facing ← read_facing
    name ← read_string
    level ← try_get_u16_le
    life ← read_pool
    mana ← read_pool
    outfit ← read_outfit
    speed ← try_get_u16_le
    capacity ← try_get_u32_le
    inventory_head ← read_optional_item
    inventory_amulet ← read_optional_item
    inventory_backpack ← read_optional_item
    inventory_chest ← read_optional_item
    inventory_right_hand ← read_optional_item
    inventory_left_hand ← read_optional_item
    inventory_legs ← read_optional_item
    inventory_feet ← read_optional_item
    inventory_ring ← read_optional_item
    inventory_trinket ← read_optional_item
    return (
        describe_player agent_id position facing name level life mana outfit speed capacity
          inventory_head inventory_amulet inventory_backpack inventory_chest inventory_right_hand
          inventory_left_hand inventory_legs inventory_feet inventory_ring inventory_trinket)

  unfoldable pub decode_open_container : WireReader ServerMessage
  decode_open_container = do
    container_id ← try_get_u16_le
    capacity ← try_get_u8
    has_parent ← read_flag
    title ← read_short_string
    items ← read_container_items
    return (open_container container_id capacity has_parent title items)

  unfoldable pub decode_move_agent : WireReader ServerMessage
  decode_move_agent = do
    agent_id ← try_get_u16_le
    direction ← read_direction
    from ← read_position
    stack ← try_get_u8
    return (move_agent agent_id direction from stack)

  unfoldable pub decode_spawn_agent : WireReader ServerMessage
  decode_spawn_agent = do
    agent_id ← try_get_u16_le
    position ← read_position
    facing ← read_facing
    name ← read_string
    life ← try_get_u32_le
    outfit ← read_outfit
    speed ← try_get_u16_le
    kind ← read_agent_kind
    stack ← try_get_u8
    return (spawn_agent agent_id outfit position facing name life speed kind stack)

  unfoldable pub decode_teleport_agent : WireReader ServerMessage
  decode_teleport_agent = do
    agent_id ← try_get_u16_le
    position ← read_position
    stack ← try_get_u8
    return (teleport_agent agent_id position stack)

  unfoldable pub decode_chat_message : WireReader ServerMessage
  decode_chat_message = do
    author ← read_string
    message_type ← read_chat_message_type
    channel ← try_get_u16_le
    position ← read_optional read_position
    message ← read_string
    return (chat_message author message_type channel position message)

  unfoldable pub decode_channel_list : WireReader ServerMessage
  decode_channel_list = do channels ← read_channels; return (channel_list channels)

  unfoldable pub decode_floating_text : WireReader ServerMessage
  decode_floating_text = do
    text ← read_string
    position ← read_position
    text_type ← read_floating_text_type
    color ← read_optional read_color
    return (floating_text text position text_type color)

  unfoldable pub decode_agent_life_changed : WireReader ServerMessage
  decode_agent_life_changed = do
    agent_id ← try_get_u16_le
    current ← try_get_u32_le
    max ← try_get_u32_le
    return (agent_life_changed agent_id current max)

  unfoldable pub decode_show_effect : WireReader ServerMessage
  decode_show_effect = do
    effect_id ← try_get_u16_le
    position ← read_position
    delta ← read_deltas
    return (show_effect effect_id position delta)

  unfoldable pub decode_launch_missile : WireReader ServerMessage
  decode_launch_missile = do
    from ← read_position
    to ← read_position
    missile_id ← try_get_u16_le
    return (launch_missile from to missile_id)

  unfoldable pub decode_agent_mana_updated : WireReader ServerMessage
  decode_agent_mana_updated = do
    agent_id ← try_get_u16_le
    current ← try_get_u32_le
    max ← try_get_u32_le
    return (agent_mana_updated agent_id current max)

  unfoldable pub decode_player_skills : WireReader ServerMessage
  decode_player_skills = do
    experience ← try_get_u64_le
    skills ← read_skills
    return (player_skills experience skills)

  unfoldable pub decode_spell_cast : WireReader ServerMessage
  decode_spell_cast = do
    spell ← try_get_u16_le
    spell_cooldown_ms ← try_get_u32_le
    group_cooldown_ms ← try_get_u32_le
    return (spell_cast spell spell_cooldown_ms group_cooldown_ms)

  unfoldable pub decode_spell_list : WireReader ServerMessage
  decode_spell_list = do spells ← read_spells; return (spell_list spells)

  unfoldable pub decode_shop : WireReader ServerMessage
  decode_shop = do
    npc_name ← read_string
    money ← try_get_u64_le
    offers ← read_offers
    goods ← read_goods
    return (shop npc_name money offers goods)

  -- The arms of the `match` on the opcode; the longer ones are the functions above.
  unfoldable pub decode_body : ℕ → WireReader ServerMessage
  decode_body opcode =
      if opcode == srv_pong
      then return pong
      else if opcode == srv_login_error
      then return login_error
      else if opcode == srv_describe_map
      then decode_describe_map
      else if opcode == srv_tile_updated
      then (do
        position ← read_position
        items ← read_item_stack
        return (tile_updated position items))
      else if opcode == srv_player_walk_ack
      then decode_player_walk_ack
      else if opcode == srv_player_pos
      then (do position ← read_position; return (player_position position))
      else if opcode == srv_describe_player
      then decode_describe_player
      else if opcode == srv_text_message
      then (do
        text ← read_string
        message_type ← read_text_message_type
        return (text_message text message_type))
      else if opcode == srv_open_container
      then decode_open_container
      else if opcode == srv_update_container
      then (do
        container_id ← try_get_u16_le
        items ← read_container_items
        return (update_container container_id items))
      else if opcode == srv_container_closed
      then (do container_id ← try_get_u16_le; return (container_closed container_id))
      else if opcode == srv_player_walk_denied
      then return player_walk_denied
      else if opcode == srv_inventory_slot_updated
      then (do
        slot ← read_slot
        item_id ← read_optional_item
        return (inventory_slot_updated slot item_id))
      else if opcode == srv_player_capacity_updated
      then (do cap ← try_get_u32_le; return (player_capacity_updated cap))
      else if opcode == srv_agent_direction_changed
      then (do
        agent_id ← try_get_u16_le
        facing ← read_facing
        return (agent_changed_direction agent_id facing))
      else if opcode == srv_remove_agent
      then (do agent_id ← try_get_u16_le; return (remove_agent agent_id))
      else if opcode == srv_move_agent
      then decode_move_agent
      else if opcode == srv_spawn_agent
      then decode_spawn_agent
      else if opcode == srv_teleport_agent
      then decode_teleport_agent
      else if opcode == srv_chat_message
      then decode_chat_message
      else if opcode == srv_channel_list
      then decode_channel_list
      else if opcode == srv_private_chat_opened
      then (do name ← read_string; return (private_chat_opened name))
      else if opcode == srv_floating_text
      then decode_floating_text
      else if opcode == srv_target_lost
      then (do seq ← try_get_u32_le; return (target_lost seq))
      else if opcode == srv_agent_life_updated
      then decode_agent_life_changed
      else if opcode == srv_show_effect
      then decode_show_effect
      else if opcode == srv_launch_missile
      then decode_launch_missile
      else if opcode == srv_agent_mana_updated
      then decode_agent_mana_updated
      else if opcode == srv_player_skills
      then decode_player_skills
      else if opcode == srv_skill_updated
      then (do
        skill ← read_skill_type
        progress ← read_skill_progress
        return (skill_updated skill progress))
      else if opcode == srv_experience_updated
      then (do experience ← try_get_u64_le; return (experience_updated experience))
      else if opcode == srv_spell_cast
      then decode_spell_cast
      else if opcode == srv_spell_list
      then decode_spell_list
      else if opcode == srv_agent_speed_updated
      then (do
        agent_id ← try_get_u16_le
        speed ← try_get_u16_le
        return (agent_speed_updated agent_id speed))
      else if opcode == srv_player_status
      then (do status ← try_get_u32_le; return (player_status status))
      else if opcode == srv_damaged_by
      then (do agent_id ← try_get_u16_le; return (damaged_by agent_id))
      else if opcode == srv_died
      then return player_died
      else if opcode == srv_shop
      then decode_shop
      else if opcode == srv_shop_closed
      then return shop_closed
      else fail (unknown_opcode opcode)

  unfoldable pub decode_message : WireReader ServerMessage
  decode_message = do opcode ← try_get_u8; map_err (with_opcode opcode) (decode_body opcode)

  -- A payload is a message and nothing else.
  unfoldable pub decode_payload : List ℕ → Result WireError ServerMessage
  decode_payload payload = elim (decode_message payload) [
    | ok (message, []) ↦ ok message
    | ok (message, y ∷ ys) ↦ err (malformed (first_or_zero payload))
    | err e ↦ err e
    | panic ↦ panic
    | spin ↦ spin
  ]

  -- `decode` behind the length, once the whole payload is there.
  unfoldable pub decode_frame : ℕ → List ℕ → Result WireError (Option ServerMessage × List ℕ)
  decode_frame payload_len rest = elim (b.split_to payload_len rest) [
    | none ↦ panic
    | some (payload, left) ↦ elim (decode_payload payload) [
      | ok message ↦ ok (some message, left)
      | err e ↦ err e
      | panic ↦ panic
      | spin ↦ spin
    ]
  ]

  -- The codec after the call, the answer and the buffer. The count of bytes wraps in a release
  -- build.
  unfoldable pub decode :
      LoadtestCodec → List ℕ → LoadtestCodec × Result WireError (Option ServerMessage × List ℕ)
  decode codec [] = (codec, ok (none, []))
  decode codec (b0 ∷ []) = (codec, ok (none, b0 ∷ []))
  decode codec (b0 ∷ b1 ∷ rest) =
      let payload_len = from_le_bytes b0 b1 in
      if ltb (2 + length rest) (2 + payload_len) then (codec, ok (none, b0 ∷ b1 ∷ rest)) else (
        record codec { bytes_read = (codec.bytes_read + (2 + payload_len)) % 2 ^ 64 },
        decode_frame payload_len rest,
      )
