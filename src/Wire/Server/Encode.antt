-- ===== src/Wire/Server/Encode.antt =====
-- Writing what the server sends.
use rustibia_server.Prelude.{ℕ, ◌%◌, Bool, Option, List, ◌++◌, length}
use rustibia_server.Prelude.Int.{ℤ}
use rustibia_server.Geometry.{Position, Direction}
use rustibia_server.Vitals.{Pool}
use rustibia_server.Codes.Facing.{Facing}
use rustibia_server.Codes.AgentKind.{AgentKind, as_id as kind_id}
use rustibia_server.Codes.InventorySlot.{as_id as slot_id}
use rustibia_server.Codes.SkillType.{SkillType, as_id as skill_id}
use rustibia_server.Wire.Buffer.{Buffer}
use rustibia_server.Wire.Text.{String}
use rustibia_server.Wire.Values.{ChatMessageType, OutfitColors, Color}
use rustibia_server.Wire.Loadtest.Encode.{to_le_bytes}
use rustibia_server.Wire.ServerValues.{
  Slots, ItemStack, FloatingTextType, SkillProgress, ShopOfferEntry, SpellListEntry,
}
use rustibia_server.Wire.ServerMessage.{
  ServerMessage, pong, login_error, describe_map, tile_updated, player_walk_ack, player_position,
  describe_player, text_message, open_container, update_container, container_closed,
  player_walk_denied, inventory_slot_updated, player_capacity_updated, agent_changed_direction,
  remove_agent, move_agent, spawn_agent, teleport_agent, chat_message, channel_list,
  private_chat_opened, floating_text, target_lost, agent_life_changed, show_effect, launch_missile,
  agent_mana_updated, player_skills, skill_updated, experience_updated, spell_cast, spell_list,
  agent_speed_updated, player_status, damaged_by, player_died, shop, shop_closed, srv_pong,
  srv_login_error, srv_describe_map, srv_tile_updated, srv_player_walk_ack, srv_player_pos,
  srv_describe_player, srv_text_message, srv_open_container, srv_update_container,
  srv_container_closed, srv_player_walk_denied, srv_inventory_slot_updated,
  srv_player_capacity_updated, srv_agent_direction_changed, srv_remove_agent, srv_move_agent,
  srv_spawn_agent, srv_teleport_agent, srv_chat_message, srv_channel_list, srv_private_chat_opened,
  srv_floating_text, srv_target_lost, srv_agent_life_updated, srv_show_effect, srv_launch_missile,
  srv_agent_mana_updated, srv_player_skills, srv_skill_updated, srv_experience_updated,
  srv_spell_cast, srv_spell_list, srv_agent_speed_updated, srv_player_status, srv_damaged_by,
  srv_died, srv_shop, srv_shop_closed,
}
use rustibia_server.Wire.Server.Fields.{
  encode_position, encode_facing, encode_direction, encode_string, encode_short_string,
  encode_outfit, encode_pool, encode_tile, encode_optional_item, encode_flag,
  encode_optional_position, encode_color, encode_skill, encode_channel, encode_spell, encode_offer,
  encode_good, encode_floor, encode_delta, encode_text_message_type, encode_chat_message_type,
  encode_floating_text_type, each,
}

module _ ⦃b : Buffer⦄ where
  unfoldable pub encode_describe_map : List ItemStack → Position → ℕ → List ℕ
  encode_describe_map tiles center floor =
      b.put_u8 srv_describe_map
      ++ (encode_position center ++ (b.put_u8 floor ++ each encode_tile tiles))

  unfoldable pub encode_player_walk_ack : Position → List (ℕ × List ItemStack) → List ℕ
  encode_player_walk_ack position tiles =
      b.put_u8 srv_player_walk_ack
      ++ (encode_position position ++ (each encode_floor tiles ++ b.put_u8 0xFF))

  unfoldable pub encode_describe_player :
      ℕ
      → Position
      → Facing
      → String
      → ℕ
      → Pool
      → Pool
      → (ℕ × OutfitColors)
      → ℕ
      → ℕ
      → Option ℕ
      → Option ℕ
      → Option ℕ
      → Option ℕ
      → Option ℕ
      → Option ℕ
      → Option ℕ
      → Option ℕ
      → Option ℕ
      → Option ℕ
      → List ℕ
  encode_describe_player agent_id position facing name level life mana outfit speed capacity
        inventory_head inventory_amulet inventory_backpack inventory_chest inventory_right_hand
        inventory_left_hand inventory_legs inventory_feet inventory_ring inventory_trinket =
      b.put_u8 srv_describe_player
      ++ (b.put_u16_le agent_id
          ++ (encode_position position
              ++ (encode_facing facing
                  ++ (encode_string name
                      ++ (b.put_u16_le level
                          ++ (encode_pool life
                              ++ (encode_pool mana
                                  ++ (encode_outfit outfit
                                      ++ (b.put_u16_le speed
                                          ++ (b.put_u32_le capacity
                                              ++ (encode_optional_item inventory_head
                                                  ++ (encode_optional_item inventory_amulet
                                                      ++ (encode_optional_item inventory_backpack
                                                          ++ (encode_optional_item inventory_chest
                                                            ++ (encode_optional_item
                                                            inventory_right_hand
                                                            ++ (encode_optional_item
                                                            inventory_left_hand
                                                            ++ (encode_optional_item inventory_legs
                                                            ++ (encode_optional_item inventory_feet
                                                            ++ (encode_optional_item inventory_ring
                                                            ++ encode_optional_item
                                                            inventory_trinket)))))))))))))))))))

  unfoldable pub encode_open_container : ℕ → ℕ → Bool → String → Slots → List ℕ
  encode_open_container container_id capacity has_parent title items =
      b.put_u8 srv_open_container
      ++ (b.put_u16_le container_id
          ++ (b.put_u8 capacity
              ++ (encode_flag has_parent ++ (encode_short_string title ++ encode_tile items))))

  unfoldable pub encode_move_agent : ℕ → Direction → Position → ℕ → List ℕ
  encode_move_agent agent_id direction from stack =
      b.put_u8 srv_move_agent
      ++ (b.put_u16_le agent_id
          ++ (encode_direction direction ++ (encode_position from ++ b.put_u8 stack)))

  unfoldable pub encode_spawn_agent :
      ℕ → (ℕ × OutfitColors) → Position → Facing → String → ℕ → ℕ → AgentKind → ℕ → List ℕ
  encode_spawn_agent agent_id outfit position facing name life speed kind stack =
      b.put_u8 srv_spawn_agent
      ++ (b.put_u16_le agent_id
          ++ (encode_position position
              ++ (encode_facing facing
                  ++ (encode_string name
                      ++ (b.put_u32_le life
                          ++ (encode_outfit outfit
                              ++ (b.put_u16_le speed
                                  ++ (b.put_u8 (kind_id kind) ++ b.put_u8 stack))))))))

  unfoldable pub encode_chat_message :
      String → ChatMessageType → ℕ → Option Position → String → List ℕ
  encode_chat_message author message_type channel position message =
      b.put_u8 srv_chat_message
      ++ (encode_string author
          ++ (b.put_u8 (encode_chat_message_type message_type)
              ++ (b.put_u16_le channel
                  ++ (encode_optional_position position ++ encode_string message))))

  unfoldable pub encode_channel_list : List (ℕ × String) → List ℕ
  encode_channel_list channels =
      b.put_u8 srv_channel_list
      ++ (b.put_u16_le (length channels % 65536) ++ each encode_channel channels)

  unfoldable pub encode_floating_text : String → Position → FloatingTextType → Option Color → List ℕ
  encode_floating_text text position text_type color =
      b.put_u8 srv_floating_text
      ++ (encode_string text
          ++ (encode_position position
              ++ (b.put_u8 (encode_floating_text_type text_type) ++ encode_color color)))

  unfoldable pub encode_agent_life_changed : ℕ → ℕ → ℕ → List ℕ
  encode_agent_life_changed agent_id current max =
      b.put_u8 srv_agent_life_updated
      ++ (b.put_u16_le agent_id ++ (b.put_u32_le current ++ b.put_u32_le max))

  unfoldable pub encode_show_effect : ℕ → Position → List (ℤ × ℤ) → List ℕ
  encode_show_effect effect_id position delta =
      b.put_u8 srv_show_effect
      ++ (b.put_u16_le effect_id ++ (encode_position position ++ each encode_delta delta))

  unfoldable pub encode_launch_missile : Position → Position → ℕ → List ℕ
  encode_launch_missile from to missile_id =
      b.put_u8 srv_launch_missile
      ++ (encode_position from ++ (encode_position to ++ b.put_u16_le missile_id))

  unfoldable pub encode_agent_mana_updated : ℕ → ℕ → ℕ → List ℕ
  encode_agent_mana_updated agent_id current max =
      b.put_u8 srv_agent_mana_updated
      ++ (b.put_u16_le agent_id ++ (b.put_u32_le current ++ b.put_u32_le max))

  unfoldable pub encode_player_skills : ℕ → List (SkillType × SkillProgress) → List ℕ
  encode_player_skills experience skills =
      b.put_u8 srv_player_skills
      ++ (b.put_u64_le experience ++ (b.put_u8 (length skills % 256) ++ each encode_skill skills))

  unfoldable pub encode_spell_cast : ℕ → ℕ → ℕ → List ℕ
  encode_spell_cast spell spell_cooldown_ms group_cooldown_ms =
      b.put_u8 srv_spell_cast
      ++ (b.put_u16_le spell ++ (b.put_u32_le spell_cooldown_ms ++ b.put_u32_le group_cooldown_ms))

  unfoldable pub encode_spell_list : List SpellListEntry → List ℕ
  encode_spell_list spells =
      b.put_u8 srv_spell_list ++ (b.put_u16_le (length spells % 65536) ++ each encode_spell spells)

  unfoldable pub encode_shop : String → ℕ → List ShopOfferEntry → List (ℕ × ℕ × ℕ) → List ℕ
  encode_shop npc_name money offers goods =
      b.put_u8 srv_shop
      ++ (encode_string npc_name
          ++ (b.put_u64_le money
              ++ ((b.put_u16_le (length offers % 65536) ++ each encode_offer offers)
                  ++ (b.put_u16_le (length goods % 65536) ++ each encode_good goods))))

  -- What the `match` of `encode` appends behind the length; its longer arms are the functions above.
  unfoldable pub encode_message : ServerMessage → List ℕ
  encode_message pong = b.put_u8 srv_pong
  encode_message login_error = b.put_u8 srv_login_error
  encode_message (describe_map tiles center floor) = encode_describe_map tiles center floor
  encode_message (tile_updated position items) =
      b.put_u8 srv_tile_updated ++ (encode_position position ++ encode_tile items)
  encode_message (player_walk_ack position tiles) = encode_player_walk_ack position tiles
  encode_message (player_position position) = b.put_u8 srv_player_pos ++ encode_position position
  encode_message
        (describe_player agent_id position facing name level life mana outfit speed capacity
          inventory_head inventory_amulet inventory_backpack inventory_chest inventory_right_hand
          inventory_left_hand inventory_legs inventory_feet inventory_ring inventory_trinket) =
      encode_describe_player agent_id position facing name level life mana outfit speed capacity
        inventory_head inventory_amulet inventory_backpack inventory_chest inventory_right_hand
        inventory_left_hand inventory_legs inventory_feet inventory_ring inventory_trinket
  encode_message (text_message text message_type) =
      b.put_u8 srv_text_message
      ++ (encode_string text ++ b.put_u8 (encode_text_message_type message_type))
  encode_message (open_container container_id capacity has_parent title items) =
      encode_open_container container_id capacity has_parent title items
  encode_message (update_container container_id items) =
      b.put_u8 srv_update_container ++ (b.put_u16_le container_id ++ encode_tile items)
  encode_message (container_closed container_id) =
      b.put_u8 srv_container_closed ++ b.put_u16_le container_id
  encode_message player_walk_denied = b.put_u8 srv_player_walk_denied
  encode_message (inventory_slot_updated slot item_id) =
      b.put_u8 srv_inventory_slot_updated
      ++ (b.put_u8 (slot_id slot) ++ encode_optional_item item_id)
  encode_message (player_capacity_updated cap) =
      b.put_u8 srv_player_capacity_updated ++ b.put_u32_le cap
  encode_message (agent_changed_direction agent_id facing) =
      b.put_u8 srv_agent_direction_changed ++ (b.put_u16_le agent_id ++ encode_facing facing)
  encode_message (remove_agent agent_id) = b.put_u8 srv_remove_agent ++ b.put_u16_le agent_id
  encode_message (move_agent agent_id direction from stack) =
      encode_move_agent agent_id direction from stack
  encode_message (spawn_agent agent_id outfit position facing name life speed kind stack) =
      encode_spawn_agent agent_id outfit position facing name life speed kind stack
  encode_message (teleport_agent agent_id position stack) =
      b.put_u8 srv_teleport_agent
      ++ (b.put_u16_le agent_id ++ (encode_position position ++ b.put_u8 stack))
  encode_message (chat_message author message_type channel position message) =
      encode_chat_message author message_type channel position message
  encode_message (channel_list channels) = encode_channel_list channels
  encode_message (private_chat_opened name) = b.put_u8 srv_private_chat_opened ++ encode_string name
  encode_message (floating_text text position text_type color) =
      encode_floating_text text position text_type color
  encode_message (target_lost seq) = b.put_u8 srv_target_lost ++ b.put_u32_le seq
  encode_message (agent_life_changed agent_id current max) =
      encode_agent_life_changed agent_id current max
  encode_message (show_effect effect_id position delta) =
      encode_show_effect effect_id position delta
  encode_message (launch_missile from to missile_id) = encode_launch_missile from to missile_id
  encode_message (agent_mana_updated agent_id current max) =
      encode_agent_mana_updated agent_id current max
  encode_message (player_skills experience skills) = encode_player_skills experience skills
  encode_message (skill_updated skill progress) =
      b.put_u8 srv_skill_updated
      ++ (b.put_u8 (skill_id skill)
          ++ (b.put_u16_le progress.level ++ b.put_u16_le progress.percent_bp))
  encode_message (experience_updated experience) =
      b.put_u8 srv_experience_updated ++ b.put_u64_le experience
  encode_message (spell_cast spell spell_cooldown_ms group_cooldown_ms) =
      encode_spell_cast spell spell_cooldown_ms group_cooldown_ms
  encode_message (spell_list spells) = encode_spell_list spells
  encode_message (agent_speed_updated agent_id speed) =
      b.put_u8 srv_agent_speed_updated ++ (b.put_u16_le agent_id ++ b.put_u16_le speed)
  encode_message (player_status status) = b.put_u8 srv_player_status ++ b.put_u32_le status
  encode_message (damaged_by agent_id) = b.put_u8 srv_damaged_by ++ b.put_u16_le agent_id
  encode_message player_died = b.put_u8 srv_died
  encode_message (shop npc_name money offers goods) = encode_shop npc_name money offers goods
  encode_message shop_closed = b.put_u8 srv_shop_closed

  -- The bytes that `encode` appends to its buffer: the length in front is written last, as a `u16`.
  unfoldable pub encode : ServerMessage → List ℕ
  encode item = let body = encode_message item in to_le_bytes (length body % 65536) ++ body
