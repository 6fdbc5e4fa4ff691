-- ===== src/Wire/ServerRoundTrip.antt =====
-- The load test's client understands what the server writes.
use rustibia_server.Prelude.{
  ℕ, ◌+◌, ◌^◌, ◌/◌, ◌%◌, ◌<◌, ◌≡◌, refl, ap, some, List, [], ◌++◌, length, length-append,
  append-nil, arith,
}
use rustibia_server.Wire.Buffer.{Buffer}
use rustibia_server.Wire.Reader.{ok}
use rustibia_server.Wire.Parsing.{Parses, bind, last, ret, mapped}
use rustibia_server.Wire.Values.{IsU16}
use rustibia_server.Wire.Server.Decode.{from_le_bytes}
use rustibia_server.Wire.ServerEntries.{ltb-false}
use rustibia_server.Wire.ServerMessage.{
  ServerMessage, IsServerMessage, pong, login_error, describe_map, tile_updated, player_walk_ack,
  player_position, describe_player, text_message, open_container, update_container,
  container_closed, player_walk_denied, inventory_slot_updated, player_capacity_updated,
  agent_changed_direction, remove_agent, move_agent, spawn_agent, teleport_agent, chat_message,
  channel_list, private_chat_opened, floating_text, target_lost, agent_life_changed, show_effect,
  launch_missile, agent_mana_updated, player_skills, skill_updated, experience_updated, spell_cast,
  spell_list, agent_speed_updated, player_status, damaged_by, player_died, shop, shop_closed,
}
use rustibia_server.Wire.Server.Encode.{
  encode, encode_message, encode_describe_map, encode_player_walk_ack, encode_describe_player,
  encode_open_container, encode_move_agent, encode_spawn_agent, encode_chat_message,
  encode_channel_list, encode_floating_text, encode_agent_life_changed, encode_show_effect,
  encode_launch_missile, encode_agent_mana_updated, encode_player_skills, encode_spell_cast,
  encode_spell_list, encode_shop,
}
use rustibia_server.Wire.Loadtest.Decode.{
  LoadtestCodec, decode, decode_frame, decode_payload, decode_message, decode_body,
  decode_describe_map, decode_player_walk_ack, decode_describe_player, decode_open_container,
  decode_move_agent, decode_spawn_agent, decode_teleport_agent, decode_chat_message,
  decode_channel_list, decode_floating_text, decode_agent_life_changed, decode_show_effect,
  decode_launch_missile, decode_agent_mana_updated, decode_player_skills, decode_spell_cast,
  decode_spell_list, decode_shop,
}
use rustibia_server.Wire.ServerFields.{
  agent_kind, chat_message_type, direction, facing, flag, floating_text_type, optional_color,
  optional_item, optional_position, outfit, pool, position, short_string, skill_progress,
  skill_type, slot, string, text_message_type, u16, u32, u64, u8,
}
use rustibia_server.Wire.ServerEntries.{container_items, item_stack, view}
use rustibia_server.Wire.ServerLists.{channels, deltas, floors, goods, offers, skills, spells}

module _ ⦃b : Buffer⦄ where
  parses : (m : ServerMessage) → IsServerMessage m → Parses decode_message (encode_message m) [] m
  unfolding encode_message encode_describe_map encode_player_walk_ack encode_describe_player
      encode_open_container encode_move_agent encode_spawn_agent encode_chat_message
      encode_channel_list encode_floating_text encode_agent_life_changed encode_show_effect
      encode_launch_missile encode_agent_mana_updated encode_player_skills encode_spell_cast
      encode_spell_list encode_shop decode_message decode_body decode_describe_map
      decode_player_walk_ack decode_describe_player decode_open_container decode_move_agent
      decode_spawn_agent decode_teleport_agent decode_chat_message decode_channel_list
      decode_floating_text decode_agent_life_changed decode_show_effect decode_launch_missile
      decode_agent_mana_updated decode_player_skills decode_spell_cast decode_spell_list decode_shop
  parses pong h = last _ (u8 (omega arith)) (mapped _ ret)
  parses login_error h = last _ (u8 (omega arith)) (mapped _ ret)
  parses (describe_map a c d) h =
      bind _ (u8 (omega arith))
        (mapped _ (bind _ (position h.0) (bind _ (u8 h.1) (last _ (view a h.2) ret))))
  parses (tile_updated a c) h =
      bind _ (u8 (omega arith)) (mapped _ (bind _ (position h.0) (last _ (item_stack c h.1) ret)))
  parses (player_walk_ack a c) h =
      bind _ (u8 (omega arith)) (mapped _ (bind _ (position h.0) (last _ (floors c h.1) ret)))
  parses (player_position a) h = bind _ (u8 (omega arith)) (mapped _ (last _ (position h) ret))
  parses (describe_player a c d e f g i j k l m n o p q r s u v w) h = bind _ (u8 (omega arith)) (
      mapped _ (
        bind _ (u16 h.0) (
          bind _ (position h.1) (
            bind _ (facing d) (
              bind _ (string e h.2) (
                bind _ (u16 h.3) (
                  bind _ (pool h.4) (
                    bind _ (pool h.5) (
                      bind _ (outfit h.6) (
                        bind _ (u16 h.7) (
                          bind _ (u32 h.8) (
                            bind _ (optional_item m h.9) (
                              bind _ (optional_item n h.10) (
                                bind _ (optional_item o h.11) (
                                  bind _ (optional_item p h.12) (
                                    bind _ (optional_item q h.13) (
                                      bind _ (optional_item r h.14) (
                                        bind _ (optional_item s h.15) (
                                          bind _ (optional_item u h.16) (
                                            bind _ (optional_item v h.17) (
                                              last _ (optional_item w h.18) ret)))))))))))))))))))))
  parses (text_message a c) h =
      bind _ (u8 (omega arith)) (mapped _ (bind _ (string a h) (last _ (text_message_type c) ret)))
  parses (open_container a c d e f) h = bind _ (u8 (omega arith)) (
      mapped _ (
        bind _ (u16 h.0) (
          bind _ (u8 h.1)
            (bind _ (flag d) (bind _ (short_string e h.2) (last _ (container_items f h.3) ret))))))
  parses (update_container a c) h =
      bind _ (u8 (omega arith)) (mapped _ (bind _ (u16 h.0) (last _ (container_items c h.1) ret)))
  parses (container_closed a) h = bind _ (u8 (omega arith)) (mapped _ (last _ (u16 h) ret))
  parses player_walk_denied h = last _ (u8 (omega arith)) (mapped _ ret)
  parses (inventory_slot_updated a c) h =
      bind _ (u8 (omega arith)) (mapped _ (bind _ (slot a) (last _ (optional_item c h) ret)))
  parses (player_capacity_updated a) h = bind _ (u8 (omega arith)) (mapped _ (last _ (u32 h) ret))
  parses (agent_changed_direction a c) h =
      bind _ (u8 (omega arith)) (mapped _ (bind _ (u16 h) (last _ (facing c) ret)))
  parses (remove_agent a) h = bind _ (u8 (omega arith)) (mapped _ (last _ (u16 h) ret))
  parses (move_agent a c d e) h = bind _ (u8 (omega arith)) (
      mapped _
        (bind _ (u16 h.0) (bind _ (direction c) (bind _ (position h.1) (last _ (u8 h.2) ret)))))
  parses (spawn_agent a c d e f g i j k) h = bind _ (u8 (omega arith)) (
      mapped _ (
        bind _ (u16 h.0) (
          bind _ (position h.1) (
            bind _ (facing e) (
              bind _ (string f h.2) (
                bind _ (u32 h.3) (
                  bind _ (outfit h.4)
                    (bind _ (u16 h.5) (bind _ (agent_kind j) (last _ (u8 h.6) ret))))))))))
  parses (teleport_agent a c d) h =
      bind _ (u8 (omega arith))
        (mapped _ (bind _ (u16 h.0) (bind _ (position h.1) (last _ (u8 h.2) ret))))
  parses (chat_message a c d e f) h = bind _ (u8 (omega arith)) (
      mapped _ (
        bind _ (string a h.0) (
          bind _ (chat_message_type c)
            (bind _ (u16 h.1) (bind _ (optional_position e h.2) (last _ (string f h.3) ret))))))
  parses (channel_list a) h = bind _ (u8 (omega arith)) (mapped _ (last _ (channels a h) ret))
  parses (private_chat_opened a) h = bind _ (u8 (omega arith)) (mapped _ (last _ (string a h) ret))
  parses (floating_text a c d e) h = bind _ (u8 (omega arith)) (
      mapped _ (
        bind _ (string a h.0) (
          bind _ (position h.1)
            (bind _ (floating_text_type d) (last _ (optional_color e h.2) ret)))))
  parses (target_lost a) h = bind _ (u8 (omega arith)) (mapped _ (last _ (u32 h) ret))
  parses (agent_life_changed a c d) h =
      bind _ (u8 (omega arith))
        (mapped _ (bind _ (u16 h.0) (bind _ (u32 h.1) (last _ (u32 h.2) ret))))
  parses (show_effect a c d) h =
      bind _ (u8 (omega arith))
        (mapped _ (bind _ (u16 h.0) (bind _ (position h.1) (last _ (deltas d h.2) ret))))
  parses (launch_missile a c d) h =
      bind _ (u8 (omega arith))
        (mapped _ (bind _ (position h.0) (bind _ (position h.1) (last _ (u16 h.2) ret))))
  parses (agent_mana_updated a c d) h =
      bind _ (u8 (omega arith))
        (mapped _ (bind _ (u16 h.0) (bind _ (u32 h.1) (last _ (u32 h.2) ret))))
  parses (player_skills a c) h =
      bind _ (u8 (omega arith)) (mapped _ (bind _ (u64 h.0) (last _ (skills c h.1) ret)))
  parses (skill_updated a c) h =
      bind _ (u8 (omega arith)) (mapped _ (bind _ (skill_type a) (last _ (skill_progress h) ret)))
  parses (experience_updated a) h = bind _ (u8 (omega arith)) (mapped _ (last _ (u64 h) ret))
  parses (spell_cast a c d) h =
      bind _ (u8 (omega arith))
        (mapped _ (bind _ (u16 h.0) (bind _ (u32 h.1) (last _ (u32 h.2) ret))))
  parses (spell_list a) h = bind _ (u8 (omega arith)) (mapped _ (last _ (spells a h) ret))
  parses (agent_speed_updated a c) h =
      bind _ (u8 (omega arith)) (mapped _ (bind _ (u16 h.0) (last _ (u16 h.1) ret)))
  parses (player_status a) h = bind _ (u8 (omega arith)) (mapped _ (last _ (u32 h) ret))
  parses (damaged_by a) h = bind _ (u8 (omega arith)) (mapped _ (last _ (u16 h) ret))
  parses player_died h = last _ (u8 (omega arith)) (mapped _ ret)
  parses (shop a c d e) h = bind _ (u8 (omega arith)) (
      mapped _ (
        bind _ (string a h.0)
          (bind _ (u64 h.1) (bind _ (offers d h.2) (last _ (goods e h.3) ret)))))
  parses shop_closed h = last _ (u8 (omega arith)) (mapped _ ret)

  alone : (n : ℕ) → 0 < length (b.put_u8 n)
  alone n = omega (arith, b.length-put_u8 n)

  starts : (n : ℕ) (xs : List ℕ) → 0 < length (b.put_u8 n ++ xs)
  starts n xs = omega (arith, length-append (b.put_u8 n) xs, b.length-put_u8 n)

  decode_payload-encode_message :
      (m : ServerMessage) → IsServerMessage m → decode_payload (encode_message m) ≡ ok m
  unfolding decode_payload
  decode_payload-encode_message m h =
      let run : decode_message (encode_message m) ≡ ok (m, []) =
        rw (← append-nil (encode_message m)) (parses m h).run in
      rw (decode_payload, run) refl

  decode_frame_whole :
      (xs t : List ℕ) (m : ServerMessage)
      → decode_payload xs ≡ ok m
      → decode_frame (length xs) (xs ++ t) ≡ ok (some m, t)
  unfolding decode_frame
  decode_frame_whole xs t m e = rw (decode_frame, b.split_to-append xs t, e) refl

  -- A message of the server with its fields in range and a payload that fits the length in front of
  -- it is decoded by the load test's client to itself; the bytes behind its frame are left unread,
  -- and those of the frame are counted.
  pub decode-encode_server :
      (codec : LoadtestCodec) (m : ServerMessage) (t : List ℕ)
      → IsServerMessage m
      → IsU16 (length (encode_message m))
      → decode codec (encode m ++ t) ≡ (
        record codec { bytes_read = (codec.bytes_read + length (encode m)) % 2 ^ 64 },
        ok (some m, t),
      )
  unfolding decode encode
  decode-encode_server codec m t h k =
      let n = length (encode_message m) in
      let same : from_le_bytes (n % 65536 % 256) (n % 65536 / 256 % 256) ≡ n = omega arith in
      rw
        (
          same,
          ltb-false (2 + length (encode_message m ++ t)) (2 + n)
              (omega (arith, length-append (encode_message m) t)),
        )
        (rw (decode_frame_whole (encode_message m) t m (decode_payload-encode_message m h)) (
          ap (λ i. (record codec { bytes_read = (codec.bytes_read + i) % 2 ^ 64 }, ok (some m, t)))
            (omega arith)))
