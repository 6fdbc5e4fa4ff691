-- ===== src/Wire/ClientSafety.antt =====
-- Whatever bytes arrive, the load test's client answers, with a message or with an error.
use rustibia_server.Prelude.{
  ℕ, suc, ◌+◌, ◌≤◌, ltb, Bool-cases, some, ◌==◌, List, [], ◌∷◌, length, inl, inr, arith,
}
use rustibia_server.Wire.Buffer.{Buffer}
use rustibia_server.Wire.Reader.{Result, ok, err, panic, spin}
use rustibia_server.Wire.Safe.{Answers, Safe, bind, ret, failed, guarded, mapped, times, weaken}
use rustibia_server.Wire.ServerValues.{viewport_size}
use rustibia_server.Wire.ServerMessage.{
  ServerMessage, srv_pong, srv_login_error, srv_describe_map, srv_tile_updated, srv_player_walk_ack,
  srv_player_pos, srv_describe_player, srv_text_message, srv_open_container, srv_update_container,
  srv_container_closed, srv_player_walk_denied, srv_inventory_slot_updated,
  srv_player_capacity_updated, srv_agent_direction_changed, srv_remove_agent, srv_move_agent,
  srv_spawn_agent, srv_teleport_agent, srv_chat_message, srv_channel_list, srv_private_chat_opened,
  srv_floating_text, srv_target_lost, srv_agent_life_updated, srv_show_effect, srv_launch_missile,
  srv_agent_mana_updated, srv_player_skills, srv_skill_updated, srv_experience_updated,
  srv_spell_cast, srv_spell_list, srv_agent_speed_updated, srv_player_status, srv_damaged_by,
  srv_died, srv_shop, srv_shop_closed,
}
use rustibia_server.Wire.Server.Decode.{from_le_bytes}
use rustibia_server.Wire.Loadtest.Read.{WireError, malformed}
use rustibia_server.Wire.Loadtest.Decode.{
  LoadtestCodec, decode, decode_frame, decode_payload, decode_message, decode_body, first_or_zero,
  decode_describe_map, decode_player_walk_ack, decode_describe_player, decode_open_container,
  decode_move_agent, decode_spawn_agent, decode_teleport_agent, decode_chat_message,
  decode_channel_list, decode_floating_text, decode_agent_life_changed, decode_show_effect,
  decode_launch_missile, decode_agent_mana_updated, decode_player_skills, decode_spell_cast,
  decode_spell_list, decode_shop,
}
use rustibia_server.Wire.SafeReads.{
  read_agent_kind-Safe, read_channels-Safe, read_chat_message_type-Safe, read_color-Safe,
  read_container_items-Safe, read_deltas-Safe, read_direction-Safe, read_facing-Safe,
  read_flag-Safe, read_floating_text_type-Safe, read_floors-Safe, read_goods-Safe,
  read_item_stack-Safe, read_offers-Safe, read_optional-Safe, read_optional_item-Safe,
  read_outfit-Safe, read_pool-Safe, read_position-Safe, read_short_string-Safe,
  read_skill_progress-Safe, read_skill_type-Safe, read_skills-Safe, read_slot-Safe,
  read_spells-Safe, read_string-Safe, read_text_message_type-Safe, try_get_u16_le-Safe,
  try_get_u32_le-Safe, try_get_u64_le-Safe, try_get_u8-Safe, splits,
}

module _ ⦃b : Buffer⦄ where
  describe_map_safe : {n : ℕ} → Safe n decode_describe_map
  unfolding decode_describe_map
  describe_map_safe = bind _ (read_position-Safe) λ a.
      bind _ (try_get_u8-Safe) λ c. bind _ (times viewport_size read_item_stack-Safe) λ d. ret _

  player_walk_ack_safe : {n : ℕ} → Safe n decode_player_walk_ack
  unfolding decode_player_walk_ack
  player_walk_ack_safe = bind _ (read_position-Safe) λ a. bind _ (read_floors-Safe) λ c. ret _

  describe_player_safe : {n : ℕ} → Safe n decode_describe_player
  unfolding decode_describe_player
  describe_player_safe = bind _ (try_get_u16_le-Safe) λ a. bind _ (read_position-Safe) λ c.
      bind _ (read_facing-Safe) λ d. bind _ (read_string-Safe) λ e.
        bind _ (try_get_u16_le-Safe) λ f. bind _ (read_pool-Safe) λ g. bind _ (read_pool-Safe) λ i.
          bind _ (read_outfit-Safe) λ j. bind _ (try_get_u16_le-Safe) λ k.
            bind _ (try_get_u32_le-Safe) λ l. bind _ (read_optional_item-Safe) λ m.
              bind _ (read_optional_item-Safe) λ n. bind _ (read_optional_item-Safe) λ o.
                bind _ (read_optional_item-Safe) λ p. bind _ (read_optional_item-Safe) λ q.
                  bind _ (read_optional_item-Safe) λ r. bind _ (read_optional_item-Safe) λ s.
                    bind _ (read_optional_item-Safe) λ u.
                      bind _ (read_optional_item-Safe)
                        λ v. bind _ (read_optional_item-Safe) λ w. ret _

  open_container_safe : {n : ℕ} → Safe n decode_open_container
  unfolding decode_open_container
  open_container_safe = bind _ (try_get_u16_le-Safe) λ a. bind _ (try_get_u8-Safe) λ c.
      bind _ (read_flag-Safe)
        λ d. bind _ (read_short_string-Safe) λ e. bind _ (read_container_items-Safe) λ f. ret _

  move_agent_safe : {n : ℕ} → Safe n decode_move_agent
  unfolding decode_move_agent
  move_agent_safe = bind _ (try_get_u16_le-Safe) λ a.
      bind _ (read_direction-Safe)
        λ c. bind _ (read_position-Safe) λ d. bind _ (try_get_u8-Safe) λ e. ret _

  spawn_agent_safe : {n : ℕ} → Safe n decode_spawn_agent
  unfolding decode_spawn_agent
  spawn_agent_safe = bind _ (try_get_u16_le-Safe) λ a. bind _ (read_position-Safe) λ c.
      bind _ (read_facing-Safe) λ d. bind _ (read_string-Safe) λ e.
        bind _ (try_get_u32_le-Safe) λ f. bind _ (read_outfit-Safe) λ g.
          bind _ (try_get_u16_le-Safe)
            λ i. bind _ (read_agent_kind-Safe) λ j. bind _ (try_get_u8-Safe) λ k. ret _

  teleport_agent_safe : {n : ℕ} → Safe n decode_teleport_agent
  unfolding decode_teleport_agent
  teleport_agent_safe =
      bind _ (try_get_u16_le-Safe)
        λ a. bind _ (read_position-Safe) λ c. bind _ (try_get_u8-Safe) λ d. ret _

  chat_message_safe : {n : ℕ} → Safe n decode_chat_message
  unfolding decode_chat_message
  chat_message_safe = bind _ (read_string-Safe) λ a. bind _ (read_chat_message_type-Safe) λ c.
      bind _ (try_get_u16_le-Safe) λ d.
        bind _ (read_optional-Safe _ read_position-Safe) λ e. bind _ (read_string-Safe) λ f. ret _

  channel_list_safe : {n : ℕ} → Safe n decode_channel_list
  unfolding decode_channel_list
  channel_list_safe = bind _ (read_channels-Safe) λ a. ret _

  floating_text_safe : {n : ℕ} → Safe n decode_floating_text
  unfolding decode_floating_text
  floating_text_safe = bind _ (read_string-Safe) λ a. bind _ (read_position-Safe) λ c.
      bind _ (read_floating_text_type-Safe)
        λ d. bind _ (read_optional-Safe _ read_color-Safe) λ e. ret _

  agent_life_changed_safe : {n : ℕ} → Safe n decode_agent_life_changed
  unfolding decode_agent_life_changed
  agent_life_changed_safe =
      bind _ (try_get_u16_le-Safe)
        λ a. bind _ (try_get_u32_le-Safe) λ c. bind _ (try_get_u32_le-Safe) λ d. ret _

  show_effect_safe : {n : ℕ} → Safe n decode_show_effect
  unfolding decode_show_effect
  show_effect_safe =
      bind _ (try_get_u16_le-Safe)
        λ a. bind _ (read_position-Safe) λ c. bind _ (read_deltas-Safe) λ d. ret _

  launch_missile_safe : {n : ℕ} → Safe n decode_launch_missile
  unfolding decode_launch_missile
  launch_missile_safe =
      bind _ (read_position-Safe)
        λ a. bind _ (read_position-Safe) λ c. bind _ (try_get_u16_le-Safe) λ d. ret _

  agent_mana_updated_safe : {n : ℕ} → Safe n decode_agent_mana_updated
  unfolding decode_agent_mana_updated
  agent_mana_updated_safe =
      bind _ (try_get_u16_le-Safe)
        λ a. bind _ (try_get_u32_le-Safe) λ c. bind _ (try_get_u32_le-Safe) λ d. ret _

  player_skills_safe : {n : ℕ} → Safe n decode_player_skills
  unfolding decode_player_skills
  player_skills_safe = bind _ (try_get_u64_le-Safe) λ a. bind _ (read_skills-Safe) λ c. ret _

  spell_cast_safe : {n : ℕ} → Safe n decode_spell_cast
  unfolding decode_spell_cast
  spell_cast_safe =
      bind _ (try_get_u16_le-Safe)
        λ a. bind _ (try_get_u32_le-Safe) λ c. bind _ (try_get_u32_le-Safe) λ d. ret _

  spell_list_safe : {n : ℕ} → Safe n decode_spell_list
  unfolding decode_spell_list
  spell_list_safe = bind _ (read_spells-Safe) λ a. ret _

  shop_safe : {n : ℕ} → Safe n decode_shop
  unfolding decode_shop
  shop_safe = bind _ (read_string-Safe) λ a.
      bind _ (try_get_u64_le-Safe)
        λ c. bind _ (read_offers-Safe) λ d. bind _ (read_goods-Safe) λ e. ret _

  decode_body-Safe : {n : ℕ} (opcode : ℕ) → Safe n (decode_body opcode)
  unfolding decode_body
  decode_body-Safe opcode = guarded (opcode == srv_pong) (ret _) (
      guarded (opcode == srv_login_error) (ret _) (
        guarded (opcode == srv_describe_map) describe_map_safe (
          guarded (opcode == srv_tile_updated)
            (bind _ (read_position-Safe) λ a. bind _ (read_item_stack-Safe) λ c. ret _)
            (guarded (opcode == srv_player_walk_ack) player_walk_ack_safe (
              guarded (opcode == srv_player_pos) (bind _ (read_position-Safe) λ a. ret _) (
                guarded (opcode == srv_describe_player) describe_player_safe (
                  guarded (opcode == srv_text_message)
                    (bind _ (read_string-Safe) λ a. bind _ (read_text_message_type-Safe) λ c. ret _)
                    (guarded (opcode == srv_open_container) open_container_safe (
                      guarded (opcode == srv_update_container)
                        (bind _ (try_get_u16_le-Safe)
                          λ a. bind _ (read_container_items-Safe) λ c. ret _)
                        (guarded (opcode == srv_container_closed)
                          (bind _ (try_get_u16_le-Safe) λ a. ret _)
                          (guarded (opcode == srv_player_walk_denied) (ret _) (
                            guarded (opcode == srv_inventory_slot_updated)
                              (bind _ (read_slot-Safe)
                                λ a. bind _ (read_optional_item-Safe) λ c. ret _)
                              (guarded (opcode == srv_player_capacity_updated)
                                (bind _ (try_get_u32_le-Safe) λ a. ret _)
                                (guarded (opcode == srv_agent_direction_changed)
                                  (bind _ (try_get_u16_le-Safe)
                                    λ a. bind _ (read_facing-Safe) λ c. ret _)
                                  (guarded (opcode == srv_remove_agent)
                                    (bind _ (try_get_u16_le-Safe) λ a. ret _)
                                    (guarded (opcode == srv_move_agent) move_agent_safe (
                                      guarded (opcode == srv_spawn_agent) spawn_agent_safe (
                                        guarded (opcode == srv_teleport_agent) teleport_agent_safe (
                                          guarded (opcode == srv_chat_message) chat_message_safe (
                                            guarded (opcode == srv_channel_list) channel_list_safe (
                                              guarded (opcode == srv_private_chat_opened)
                                                (bind _ (read_string-Safe) λ a. ret _)
                                                (guarded (opcode == srv_floating_text)
                                                  floating_text_safe
                                                  (guarded (opcode == srv_target_lost)
                                                    (bind _ (try_get_u32_le-Safe) λ a. ret _)
                                                    (guarded (opcode == srv_agent_life_updated)
                                                      agent_life_changed_safe
                                                      (guarded (opcode == srv_show_effect)
                                                        show_effect_safe
                                                        (guarded (opcode == srv_launch_missile)
                                                          launch_missile_safe
                                                          (guarded
                                                            (opcode == srv_agent_mana_updated)
                                                            agent_mana_updated_safe
                                                            (guarded (opcode == srv_player_skills)
                                                            player_skills_safe
                                                            (guarded (opcode == srv_skill_updated)
                                                            (bind _ (read_skill_type-Safe) λ a.
                                                            bind _ (read_skill_progress-Safe)
                                                            λ c. ret _)
                                                            (guarded
                                                            (opcode == srv_experience_updated)
                                                            (bind _ (try_get_u64_le-Safe)
                                                            λ a. ret _)
                                                            (guarded (opcode == srv_spell_cast)
                                                            spell_cast_safe
                                                            (guarded (opcode == srv_spell_list)
                                                            spell_list_safe
                                                            (guarded
                                                            (opcode == srv_agent_speed_updated)
                                                            (bind _ (try_get_u16_le-Safe) λ a.
                                                            bind _ (try_get_u16_le-Safe) λ c. ret _)
                                                            (guarded (opcode == srv_player_status)
                                                            (bind _ (try_get_u32_le-Safe)
                                                            λ a. ret _)
                                                            (guarded (opcode == srv_damaged_by)
                                                            (bind _ (try_get_u16_le-Safe)
                                                            λ a. ret _)
                                                            (guarded (opcode == srv_died) (ret _) (
                                                            guarded (opcode == srv_shop) shop_safe (
                                                            guarded (opcode == srv_shop_closed)
                                                            (ret _)
                                                            (failed
                                                            _)))))))))))))))))))))))))))))))))))))))

  decode_message-Safe : {n : ℕ} → Safe n decode_message
  unfolding decode_message
  decode_message-Safe = bind _ try_get_u8-Safe λ opcode. mapped _ (decode_body-Safe opcode)

  -- An answer that is a message or an error.
  abbrev Ends : Result WireError ServerMessage → Type 0
  Ends (ok m) = Unit
  Ends (err e) = Unit
  Ends panic = ⊥
  Ends spin = ⊥

  whole_or_not :
      (n o : ℕ) (r : Result WireError (ServerMessage × List ℕ))
      → Answers n r
      → Ends (elim r [
        | ok (message, []) ↦ ok message
        | ok (message, y ∷ ys) ↦ err (malformed o)
        | err e ↦ err e
        | panic ↦ panic
        | spin ↦ spin
      ])
  whole_or_not n o (ok (m, [])) a = tt
  whole_or_not n o (ok (m, y ∷ ys)) a = tt
  whole_or_not n o (err e) a = tt
  whole_or_not n o panic a = absurd a
  whole_or_not n o spin a = absurd a

  decode_payload-Ends : (payload : List ℕ) → Ends (decode_payload payload)
  unfolding decode_payload
  decode_payload-Ends payload =
      whole_or_not _ (first_or_zero payload) (decode_message payload)
        ((decode_message-Safe {n = suc (length payload)}).run payload (omega arith))

  with_left :
      (n : ℕ) (left : List ℕ) (r : Result WireError ServerMessage)
      → Ends r
      → length left ≤ n
      → Answers n (elim r [
        | ok message ↦ ok (some message, left)
        | err e ↦ err e
        | panic ↦ panic
        | spin ↦ spin
      ])
  with_left n left (ok m) a h = h
  with_left n left (err e) a h = tt
  with_left n left panic a h = absurd a
  with_left n left spin a h = absurd a

  frame_answers :
      (p : ℕ) (rest : List ℕ) → p ≤ length rest → Answers (length rest) (decode_frame p rest)
  unfolding decode_frame
  frame_answers p rest h =
      let s = splits p rest h in
      rw (decode_frame, s.2)
        (with_left _ s.1 (decode_payload s.0) (decode_payload-Ends s.0)
          (omega (arith, b.split_to-length p rest s.0 s.1 s.2)))

  -- On any bytes at all the load test's client neither panics nor runs on: it answers an error, or
  -- it answers a message or that it needs more bytes, and leaves no more bytes than there were.
  pub decode_server-answers :
      (codec : LoadtestCodec) (buf : List ℕ) → Answers (length buf) ((decode codec buf).1)
  unfolding decode
  decode_server-answers codec [] = omega arith
  decode_server-answers codec (x ∷ []) = omega arith
  decode_server-answers codec (x ∷ y ∷ rest) =
      elim (Bool-cases (ltb (2 + length rest) (2 + from_le_bytes x y))) [
        | inl e ↦ rw e (omega arith)
        | inr e ↦ rw e (
            weaken _ _ (decode_frame (from_le_bytes x y) rest) (omega arith)
              (frame_answers (from_le_bytes x y) rest (ground arith)))
      ]
