-- ===== src/Wire/SafeReads.antt =====
-- Whatever bytes arrive, the load test's client answers.
use rustibia_server.Prelude.{
  ℕ, zero, suc, ◌<◌, ◌≤◌, ◌≡◌, refl, ap, ◌==◌, ltb, Bool-cases, some, List, [], ◌∷◌, ◌++◌, length,
  inl, inr, arith,
}
use rustibia_server.Wire.Buffer.{Buffer}
use rustibia_server.Wire.Reader.{get}
use rustibia_server.Wire.Safe.{
  Answers, Safe, bind, ret, failed, guarded, present, fuelled, times, step, any_read,
}
use rustibia_server.Wire.ServerValues.{max_visible_items}
use rustibia_server.Wire.Loadtest.Read.{
  WireReader, try_get_u8, try_get_u16_le, try_get_u32_le, try_get_u64_le, try_get_i8, read_bytes,
  read_utf8, read_string, read_short_string, read_position, read_direction, read_facing,
  read_agent_kind, read_slot, read_skill_type, read_chat_message_type, read_text_message_type,
  read_floating_text_type, read_spell_group, read_optional_item, read_flag, read_pool, read_outfit,
  read_entries, read_tile_entries, read_item_stack, read_container_items, read_optional, read_color,
  read_skill_progress,
}
use rustibia_server.Wire.Loadtest.Lists.{
  read_skill, read_channel, read_spell, read_offer, read_good, read_skills, read_channels,
  read_spells, read_offers, read_goods, read_floor, read_floors, read_delta, read_deltas,
}

-- The first `n` bytes, and the others.
parted :
    (n : ℕ) (buf : List ℕ) → n ≤ length buf → (xs t : List ℕ) × (buf ≡ xs ++ t) × (length xs ≡ n)
parted zero buf h = ([], buf, refl, refl)
parted (suc n) [] h = absurd (omega arith)
parted (suc n) (x ∷ buf) h =
    let p = parted n buf (omega arith) in (x ∷ p.0, p.1, ap (λ r. x ∷ r) p.2, ap suc p.3)

module _ ⦃b : Buffer⦄ where
  -- `split_to` within the buffer.
  pub splits :
      (n : ℕ) (buf : List ℕ) → n ≤ length buf → (xs t : List ℕ) × (b.split_to n buf ≡ some (xs, t))
  splits n buf h = let p = parted n buf h in (p.0, p.1, rw (p.2, ← p.3) (b.split_to-append p.0 p.1))

  split_answers : (len : ℕ) (buf : List ℕ) → Answers (length buf) (read_bytes len buf)
  unfolding read_bytes get
  split_answers len buf = elim (Bool-cases (ltb (length buf) len)) [
    | inl e ↦ rw e tt
    | inr e ↦
        let p = splits len buf (ground arith) in
        rw e (rw (get, p.2) (omega (arith, b.split_to-length len buf p.0 p.1 p.2)))
  ]

  pub try_get_u8-Safe : {n : ℕ} → Safe n try_get_u8
  unfolding try_get_u8
  try_get_u8-Safe = any_read _ b.try_get_u8 _ b.try_get_u8-length

  pub try_get_u16_le-Safe : {n : ℕ} → Safe n try_get_u16_le
  unfolding try_get_u16_le
  try_get_u16_le-Safe = any_read _ b.try_get_u16_le _ b.try_get_u16_le-length

  pub try_get_u32_le-Safe : {n : ℕ} → Safe n try_get_u32_le
  unfolding try_get_u32_le
  try_get_u32_le-Safe = any_read _ b.try_get_u32_le _ b.try_get_u32_le-length

  pub try_get_u64_le-Safe : {n : ℕ} → Safe n try_get_u64_le
  unfolding try_get_u64_le
  try_get_u64_le-Safe = any_read _ b.try_get_u64_le _ b.try_get_u64_le-length

  pub try_get_i8-Safe : {n : ℕ} → Safe n try_get_i8
  unfolding try_get_i8
  try_get_i8-Safe = any_read _ b.try_get_i8 _ b.try_get_i8-length

  bytes_safe : {n : ℕ} (len : ℕ) → Safe n (read_bytes len)
  unfolding read_bytes
  bytes_safe len = record { run = λ buf h. split_answers len buf }

  pub read_utf8-Safe : {n : ℕ} (len : ℕ) → Safe n (read_utf8 len)
  unfolding read_utf8
  read_utf8-Safe len = bind _ (bytes_safe len) λ xs. present _ _

  pub read_string-Safe : {n : ℕ} → Safe n read_string
  unfolding read_string
  read_string-Safe = bind _ try_get_u16_le-Safe λ len. read_utf8-Safe len

  pub read_short_string-Safe : {n : ℕ} → Safe n read_short_string
  unfolding read_short_string
  read_short_string-Safe = bind _ try_get_u8-Safe λ len. read_utf8-Safe len

  pub read_position-Safe : {n : ℕ} → Safe n read_position
  unfolding read_position
  read_position-Safe =
      bind _ (try_get_u16_le-Safe)
        λ a. bind _ (try_get_u16_le-Safe) λ c. bind _ (try_get_u8-Safe) λ d. ret _

  pub read_direction-Safe : {n : ℕ} → Safe n read_direction
  unfolding read_direction
  read_direction-Safe = bind _ try_get_u8-Safe λ n. guarded (n == 0) (ret _) (
      guarded (n == 1) (ret _) (
        guarded (n == 2) (ret _) (
          guarded (n == 3) (ret _) (
            guarded (n == 4) (ret _) (
              guarded (n == 5) (ret _)
                (guarded (n == 6) (ret _) (guarded (n == 7) (ret _) (failed _))))))))

  pub read_facing-Safe : {n : ℕ} → Safe n read_facing
  unfolding read_facing
  read_facing-Safe = bind _ try_get_u8-Safe λ n.
      guarded (n == 1) (ret _)
        (guarded (n == 2) (ret _) (guarded (n == 3) (ret _) (guarded (n == 4) (ret _) (failed _))))

  pub read_agent_kind-Safe : {n : ℕ} → Safe n read_agent_kind
  unfolding read_agent_kind
  read_agent_kind-Safe = bind _ try_get_u8-Safe λ n. present _ _

  pub read_slot-Safe : {n : ℕ} → Safe n read_slot
  unfolding read_slot
  read_slot-Safe = bind _ try_get_u8-Safe λ n. present _ _

  pub read_skill_type-Safe : {n : ℕ} → Safe n read_skill_type
  unfolding read_skill_type
  read_skill_type-Safe = bind _ try_get_u8-Safe λ n. present _ _

  pub read_chat_message_type-Safe : {n : ℕ} → Safe n read_chat_message_type
  unfolding read_chat_message_type
  read_chat_message_type-Safe =
      bind _ try_get_u8-Safe λ n.
        guarded (n == 1) (ret _) (guarded (n == 2) (ret _) (guarded (n == 3) (ret _) (failed _)))

  pub read_text_message_type-Safe : {n : ℕ} → Safe n read_text_message_type
  unfolding read_text_message_type
  read_text_message_type-Safe =
      bind _ try_get_u8-Safe λ n.
        guarded (n == 1) (ret _) (guarded (n == 2) (ret _) (guarded (n == 3) (ret _) (failed _)))

  pub read_spell_group-Safe : {n : ℕ} → Safe n read_spell_group
  unfolding read_spell_group
  read_spell_group-Safe =
      bind _ try_get_u8-Safe λ n.
        guarded (n == 0) (ret _) (guarded (n == 1) (ret _) (guarded (n == 2) (ret _) (failed _)))

  pub read_floating_text_type-Safe : {n : ℕ} → Safe n read_floating_text_type
  unfolding read_floating_text_type
  read_floating_text_type-Safe =
      bind _ try_get_u8-Safe λ n. guarded (n == 1) (ret _) (guarded (n == 2) (ret _) (failed _))

  pub read_optional_item-Safe : {n : ℕ} → Safe n read_optional_item
  unfolding read_optional_item
  read_optional_item-Safe = bind _ (try_get_u16_le-Safe) λ a. ret _

  pub read_flag-Safe : {n : ℕ} → Safe n read_flag
  unfolding read_flag
  read_flag-Safe = bind _ (try_get_u8-Safe) λ a. ret _

  pub read_pool-Safe : {n : ℕ} → Safe n read_pool
  unfolding read_pool
  read_pool-Safe = bind _ (try_get_u32_le-Safe) λ a. bind _ (try_get_u32_le-Safe) λ c. ret _

  pub read_outfit-Safe : {n : ℕ} → Safe n read_outfit
  unfolding read_outfit
  read_outfit-Safe = bind _ (try_get_u16_le-Safe) λ a. bind _ (try_get_u8-Safe) λ c.
      bind _ (try_get_u8-Safe)
        λ d. bind _ (try_get_u8-Safe) λ e. bind _ (try_get_u8-Safe) λ f. ret _

  pub read_color-Safe : {n : ℕ} → Safe n read_color
  unfolding read_color
  read_color-Safe =
      bind _ (try_get_u8-Safe)
        λ a. bind _ (try_get_u8-Safe) λ c. bind _ (try_get_u8-Safe) λ d. ret _

  pub read_skill_progress-Safe : {n : ℕ} → Safe n read_skill_progress
  unfolding read_skill_progress
  read_skill_progress-Safe =
      bind _ (try_get_u16_le-Safe) λ a. bind _ (try_get_u16_le-Safe) λ c. ret _

  pub read_entries-Safe : (n : ℕ) → Safe n (read_entries n)
  unfolding read_entries try_get_u16_le
  read_entries-Safe zero = record { run = λ buf h. absurd (omega arith) }
  read_entries-Safe (suc n) = step _ b.try_get_u16_le 1 _ b.try_get_u16_le-length λ id.
      guarded (id == 0xFFFF) (ret _)
        (bind _ try_get_u8-Safe λ amount. bind _ (read_entries-Safe n) λ rest. ret _)

  pub read_tile_entries-Safe : {n : ℕ} → Safe n read_tile_entries
  unfolding read_tile_entries
  read_tile_entries-Safe = fuelled _ read_entries-Safe

  pub read_item_stack-Safe : {n : ℕ} → Safe n read_item_stack
  unfolding read_item_stack
  read_item_stack-Safe =
      bind _ read_tile_entries-Safe
        λ entries. guarded (ltb max_visible_items (length entries)) (failed _) (ret _)

  pub read_container_items-Safe : {n : ℕ} → Safe n read_container_items
  unfolding read_container_items
  read_container_items-Safe = bind _ read_tile_entries-Safe λ entries. ret _

  pub read_optional-Safe :
      {A : Type 0} {n : ℕ} (r : WireReader A) → Safe n r → Safe n (read_optional r)
  unfolding read_optional
  read_optional-Safe r p =
      bind _ try_get_u8-Safe λ tag.
        guarded (tag == 0x01) (bind _ p λ a. ret _) (guarded (tag == 0x00) (ret _) (failed _))

  pub read_skill-Safe : {n : ℕ} → Safe n read_skill
  unfolding read_skill
  read_skill-Safe = bind _ (read_skill_type-Safe) λ a. bind _ (read_skill_progress-Safe) λ c. ret _

  pub read_channel-Safe : {n : ℕ} → Safe n read_channel
  unfolding read_channel
  read_channel-Safe = bind _ (try_get_u16_le-Safe) λ a. bind _ (read_string-Safe) λ c. ret _

  pub read_spell-Safe : {n : ℕ} → Safe n read_spell
  unfolding read_spell
  read_spell-Safe = bind _ (try_get_u16_le-Safe) λ a. bind _ (read_string-Safe) λ c.
      bind _ (read_string-Safe) λ d. bind _ (try_get_u16_le-Safe) λ e.
        bind _ (try_get_u16_le-Safe)
          λ f. bind _ (read_flag-Safe) λ g. bind _ (read_spell_group-Safe) λ i. ret _

  pub read_offer-Safe : {n : ℕ} → Safe n read_offer
  unfolding read_offer
  read_offer-Safe = bind _ (try_get_u16_le-Safe) λ a. bind _ (try_get_u8-Safe) λ c.
      bind _ (try_get_u32_le-Safe)
        λ d. bind _ (try_get_u32_le-Safe) λ e. bind _ (try_get_u32_le-Safe) λ f. ret _

  pub read_good-Safe : {n : ℕ} → Safe n read_good
  unfolding read_good
  read_good-Safe =
      bind _ (try_get_u16_le-Safe)
        λ a. bind _ (try_get_u8-Safe) λ c. bind _ (try_get_u16_le-Safe) λ d. ret _

  pub read_channels-Safe : {n : ℕ} → Safe n read_channels
  unfolding read_channels
  read_channels-Safe = bind _ try_get_u16_le-Safe λ count. times count read_channel-Safe

  pub read_spells-Safe : {n : ℕ} → Safe n read_spells
  unfolding read_spells
  read_spells-Safe = bind _ try_get_u16_le-Safe λ count. times count read_spell-Safe

  pub read_offers-Safe : {n : ℕ} → Safe n read_offers
  unfolding read_offers
  read_offers-Safe = bind _ try_get_u16_le-Safe λ count. times count read_offer-Safe

  pub read_goods-Safe : {n : ℕ} → Safe n read_goods
  unfolding read_goods
  read_goods-Safe = bind _ try_get_u16_le-Safe λ count. times count read_good-Safe

  pub read_skills-Safe : {n : ℕ} → Safe n read_skills
  unfolding read_skills
  read_skills-Safe = bind _ try_get_u8-Safe λ count. times count read_skill-Safe

  pub read_floor-Safe : (n : ℕ) → Safe n (read_floor n)
  unfolding read_floor try_get_u8
  read_floor-Safe zero = record { run = λ buf h. absurd (omega arith) }
  read_floor-Safe (suc n) = step _ b.try_get_u8 0 _ b.try_get_u8-length λ floor.
      guarded (floor == 0xFF) (ret _) (
        bind _ try_get_u8-Safe λ count.
          bind _ (times count read_item_stack-Safe)
            λ tiles. bind _ (read_floor-Safe n) λ rest. ret _)

  delta_answers :
      (n : ℕ)
      → Safe n (read_delta n)
      → (buf : List ℕ) → length buf < suc n
      → Answers (length buf) (read_delta (suc n) buf)
  unfolding read_delta try_get_i8
  delta_answers n p [] h = omega arith
  delta_answers n p (x ∷ buf) h =
      (step _ b.try_get_i8 0 _ b.try_get_i8-length
          λ dx. bind _ try_get_i8-Safe λ dy. bind _ p λ rest. ret _).run
        (x ∷ buf) h

  pub read_delta-Safe : (n : ℕ) → Safe n (read_delta n)
  unfolding read_delta try_get_i8
  read_delta-Safe zero = record { run = λ buf h. absurd (omega arith) }
  read_delta-Safe (suc n) = record { run = delta_answers n (read_delta-Safe n) }

  pub read_floors-Safe : {n : ℕ} → Safe n read_floors
  unfolding read_floors
  read_floors-Safe = fuelled _ read_floor-Safe

  pub read_deltas-Safe : {n : ℕ} → Safe n read_deltas
  unfolding read_deltas
  read_deltas-Safe = fuelled _ read_delta-Safe
