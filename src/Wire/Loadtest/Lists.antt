-- ===== src/Wire/Loadtest/Lists.antt =====
-- Reading the lists inside what the server sends.
use rustibia_server.Prelude.{ℕ, zero, suc, ◌==◌, List, [], ◌∷◌, if◌then◌else◌}
use rustibia_server.Prelude.Int.{ℤ}
use rustibia_server.Codes.SkillType.{SkillType}
use rustibia_server.Wire.Buffer.{Buffer}
use rustibia_server.Wire.Text.{String}
use rustibia_server.Wire.Reader.{ok, spin, ◌>>=◌, return, exhausted, with_fuel, read_times}
use rustibia_server.Wire.ServerValues.{ItemStack, SkillProgress, ShopOfferEntry, SpellListEntry}
use rustibia_server.Wire.Loadtest.Read.{
  WireReader, try_get_u8, try_get_u16_le, try_get_u32_le, try_get_i8, read_string, read_skill_type,
  read_spell_group, read_flag, read_item_stack, read_skill_progress,
}

module _ ⦃b : Buffer⦄ where
  unfoldable pub read_skill : WireReader (SkillType × SkillProgress)
  read_skill = do skill ← read_skill_type; progress ← read_skill_progress; return (skill, progress)

  unfoldable pub read_channel : WireReader (ℕ × String)
  read_channel = do id ← try_get_u16_le; name ← read_string; return (id, name)

  unfoldable pub read_spell : WireReader SpellListEntry
  read_spell = do
    id ← try_get_u16_le
    name ← read_string
    words ← read_string
    level ← try_get_u16_le
    icon ← try_get_u16_le
    aimable ← read_flag
    group ← read_spell_group
    return (record {
      id = id;
      name = name;
      words = words;
      level = level;
      icon = icon;
      aimable = aimable;
      group = group;
    })

  unfoldable pub read_offer : WireReader ShopOfferEntry
  read_offer = do
    item_id ← try_get_u16_le
    subtype ← try_get_u8
    weight ← try_get_u32_le
    buy ← try_get_u32_le
    sell ← try_get_u32_le
    return
        (record { item_id = item_id; subtype = subtype; weight = weight; buy = buy; sell = sell })

  unfoldable pub read_good : WireReader (ℕ × ℕ × ℕ)
  read_good = do
    item_id ← try_get_u16_le
    subtype ← try_get_u8
    amount ← try_get_u16_le
    return (item_id, subtype, amount)

  unfoldable pub read_channels : WireReader (List (ℕ × String))
  read_channels = do count ← try_get_u16_le; read_times count read_channel

  unfoldable pub read_skills : WireReader (List (SkillType × SkillProgress))
  read_skills = do count ← try_get_u8; read_times count read_skill

  unfoldable pub read_spells : WireReader (List SpellListEntry)
  read_spells = do count ← try_get_u16_le; read_times count read_spell

  unfoldable pub read_offers : WireReader (List ShopOfferEntry)
  read_offers = do count ← try_get_u16_le; read_times count read_offer

  unfoldable pub read_goods : WireReader (List (ℕ × ℕ × ℕ))
  read_goods = do count ← try_get_u16_le; read_times count read_good

  -- The `loop` over the floors, with fuel.
  unfoldable pub read_floor : ℕ → WireReader (List (ℕ × List ItemStack))
  read_floor zero = exhausted
  read_floor (suc n) = do
    floor ← try_get_u8
    if floor == 0xFF then return [] else (do
      count ← try_get_u8
      floor_tiles ← read_times count read_item_stack
      rest ← read_floor n
      return ((floor, floor_tiles) ∷ rest))

  unfoldable pub read_floors : WireReader (List (ℕ × List ItemStack))
  read_floors = with_fuel read_floor

  -- `while !payload.is_empty()`, with fuel.
  unfoldable pub read_delta : ℕ → WireReader (List (ℤ × ℤ))
  read_delta zero buf = spin
  read_delta (suc n) [] = ok ([], [])
  read_delta (suc n) (x ∷ buf) =
      (do dx ← try_get_i8; dy ← try_get_i8; rest ← read_delta n; return ((dx, dy) ∷ rest)) (x ∷ buf)

  unfoldable pub read_deltas : WireReader (List (ℤ × ℤ))
  read_deltas = with_fuel read_delta
