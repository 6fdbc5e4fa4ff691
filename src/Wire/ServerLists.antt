-- ===== src/Wire/ServerLists.antt =====
-- The load test's client reads each list as the server wrote it, those with a count and those that
-- run up to a mark or to the end of the payload.
use rustibia_server.Prelude.{
  ℕ, zero, suc, ◌%◌, ◌<◌, ◌≤◌, ◌≡◌, refl, ◌∙◌, List, [], ◌∷◌, ◌++◌, length, length-append, All,
  arith,
}
use rustibia_server.Prelude.Int.{ℤ}
use rustibia_server.Codes.SkillType.{SkillType}
use rustibia_server.Wire.Buffer.{Buffer}
use rustibia_server.Wire.Reader.{◌>>=◌, return, ok}
use rustibia_server.Wire.Text.{String}
use rustibia_server.Wire.Parsing.{Parses, bind, last, ret, with_fuel_rule, times, assoc}
use rustibia_server.Wire.Values.{IsU16}
use rustibia_server.Wire.ServerValues.{
  ItemStack, SkillProgress, ShopOfferEntry, SpellListEntry, IsItemStack, IsShopOfferEntry, IsGood,
  IsSpellListEntry, IsSkill, IsChannel, IsFloor,
}
use rustibia_server.Wire.ServerMessage.{IsDelta, IsSkills}
use rustibia_server.Wire.Server.Fields.{
  encode_tile, encode_skill, encode_channel, encode_spell, encode_offer, encode_good, encode_floor,
  encode_delta, each,
}
use rustibia_server.Wire.Loadtest.Read.{try_get_i8}
use rustibia_server.Wire.Loadtest.Lists.{
  read_skill, read_channel, read_spell, read_offer, read_good, read_skills, read_channels,
  read_spells, read_offers, read_goods, read_floor, read_floors, read_delta, read_deltas,
}
use rustibia_server.Wire.ServerFields.{
  u8, u16, u32, i8, len8, len16, differs, string, flag, spell_group, skill_type, skill_progress,
}
use rustibia_server.Wire.ServerEntries.{item_stack}

module _ ⦃b : Buffer⦄ where
  skill_rule :
      (a : SkillType × SkillProgress) (t : List ℕ)
      → IsSkill a
      → Parses read_skill (encode_skill a) t a
  unfolding read_skill encode_skill
  skill_rule a t h = bind _ (skill_type a.0) (last _ (skill_progress h) ret)

  pub skills :
      (xs : List (SkillType × SkillProgress)) {t : List ℕ}
      → IsSkills xs
      → Parses read_skills (b.put_u8 (length xs % 256) ++ each encode_skill xs) t xs
  unfolding read_skills
  skills xs h = bind _ (len8 (length xs) h.0) (times IsSkill encode_skill skill_rule xs h.1)

  channel_rule :
      (a : ℕ × String) (t : List ℕ) → IsChannel a → Parses read_channel (encode_channel a) t a
  unfolding read_channel encode_channel
  channel_rule a t h = bind _ (u16 h.0) (last _ (string _ h.1) ret)

  pub channels :
      (xs : List (ℕ × String)) {t : List ℕ}
      → IsU16 (length xs) × All IsChannel xs
      → Parses read_channels (b.put_u16_le (length xs % 65536) ++ each encode_channel xs) t xs
  unfolding read_channels
  channels xs h =
      bind _ (len16 (length xs) h.0) (times IsChannel encode_channel channel_rule xs h.1)

  spell_rule :
      (a : SpellListEntry) (t : List ℕ)
      → IsSpellListEntry a
      → Parses read_spell (encode_spell a) t a
  unfolding read_spell encode_spell
  spell_rule a t h = bind _ (u16 h.0) (
      bind _ (string _ h.1) (
        bind _ (string _ h.2)
          (bind _ (u16 h.3) (bind _ (u16 h.4) (bind _ (flag _) (last _ (spell_group _) ret))))))

  pub spells :
      (xs : List SpellListEntry) {t : List ℕ}
      → IsU16 (length xs) × All IsSpellListEntry xs
      → Parses read_spells (b.put_u16_le (length xs % 65536) ++ each encode_spell xs) t xs
  unfolding read_spells
  spells xs h =
      bind _ (len16 (length xs) h.0) (times IsSpellListEntry encode_spell spell_rule xs h.1)

  offer_rule :
      (a : ShopOfferEntry) (t : List ℕ)
      → IsShopOfferEntry a
      → Parses read_offer (encode_offer a) t a
  unfolding read_offer encode_offer
  offer_rule a t h =
      bind _ (u16 h.0)
        (bind _ (u8 h.1) (bind _ (u32 h.2) (bind _ (u32 h.3) (last _ (u32 h.4) ret))))

  pub offers :
      (xs : List ShopOfferEntry) {t : List ℕ}
      → IsU16 (length xs) × All IsShopOfferEntry xs
      → Parses read_offers (b.put_u16_le (length xs % 65536) ++ each encode_offer xs) t xs
  unfolding read_offers
  offers xs h =
      bind _ (len16 (length xs) h.0) (times IsShopOfferEntry encode_offer offer_rule xs h.1)

  good_rule : (a : ℕ × ℕ × ℕ) (t : List ℕ) → IsGood a → Parses read_good (encode_good a) t a
  unfolding read_good encode_good
  good_rule a t h = bind _ (u16 h.0) (bind _ (u8 h.1) (last _ (u16 h.2) ret))

  pub goods :
      (xs : List (ℕ × ℕ × ℕ)) {t : List ℕ}
      → IsU16 (length xs) × All IsGood xs
      → Parses read_goods (b.put_u16_le (length xs % 65536) ++ each encode_good xs) t xs
  unfolding read_goods
  goods xs h = bind _ (len16 (length xs) h.0) (times IsGood encode_good good_rule xs h.1)

  floor_each :
      (xs : List (ℕ × List ItemStack)) (n : ℕ) {t : List ℕ}
      → All IsFloor xs
      → length xs < n
      → Parses (read_floor n) (each encode_floor xs ++ b.put_u8 0xFF) t xs
  unfolding read_floor encode_floor each
  floor_each xs zero h k = absurd (omega arith)
  floor_each [] (suc n) h k = last _ (u8 (omega arith)) ret
  floor_each ((floor, tiles) ∷ xs) (suc n) h k =
      let count = b.put_u8 (length tiles % 256) in
      let items = each encode_tile tiles in
      let behind = each encode_floor xs ++ b.put_u8 0xFF in
      assoc (b.put_u8 floor ++ (count ++ items)) (each encode_floor xs) (b.put_u8 0xFF) (
        assoc (b.put_u8 floor) (count ++ items) behind (
          bind _ (u8 (omega (arith, h.0.0))) (
            rw (differs floor 0xFF h.0.0) (
              assoc count items behind (
                bind _ (len8 (length tiles) h.0.1) (
                  bind _ (times IsItemStack encode_tile (λ a t g. item_stack a g) tiles h.0.2)
                    (last _ (floor_each xs n h.1 (omega arith)) ret)))))))

  length-each_floor : (xs : List (ℕ × List ItemStack)) → length xs ≤ length (each encode_floor xs)
  unfolding encode_floor each
  length-each_floor [] = omega arith
  length-each_floor ((floor, tiles) ∷ xs) =
      let tail = b.put_u8 (length tiles % 256) ++ each encode_tile tiles in
      omega (
        arith,
        length-each_floor xs,
        b.length-put_u8 floor,
        length-append (b.put_u8 floor ++ tail) (each encode_floor xs),
        length-append (b.put_u8 floor) tail,
      )

  pub floors :
      (xs : List (ℕ × List ItemStack)) {t : List ℕ}
      → All IsFloor xs
      → Parses read_floors (each encode_floor xs ++ b.put_u8 0xFF) t xs
  unfolding read_floors
  floors xs {t} h =
      let last_mark = b.put_u8 0xFF in
      with_fuel_rule read_floor (
        floor_each xs _ h (
          omega (
            arith,
            length-each_floor xs,
            length-append (each encode_floor xs) last_mark,
            length-append (each encode_floor xs ++ last_mark) t,
          )))

  read_delta_on :
      (n : ℕ) (buf : List ℕ)
      → 0 < length buf
      → read_delta (suc n) buf
        ≡ (do dx ← try_get_i8; dy ← try_get_i8; rest ← read_delta n; return ((dx, dy) ∷ rest)) buf
  unfolding read_delta
  read_delta_on n [] h = absurd (omega arith)
  read_delta_on n (x ∷ buf) h = refl

  no_delta : (n : ℕ) → read_delta (suc n) [] ≡ ok ([], [])
  unfolding read_delta
  no_delta n = refl

  delta_each :
      (xs : List (ℤ × ℤ)) (n : ℕ)
      → All IsDelta xs
      → length xs < n
      → Parses (read_delta n) (each encode_delta xs) [] xs
  unfolding encode_delta each
  delta_each xs zero h k = absurd (omega arith)
  delta_each [] (suc n) h k = record { run = no_delta n }
  delta_each (d ∷ xs) (suc n) h k =
      let dx = b.put_i8 d.0 in
      let dy = b.put_i8 d.1 in
      let behind = each encode_delta xs in
      let some_left : 0 < length (((dx ++ dy) ++ behind) ++ []) = omega (
        arith,
        length-append ((dx ++ dy) ++ behind) [],
        length-append (dx ++ dy) behind,
        length-append dx dy,
        b.length-put_i8 d.0,
      ) in
      record {
        run =
            read_delta_on n (((dx ++ dy) ++ behind) ++ []) some_left
            ∙ (assoc dx dy behind (
                bind _ (i8 h.0.0)
                  (bind _ (i8 h.0.1) (last _ (delta_each xs n h.1 (omega arith)) ret)))).run;
      }

  length-each_delta : (xs : List (ℤ × ℤ)) → length xs ≤ length (each encode_delta xs)
  unfolding encode_delta each
  length-each_delta [] = omega arith
  length-each_delta (d ∷ xs) = omega (
    arith,
    length-each_delta xs,
    b.length-put_i8 d.0,
    length-append (b.put_i8 d.0 ++ b.put_i8 d.1) (each encode_delta xs),
    length-append (b.put_i8 d.0) (b.put_i8 d.1),
  )

  pub deltas :
      (xs : List (ℤ × ℤ)) → All IsDelta xs → Parses read_deltas (each encode_delta xs) [] xs
  unfolding read_deltas
  deltas xs h = with_fuel_rule read_delta (
      delta_each xs _ h
        (omega (arith, length-each_delta xs, length-append (each encode_delta xs) [])))
