-- ===== src/Wire/ServerEntries.antt =====
-- The load test's client reads the stacks of the tiles and the items of a container as the server
-- wrote them.
use rustibia_server.Prelude.{
  ℕ, zero, suc, ◌<◌, ◌≤◌, ◌≡◌, refl, sym, ap, ◌∙◌, ltb, false, none, some, List, [], ◌∷◌, ◌++◌,
  length, length-append, replicate, map, arith,
}
use rustibia_server.Wire.Buffer.{Buffer}
use rustibia_server.Wire.Reader.{read_times}
use rustibia_server.Wire.Parsing.{Parses, bind, last, ret, ret_eq, with_fuel_rule, times}
use rustibia_server.Wire.ServerValues.{
  Slots, ItemStack, IsPadded, IsItemStack, IsContents, max_visible_items, viewport_size,
}
use rustibia_server.Wire.ServerMessage.{IsView}
use rustibia_server.Wire.Server.Fields.{encode_tile, each}
use rustibia_server.Wire.Loadtest.Read.{
  fill, read_entries, read_tile_entries, read_item_stack, read_container_items,
}
use rustibia_server.Wire.ServerFields.{u8, u16, differs}

-- The items in front of the first empty slot.
abbrev pub entries_of : Slots → List (ℕ × ℕ)
entries_of [] = []
entries_of (none ∷ slots) = []
entries_of (some e ∷ slots) = e ∷ entries_of slots

fill_empty : (n : ℕ) → fill n [] ≡ replicate n none
unfolding fill
fill_empty zero = refl
fill_empty (suc n) = ap (λ s. none ∷ s) (fill_empty n)

fill-entries_of : (slots : Slots) → IsPadded slots → fill (length slots) (entries_of slots) ≡ slots
unfolding fill
fill-entries_of [] h = refl
fill-entries_of (none ∷ slots) h = ap (λ s. none ∷ s) (fill_empty (length slots) ∙ sym h)
fill-entries_of (some e ∷ slots) h = ap (λ s. some e ∷ s) (fill-entries_of slots h.1)

length-entries_of : (slots : Slots) → length (entries_of slots) ≤ length slots
length-entries_of [] = omega arith
length-entries_of (none ∷ slots) = omega arith
length-entries_of (some e ∷ slots) = omega (arith, length-entries_of slots)

pub ltb-false : (a n : ℕ) → n ≤ a → ltb a n ≡ false
ltb-false a n h = ground arith

IsContents-IsPadded : (slots : Slots) → IsContents slots → IsPadded slots
IsContents-IsPadded [] h = tt
IsContents-IsPadded (none ∷ slots) h = absurd h
IsContents-IsPadded (some e ∷ slots) h = (h.0, IsContents-IsPadded slots h.1)

map-entries_of : (slots : Slots) → IsContents slots → map some (entries_of slots) ≡ slots
map-entries_of [] h = refl
map-entries_of (none ∷ slots) h = absurd h
map-entries_of (some e ∷ slots) h = ap (λ s. some e ∷ s) (map-entries_of slots h.1)

module _ ⦃b : Buffer⦄ where
  entries :
      (slots : Slots) (n : ℕ) {t : List ℕ}
      → IsPadded slots
      → length (entries_of slots) < n
      → Parses (read_entries n) (encode_tile slots) t (entries_of slots)
  unfolding read_entries encode_tile
  entries slots zero h k = absurd (omega arith)
  entries [] (suc n) h k = last _ (u16 (omega arith)) ret
  entries (none ∷ slots) (suc n) h k = last _ (u16 (omega arith)) ret
  entries (some (id, amount) ∷ slots) (suc n) h k = bind _ (u16 (omega arith)) (
      rw (differs id 0xFFFF h.0.0)
        (bind _ (u8 h.0.1) (last _ (entries slots n h.1 (omega arith)) ret)))

  length-encode_tile : (slots : Slots) → length (entries_of slots) ≤ length (encode_tile slots)
  unfolding encode_tile
  length-encode_tile [] = omega arith
  length-encode_tile (none ∷ slots) = omega arith
  length-encode_tile (some (id, amount) ∷ slots) = omega (
    arith,
    length-encode_tile slots,
    b.length-put_u16_le id,
    length-append (b.put_u16_le id) (b.put_u8 amount ++ encode_tile slots),
    length-append (b.put_u8 amount) (encode_tile slots),
  )

  tile_entries :
      (slots : Slots) {t : List ℕ}
      → IsPadded slots
      → Parses read_tile_entries (encode_tile slots) t (entries_of slots)
  unfolding read_tile_entries
  tile_entries slots {t} h = with_fuel_rule read_entries (
      entries slots _ h
        (omega (arith, length-encode_tile slots, length-append (encode_tile slots) t)))

  pub item_stack :
      (stack : ItemStack) {t : List ℕ}
      → IsItemStack stack
      → Parses read_item_stack (encode_tile stack) t stack
  unfolding read_item_stack
  item_stack stack h =
      let same : fill max_visible_items (entries_of stack) ≡ stack =
        rw (← h.0) (fill-entries_of stack h.1) in
      last _ (tile_entries stack h.1) (
        rw
          (ltb-false max_visible_items (length (entries_of stack))
            (omega (arith, length-entries_of stack, h.0)))
          (ret_eq same))

  pub container_items :
      (slots : Slots) {t : List ℕ}
      → IsContents slots
      → Parses read_container_items (encode_tile slots) t slots
  unfolding read_container_items
  container_items slots h =
      last _ (tile_entries slots (IsContents-IsPadded slots h)) (ret_eq (map-entries_of slots h))

  pub view :
      (tiles : List ItemStack) {t : List ℕ}
      → IsView tiles
      → Parses (read_times viewport_size read_item_stack) (each encode_tile tiles) t tiles
  view tiles h = rw (← h.0) (times IsItemStack encode_tile (λ a t k. item_stack a k) tiles h.1)
