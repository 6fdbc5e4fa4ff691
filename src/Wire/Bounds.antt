-- ===== src/Wire/Bounds.antt =====
-- How long what the server writes can be.
use rustibia_server.Prelude.{
  ℕ, ◌+◌, ◌*◌, ◌≤◌, ◌≡◌, none, some, List, [], ◌∷◌, ◌++◌, length, length-append, All, arith,
}
use rustibia_server.Geometry.{Position}
use rustibia_server.Wire.Buffer.{Buffer}
use rustibia_server.Wire.ServerValues.{Slots, ItemStack, IsItemStack}
use rustibia_server.Wire.ServerMessage.{IsView, describe_map, srv_describe_map}
use rustibia_server.Wire.Server.Fields.{encode_tile, encode_position, each}
use rustibia_server.Wire.Server.Encode.{encode_message, encode_describe_map}

module _ ⦃b : Buffer⦄ where
  encode_tile_le : (slots : Slots) → length (encode_tile slots) ≤ 3 * length slots + 2
  unfolding encode_tile
  encode_tile_le [] = omega (arith, b.length-put_u16_le 0xFFFF)
  encode_tile_le (none ∷ slots) = omega (arith, b.length-put_u16_le 0xFFFF)
  encode_tile_le (some (id, amount) ∷ slots) =
      let tail = b.put_u8 amount ++ encode_tile slots in
      omega (
        arith,
        encode_tile_le slots,
        length-append (b.put_u16_le id) tail,
        length-append (b.put_u8 amount) (encode_tile slots),
        b.length-put_u16_le id,
        b.length-put_u8 amount,
      )

  tiles_le :
      (tiles : List ItemStack)
      → All IsItemStack tiles
      → length (each encode_tile tiles) ≤ 32 * length tiles
  unfolding each
  tiles_le [] h = omega arith
  tiles_le (s ∷ tiles) h = omega (
    arith,
    tiles_le tiles h.1,
    encode_tile_le s,
    h.0.0,
    length-append (encode_tile s) (each encode_tile tiles),
  )

  length-encode_position : (p : Position) → length (encode_position p) ≡ 5
  unfolding encode_position
  length-encode_position p = omega (
    arith,
    length-append (b.put_u16_le p.x) (b.put_u16_le p.y ++ b.put_u8 p.z),
    length-append (b.put_u16_le p.y) (b.put_u8 p.z),
    b.length-put_u16_le p.x,
    b.length-put_u16_le p.y,
    b.length-put_u8 p.z,
  )

  -- The description of a view, one stack of at most ten visible items for each of its 252 tiles,
  -- takes at most 8071 bytes, so that its length always fits the two bytes in front of a frame.
  pub describe_map_fits :
      (tiles : List ItemStack) (center : Position) (floor : ℕ)
      → IsView tiles
      → length (encode_message (describe_map tiles center floor)) ≤ 8071
  unfolding encode_message encode_describe_map
  describe_map_fits tiles center floor h =
      let tail = b.put_u8 floor ++ each encode_tile tiles in
      omega (
        arith,
        h.0,
        tiles_le tiles h.1,
        length-encode_position center,
        b.length-put_u8 floor,
        b.length-put_u8 srv_describe_map,
        length-append (b.put_u8 floor) (each encode_tile tiles),
        length-append (encode_position center) tail,
        length-append (b.put_u8 srv_describe_map) (encode_position center ++ tail),
      )
