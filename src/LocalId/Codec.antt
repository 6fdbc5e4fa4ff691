-- ===== src/LocalId/Codec.antt =====
-- `compose` and `split` of `local_id.rs`: the two fields of an id.
use rustibia_server.Prelude.{ℕ, ◌+◌, ◌*◌, ◌%◌, ◌/◌, ◌<◌, ◌≡◌, arith}
use rustibia_server.Prelude.Bits.{bit_or_nibble, bit_and_fifteen}
use rustibia_server.LocalId.{compose, split}

pub compose_lem : (i g : ℕ) → i < 4096 → g < 16 → compose i g ≡ i * 16 + g
unfolding compose
compose_lem i g hi hg =
    let low : i * 16 % 65536 ≡ i * 16 = omega arith in
    let mask : g % 16 ≡ g = omega arith in rw (bit_and_fifteen, mask, low) (bit_or_nibble i g hg)

pub split_lem : (l : ℕ) → split l ≡ (l / 16, l % 16)
unfolding split
split_lem l = rw (bit_and_fifteen l)

-- A slot index of twelve bits and a generation of four come back out of the id that they make,
-- and an id of 16 bits is made again of its two fields.
pub split-compose :
    (i g : ℕ)
    → i < 4096
    → g < 16
    → (split (compose i g) ≡ (i, g))
      × (compose (split (i * 16 + g)).0 (split (i * 16 + g)).1 ≡ i * 16 + g)
split-compose i g hi hg =
    let hi' : (i * 16 + g) / 16 ≡ i = omega arith in
    let lo' : (i * 16 + g) % 16 ≡ g = omega arith in
    (
      rw (compose_lem i g hi hg, split_lem (i * 16 + g), hi', lo'),
      rw (split_lem (i * 16 + g), hi', lo') (compose_lem i g hi hg),
    )
