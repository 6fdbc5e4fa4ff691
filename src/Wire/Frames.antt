-- ===== src/Wire/Frames.antt =====
-- Frames that have not arrived whole, and frames that are too short for their opcode.
use rustibia_server.Prelude.{
  ℕ, ◌+◌, ◌/◌, ◌%◌, ◌<◌, ◌≡◌, refl, ap, ◌∙◌, ltb, true, none, List, [], ◌∷◌, ◌++◌, length,
  length-append, arith,
}
use rustibia_server.Wire.Buffer.{Buffer}
use rustibia_server.Wire.Reader.{ok}
use rustibia_server.Wire.Values.{IsU16}
use rustibia_server.Wire.ClientMessage.{ClientMessage}
use rustibia_server.Wire.ServerMessage.{ServerMessage}
use rustibia_server.Wire.Loadtest.Encode.{
  encode as encode_client, encode_message as client_message, to_le_bytes,
}
use rustibia_server.Wire.Server.Encode.{encode as encode_server, encode_message as server_message}
use rustibia_server.Wire.Server.Decode.{decode as decode_client, from_le_bytes}
use rustibia_server.Wire.Loadtest.Decode.{LoadtestCodec, decode as decode_server}

-- A part of a frame of the payload `xs` has fewer bytes than its length in front says.
waits :
    (xs rest q : List ℕ) (x y : ℕ)
    → to_le_bytes (length xs % 65536) ++ xs ≡ x ∷ y ∷ (rest ++ q)
    → IsU16 (length xs)
    → 0 < length q
    → ltb (2 + length rest) (2 + from_le_bytes x y) ≡ true
waits xs rest q x y e k h =
    let ex : length xs % 65536 % 256 ≡ x = cc in
    let ey : length xs % 65536 / 256 % 256 ≡ y = cc in
    let es : xs ≡ rest ++ q = cc in
    let same : from_le_bytes x y ≡ length xs = omega arith in
    let parts : length xs ≡ length rest + length q = ap length es ∙ length-append rest q in
    ground arith

module _ ⦃b : Buffer⦄ where
  -- Of a frame that the load test's client wrote, with a payload that fits the length in front of it,
  -- and that has arrived only in part, the server takes nothing and asks for more.
  pub decode_client-part :
      (m : ClientMessage) (p q : List ℕ)
      → encode_client m ≡ p ++ q
      → 0 < length q
      → IsU16 (length (client_message m))
      → decode_client p ≡ ok (none, p)
  unfolding decode_client encode_client
  decode_client-part m [] q e h k = refl
  decode_client-part m (x ∷ []) q e h k = refl
  decode_client-part m (x ∷ y ∷ rest) q e h k = rw (waits (client_message m) rest q x y e k h) refl

  -- Of a frame that the server wrote, with a payload that fits the length in front of it, and that
  -- has arrived only in part, the load test's client takes nothing, asks for more and counts no byte.
  pub decode_server-part :
      (codec : LoadtestCodec) (m : ServerMessage) (p q : List ℕ)
      → encode_server m ≡ p ++ q
      → 0 < length q
      → IsU16 (length (server_message m))
      → decode_server codec p ≡ (codec, ok (none, p))
  unfolding decode_server encode_server
  decode_server-part codec m [] q e h k = refl
  decode_server-part codec m (x ∷ []) q e h k = refl
  decode_server-part codec m (x ∷ y ∷ rest) q e h k =
      rw (waits (server_message m) rest q x y e k h) refl
