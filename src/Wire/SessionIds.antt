-- ===== src/Wire/SessionIds.antt =====
-- The ids that a session hands out, on the wire: `local_id.rs` under `messages.rs`.
use rustibia_server.Prelude.{
  ℕ, ◌/◌, ◌<◌, ◌≡◌, some, List, ◌++◌, length, length-append, get_elem?-lt, arith,
}
use rustibia_server.Prelude.Keys.{Key}
use rustibia_server.LocalId.{LocalIdMap, get_global}
use rustibia_server.LocalId.Invariant.{IsValid}
use rustibia_server.LocalId.Laws.Insert.{Holds-get_global}
use rustibia_server.Wire.Buffer.{Buffer}
use rustibia_server.Wire.Reader.{ok}
use rustibia_server.Wire.Values.{IsU32}
use rustibia_server.Wire.ClientMessage.{set_target, cli_set_target}
use rustibia_server.Wire.Loadtest.Encode.{encode, encode_message, encode_optional_agent}
use rustibia_server.Wire.Server.Decode.{decode}
use rustibia_server.Wire.ClientRoundTrip.{decode-encode_client}

module _ ⦃b : Buffer⦄ where
  seven_bytes : (l seq : ℕ) → length (encode_message (set_target (some l) seq)) ≡ 7
  unfolding encode_message encode_optional_agent
  seven_bytes l seq = omega (
    arith,
    b.length-put_u8 cli_set_target,
    b.length-put_u16_le l,
    b.length-put_u32_le seq,
    length-append (b.put_u8 cli_set_target) (b.put_u16_le l ++ b.put_u32_le seq),
    length-append (b.put_u16_le l) (b.put_u32_le seq),
  )

module _ {G : Type 0} ⦃e : Key G⦄ where
  resolved_below :
      (m : LocalIdMap G) (l : ℕ) (g : G) → IsValid m → get_global m l ≡ some g → l < 0xFFFF
  resolved_below m l g v h =
      let held = Holds-get_global m l g h in
      omega (arith, v.bounded, get_elem?-lt m.slots (l / 16) _ held.at)

module _ {G : Type 0} ⦃e : Key G⦄ ⦃b : Buffer⦄ where
  -- In a session whose ids are valid, a client that targets an agent by an id that resolves sends a
  -- frame that the server reads as that id: no id that resolves is the number for no agent.
  pub decode-encode_target :
      (m : LocalIdMap G) (l seq : ℕ) (g : G) (t : List ℕ)
      → IsValid m
      → get_global m l ≡ some g
      → IsU32 seq
      → decode (encode (set_target (some l) seq) ++ t) ≡ ok (some (set_target (some l) seq), t)
  decode-encode_target m l seq g t v h k =
      decode-encode_client (set_target (some l) seq) t (resolved_below m l g v h, k)
        (omega (arith, seven_bytes l seq))
