-- ===== src/Wire/Tests.antt =====
-- Runs of both codecs over a little-endian buffer.
use rustibia_server.Prelude.{
  ℕ, zero, suc, All, ◌≤◌, ◌+◌, ◌%◌, ◌^◌, ◌≡◌, refl, [], ◌∷◌, ◌++◌, length, none, some, arith,
  replicate,
}
use rustibia_server.Codes.Facing.{Facing}
use rustibia_server.Codes.AgentKind.{AgentKind}
use rustibia_server.Wire.Reader.{ok, panic}
use rustibia_server.Wire.Text.{is_utf8, trail, follow}
use rustibia_server.Wire.Values.{SayTarget}
use rustibia_server.Wire.ClientMessage.{
  ClientMessage, say, ping, set_target, cli_set_target, IsClientMessage,
}
use rustibia_server.Wire.ServerMessage.{ServerMessage, spawn_agent, describe_map, IsServerMessage}
use rustibia_server.Wire.Loadtest.Encode.{
  encode as encode_client, encode_message as client_message, to_le_bytes, encode_say_target,
  encode_string, encode_optional_agent,
}
use rustibia_server.Wire.Server.Encode.{
  encode as encode_server, encode_message as server_message, encode_spawn_agent,
}
use rustibia_server.Wire.Server.Fields.{
  encode_position, encode_facing, encode_outfit, encode_string as encode_string_server,
}
use rustibia_server.Codes.AgentKind.{as_id}
use rustibia_server.Wire.Server.Decode.{decode as decode_client}
use rustibia_server.Wire.Loadtest.Decode.{LoadtestCodec, decode as decode_server}
use rustibia_server.Wire.LittleEndian.{little_endian}
use rustibia_server.Wire.ClientRoundTrip.{decode-encode_client, decode-padded}
use rustibia_server.Wire.ServerRoundTrip.{decode-encode_server}
use rustibia_server.Wire.Frames.{decode_client-part, decode_server-part}
use rustibia_server.Wire.Panics.{decode-short}
use rustibia_server.Wire.Safe.{Answers}
use rustibia_server.Wire.Bounds.{describe_map_fits}
use rustibia_server.Wire.SessionIds.{decode-encode_target}
use rustibia_server.Prelude.Keys.{nat_key}
use rustibia_server.LocalId.Tests.{one, one-IsValid, one_resolves}
use rustibia_server.Wire.ServerValues.{IsItemStack}
use rustibia_server.Wire.ClientSafety.{decode_server-answers}

-- "hi" to "Bo".
abbrev greeting : ClientMessage
greeting = say (104 ∷ 105 ∷ []) (SayTarget.player (66 ∷ 111 ∷ []))

abbrev rat : ServerMessage
rat =
    spawn_agent 300 (21, record { head = 1; body = 2; legs = 3; feet = 4 })
      (record { x = 1000; y = 999; z = 7 }) Facing.west (82 ∷ 97 ∷ 116 ∷ []) 20 150
      AgentKind.creature 1

abbrev fresh : LoadtestCodec
fresh = record { bytes_read = 0 }

length-greeting : length (client_message greeting) ≡ 8
unfolding client_message encode_say_target encode_string
length-greeting = refl

greeting_valid : IsClientMessage greeting
unfolding is_utf8 trail follow
greeting_valid = (refl, (refl, omega arith))

length-rat : length (server_message rat) ≡ 28
unfolding server_message encode_spawn_agent encode_position encode_facing encode_outfit
    encode_string_server as_id
length-rat = refl

rat_valid : IsServerMessage rat
unfolding is_utf8 trail follow
rat_valid = (
  omega arith,
  (omega arith, omega arith, omega arith),
  (refl, omega arith),
  omega arith,
  (omega arith, omega arith, omega arith, omega arith, omega arith),
  omega arith,
  omega arith,
)

empty_tiles : (n : ℕ) → All IsItemStack (replicate n (replicate 10 none))
empty_tiles zero = tt
empty_tiles (suc n) = ((refl, refl), empty_tiles n)

decode-encode_client_example :
    decode_client (encode_client greeting ++ (1 ∷ 0 ∷ [])) ≡ ok (some greeting, 1 ∷ 0 ∷ [])
decode-encode_client_example =
    decode-encode_client greeting (1 ∷ 0 ∷ []) greeting_valid (omega (arith, length-greeting))

decode-encode_server_example : decode_server fresh (encode_server rat ++ (1 ∷ [])) ≡ (
  record fresh { bytes_read = (0 + length (encode_server rat)) % 2 ^ 64 },
  ok (some rat, 1 ∷ []),
)
decode-encode_server_example =
    decode-encode_server fresh rat (1 ∷ []) rat_valid (omega (arith, length-rat))

-- A ping with two bytes too many.
decode-padded_example :
    decode_client (to_le_bytes 3 ++ (0 ∷ 9 ∷ 9 ∷ 1 ∷ [])) ≡ ok (some ping, 9 ∷ 9 ∷ 1 ∷ [])
unfolding client_message
decode-padded_example = decode-padded ping (9 ∷ 9 ∷ []) (1 ∷ []) tt (λ x. absurd x) (omega arith)

decode_client-part_example : decode_client (7 ∷ 0 ∷ 17 ∷ []) ≡ ok (none, 7 ∷ 0 ∷ 17 ∷ [])
unfolding encode_client client_message encode_optional_agent
decode_client-part_example =
    decode_client-part (set_target (some 300) 7) (7 ∷ 0 ∷ 17 ∷ []) (44 ∷ 1 ∷ 7 ∷ 0 ∷ 0 ∷ 0 ∷ [])
      refl (omega arith) (omega arith)

decode_server-part_example :
    decode_server fresh (28 ∷ 0 ∷ 17 ∷ 44 ∷ []) ≡ (fresh, ok (none, 28 ∷ 0 ∷ 17 ∷ 44 ∷ []))
unfolding encode_server server_message encode_spawn_agent encode_position encode_facing
    encode_outfit encode_string_server as_id
decode_server-part_example =
    decode_server-part fresh rat (28 ∷ 0 ∷ 17 ∷ 44 ∷ [])
      (1 ∷ 232 ∷ 3 ∷ 231 ∷ 3 ∷ 7 ∷ 4 ∷ 3 ∷ 0 ∷ 82 ∷ 97 ∷ 116 ∷ 20 ∷ 0 ∷ 0 ∷ 0 ∷ 21 ∷ 0 ∷ 1 ∷ 2 ∷ 3
        ∷ 4 ∷ 150 ∷ 0 ∷ 1 ∷ 1 ∷ [])
      refl (omega arith) (omega (arith, length-rat))

decode-short_example : decode_client (1 ∷ 0 ∷ 17 ∷ []) ≡ panic
decode-short_example = decode-short cli_set_target refl

decode_server-answers_example : Answers 3 ((decode_server fresh (1 ∷ 0 ∷ 99 ∷ [])).1)
decode_server-answers_example = decode_server-answers fresh (1 ∷ 0 ∷ 99 ∷ [])

decode-encode_target_example :
    decode_client (encode_client (set_target (some 16) 7) ++ [])
    ≡ ok (some (set_target (some 16) 7), [])
decode-encode_target_example =
    decode-encode_target one 16 7 7 [] one-IsValid one_resolves (omega arith)

describe_map_fits_example :
    length (
      server_message
        (describe_map (replicate 252 (replicate 10 none)) (record { x = 1; y = 2; z = 7 }) 7))
    ≤ 8071
describe_map_fits_example =
    describe_map_fits (replicate 252 (replicate 10 none)) (record { x = 1; y = 2; z = 7 }) 7
      (refl, empty_tiles 252)
