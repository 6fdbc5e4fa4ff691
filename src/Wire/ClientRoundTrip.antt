-- ===== src/Wire/ClientRoundTrip.antt =====
-- The server understands what the load test's client writes.
use rustibia_server.Prelude.{
  ℕ, ◌+◌, ◌-◌, ◌/◌, ◌%◌, ◌<◌, ◌≤◌, ◌≡◌, refl, ap, ltb, false, some, List, ◌++◌, length,
  length-append, arith,
}
use rustibia_server.Wire.Buffer.{Buffer}
use rustibia_server.Wire.Reader.{return, ok}
use rustibia_server.Wire.Text.{String, IsUtf8}
use rustibia_server.Wire.Parsing.{Parses, bind, last, ret, skip, ret_eq, assoc}
use rustibia_server.Wire.Values.{IsU16, SayTarget, ChatMessageType}
use rustibia_server.Wire.ClientFields.{
  direction, facing, encode_direction-IsU8, encode_facing-IsU8, decode_optional_agent-raw_of, u8,
  u16, u32, text, position, item_ref, optional_agent, len16, spell_target, param, nonzero,
}
use rustibia_server.Wire.ClientMessage.{
  ClientMessage, ping, login, move_player, get_player_position, move_item, use_item,
  close_container, open_parent_container, change_direction, logout, use_item_with, look, say,
  request_channels, open_channel, close_channel, open_pm_chat, set_target, cast_spell, shop_buy,
  shop_sell, close_shop, IsClientMessage, IsSayTarget, IsString,
}
use rustibia_server.Wire.Loadtest.Encode.{
  encode_message, encode_say_target, encode, encode_string, to_le_bytes,
}
use rustibia_server.Wire.Server.Decode.{
  decode, decode_message, decode_body, decode_say, decode_say_target, decode_chat_message_type,
  from_le_bytes,
}

ltb-false : (a n : ℕ) → n ≤ a → ltb a n ≡ false
ltb-false a n h = ground arith

-- The messages whose last field is a text without a length of its own: it takes the rest of the
-- payload.
abbrev pub EndsInText : ClientMessage → Type 0
EndsInText (login s) = Unit
EndsInText (say s v) = Unit
EndsInText (open_pm_chat s) = Unit
EndsInText m = ⊥

module _ ⦃b : Buffer⦄ where
  behind_opcode : (n p : ℕ) (xs : List ℕ) → p ≡ length (b.put_u8 n ++ xs) → p - 1 ≡ length xs
  behind_opcode n p xs h = omega (arith, length-append (b.put_u8 n) xs, b.length-put_u8 n)

  to_channel :
      (c r : ℕ) {t : List ℕ}
      → IsU16 c
      → 2 ≤ r
      → Parses
          (decode_say_target ChatMessageType.channel r)
          (b.put_u16_le c)
          t
          (SayTarget.channel c, r - 2)
  unfolding decode_say_target
  to_channel c r h k = rw (ltb-false r 2 k) (last _ (u16 h) ret)

  to_player :
      (s : String) (r : ℕ) {t : List ℕ}
      → IsString s
      → 2 + length s ≤ r
      → Parses
          (decode_say_target ChatMessageType.private r)
          (encode_string s)
          t
          (SayTarget.player s, r - 2 - length s)
  unfolding decode_say_target encode_string
  to_player s r h k = rw (ltb-false r 2 (omega arith)) (
      bind _ (len16 (length s) h.1)
        (rw (ltb-false (r - 2) (length s) (omega arith)) (last _ (text s h.0) ret)))

  said :
      (message : String) (v : SayTarget) (p : ℕ) {t : List ℕ}
      → p ≡ 1 + length (encode_say_target v ++ message)
      → IsUtf8 message
      → IsSayTarget v
      → Parses (decode_say p) (encode_say_target v ++ message) t (say message v)
  unfolding decode_say encode_say_target decode_chat_message_type decode_say_target encode_string
  said message SayTarget.local p e h k =
      let n : p ≡ 2 + length message =
        omega (arith, length-append (b.put_u8 1) message, b.length-put_u8 1) in
      let left : p - 2 ≡ length message = omega arith in
      rw (ltb-false p 2 (omega arith)) (
        bind _ (u8 (omega arith)) (skip _ ret (skip _ ret (last _ (rw left (text message h)) ret))))
  said message (SayTarget.channel c) p e h k =
      let n : p ≡ 4 + length message = omega (
        arith,
        length-append (b.put_u8 3 ++ b.put_u16_le c) message,
        length-append (b.put_u8 3) (b.put_u16_le c),
        b.length-put_u8 3,
        b.length-put_u16_le c,
      ) in
      let left : p - 2 - 2 ≡ length message = omega arith in
      rw (ltb-false p 2 (omega arith)) (
        assoc (b.put_u8 3) (b.put_u16_le c) message (
          bind _ (u8 (omega arith)) (
            skip _ ret (
              bind _ (to_channel c (p - 2) k (omega arith))
                (last _ (rw left (text message h)) ret)))))
  said message (SayTarget.player s) p e h k =
      let len = b.put_u16_le (length s % 65536) in
      let n : p ≡ 4 + length s + length message = omega (
        arith,
        length-append (b.put_u8 2 ++ (len ++ s)) message,
        length-append (b.put_u8 2) (len ++ s),
        length-append len s,
        b.length-put_u8 2,
        b.length-put_u16_le (length s % 65536),
      ) in
      let left : p - 2 - 2 - length s ≡ length message = omega arith in
      rw (ltb-false p 2 (omega arith)) (
        assoc (b.put_u8 2) (len ++ s) message (
          bind _ (u8 (omega arith)) (
            skip _ ret (
              bind _ (to_player s (p - 2) k (omega arith))
                (last _ (rw left (text message h)) ret)))))

  body :
      (m : ClientMessage) (p : ℕ) {t : List ℕ}
      → IsClientMessage m
      → (EndsInText m → p ≡ length (encode_message m))
      → Parses (decode_message p) (encode_message m) t m
  unfolding encode_message decode_message decode_body
  body ping p h e = last _ (u8 (omega arith)) ret
  body (login s) p h e =
      bind _ (u8 (omega arith)) (last _ (rw (behind_opcode 1 p s (e tt)) (text s h)) ret)
  body (move_player d) p h e =
      bind _ (u8 (omega arith)) (last _ (u8 (encode_direction-IsU8 d)) (last _ (direction d) ret))
  body get_player_position p h e = last _ (u8 (omega arith)) ret
  body (move_item item amount to) p h e = bind _ (u8 (omega arith)) (
      bind _ (position h.0.0)
        (bind _ (u16 h.0.1) (bind _ (u8 h.1) (bind _ (u8 h.0.2) (last _ (position h.2) ret)))))
  body (use_item item) p h e = bind _ (u8 (omega arith)) (last _ (item_ref h) ret)
  body (close_container id) p h e = bind _ (u8 (omega arith)) (last _ (u16 h) ret)
  body (open_parent_container id) p h e = bind _ (u8 (omega arith)) (last _ (u16 h) ret)
  body (change_direction d) p h e =
      bind _ (u8 (omega arith)) (last _ (u8 (encode_facing-IsU8 d)) (last _ (facing d) ret))
  body logout p h e = last _ (u8 (omega arith)) ret
  body (use_item_with source target agent) p h e = bind _ (u8 (omega arith)) (
      bind _ (item_ref h.0) (
        bind _ (item_ref h.1) (
          last _ (optional_agent agent h.2)
            (ret_eq (ap (use_item_with source target) (decode_optional_agent-raw_of agent h.2))))))
  body (look o) p h e = bind _ (u8 (omega arith)) (last _ (position h) ret)
  body (say message v) p h e = bind _ (u8 (omega arith)) (
      said message v p
        (omega (
          arith,
          e tt,
          length-append (b.put_u8 12) (encode_say_target v ++ message),
          b.length-put_u8 12,
        ))
        h.0 h.1)
  body request_channels p h e = last _ (u8 (omega arith)) ret
  body (open_channel id) p h e = bind _ (u8 (omega arith)) (last _ (u16 h) ret)
  body (close_channel id) p h e = bind _ (u8 (omega arith)) (last _ (u16 h) ret)
  body (open_pm_chat s) p h e =
      bind _ (u8 (omega arith)) (last _ (rw (behind_opcode 16 p s (e tt)) (text s h)) ret)
  body (set_target agent seq) p h e = bind _ (u8 (omega arith)) (
      bind _ (optional_agent agent h.0) (
        last _ (u32 h.1)
          (ret_eq (ap (λ a. set_target a seq) (decode_optional_agent-raw_of agent h.0)))))
  body (cast_spell id v o) p h e =
      bind _ (u8 (omega arith))
        (bind _ (u16 h.0) (bind _ (spell_target v h.1) (last _ (param o h.2) ret)))
  body (shop_buy item subtype amount) p h e =
      bind _ (u8 (omega arith)) (bind _ (u16 h.0) (bind _ (u8 h.1) (last _ (u8 h.2) ret)))
  body (shop_sell item subtype amount) p h e =
      bind _ (u8 (omega arith)) (bind _ (u16 h.0) (bind _ (u8 h.1) (last _ (u8 h.2) ret)))
  body close_shop p h e = last _ (u8 (omega arith)) ret

  alone : (n : ℕ) → 0 < length (b.put_u8 n)
  alone n = omega (arith, b.length-put_u8 n)

  starts : (n : ℕ) (xs : List ℕ) → 0 < length (b.put_u8 n ++ xs)
  starts n xs = omega (arith, length-append (b.put_u8 n) xs, b.length-put_u8 n)

  pub encode_message_nonempty : (m : ClientMessage) → 0 < length (encode_message m)
  unfolding encode_message
  encode_message_nonempty ping = alone 0
  encode_message_nonempty (login s) = starts 1 _
  encode_message_nonempty (move_player d) = starts 2 _
  encode_message_nonempty get_player_position = alone 3
  encode_message_nonempty (move_item i n p) = starts 4 _
  encode_message_nonempty (use_item i) = starts 5 _
  encode_message_nonempty (close_container n) = starts 6 _
  encode_message_nonempty (open_parent_container n) = starts 7 _
  encode_message_nonempty (change_direction d) = starts 8 _
  encode_message_nonempty logout = alone 9
  encode_message_nonempty (use_item_with i j a) = starts 10 _
  encode_message_nonempty (look p) = starts 11 _
  encode_message_nonempty (say s v) = starts 12 _
  encode_message_nonempty request_channels = alone 13
  encode_message_nonempty (open_channel n) = starts 14 _
  encode_message_nonempty (close_channel n) = starts 15 _
  encode_message_nonempty (open_pm_chat s) = starts 16 _
  encode_message_nonempty (set_target a n) = starts 17 _
  encode_message_nonempty (cast_spell n v o) = starts 18 _
  encode_message_nonempty (shop_buy i n m) = starts 19 _
  encode_message_nonempty (shop_sell i n m) = starts 20 _
  encode_message_nonempty close_shop = alone 21

  -- The server's answer to a whole frame of `p` bytes that starts with a message.
  frame :
      (m : ClientMessage) (p : ℕ) (t : List ℕ)
      → IsClientMessage m
      → (EndsInText m → p ≡ length (encode_message m))
      → length (encode_message m) ≤ p
      → p ≤ length (encode_message m ++ t)
      → IsU16 p
      → decode (to_le_bytes p ++ (encode_message m ++ t)) ≡ ok (some m, t)
  unfolding decode
  frame m p t h e low high k =
      let same : from_le_bytes (p % 256) (p / 256 % 256) ≡ p = omega arith in
      rw
        (
          same,
          ltb-false (2 + length (encode_message m ++ t)) (2 + p) (omega arith),
          nonzero p (omega (arith, encode_message_nonempty m)),
        )
        ((last (λ x. return (some x)) (body m p h e) ret).run)

  -- A message of the client with its fields in range and a payload that fits the length in front
  -- of it is decoded by the server to itself, and the bytes behind its frame are left unread.
  pub decode-encode_client :
      (m : ClientMessage) (t : List ℕ)
      → IsClientMessage m
      → IsU16 (length (encode_message m))
      → decode (encode m ++ t) ≡ ok (some m, t)
  unfolding encode
  decode-encode_client m t h k =
      let n = length (encode_message m) in
      let same : n % 65536 ≡ n = omega arith in
      rw same (
        frame m n t h (λ _. refl) (omega arith) (omega (arith, length-append (encode_message m) t))
          k)

  -- Where the payload of a frame has more bytes than its message needs, and the message does not
  -- end in a text, the server takes the frame for a good one and leaves the rest of the payload in
  -- the buffer, in front of the next frame.
  pub decode-padded :
      (m : ClientMessage) (extra t : List ℕ)
      → IsClientMessage m
      → ¬ EndsInText m
      → IsU16 (length (encode_message m ++ extra))
      → decode
          (to_le_bytes (length (encode_message m ++ extra)) ++ (encode_message m ++ (extra ++ t)))
        ≡ ok (some m, extra ++ t)
  decode-padded m extra t h e k =
      frame m (length (encode_message m ++ extra)) (extra ++ t) h (λ x. absurd (e x))
        (omega (arith, length-append (encode_message m) extra))
        (omega (
          arith,
          length-append (encode_message m) extra,
          length-append (encode_message m) (extra ++ t),
          length-append extra t,
        ))
        k
