-- ===== src/Wire/Panics.antt =====
-- Reads of the server that leave the buffer.
use rustibia_server.Prelude.{
  ℕ, suc, ◌+◌, ◌≡◌, refl, true, any, ◌==◌, ==→≡, Option, none, some, List, [], ◌∷◌, ◌++◌, length,
  append-nil, Option-cases, Bool-cases, inl, inr, All, arith,
}
use rustibia_server.Wire.Buffer.{Buffer}
use rustibia_server.Wire.Reader.{ok, panic, ◌>>=◌, get}
use mathlib.Core.Path.{subst}
use rustibia_server.Wire.Values.{IsU8}
use rustibia_server.Wire.Loadtest.Encode.{to_le_bytes}
use rustibia_server.Wire.ClientFields.{u8}
use rustibia_server.Wire.ClientMessage.{
  cli_move_player, cli_move_item, cli_use_item, cli_close_container, cli_open_parent_container,
  cli_change_direction, cli_use_item_with, cli_look, cli_open_channel, cli_close_channel,
  cli_set_target, cli_cast_spell, cli_shop_buy, cli_shop_sell,
}
use rustibia_server.Wire.Server.Decode.{
  ServerReader, decode, decode_message, decode_body, decode_position, decode_item_ref, get_u8,
  get_u16_le,
}

-- The opcodes of the messages that start with a field of a fixed width.
abbrev pub fixed_opcodes : List ℕ
fixed_opcodes =
    cli_move_player ∷ cli_move_item ∷ cli_use_item ∷ cli_close_container ∷ cli_open_parent_container
    ∷ cli_change_direction ∷ cli_use_item_with ∷ cli_look ∷ cli_open_channel ∷ cli_close_channel
    ∷ cli_set_target ∷ cli_cast_spell ∷ cli_shop_buy ∷ cli_shop_sell ∷ []

nothing_left :
    {A : Type 0} (f : List ℕ → Option (A × List ℕ)) (k : ℕ)
    → ((xs t : List ℕ) (a : A) → f xs ≡ some (a, t) → length xs ≡ suc k + length t)
    → f [] ≡ none
nothing_left f k law = elim (Option-cases (f [])) [
  | inl e ↦ e
  | inr (p, e) ↦ absurd ground (arith, law [] p.1 p.0 e)
]

of_any : (P : ℕ → Type 0) (ks : List ℕ) (n : ℕ) → All P ks → any (λ k. k == n) ks ≡ true → P n
of_any P [] n ps h = absurd ground arith
of_any P (k ∷ ks) n ps h = elim (Bool-cases (k == n)) [
  | inl e ↦ subst P (==→≡ k n e) ps.0
  | inr e ↦ of_any P ks n ps.1 (ground arith)
]

module _ ⦃b : Buffer⦄ where
  u8_panics : get_u8 [] ≡ panic
  unfolding get_u8 get
  u8_panics = rw (get, nothing_left b.try_get_u8 0 b.try_get_u8-length) refl

  u16_panics : get_u16_le [] ≡ panic
  unfolding get_u16_le get
  u16_panics = rw (get, nothing_left b.try_get_u16_le 1 b.try_get_u16_le-length) refl

  panic_first :
      {A B : Type 0} (m : ServerReader A) (f : A → ServerReader B) {buf : List ℕ}
      → m buf ≡ panic
      → (m >>= f) buf ≡ panic
  unfolding ◌>>=◌
  panic_first m f e = rw e refl

  position_panics : decode_position [] ≡ panic
  unfolding decode_position
  position_panics = panic_first _ _ u16_panics

  item_ref_panics : decode_item_ref [] ≡ panic
  unfolding decode_item_ref
  item_ref_panics = panic_first _ _ position_panics

  abbrev Panics : ℕ → Type 0
  Panics n = IsU8 n × (decode_body 1 n [] ≡ panic)

  short_reads : All Panics fixed_opcodes
  unfolding decode_body
  short_reads = (
    (omega arith, panic_first _ _ u8_panics),
    (
      (omega arith, panic_first _ _ position_panics),
      (
        (omega arith, panic_first _ _ item_ref_panics),
        (
          (omega arith, panic_first _ _ u16_panics),
          (
            (omega arith, panic_first _ _ u16_panics),
            (
              (omega arith, panic_first _ _ u8_panics),
              (
                (omega arith, panic_first _ _ item_ref_panics),
                (
                  (omega arith, panic_first _ _ position_panics),
                  (
                    (omega arith, panic_first _ _ u16_panics),
                    (
                      (omega arith, panic_first _ _ u16_panics),
                      (
                        (omega arith, panic_first _ _ u16_panics),
                        (
                          (omega arith, panic_first _ _ u16_panics),
                          (
                            (omega arith, panic_first _ _ u16_panics),
                            ((omega arith, panic_first _ _ u16_panics), tt),
                          ),
                        ),
                      ),
                    ),
                  ),
                ),
              ),
            ),
          ),
        ),
      ),
    ),
  )

  opcode_only : (n : ℕ) → Panics n → decode_message 1 (b.put_u8 n) ≡ panic
  unfolding decode_message ◌>>=◌
  opcode_only n p =
      let opcode : get_u8 (b.put_u8 n) ≡ ok (n, []) =
        rw (← append-nil (b.put_u8 n)) (u8 {t = []} p.0).run in
      rw opcode p.1

  -- A frame that has the opcode of a message with a field of a fixed width and nothing else, at the
  -- end of what has arrived: the server does not refuse it but panics.
  pub decode-short :
      (n : ℕ)
      → any (λ k. k == n) fixed_opcodes ≡ true
      → decode (to_le_bytes 1 ++ b.put_u8 n) ≡ panic
  unfolding decode
  decode-short n h =
      rw (b.length-put_u8 n)
        (panic_first _ _ (opcode_only n (of_any Panics fixed_opcodes n short_reads h)))
