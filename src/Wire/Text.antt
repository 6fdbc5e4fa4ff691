-- ===== src/Wire/Text.antt =====
-- A `String` is the list of its bytes, which are well-formed UTF-8, and `String::from_utf8`.
use rustibia_server.Prelude.{
  ℕ, zero, suc, ◌≡◌, leb, ◌==◌, Bool, true, false, ◌&&◌, Option, none, some, List, [], ◌∷◌,
  if◌then◌else◌, arith,
}

abbrev pub String : Type 0
String = List ℕ

-- What must follow a first byte: how many bytes, and the bounds of the next.
unfoldable pub follow : ℕ → Option (ℕ × (ℕ × ℕ))
follow a =
    if leb a 0x7F
    then some (0, (0, 0))
    else if leb a 0xC1
    then none
    else if leb a 0xDF
    then some (1, (0x80, 0xBF))
    else if a == 0xE0
    then some (2, (0xA0, 0xBF))
    else if a == 0xED
    then some (2, (0x80, 0x9F))
    else if leb a 0xEF
    then some (2, (0x80, 0xBF))
    else if a == 0xF0
    then some (3, (0x90, 0xBF))
    else if leb a 0xF3
    then some (3, (0x80, 0xBF))
    else if a == 0xF4
    then some (3, (0x80, 0x8F))
    else none

-- The bytes from inside a character on, `n` of which it still lacks.
unfoldable pub trail : ℕ → ℕ × ℕ → List ℕ → Bool
unfolding follow
trail zero b [] = true
trail (suc n) b [] = false
trail zero b (a ∷ s) = elim (follow a) [ none ↦ false | some p ↦ trail p.0 p.1 s ]
trail (suc n) b (a ∷ s) = let rest = trail n (0x80, 0xBF) s in leb b.0 a && leb a b.1 && rest

unfoldable pub is_utf8 : List ℕ → Bool
is_utf8 s = trail zero (0, 0) s

abbrev pub IsUtf8 : List ℕ → Type 0
IsUtf8 s = is_utf8 s ≡ true

unfoldable pub from_utf8 : List ℕ → Option String
from_utf8 s = if is_utf8 s then some s else none

pub from_utf8-IsUtf8 : (s : String) → IsUtf8 s → from_utf8 s ≡ some s
unfolding from_utf8
from_utf8-IsUtf8 s h = ground arith
