-- ===== src/Wire/Reader.antt =====
-- A reading function of the codecs takes the buffer it advances, and `?` hands an error on.
use rustibia_server.Prelude.{ℕ, zero, suc, Option, none, some, List, [], ◌∷◌, length}

-- A `Result`, or a panic, or a loop of the model that used up its fuel.
pub data Result (E A : Type 0) : Type 0 where
  ok : A → Result E A
  err : E → Result E A
  panic spin : Result E A

abbrev pub Reader : Type 0 → Type 0 → Type 0
Reader E A = List ℕ → Result E (A × List ℕ)

abbrev pub and_then :
    {E A B : Type 0} → Result E (A × List ℕ) → (A → Reader E B) → Result E (B × List ℕ)
and_then (ok p) f = f p.0 p.1
and_then (err e) f = err e
and_then panic f = panic
and_then spin f = spin

infixl 5 ◌>>=◌
unfoldable pub ◌>>=◌ : {E A B : Type 0} → Reader E A → (A → Reader E B) → Reader E B
◌>>=◌ m f buf = and_then (m buf) f

unfoldable pub return : {E A : Type 0} → A → Reader E A
return a buf = ok (a, buf)

unfoldable pub fail : {E A : Type 0} → E → Reader E A
fail e buf = err e

-- A read that panics on a buffer that is too short, `get_u8` for `try_get_u8`.
unfoldable pub get : {E A : Type 0} → (List ℕ → Option (A × List ℕ)) → Reader E A
get f buf = elim (f buf) [ none ↦ panic | some p ↦ ok p ]

-- A read that answers an error there.
unfoldable pub try_get : {E A : Type 0} → E → (List ℕ → Option (A × List ℕ)) → Reader E A
try_get e f buf = elim (f buf) [ none ↦ err e | some p ↦ ok p ]

-- `ok_or`
unfoldable pub ok_or : {E A : Type 0} → E → Option A → Reader E A
ok_or e none = fail e
ok_or e (some a) = return a

-- A loop of the model without fuel.
unfoldable pub exhausted : {E A : Type 0} → Reader E A
exhausted buf = spin

-- A loop that takes at least one byte in each round gets a round for each byte, and one more.
unfoldable pub with_fuel : {E A : Type 0} → (ℕ → Reader E A) → Reader E A
with_fuel f buf = f (suc (length buf)) buf

-- `for _ in 0..count` with a `push`.
unfoldable pub read_times : {E A : Type 0} → ℕ → Reader E A → Reader E (List A)
read_times zero r = return []
read_times (suc n) r = do a ← r; rest ← read_times n r; return (a ∷ rest)

-- `map_err`
unfoldable pub map_err : {E A : Type 0} → (E → E) → Reader E A → Reader E A
map_err f r buf = elim (r buf) [ ok p ↦ ok p | err e ↦ err (f e) | panic ↦ panic | spin ↦ spin ]
