-- ===== src/Prelude/Outcome.antt =====
-- What a call of the source ends in: a value, a panic (a failed `assert!`, an `unwrap` of nothing,
-- an index out of range), or `spin`, a loop of the model that used up its fuel.
pub data Outcome {ℓ} (A : Type ℓ) : Type ℓ where
  ok : A → Outcome A
  panic spin : Outcome A

infixl 5 ◌>>=◌
abbrev pub ◌>>=◌ {ℓ κ} : {A : Type ℓ} {B : Type κ} → Outcome A → (A → Outcome B) → Outcome B
ok a >>= f = f a
panic >>= f = panic
spin >>= f = spin
