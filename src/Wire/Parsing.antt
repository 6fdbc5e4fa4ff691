-- ===== src/Wire/Parsing.antt =====
-- What a reader makes of the bytes in front of it, and the rules by which that is composed.
use rustibia_server.Wire.Reader.{
  Reader, ok, ◌>>=◌, return, get, try_get, ok_or, with_fuel, map_err, read_times,
}
use rustibia_server.Wire.Server.Fields.{each}
use rustibia_server.Prelude.{
  ℕ, suc, ◌≡◌, refl, ◌∷◌, length, All, Option, some, List, [], ◌++◌, append_assoc,
}

-- On the bytes `xs` with `t` behind them the reader answers `a` and leaves `t`.
pub record Parses {E A : Type 0} (r : Reader E A) (xs t : List ℕ) (a : A) : Type 0 where
  pub run : r (xs ++ t) ≡ ok (a, t)

module _ {E : Type 0} where
  pub bind :
      {A B : Type 0} {m : Reader E A} {xs ys t : List ℕ} {a : A} {b : B} (f : A → Reader E B)
      → Parses m xs (ys ++ t) a
      → Parses (f a) ys t b
      → Parses (m >>= f) (xs ++ ys) t b
  unfolding ◌>>=◌
  bind {xs = xs} {ys = ys} {t = t} f p q = record {
    run = rw (append_assoc xs ys t) (rw p.run q.run);
  }

  pub ret : {A : Type 0} {a : A} {t : List ℕ} → Parses (return {E = E} a) [] t a
  unfolding return
  ret = record { run = refl }

  -- The last read of a function, whose bytes have nothing behind them.
  pub last :
      {A B : Type 0} {m : Reader E A} {xs t : List ℕ} {a : A} {b : B} (f : A → Reader E B)
      → Parses m xs t a
      → Parses (f a) [] t b
      → Parses (m >>= f) xs t b
  unfolding ◌>>=◌
  last f p q = record { run = rw p.run q.run }

  -- A step that reads nothing.
  pub skip :
      {A B : Type 0} {m : Reader E A} {xs t : List ℕ} {a : A} {b : B} (f : A → Reader E B)
      → Parses m [] (xs ++ t) a
      → Parses (f a) xs t b
      → Parses (m >>= f) xs t b
  unfolding ◌>>=◌
  skip f p q = record { run = rw p.run q.run }

  pub got :
      {A : Type 0} {xs t : List ℕ} {a : A} (f : List ℕ → Option (A × List ℕ))
      → f (xs ++ t) ≡ some (a, t)
      → Parses (get {E = E} f) xs t a
  unfolding get
  got f h = record { run = rw (get, h) refl }

  pub tried :
      {A : Type 0} {xs t : List ℕ} {a : A} (e : E) (f : List ℕ → Option (A × List ℕ))
      → f (xs ++ t) ≡ some (a, t)
      → Parses (try_get e f) xs t a
  unfolding try_get
  tried e f h = record { run = rw (try_get, h) refl }

  pub present :
      {A : Type 0} {o : Option A} {t : List ℕ} {a : A} (e : E)
      → o ≡ some a
      → Parses (ok_or e o) [] t a
  unfolding ok_or return
  present e h = record { run = rw (ok_or, h) refl }

  pub ret_eq : {A : Type 0} {a a' : A} {t : List ℕ} → a ≡ a' → Parses (return {E = E} a) [] t a'
  unfolding return
  ret_eq h = record { run = rw h refl }

  pub assoc :
      {A : Type 0} {r : Reader E A} {t : List ℕ} {a : A} (xs ys zs : List ℕ)
      → Parses r (xs ++ (ys ++ zs)) t a
      → Parses r ((xs ++ ys) ++ zs) t a
  assoc xs ys zs p = rw (append_assoc xs ys zs) p

module _ {E : Type 0} where
  pub with_fuel_rule :
      {A : Type 0} {xs t : List ℕ} {a : A} (f : ℕ → Reader E A)
      → Parses (f (suc (length (xs ++ t)))) xs t a
      → Parses (with_fuel f) xs t a
  unfolding with_fuel
  with_fuel_rule f p = record { run = p.run }

  pub mapped :
      {A : Type 0} {r : Reader E A} {xs t : List ℕ} {a : A} (f : E → E)
      → Parses r xs t a
      → Parses (map_err f r) xs t a
  unfolding map_err
  mapped f p = record { run = rw (map_err, p.run) refl }

  -- A list read by its count, where each of its values is read as it was written.
  pub times :
      {A : Type 0} {r : Reader E A} (P : A → Type 0) (write : A → List ℕ)
      → ((a : A) (t : List ℕ) → P a → Parses r (write a) t a)
      → (xs : List A) → {t : List ℕ} → All P xs
      → Parses (read_times (length xs) r) (each write xs) t xs
  unfolding read_times each
  times P write rule [] h = ret
  times P write rule (x ∷ xs) h = bind _ (rule x _ h.0) (last _ (times P write rule xs h.1) ret)
