-- ===== src/Wire/Safe.antt =====
-- Readers that neither panic nor run out of fuel, and the rules by which that is composed.
use rustibia_server.Prelude.{
  ℕ, zero, suc, ◌+◌, ◌<◌, ◌≤◌, ◌≡◌, refl, true, false, Bool, Option, none, some, List, length,
  if◌then◌else◌, arith,
}
use rustibia_server.Wire.Reader.{
  Result, ok, err, panic, spin, Reader, ◌>>=◌, and_then, return, fail, try_get, ok_or, with_fuel,
  read_times, map_err,
}

-- A value, with at most `n` bytes left, or an error.
abbrev pub Answers : {E A : Type 0} → ℕ → Result E (A × List ℕ) → Type 0
Answers n (ok p) = length p.1 ≤ n
Answers n (err e) = Unit
Answers n panic = ⊥
Answers n spin = ⊥

-- The reader answers on every buffer of less than `n` bytes.
pub record Safe {E A : Type 0} (n : ℕ) (r : Reader E A) : Type 0 where
  pub run : (buf : List ℕ) → length buf < n → Answers (length buf) (r buf)

module _ {E : Type 0} where
  pub weaken :
      {A : Type 0} (n m : ℕ) (r : Result E (A × List ℕ)) → n ≤ m → Answers n r → Answers m r
  weaken n m (ok p) h a = omega arith
  weaken n m (err e) h a = tt
  weaken n m panic h a = absurd a
  weaken n m spin h a = absurd a

  chained :
      {A B : Type 0} (n k : ℕ) (r : Result E (A × List ℕ)) (f : A → Reader E B)
      → Answers k r
      → k ≤ n
      → ((a : A) (buf : List ℕ) → length buf ≤ k → Answers (length buf) (f a buf))
      → Answers n (and_then r f)
  chained n k (ok p) f a h g = weaken _ n (f p.0 p.1) (omega arith) (g p.0 p.1 a)
  chained n k (err e) f a h g = tt
  chained n k panic f a h g = absurd a
  chained n k spin f a h g = absurd a

  pub bind :
      {A B : Type 0} {n : ℕ} {m : Reader E A} (f : A → Reader E B)
      → Safe n m
      → ((a : A) → Safe n (f a))
      → Safe n (m >>= f)
  unfolding ◌>>=◌
  bind {m = m} f p g = record {
    run = λ buf h.
        chained _ _ (m buf) f (p.run buf h) (omega arith) λ a rest k. (g a).run rest (omega arith);
  }

  pub ret : {A : Type 0} {n : ℕ} (a : A) → Safe n (return {E = E} a)
  unfolding return
  ret a = record { run = λ buf h. omega arith }

  pub failed : {A : Type 0} {n : ℕ} (e : E) → Safe n (fail {A = A} e)
  unfolding fail
  failed e = record { run = λ buf h. tt }

  pub guarded :
      {A : Type 0} {n : ℕ} (c : Bool) {r s : Reader E A}
      → Safe n r
      → Safe n s
      → Safe n (if c then r else s)
  guarded true p q = p
  guarded false p q = q

  pub present : {A : Type 0} {n : ℕ} (e : E) (o : Option A) → Safe n (ok_or e o)
  unfolding ok_or
  present e none = failed e
  present e (some a) = ret a

  kept :
      {A : Type 0} (n : ℕ) (f : E → E) (r : Result E (A × List ℕ))
      → Answers n r
      → Answers n (elim r [ ok p ↦ ok p | err e ↦ err (f e) | panic ↦ panic | spin ↦ spin ])
  kept n f (ok p) a = a
  kept n f (err e) a = tt
  kept n f panic a = absurd a
  kept n f spin a = absurd a

  pub mapped : {A : Type 0} {n : ℕ} {r : Reader E A} (f : E → E) → Safe n r → Safe n (map_err f r)
  unfolding map_err
  mapped {r = r} f p = record { run = λ buf h. kept _ f (r buf) (p.run buf h) }

  pub fuelled :
      {A : Type 0} {n : ℕ} (f : ℕ → Reader E A) → ((k : ℕ) → Safe k (f k)) → Safe n (with_fuel f)
  unfolding with_fuel
  fuelled f p = record { run = λ buf h. (p (suc (length buf))).run buf (omega arith) }

  pub times : {A : Type 0} {n : ℕ} {r : Reader E A} (k : ℕ) → Safe n r → Safe n (read_times k r)
  unfolding read_times
  times zero p = ret _
  times (suc k) p = bind _ p λ a. bind _ (times k p) λ rest. ret _

  -- A read of `k` bytes, in front of a reader that stands on fewer.
  taken :
      {A B : Type 0} (n k : ℕ) (e : E) (g : List ℕ → Option (A × List ℕ)) (f : A → Reader E B)
      (buf : List ℕ) (o : Option (A × List ℕ))
      → g buf ≡ o
      → ((xs t : List ℕ) (a : A) → g xs ≡ some (a, t) → length xs ≡ suc k + length t)
      → length buf < suc n
      → ((a : A) → Safe n (f a))
      → Answers (length buf) (and_then (try_get e g buf) f)
  unfolding try_get
  taken n k e g f buf none h law low p = rw (try_get, h) tt
  taken n k e g f buf (some (a, t)) h law low p =
      rw (try_get, h)
        (weaken (length t) _ (f a t) (omega (arith, law buf t a h))
          ((p a).run t (omega (arith, law buf t a h))))

  pub step :
      {A B : Type 0} {n : ℕ} (e : E) (g : List ℕ → Option (A × List ℕ)) (k : ℕ) (f : A → Reader E B)
      → ((xs t : List ℕ) (a : A) → g xs ≡ some (a, t) → length xs ≡ suc k + length t)
      → ((a : A) → Safe n (f a))
      → Safe (suc n) (try_get e g >>= f)
  unfolding ◌>>=◌
  step {n = n} e g k f law p = record { run = λ buf h. taken n k e g f buf (g buf) refl law h p }

  answered :
      {A : Type 0} (k : ℕ) (e : E) (g : List ℕ → Option (A × List ℕ)) (buf : List ℕ)
      (o : Option (A × List ℕ))
      → g buf ≡ o
      → ((xs t : List ℕ) (a : A) → g xs ≡ some (a, t) → length xs ≡ k + length t)
      → Answers (length buf) (try_get e g buf)
  unfolding try_get
  answered k e g buf none h law = rw (try_get, h) tt
  answered k e g buf (some (a, t)) h law = rw (try_get, h) (omega (arith, law buf t a h))

  pub any_read :
      {A : Type 0} {n : ℕ} (e : E) (g : List ℕ → Option (A × List ℕ)) (k : ℕ)
      → ((xs t : List ℕ) (a : A) → g xs ≡ some (a, t) → length xs ≡ k + length t)
      → Safe n (try_get e g)
  any_read e g k law = record { run = λ buf h. answered k e g buf (g buf) refl law }
