-- ===== src/Wire/LittleEndian.antt =====
-- A buffer that meets what the codecs rely on.
use rustibia_server.Prelude.{
  ℕ, zero, suc, ◌+◌, ◌-◌, ◌*◌, ◌/◌, ◌%◌, ◌<◌, ◌≡◌, refl, ap, Option, none, some, List, [], ◌∷◌,
  ◌++◌, length, ltb, false, if◌then◌else◌, arith,
}
use rustibia_server.Prelude.Int.{ℤ, pos, negsuc}
use rustibia_server.Wire.Buffer.{Buffer, IsI8}

abbrev pub put : ℕ → ℕ → List ℕ
put zero n = []
put (suc k) n = n % 256 ∷ put k (n / 256)

abbrev pub more : ℕ → Option (ℕ × List ℕ) → Option (ℕ × List ℕ)
more x none = none
more x (some (n, t)) = some (x + 256 * n, t)

abbrev pub take_number : ℕ → List ℕ → Option (ℕ × List ℕ)
take_number zero buf = some (0, buf)
take_number (suc k) [] = none
take_number (suc k) (x ∷ buf) = more x (take_number k buf)

abbrev pub bound : ℕ → ℕ
bound zero = 1
bound (suc k) = 256 * bound k

pub got_back : (k n : ℕ) (t : List ℕ) → n < bound k → take_number k (put k n ++ t) ≡ some (n, t)
got_back zero n t h = let e : n ≡ 0 = omega arith in rw e refl
got_back (suc k) n t h =
    rw (got_back k (n / 256) t (omega arith)) (ap (λ i. some (i, t)) (omega arith))

pub length-put : (k n : ℕ) → length (put k n) ≡ k
length-put zero n = refl
length-put (suc k) n = ap suc (length-put k (n / 256))

of_more :
    (x n : ℕ) (o : Option (ℕ × List ℕ)) (t : List ℕ)
    → more x o ≡ some (n, t)
    → (m : ℕ) × (o ≡ some (m, t))
of_more x n none t h = absurd ground arith
of_more x n (some (m, u)) t h = let e : u ≡ t = cc in (m, rw e refl)

pub length-take_number :
    (k : ℕ) (xs t : List ℕ) (n : ℕ) → take_number k xs ≡ some (n, t) → length xs ≡ k + length t
length-take_number zero xs t n h = let e : xs ≡ t = cc in rw e (omega arith)
length-take_number (suc k) [] t n h = cc
length-take_number (suc k) (x ∷ xs) t n h =
    let m = of_more x n (take_number k xs) t h in omega (arith, length-take_number k xs t m.0 m.1)

abbrev pub signed : ℕ → ℤ
signed n = if ltb n 128 then pos n else negsuc (255 - n)

abbrev pub take_signed : List ℕ → Option (ℤ × List ℕ)
take_signed [] = none
take_signed (x ∷ buf) = some (signed x, buf)

abbrev pub put_signed : ℤ → List ℕ
put_signed (pos n) = n ∷ []
put_signed (negsuc n) = (255 - n) ∷ []

abbrev pub consed : ℕ → Option (List ℕ × List ℕ) → Option (List ℕ × List ℕ)
consed x none = none
consed x (some (ys, t)) = some (x ∷ ys, t)

abbrev pub cut : ℕ → List ℕ → Option (List ℕ × List ℕ)
cut zero buf = some ([], buf)
cut (suc n) [] = none
cut (suc n) (x ∷ buf) = consed x (cut n buf)

pub length-put_signed : (i : ℤ) → length (put_signed i) ≡ 1
length-put_signed (pos n) = refl
length-put_signed (negsuc n) = refl

pub signed_back : (i : ℤ) (t : List ℕ) → IsI8 i → take_signed (put_signed i ++ t) ≡ some (i, t)
signed_back (pos n) t h = ground arith
signed_back (negsuc n) t h =
    let e : 255 - (255 - n) ≡ n = omega arith in
    let f : ltb (255 - n) 128 ≡ false = ground arith in rw f (rw e refl)

pub length-take_signed :
    (xs t : List ℕ) (i : ℤ) → take_signed xs ≡ some (i, t) → length xs ≡ 1 + length t
length-take_signed [] t i h = cc
length-take_signed (x ∷ xs) t i h = let e : xs ≡ t = cc in rw e (omega arith)

pub cut_back : (xs t : List ℕ) → cut (length xs) (xs ++ t) ≡ some (xs, t)
cut_back [] t = refl
cut_back (x ∷ xs) t = rw (cut_back xs t) refl

of_consed :
    (x : ℕ) (o : Option (List ℕ × List ℕ)) (ys t : List ℕ)
    → consed x o ≡ some (ys, t)
    → (zs : List ℕ) × (o ≡ some (zs, t))
of_consed x none ys t h = absurd ground arith
of_consed x (some (zs, u)) ys t h = let e : u ≡ t = cc in (zs, rw e refl)

pub length-cut : (n : ℕ) (xs ys t : List ℕ) → cut n xs ≡ some (ys, t) → length xs ≡ n + length t
length-cut zero xs ys t h = let e : xs ≡ t = cc in rw e (omega arith)
length-cut (suc n) [] ys t h = cc
length-cut (suc n) (x ∷ xs) ys t h =
    let m = of_consed x (cut n xs) ys t h in omega (arith, length-cut n xs m.0 t m.1)

pub cut_short : (n : ℕ) (xs : List ℕ) → length xs < n → cut n xs ≡ none
cut_short zero xs h = absurd (omega arith)
cut_short (suc n) [] h = refl
cut_short (suc n) (x ∷ xs) h = rw (cut_short n xs (omega arith)) refl

instance abbrev pub little_endian : Buffer
little_endian = record {
  put_u8 = put 1;
  put_u16_le = put 2;
  put_u32_le = put 4;
  put_u64_le = put 8;
  put_i8 = put_signed;
  try_get_u8 = take_number 1;
  try_get_u16_le = take_number 2;
  try_get_u32_le = take_number 4;
  try_get_u64_le = take_number 8;
  try_get_i8 = take_signed;
  split_to = cut;
  try_get_u8-put_u8 = got_back 1;
  try_get_u16_le-put_u16_le = got_back 2;
  try_get_u32_le-put_u32_le = got_back 4;
  try_get_u64_le-put_u64_le = got_back 8;
  try_get_i8-put_i8 = signed_back;
  split_to-append = cut_back;
  length-put_u8 = length-put 1;
  length-put_u16_le = length-put 2;
  length-put_u32_le = length-put 4;
  length-put_u64_le = length-put 8;
  length-put_i8 = length-put_signed;
  try_get_u8-length = length-take_number 1;
  try_get_u16_le-length = length-take_number 2;
  try_get_u32_le-length = length-take_number 4;
  try_get_u64_le-length = length-take_number 8;
  try_get_i8-length = length-take_signed;
  split_to-length = length-cut;
  split_to-short = cut_short;
}
