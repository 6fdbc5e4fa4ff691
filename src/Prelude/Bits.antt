-- ===== src/Prelude/Bits.antt =====
-- Binary digits: what `|` and `&` do to the digit of each place. The native operations are
-- defined by a recursion on digits that carries a count; `or_loop` and `and_loop` name it.
use Prim.Native.Nat.{ℕ, zero, suc, ◌+◌, ◌*◌, ◌/◌, ◌%◌, ◌≤◌, ◌<◌, min, max}
use Prim.Native.Nat.{bit_and, bit_or, digits, bit_and-bitwise, bit_or-bitwise}
use mathlib.Core.Path.{◌≡◌, refl, ap, ◌∙◌}
use native.Mathlib.Omega.{arith}

abbrev or_loop : ℕ → ℕ → ℕ → ℕ
or_loop = digits (λ b. b) max

abbrev and_loop : ℕ → ℕ → ℕ → ℕ
and_loop = digits (λ b. zero) min

-- Any count that covers the first number gives the same digits.
or_loop_enough : (n m a b : ℕ) → a ≤ n → a ≤ m → or_loop n a b ≡ or_loop m a b
or_loop_enough zero zero a b p q = refl
or_loop_enough zero (suc m) zero b p q = refl
or_loop_enough zero (suc m) (suc a) b p q = absurd (omega arith)
or_loop_enough (suc n) zero zero b p q = refl
or_loop_enough (suc n) zero (suc a) b p q = absurd (omega arith)
or_loop_enough (suc n) (suc m) zero b p q = refl
or_loop_enough (suc n) (suc m) (suc a) b p q =
    omega (arith, or_loop_enough n m (suc a / 2) (b / 2) (omega arith) (omega arith))

and_loop_enough : (n m a b : ℕ) → a ≤ n → a ≤ m → and_loop n a b ≡ and_loop m a b
and_loop_enough zero zero a b p q = refl
and_loop_enough zero (suc m) zero b p q = refl
and_loop_enough zero (suc m) (suc a) b p q = absurd (omega arith)
and_loop_enough (suc n) zero zero b p q = refl
and_loop_enough (suc n) zero (suc a) b p q = absurd (omega arith)
and_loop_enough (suc n) (suc m) zero b p q = refl
and_loop_enough (suc n) (suc m) (suc a) b p q =
    omega (arith, and_loop_enough n m (suc a / 2) (b / 2) (omega arith) (omega arith))

pub zero-bit_or : (b : ℕ) → bit_or 0 b ≡ b
zero-bit_or b = bit_or-bitwise 0 b

pub zero-bit_and : (b : ℕ) → bit_and 0 b ≡ 0
zero-bit_and b = bit_and-bitwise 0 b

-- The lowest digit, and the rest.
pub bit_or_split : (a b : ℕ) → bit_or a b ≡ bit_or (a / 2) (b / 2) * 2 + max (a % 2) (b % 2)
bit_or_split zero b = omega (arith, zero-bit_or b, zero-bit_or (b / 2))
bit_or_split (suc a) b = omega (
  arith,
  bit_or-bitwise (suc a) b,
  bit_or-bitwise (suc a / 2) (b / 2),
  or_loop_enough a (suc a / 2) (suc a / 2) (b / 2) (omega arith) (omega arith),
)

pub bit_and_split : (a b : ℕ) → bit_and a b ≡ bit_and (a / 2) (b / 2) * 2 + min (a % 2) (b % 2)
bit_and_split zero b = omega (arith, zero-bit_and b, zero-bit_and (b / 2))
bit_and_split (suc a) b = omega (
  arith,
  bit_and-bitwise (suc a) b,
  bit_and-bitwise (suc a / 2) (b / 2),
  and_loop_enough a (suc a / 2) (suc a / 2) (b / 2) (omega arith) (omega arith),
)

-- The binary digit of `a` at place `k`.
abbrev pub digit : ℕ → ℕ → ℕ
digit a zero = a % 2
digit a (suc k) = digit (a / 2) k

-- `|` takes the larger digit at every place.
pub digit-bit_or : (k a b : ℕ) → digit (bit_or a b) k ≡ max (digit a k) (digit b k)
digit-bit_or zero a b = omega (arith, bit_or_split a b)
digit-bit_or (suc k) a b =
    let half : bit_or a b / 2 ≡ bit_or (a / 2) (b / 2) = omega (arith, bit_or_split a b) in
    ap (λ x. digit x k) half ∙ digit-bit_or k (a / 2) (b / 2)

abbrev pub bit : ℕ → ℕ
bit zero = 1
bit (suc k) = bit k * 2

pub bit_and-zero : (n a : ℕ) → a ≤ n → bit_and a 0 ≡ 0
bit_and-zero n zero h = refl
bit_and-zero zero (suc a) h = absurd (omega arith)
bit_and-zero (suc n) (suc a) h =
    omega (arith, bit_and_split (suc a) 0, bit_and-zero n (suc a / 2) (omega arith))

-- `a & (1 << k)` is `1 << k` or 0, as the digit of `a` there is.
pub bit_and-bit : (k a : ℕ) → bit_and a (bit k) ≡ digit a k * bit k
bit_and-bit zero a = omega (arith, bit_and_split a 1, bit_and-zero (a / 2) (a / 2) (omega arith))
bit_and-bit (suc k) a =
    let half : bit k * 2 / 2 ≡ bit k = omega arith in
    let rest : bit_and (a / 2) (bit k * 2 / 2) ≡ digit (a / 2) k * bit k =
      ap (bit_and (a / 2)) half ∙ bit_and-bit k (a / 2) in
    omega (arith, bit_and_split a (bit k * 2), rest)

pub bit_pos : (k : ℕ) → 0 < bit k
bit_pos zero = omega arith
bit_pos (suc k) = omega (arith, bit_pos k)

-- The low four places of `a` and the places of `16 * i` do not meet.
pub bit_or_nibble : (i a : ℕ) → a < 16 → bit_or (i * 16) a ≡ i * 16 + a
bit_or_nibble i a h = omega (
  arith,
  bit_or_split (i * 16) a,
  bit_or_split (i * 16 / 2) (a / 2),
  bit_or_split (i * 16 / 2 / 2) (a / 2 / 2),
  bit_or_split (i * 16 / 2 / 2 / 2) (a / 2 / 2 / 2),
  rest,
)
  where
    or_zero : (n x : ℕ) → x ≤ n → bit_or x 0 ≡ x
    or_zero n zero p = refl
    or_zero zero (suc x) p = absurd (omega arith)
    or_zero (suc n) (suc x) p =
        omega (arith, bit_or_split (suc x) 0, or_zero n (suc x / 2) (omega arith))

    rest : bit_or (i * 16 / 2 / 2 / 2 / 2) (a / 2 / 2 / 2 / 2) ≡ i
    rest =
        let e : a / 2 / 2 / 2 / 2 ≡ 0 = omega arith in
        let f : i * 16 / 2 / 2 / 2 / 2 ≡ i = omega arith in rw (e, f) (or_zero i i (omega arith))

pub bit_and_fifteen : (a : ℕ) → bit_and a 15 ≡ a % 16
bit_and_fifteen a = omega (
  arith,
  bit_and_split a 15,
  bit_and_split (a / 2) 7,
  bit_and_split (a / 2 / 2) 3,
  bit_and_split (a / 2 / 2 / 2) 1,
  bit_and-zero (a / 2 / 2 / 2 / 2) (a / 2 / 2 / 2 / 2) (omega arith),
)
