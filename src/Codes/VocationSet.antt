-- ===== src/Codes/VocationSet.antt =====
-- `VocationSet` of `crates/server/src/entities/vocation.rs`: a bit for each vocation in one `u8`.
use Prim.Native.Nat.{bit_and, bit_or}
use rustibia_server.Prelude.{
  ℕ, zero, suc, ◌*◌, ◌/◌, ◌<◌, ◌≡◌, max, refl, Bool, false, not, ◌||◌, ◌==◌, List, [], ◌∷◌, arith,
  if◌then◌else◌,
}
use rustibia_server.Prelude.Bits.{digit, digit-bit_or, bit, bit_and-bit, bit_pos}
use rustibia_server.Codes.Vocation.{Vocation, knight, paladin, sorcerer, druid, as_u8, all}

-- `1 << vocation as u8`
pub vocation_bit : Vocation → ℕ
unfolding as_u8
vocation_bit v = bit (as_u8 v)

pub contains : ℕ → Vocation → Bool
unfolding vocation_bit
contains set v = not (bit_and set (vocation_bit v) == 0)

pub is_empty : ℕ → Bool
is_empty set = set == 0

filter_in : ℕ → List Vocation → List Vocation
unfolding contains
filter_in set [] = []
filter_in set (v ∷ vs) = let rest = filter_in set vs in if contains set v then v ∷ rest else rest

-- `Vocation::iter` runs through the variants in order.
pub iter : ℕ → List Vocation
unfolding filter_in
iter set = filter_in set all

collect_from : ℕ → List Vocation → ℕ
unfolding vocation_bit
collect_from bits [] = bits
collect_from bits (v ∷ vs) = collect_from (bit_or bits (vocation_bit v)) vs

-- `FromIterator::from_iter`
pub from_iter : List Vocation → ℕ
unfolding collect_from
from_iter vs = collect_from 0 vs

abbrev pub is_member : Vocation → List Vocation → Bool
is_member v [] = false
is_member v (w ∷ ws) = (as_u8 v == as_u8 w) || is_member v ws

digit_of_bit :
    (v w : Vocation) → digit (vocation_bit w) (as_u8 v) ≡ (if as_u8 v == as_u8 w then 1 else 0)
unfolding vocation_bit
digit_of_bit knight w = ground arith
digit_of_bit paladin w = ground arith
digit_of_bit sorcerer w = ground arith
digit_of_bit druid w = ground arith

digit_small : (k a : ℕ) → digit a k < 2
digit_small zero a = omega arith
digit_small (suc k) a = digit_small k (a / 2)

-- A set holds a vocation exactly if its digit there is 1.
contains-digit : (set : ℕ) (v : Vocation) → contains set v ≡ (digit set (as_u8 v) == 1)
unfolding contains
contains-digit set v =
    ground (arith, bit_and-bit (as_u8 v) set, digit_small (as_u8 v) set, bit_pos (as_u8 v), spread)
  where
    spread : (digit set (as_u8 v) ≡ 1) → digit set (as_u8 v) * bit (as_u8 v) ≡ bit (as_u8 v)
    spread one = rw one (omega arith)

collect_from-digit :
    (bits : ℕ) (vs : List Vocation) (v : Vocation)
    → digit (collect_from bits vs) (as_u8 v)
      ≡ max (digit bits (as_u8 v)) (if is_member v vs then 1 else 0)
unfolding collect_from
collect_from-digit bits [] v = omega arith
collect_from-digit bits (w ∷ ws) v = ground (
  arith,
  collect_from-digit (bit_or bits (vocation_bit w)) ws v,
  digit-bit_or (as_u8 v) bits (vocation_bit w),
  digit_of_bit v w,
)

zero_digit : (k : ℕ) → digit 0 k ≡ 0
zero_digit zero = refl
zero_digit (suc k) = zero_digit k

-- The set collected from a list of vocations, repeated or not, holds exactly those of the list.
pub contains-from_iter :
    (vs : List Vocation) (v : Vocation) → contains (from_iter vs) v ≡ is_member v vs
unfolding from_iter
contains-from_iter vs v =
    ground
      (arith, contains-digit (collect_from 0 vs) v, collect_from-digit 0 vs v, zero_digit (as_u8 v))
