-- ===== src/Vitals.antt =====
-- `Pool` of `crates/server/src/entities/agent.rs`: life and mana, a current `u32` under a maximum.
-- `to_wire`, a percentage in floating point, is left out.
use rustibia_server.Prelude.{
  ℕ, suc, ◌+◌, ◌-◌, ◌%◌, ◌≤◌, ◌≡◌, min, Bool, true, leb, saturating_add, u32_max, arith,
}
use rustibia_server.Prelude.Int.{ℤ, pos, negsuc}

pub record Pool : Type 0 where
  pub current : ℕ
  pub maximum : ℕ

-- `self.maximum - self.current`, which wraps in a release build.
unfoldable pub missing : Pool → ℕ
missing p = (p.maximum + 4294967296 - p.current) % 4294967296

unfoldable pub can_afford : Pool → ℕ → Bool
can_afford p cost = leb cost p.current

unfoldable pub remove : Pool → ℕ → Pool
remove p amount = record p { current = p.current - amount }

unfoldable pub add : Pool → ℕ → Pool
add p amount = record p { current = min (saturating_add u32_max p.current amount) p.maximum }

-- `u32::saturating_add_signed`
abbrev saturating_add_signed : ℕ → ℤ → ℕ
saturating_add_signed a (pos n) = saturating_add u32_max a n
saturating_add_signed a (negsuc n) = a - suc n

unfoldable pub change_capacity : Pool → ℤ → Pool
change_capacity p amount =
    let maximum = saturating_add_signed p.maximum amount in
    record { current = min p.current maximum; maximum = maximum }

pub record IsPool (p : Pool) : Type 0 where
  pub within : p.current ≤ p.maximum
  pub fits : p.maximum ≤ u32_max

-- The three operations keep the current value under the maximum and both in `u32`, whatever the
-- amounts; only `change_capacity` moves the maximum.
pub pool_kept :
    (p : Pool) (amount : ℕ) (change : ℤ)
    → IsPool p
    → IsPool (remove p amount)
      × IsPool (add p amount)
      × IsPool (change_capacity p change)
      × ((remove p amount).maximum ≡ p.maximum)
      × ((add p amount).maximum ≡ p.maximum)
unfolding remove add change_capacity
pool_kept p amount (pos n) v =
    (ground arith, ground arith, ground arith, ground arith, ground arith)
pool_kept p amount (negsuc n) v =
    (ground arith, ground arith, ground arith, ground arith, ground arith)

-- What is missing is what a restoration can add: `add` of it fills the pool, `add` of less leaves
-- the rest missing, and a removal that can be afforded adds its amount to what is missing and is
-- undone by `add`.
pub missing_exact :
    (p : Pool) (amount : ℕ)
    → IsPool p
    → ((add p (missing p)).current ≡ p.maximum)
      × (amount ≤ missing p → missing (add p amount) + amount ≡ missing p)
      × (can_afford p amount ≡ true
          → (missing (remove p amount) ≡ missing p + amount) × (add (remove p amount) amount ≡ p))
unfolding missing can_afford remove add
missing_exact p amount v = (ground arith, λ h. ground arith, λ h. (ground arith, ground arith))
