-- ===== src/Items/Flags.antt =====
-- `ItemFlag` and `ItemFlags` of `crates/server/src/entities/items.rs`: a bit for each flag in a `u32`.
use Prim.Native.Nat.{bit_and, bit_or}
use rustibia_server.Prelude.{ℕ, ◌==◌, Bool, not, List, [], ◌∷◌}
use rustibia_server.Prelude.Bits.{bit}

pub data ItemFlag : Type 0 where
  ground unmove unpass take full_bank bottom cumulative container usable multiuse avoid
        ammo_container liquid_pool liquid_container unreplaceable teleport border top :
      ItemFlag

abbrev pub place : ItemFlag → ℕ
place ground = 0
place unmove = 1
place unpass = 2
place take = 3
place full_bank = 4
place bottom = 5
place cumulative = 6
place container = 7
place usable = 8
place multiuse = 9
place avoid = 10
place ammo_container = 11
place liquid_pool = 12
place liquid_container = 13
place unreplaceable = 14
place teleport = 15
place border = 16
place top = 17

-- `1 << self as u32`
abbrev pub flag_bit : ItemFlag → ℕ
flag_bit flag = bit (place flag)

unfoldable pub with_flag : ℕ → ItemFlag → ℕ
with_flag flags flag = bit_or flags (flag_bit flag)

unfoldable pub contains : ℕ → ItemFlag → Bool
contains flags flag = not (bit_and flags (flag_bit flag) == 0)

-- `FromIterator::from_iter`, a fold from `ItemFlags::new()`.
unfoldable pub collect_from : ℕ → List ItemFlag → ℕ
unfolding with_flag
collect_from flags [] = flags
collect_from flags (flag ∷ rest) = collect_from (with_flag flags flag) rest

unfoldable pub from_iter : List ItemFlag → ℕ
unfolding collect_from
from_iter flags = collect_from 0 flags
