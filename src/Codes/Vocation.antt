-- ===== src/Codes/Vocation.antt =====
-- `Vocation` of `crates/server/src/entities/vocation.rs`. The `i16` of the database is one of ℤ.
use rustibia_server.Prelude.{ℕ, zero, suc, ◌≡◌, ◌↔◌, Option, none, some, List, [], ◌∷◌, arith}
use rustibia_server.Prelude.Int.{ℤ, pos, negsuc}

pub data Vocation : Type 0 where
  knight paladin sorcerer druid : Vocation

-- `self as u8`
unfoldable pub as_u8 : Vocation → ℕ
as_u8 knight = 0
as_u8 paladin = 1
as_u8 sorcerer = 2
as_u8 druid = 3

abbrev pub all : List Vocation
all = knight ∷ paladin ∷ sorcerer ∷ druid ∷ []

unfoldable pub from_i16 : ℤ → Option Vocation
from_i16 (pos zero) = some knight
from_i16 (pos (suc zero)) = some paladin
from_i16 (pos (suc (suc zero))) = some sorcerer
from_i16 (pos (suc (suc (suc zero)))) = some druid
from_i16 value = none

-- A stored number is read as a vocation exactly if it is the vocation's code.
pub vocation_codes :
    (value : ℤ) (v : Vocation) → (from_i16 value ≡ some v) ↔ (pos (as_u8 v) ≡ value)
unfolding as_u8 from_i16
vocation_codes (pos zero) v = ground arith
vocation_codes (pos (suc zero)) v = ground arith
vocation_codes (pos (suc (suc zero))) v = ground arith
vocation_codes (pos (suc (suc (suc zero)))) v = ground arith
vocation_codes (pos (suc (suc (suc (suc n))))) v = ground arith
vocation_codes (negsuc n) v = ground arith
