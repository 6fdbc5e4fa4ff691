-- ===== src/Codes/Site.antt =====
-- The site's copies of the codes, in `crates/site/src/domain`: `vocation.rs`, `sex.rs` and
-- `equip_slot.rs`. An `AppError` is `none`.
use rustibia_server.Prelude.{ℕ, zero, suc, ◌≡◌, ◌↔◌, refl, Option, none, some, arith}
use rustibia_server.Prelude.Int.{ℤ, pos, negsuc}
use rustibia_server.Codes.Vocation
use rustibia_server.Codes.InventorySlot

pub data SiteVocation : Type 0 where
  knight paladin sorcerer druid : SiteVocation

unfoldable pub vocation_as_i16 : SiteVocation → ℤ
vocation_as_i16 knight = pos 0
vocation_as_i16 paladin = pos 1
vocation_as_i16 sorcerer = pos 2
vocation_as_i16 druid = pos 3

unfoldable pub vocation_from_i16 : ℤ → Option SiteVocation
vocation_from_i16 (pos zero) = some knight
vocation_from_i16 (pos (suc zero)) = some paladin
vocation_from_i16 (pos (suc (suc zero))) = some sorcerer
vocation_from_i16 (pos (suc (suc (suc zero)))) = some druid
vocation_from_i16 other = none

pub data Sex : Type 0 where
  female male : Sex

unfoldable pub sex_as_i16 : Sex → ℤ
sex_as_i16 female = pos 0
sex_as_i16 male = pos 1

unfoldable pub sex_from_i16 : ℤ → Option Sex
sex_from_i16 (pos zero) = some female
sex_from_i16 (pos (suc zero)) = some male
sex_from_i16 other = none

pub data EquipSlot : Type 0 where
  head amulet backpack chest right_hand left_hand legs feet ring trinket : EquipSlot

unfoldable pub index : EquipSlot → ℕ
index head = 1
index amulet = 2
index backpack = 3
index chest = 4
index right_hand = 5
index left_hand = 6
index legs = 7
index feet = 8
index ring = 9
index trinket = 10

-- The server's vocation of the same name.
abbrev pub server_vocation : SiteVocation → Vocation.Vocation
server_vocation knight = Vocation.knight
server_vocation paladin = Vocation.paladin
server_vocation sorcerer = Vocation.sorcerer
server_vocation druid = Vocation.druid

-- The server's inventory slot of the same name.
abbrev pub server_slot : EquipSlot → InventorySlot.InventorySlot
server_slot head = InventorySlot.head
server_slot amulet = InventorySlot.amulet
server_slot backpack = InventorySlot.backpack
server_slot chest = InventorySlot.chest
server_slot right_hand = InventorySlot.right_hand
server_slot left_hand = InventorySlot.left_hand
server_slot legs = InventorySlot.legs
server_slot feet = InventorySlot.feet
server_slot ring = InventorySlot.ring
server_slot trinket = InventorySlot.trinket

-- A number that the site stores for a vocation is read back by the site as that vocation, and by
-- the game server as the vocation of the same name.
pub site_vocation_codes :
    (value : ℤ) (v : SiteVocation)
    → ((vocation_from_i16 value ≡ some v) ↔ (vocation_as_i16 v ≡ value))
      × (Vocation.from_i16 (vocation_as_i16 v) ≡ some (server_vocation v))
unfolding vocation_as_i16 vocation_from_i16 Vocation.from_i16
site_vocation_codes (pos zero) v = ground arith
site_vocation_codes (pos (suc zero)) v = ground arith
site_vocation_codes (pos (suc (suc zero))) v = ground arith
site_vocation_codes (pos (suc (suc (suc zero)))) v = ground arith
site_vocation_codes (pos (suc (suc (suc (suc n))))) v = ground arith
site_vocation_codes (negsuc n) v = ground arith

-- A stored number is read as a sex exactly if it is the sex's code.
pub sex_codes : (value : ℤ) (s : Sex) → (sex_from_i16 value ≡ some s) ↔ (sex_as_i16 s ≡ value)
unfolding sex_as_i16 sex_from_i16
sex_codes (pos zero) s = ground arith
sex_codes (pos (suc zero)) s = ground arith
sex_codes (pos (suc (suc n))) s = ground arith
sex_codes (negsuc n) s = ground arith

-- The index that the site stores for a slot of a starting kit is the id of the server's slot of
-- the same name.
pub equip_slot_codes : (e : EquipSlot) → InventorySlot.from_id (index e) ≡ some (server_slot e)
unfolding index InventorySlot.from_id
equip_slot_codes head = refl
equip_slot_codes amulet = refl
equip_slot_codes backpack = refl
equip_slot_codes chest = refl
equip_slot_codes right_hand = refl
equip_slot_codes left_hand = refl
equip_slot_codes legs = refl
equip_slot_codes feet = refl
equip_slot_codes ring = refl
equip_slot_codes trinket = refl
