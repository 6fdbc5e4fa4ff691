-- ===== src/Items/Config.antt =====
-- `ItemAttribute` and `ItemConfig` of `crates/server/src/entities/items.rs`. Floor changes, actions and
-- multi-actions are only carried, and are numbers; a name has no part in what follows.
use rustibia_server.Prelude.{ℕ, Bool, ◌||◌, List}
use rustibia_server.Prelude.Int.{ℤ}
use rustibia_server.Combat.{CombatElement, WeaponType, AmmoType}
use rustibia_server.Codes.InventorySlot.{InventorySlot}
use rustibia_server.Codes.FluidType.{FluidType}
use rustibia_server.Conditions.Kinds.{ConditionSpec}
use rustibia_server.Effects.{AreaShape}
use rustibia_server.Items.Flags.{ItemFlag, contains, from_iter}

pub data ItemAttribute : Type 0 where
  capacity : ℕ → ItemAttribute
  weight : ℕ → ItemAttribute
  floor_change : ℕ → ItemAttribute
  inventory : InventorySlot → ItemAttribute
  tile_friction : ℕ → ItemAttribute
  action : ℕ → ItemAttribute
  multi_action : ℕ → ItemAttribute
  armor : ℕ → ItemAttribute
  extra_def : ℤ → ItemAttribute
  defense : ℕ → ItemAttribute
  weapon_type : WeaponType → ItemAttribute
  weapon_attack : ℕ → ItemAttribute
  weapon_element : CombatElement → ItemAttribute
  ammo_type : AmmoType → ItemAttribute
  weapon_range : ℕ → ItemAttribute
  hit_chance : ℤ → ItemAttribute
  max_hit_chance : ℕ → ItemAttribute
  mana_cost : ℕ → ItemAttribute
  missile_id : ℕ → ItemAttribute
  speed : ℤ → ItemAttribute
  required_level : ℕ → ItemAttribute
  vocations : ℕ → ItemAttribute
  fluid_source : FluidType → ItemAttribute
  field : ConditionSpec → ItemAttribute
  decay : (duration decay_to : ℕ) → ItemAttribute
  weapon_area : AreaShape → ℕ → ItemAttribute

pub record ItemConfig : Type 0 where
  pub id : ℕ
  pub flags : ℕ
  pub attributes : List ItemAttribute

unfoldable pub new : ℕ → List ItemFlag → List ItemAttribute → ItemConfig
unfolding from_iter
new id flags attributes = record { id = id; flags = from_iter flags; attributes = attributes }

unfoldable pub has_flag : ItemConfig → ItemFlag → Bool
unfolding contains
has_flag config flag = contains config.flags flag

unfoldable pub holds_fluid : ItemConfig → Bool
unfolding has_flag
holds_fluid config =
    has_flag config ItemFlag.liquid_pool || has_flag config ItemFlag.liquid_container

-- The accessors: the first attribute of the kind.
