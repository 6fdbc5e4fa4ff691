-- ===== src/Items/Attributes.antt =====
-- The accessors of `ItemConfig` of `crates/server/src/entities/items.rs`: the first attribute of a kind.
use rustibia_server.Prelude.{ℕ, Bool, true, ◌&&◌, leb, Option, none, some, find_map}
use rustibia_server.Prelude.Int.{ℤ}
use rustibia_server.Combat.{CombatElement, WeaponType, AmmoType}
use rustibia_server.Codes.InventorySlot.{InventorySlot}
use rustibia_server.Codes.FluidType.{FluidType}
use rustibia_server.Codes.Vocation.{Vocation}
use rustibia_server.Codes.VocationSet.{contains as holds_vocation}
use rustibia_server.Conditions.Kinds.{ConditionSpec}
use rustibia_server.Effects.{AreaShape}
use rustibia_server.Items.Config.{ItemAttribute, ItemConfig}

abbrev capacity_of : ItemAttribute → Option ℕ
capacity_of (ItemAttribute.capacity a) = some a
capacity_of _ = none

unfoldable pub attr_capacity : ItemConfig → Option ℕ
attr_capacity config = find_map capacity_of config.attributes

abbrev weight_of : ItemAttribute → Option ℕ
weight_of (ItemAttribute.weight a) = some a
weight_of _ = none

unfoldable pub attr_weight : ItemConfig → Option ℕ
attr_weight config = find_map weight_of config.attributes

abbrev floor_change_of : ItemAttribute → Option ℕ
floor_change_of (ItemAttribute.floor_change a) = some a
floor_change_of _ = none

unfoldable pub attr_floor_change : ItemConfig → Option ℕ
attr_floor_change config = find_map floor_change_of config.attributes

abbrev inventory_of : ItemAttribute → Option InventorySlot
inventory_of (ItemAttribute.inventory a) = some a
inventory_of _ = none

unfoldable pub attr_inventory : ItemConfig → Option InventorySlot
attr_inventory config = find_map inventory_of config.attributes

abbrev tile_friction_of : ItemAttribute → Option ℕ
tile_friction_of (ItemAttribute.tile_friction a) = some a
tile_friction_of _ = none

unfoldable pub attr_tile_friction : ItemConfig → Option ℕ
attr_tile_friction config = find_map tile_friction_of config.attributes

abbrev action_of : ItemAttribute → Option ℕ
action_of (ItemAttribute.action a) = some a
action_of _ = none

unfoldable pub attr_action : ItemConfig → Option ℕ
attr_action config = find_map action_of config.attributes

abbrev multi_action_of : ItemAttribute → Option ℕ
multi_action_of (ItemAttribute.multi_action a) = some a
multi_action_of _ = none

unfoldable pub attr_multi_action : ItemConfig → Option ℕ
attr_multi_action config = find_map multi_action_of config.attributes

abbrev armor_of : ItemAttribute → Option ℕ
armor_of (ItemAttribute.armor a) = some a
armor_of _ = none

unfoldable pub attr_armor : ItemConfig → Option ℕ
attr_armor config = find_map armor_of config.attributes

abbrev extra_def_of : ItemAttribute → Option ℤ
extra_def_of (ItemAttribute.extra_def a) = some a
extra_def_of _ = none

unfoldable pub attr_extra_def : ItemConfig → Option ℤ
attr_extra_def config = find_map extra_def_of config.attributes

abbrev defense_of : ItemAttribute → Option ℕ
defense_of (ItemAttribute.defense a) = some a
defense_of _ = none

unfoldable pub attr_defense : ItemConfig → Option ℕ
attr_defense config = find_map defense_of config.attributes

abbrev weapon_type_of : ItemAttribute → Option WeaponType
weapon_type_of (ItemAttribute.weapon_type a) = some a
weapon_type_of _ = none

unfoldable pub attr_weapon_type : ItemConfig → Option WeaponType
attr_weapon_type config = find_map weapon_type_of config.attributes

abbrev weapon_attack_of : ItemAttribute → Option ℕ
weapon_attack_of (ItemAttribute.weapon_attack a) = some a
weapon_attack_of _ = none

unfoldable pub attr_weapon_attack : ItemConfig → Option ℕ
attr_weapon_attack config = find_map weapon_attack_of config.attributes

abbrev weapon_element_of : ItemAttribute → Option CombatElement
weapon_element_of (ItemAttribute.weapon_element a) = some a
weapon_element_of _ = none

unfoldable pub attr_weapon_element : ItemConfig → Option CombatElement
attr_weapon_element config = find_map weapon_element_of config.attributes

abbrev ammo_type_of : ItemAttribute → Option AmmoType
ammo_type_of (ItemAttribute.ammo_type a) = some a
ammo_type_of _ = none

unfoldable pub attr_ammo_type : ItemConfig → Option AmmoType
attr_ammo_type config = find_map ammo_type_of config.attributes

abbrev weapon_range_of : ItemAttribute → Option ℕ
weapon_range_of (ItemAttribute.weapon_range a) = some a
weapon_range_of _ = none

unfoldable pub attr_weapon_range : ItemConfig → Option ℕ
attr_weapon_range config = find_map weapon_range_of config.attributes

abbrev hit_chance_of : ItemAttribute → Option ℤ
hit_chance_of (ItemAttribute.hit_chance a) = some a
hit_chance_of _ = none

unfoldable pub attr_hit_chance : ItemConfig → Option ℤ
attr_hit_chance config = find_map hit_chance_of config.attributes

abbrev max_hit_chance_of : ItemAttribute → Option ℕ
max_hit_chance_of (ItemAttribute.max_hit_chance a) = some a
max_hit_chance_of _ = none

unfoldable pub attr_max_hit_chance : ItemConfig → Option ℕ
attr_max_hit_chance config = find_map max_hit_chance_of config.attributes

abbrev mana_cost_of : ItemAttribute → Option ℕ
mana_cost_of (ItemAttribute.mana_cost a) = some a
mana_cost_of _ = none

unfoldable pub attr_mana_cost : ItemConfig → Option ℕ
attr_mana_cost config = find_map mana_cost_of config.attributes

abbrev missile_id_of : ItemAttribute → Option ℕ
missile_id_of (ItemAttribute.missile_id a) = some a
missile_id_of _ = none

unfoldable pub attr_missile_id : ItemConfig → Option ℕ
attr_missile_id config = find_map missile_id_of config.attributes

abbrev speed_of : ItemAttribute → Option ℤ
speed_of (ItemAttribute.speed a) = some a
speed_of _ = none

unfoldable pub attr_speed : ItemConfig → Option ℤ
attr_speed config = find_map speed_of config.attributes

abbrev required_level_of : ItemAttribute → Option ℕ
required_level_of (ItemAttribute.required_level a) = some a
required_level_of _ = none

unfoldable pub attr_required_level : ItemConfig → Option ℕ
attr_required_level config = find_map required_level_of config.attributes

abbrev vocations_of : ItemAttribute → Option ℕ
vocations_of (ItemAttribute.vocations a) = some a
vocations_of _ = none

unfoldable pub attr_vocations : ItemConfig → Option ℕ
attr_vocations config = find_map vocations_of config.attributes

abbrev fluid_source_of : ItemAttribute → Option FluidType
fluid_source_of (ItemAttribute.fluid_source a) = some a
fluid_source_of _ = none

unfoldable pub attr_fluid_source : ItemConfig → Option FluidType
attr_fluid_source config = find_map fluid_source_of config.attributes

abbrev field_of : ItemAttribute → Option ConditionSpec
field_of (ItemAttribute.field a) = some a
field_of _ = none

unfoldable pub attr_field : ItemConfig → Option ConditionSpec
attr_field config = find_map field_of config.attributes

abbrev decay_of : ItemAttribute → Option (ℕ × ℕ)
decay_of (ItemAttribute.decay duration decay_to) = some (duration, decay_to)
decay_of _ = none

unfoldable pub attr_decay : ItemConfig → Option (ℕ × ℕ)
attr_decay config = find_map decay_of config.attributes

abbrev weapon_area_of : ItemAttribute → Option (AreaShape × ℕ)
weapon_area_of (ItemAttribute.weapon_area shape effect) = some (shape, effect)
weapon_area_of _ = none

unfoldable pub attr_weapon_area : ItemConfig → Option (AreaShape × ℕ)
attr_weapon_area config = find_map weapon_area_of config.attributes

-- `is_none_or` on the two requirements.
unfoldable pub can_be_worn_by : ItemConfig → ℕ → Vocation → Bool
unfolding attr_required_level attr_vocations
can_be_worn_by config level vocation =
    elim (attr_required_level config) [ none ↦ true | some required ↦ leb required level ]
    && elim (attr_vocations config) [ none ↦ true | some set ↦ holds_vocation set vocation ]
