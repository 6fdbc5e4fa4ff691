-- ===== src/Wire/ServerMessage.antt =====
-- What the server sends: `ServerMessage`, and the opcodes of both crates.
use rustibia_server.Prelude.{ℕ, ◌≡◌, Bool, Option, none, some, List, length, All}
use rustibia_server.Prelude.Int.{ℤ}
use rustibia_server.Geometry.{Position, Direction}
use rustibia_server.Vitals.{Pool}
use rustibia_server.Codes.Facing.{Facing}
use rustibia_server.Codes.AgentKind.{AgentKind}
use rustibia_server.Codes.InventorySlot.{InventorySlot}
use rustibia_server.Codes.SkillType.{SkillType}
use rustibia_server.Wire.Buffer.{IsI8}
use rustibia_server.Wire.Text.{String}
use rustibia_server.Wire.Values.{
  IsU8, IsU16, IsU32, IsU64, IsPosition, ChatMessageType, OutfitColors, IsOutfit, Color,
}
use rustibia_server.Wire.ClientMessage.{IsString}
use rustibia_server.Wire.ServerValues.{
  Slots, ItemStack, TextMessageType, FloatingTextType, SkillProgress, ShopOfferEntry,
  SpellListEntry, IsItemStack, IsContents, IsOptionalItem, IsShortString, IsShopOfferEntry, IsGood,
  IsSpellListEntry, IsSkill, IsSkillProgress, IsChannel, IsFloor, viewport_size,
}

abbrev pub srv_pong : ℕ
srv_pong = 0

abbrev pub srv_login_error : ℕ
srv_login_error = 1

abbrev pub srv_describe_map : ℕ
srv_describe_map = 2

abbrev pub srv_tile_updated : ℕ
srv_tile_updated = 3

abbrev pub srv_player_walk_ack : ℕ
srv_player_walk_ack = 4

abbrev pub srv_player_pos : ℕ
srv_player_pos = 5

abbrev pub srv_describe_player : ℕ
srv_describe_player = 6

abbrev pub srv_text_message : ℕ
srv_text_message = 7

abbrev pub srv_open_container : ℕ
srv_open_container = 8

abbrev pub srv_update_container : ℕ
srv_update_container = 9

abbrev pub srv_container_closed : ℕ
srv_container_closed = 10

abbrev pub srv_player_walk_denied : ℕ
srv_player_walk_denied = 11

abbrev pub srv_inventory_slot_updated : ℕ
srv_inventory_slot_updated = 12

abbrev pub srv_player_capacity_updated : ℕ
srv_player_capacity_updated = 13

abbrev pub srv_agent_direction_changed : ℕ
srv_agent_direction_changed = 14

abbrev pub srv_remove_agent : ℕ
srv_remove_agent = 15

abbrev pub srv_move_agent : ℕ
srv_move_agent = 16

abbrev pub srv_spawn_agent : ℕ
srv_spawn_agent = 17

abbrev pub srv_teleport_agent : ℕ
srv_teleport_agent = 18

abbrev pub srv_chat_message : ℕ
srv_chat_message = 19

abbrev pub srv_channel_list : ℕ
srv_channel_list = 20

abbrev pub srv_private_chat_opened : ℕ
srv_private_chat_opened = 21

abbrev pub srv_floating_text : ℕ
srv_floating_text = 22

abbrev pub srv_target_lost : ℕ
srv_target_lost = 23

abbrev pub srv_agent_life_updated : ℕ
srv_agent_life_updated = 24

abbrev pub srv_show_effect : ℕ
srv_show_effect = 25

abbrev pub srv_launch_missile : ℕ
srv_launch_missile = 26

abbrev pub srv_agent_mana_updated : ℕ
srv_agent_mana_updated = 27

abbrev pub srv_player_skills : ℕ
srv_player_skills = 28

abbrev pub srv_skill_updated : ℕ
srv_skill_updated = 29

abbrev pub srv_experience_updated : ℕ
srv_experience_updated = 30

abbrev pub srv_spell_cast : ℕ
srv_spell_cast = 31

abbrev pub srv_spell_list : ℕ
srv_spell_list = 32

abbrev pub srv_agent_speed_updated : ℕ
srv_agent_speed_updated = 33

abbrev pub srv_player_status : ℕ
srv_player_status = 34

abbrev pub srv_damaged_by : ℕ
srv_damaged_by = 35

abbrev pub srv_died : ℕ
srv_died = 36

abbrev pub srv_shop : ℕ
srv_shop = 37

abbrev pub srv_shop_closed : ℕ
srv_shop_closed = 38

pub data ServerMessage : Type 0 where
  pong : ServerMessage
  login_error : ServerMessage
  describe_map : (tiles : List ItemStack) (center : Position) (floor : ℕ) → ServerMessage
  tile_updated : (position : Position) (items : ItemStack) → ServerMessage
  player_walk_ack : (position : Position) (tiles : List (ℕ × List ItemStack)) → ServerMessage
  player_position : (position : Position) → ServerMessage
  describe_player :
      (agent_id : ℕ) (position : Position) (facing : Facing) (name : String) (level : ℕ)
      (life mana : Pool) (outfit : ℕ × OutfitColors) (speed capacity : ℕ)
      (inventory_head inventory_amulet inventory_backpack inventory_chest inventory_right_hand
        inventory_left_hand inventory_legs inventory_feet inventory_ring inventory_trinket : Option
          ℕ)
      → ServerMessage
  text_message : (text : String) (message_type : TextMessageType) → ServerMessage
  open_container :
      (container_id capacity : ℕ) (has_parent : Bool) (title : String) (items : Slots)
      → ServerMessage
  update_container : (container_id : ℕ) (items : Slots) → ServerMessage
  container_closed : (container_id : ℕ) → ServerMessage
  player_walk_denied : ServerMessage
  inventory_slot_updated : (slot : InventorySlot) (item_id : Option ℕ) → ServerMessage
  player_capacity_updated : (cap : ℕ) → ServerMessage
  agent_changed_direction : (agent_id : ℕ) (facing : Facing) → ServerMessage
  remove_agent : (agent_id : ℕ) → ServerMessage
  move_agent : (agent_id : ℕ) (direction : Direction) (from : Position) (stack : ℕ) → ServerMessage
  spawn_agent :
      (agent_id : ℕ) (outfit : ℕ × OutfitColors) (position : Position) (facing : Facing)
      (name : String) (life speed : ℕ) (kind : AgentKind) (stack : ℕ)
      → ServerMessage
  teleport_agent : (agent_id : ℕ) (position : Position) (stack : ℕ) → ServerMessage
  chat_message :
      (author : String) (message_type : ChatMessageType) (channel : ℕ) (position : Option Position)
      (message : String)
      → ServerMessage
  channel_list : (channels : List (ℕ × String)) → ServerMessage
  private_chat_opened : (name : String) → ServerMessage
  floating_text :
      (text : String) (position : Position) (text_type : FloatingTextType) (color : Option Color)
      → ServerMessage
  target_lost : (seq : ℕ) → ServerMessage
  agent_life_changed : (agent_id current max : ℕ) → ServerMessage
  show_effect : (effect_id : ℕ) (position : Position) (delta : List (ℤ × ℤ)) → ServerMessage
  launch_missile : (from to : Position) (missile_id : ℕ) → ServerMessage
  agent_mana_updated : (agent_id current max : ℕ) → ServerMessage
  player_skills : (experience : ℕ) (skills : List (SkillType × SkillProgress)) → ServerMessage
  skill_updated : (skill : SkillType) (progress : SkillProgress) → ServerMessage
  experience_updated : (experience : ℕ) → ServerMessage
  spell_cast : (spell spell_cooldown_ms group_cooldown_ms : ℕ) → ServerMessage
  spell_list : (spells : List SpellListEntry) → ServerMessage
  agent_speed_updated : (agent_id speed : ℕ) → ServerMessage
  player_status : (status : ℕ) → ServerMessage
  damaged_by : (agent_id : ℕ) → ServerMessage
  player_died : ServerMessage
  shop :
      (npc_name : String) (money : ℕ) (offers : List ShopOfferEntry) (goods : List (ℕ × ℕ × ℕ))
      → ServerMessage
  shop_closed : ServerMessage

abbrev pub IsPool : Pool → Type 0
IsPool p = IsU32 p.current × IsU32 p.maximum

abbrev pub IsOptionalPosition : Option Position → Type 0
IsOptionalPosition none = Unit
IsOptionalPosition (some p) = IsPosition p

abbrev pub IsOptionalColor : Option Color → Type 0
IsOptionalColor none = Unit
IsOptionalColor (some c) = IsU8 c.red × IsU8 c.green × IsU8 c.blue

-- One stack for each tile of the view.
abbrev pub IsView : List ItemStack → Type 0
IsView tiles = (length tiles ≡ viewport_size) × All IsItemStack tiles

abbrev pub IsDelta : ℤ × ℤ → Type 0
IsDelta d = IsI8 d.0 × IsI8 d.1

abbrev pub IsSkills : List (SkillType × SkillProgress) → Type 0
IsSkills skills = IsU8 (length skills) × All IsSkill skills

-- Every field is in the range of its type, no identifier is one that ends a list or means none, and
-- every list has a length that fits its count.
abbrev pub IsServerMessage : ServerMessage → Type 0
IsServerMessage (describe_map tiles center floor) = IsPosition center × IsU8 floor × IsView tiles
IsServerMessage (tile_updated position items) = IsPosition position × IsItemStack items
IsServerMessage (player_walk_ack position tiles) = IsPosition position × All IsFloor tiles
IsServerMessage (player_position position) = IsPosition position
IsServerMessage
      (describe_player agent_id position facing name level life mana outfit speed capacity
        inventory_head inventory_amulet inventory_backpack inventory_chest inventory_right_hand
        inventory_left_hand inventory_legs inventory_feet inventory_ring inventory_trinket) =
    IsU16 agent_id
    × IsPosition position
    × IsString name
    × IsU16 level
    × IsPool life
    × IsPool mana
    × IsOutfit outfit
    × IsU16 speed
    × IsU32 capacity
    × IsOptionalItem inventory_head
    × IsOptionalItem inventory_amulet
    × IsOptionalItem inventory_backpack
    × IsOptionalItem inventory_chest
    × IsOptionalItem inventory_right_hand
    × IsOptionalItem inventory_left_hand
    × IsOptionalItem inventory_legs
    × IsOptionalItem inventory_feet
    × IsOptionalItem inventory_ring
    × IsOptionalItem inventory_trinket
IsServerMessage (text_message text message_type) = IsString text
IsServerMessage (open_container container_id capacity has_parent title items) =
    IsU16 container_id × IsU8 capacity × IsShortString title × IsContents items
IsServerMessage (update_container container_id items) = IsU16 container_id × IsContents items
IsServerMessage (container_closed container_id) = IsU16 container_id
IsServerMessage (inventory_slot_updated slot item_id) = IsOptionalItem item_id
IsServerMessage (player_capacity_updated cap) = IsU32 cap
IsServerMessage (agent_changed_direction agent_id facing) = IsU16 agent_id
IsServerMessage (remove_agent agent_id) = IsU16 agent_id
IsServerMessage (move_agent agent_id direction from stack) =
    IsU16 agent_id × IsPosition from × IsU8 stack
IsServerMessage (spawn_agent agent_id outfit position facing name life speed kind stack) =
    IsU16 agent_id
    × IsPosition position
    × IsString name
    × IsU32 life
    × IsOutfit outfit
    × IsU16 speed
    × IsU8 stack
IsServerMessage (teleport_agent agent_id position stack) =
    IsU16 agent_id × IsPosition position × IsU8 stack
IsServerMessage (chat_message author message_type channel position message) =
    IsString author × IsU16 channel × IsOptionalPosition position × IsString message
IsServerMessage (channel_list channels) = (IsU16 (length channels) × All IsChannel channels)
IsServerMessage (private_chat_opened name) = IsString name
IsServerMessage (floating_text text position text_type color) =
    IsString text × IsPosition position × IsOptionalColor color
IsServerMessage (target_lost seq) = IsU32 seq
IsServerMessage (agent_life_changed agent_id current max) =
    IsU16 agent_id × IsU32 current × IsU32 max
IsServerMessage (show_effect effect_id position delta) =
    IsU16 effect_id × IsPosition position × All IsDelta delta
IsServerMessage (launch_missile from to missile_id) =
    IsPosition from × IsPosition to × IsU16 missile_id
IsServerMessage (agent_mana_updated agent_id current max) =
    IsU16 agent_id × IsU32 current × IsU32 max
IsServerMessage (player_skills experience skills) = IsU64 experience × IsSkills skills
IsServerMessage (skill_updated skill progress) = IsSkillProgress progress
IsServerMessage (experience_updated experience) = IsU64 experience
IsServerMessage (spell_cast spell spell_cooldown_ms group_cooldown_ms) =
    IsU16 spell × IsU32 spell_cooldown_ms × IsU32 group_cooldown_ms
IsServerMessage (spell_list spells) = (IsU16 (length spells) × All IsSpellListEntry spells)
IsServerMessage (agent_speed_updated agent_id speed) = IsU16 agent_id × IsU16 speed
IsServerMessage (player_status status) = IsU32 status
IsServerMessage (damaged_by agent_id) = IsU16 agent_id
IsServerMessage (shop npc_name money offers goods) =
    IsString npc_name
    × IsU64 money
    × (IsU16 (length offers) × All IsShopOfferEntry offers)
    × (IsU16 (length goods) × All IsGood goods)
IsServerMessage m = Unit
