-- ===== src/Wire/ClientMessage.antt =====
-- What a client sends: `ClientMessage`, and the opcodes of both crates.
use rustibia_server.Prelude.{ℕ, ◌<◌, Option, none, some, length}
use rustibia_server.Geometry.{Position, Direction}
use rustibia_server.Codes.Facing.{Facing}
use rustibia_server.Wire.Text.{String, IsUtf8}
use rustibia_server.Wire.Values.{
  IsU8, IsU16, IsU32, IsPosition, ClientItemRef, IsClientItemRef, SayTarget, SpellTarget,
}

abbrev pub cli_ping : ℕ
cli_ping = 0

abbrev pub cli_login : ℕ
cli_login = 1

abbrev pub cli_move_player : ℕ
cli_move_player = 2

abbrev pub cli_get_player_pos : ℕ
cli_get_player_pos = 3

abbrev pub cli_move_item : ℕ
cli_move_item = 4

abbrev pub cli_use_item : ℕ
cli_use_item = 5

abbrev pub cli_close_container : ℕ
cli_close_container = 6

abbrev pub cli_open_parent_container : ℕ
cli_open_parent_container = 7

abbrev pub cli_change_direction : ℕ
cli_change_direction = 8

abbrev pub cli_logout : ℕ
cli_logout = 9

abbrev pub cli_use_item_with : ℕ
cli_use_item_with = 10

abbrev pub cli_look : ℕ
cli_look = 11

abbrev pub cli_say : ℕ
cli_say = 12

abbrev pub cli_request_channels : ℕ
cli_request_channels = 13

abbrev pub cli_open_channel : ℕ
cli_open_channel = 14

abbrev pub cli_close_channel : ℕ
cli_close_channel = 15

abbrev pub cli_open_pm_chat : ℕ
cli_open_pm_chat = 16

abbrev pub cli_set_target : ℕ
cli_set_target = 17

abbrev pub cli_cast_spell : ℕ
cli_cast_spell = 18

abbrev pub cli_shop_buy : ℕ
cli_shop_buy = 19

abbrev pub cli_shop_sell : ℕ
cli_shop_sell = 20

abbrev pub cli_close_shop : ℕ
cli_close_shop = 21

pub data ClientMessage : Type 0 where
  ping : ClientMessage
  login : (auth_token : String) → ClientMessage
  move_player : (direction : Direction) → ClientMessage
  get_player_position : ClientMessage
  move_item : (item : ClientItemRef) (amount : ℕ) (to : Position) → ClientMessage
  use_item : (item : ClientItemRef) → ClientMessage
  close_container : (container_id : ℕ) → ClientMessage
  open_parent_container : (container_id : ℕ) → ClientMessage
  change_direction : (direction : Facing) → ClientMessage
  logout : ClientMessage
  use_item_with : (source target : ClientItemRef) (target_agent : Option ℕ) → ClientMessage
  look : (position : Position) → ClientMessage
  say : (message : String) (target : SayTarget) → ClientMessage
  request_channels : ClientMessage
  open_channel : (channel : ℕ) → ClientMessage
  close_channel : (channel : ℕ) → ClientMessage
  open_pm_chat : (name : String) → ClientMessage
  set_target : (agent_id : Option ℕ) (seq : ℕ) → ClientMessage
  cast_spell : (spell_id : ℕ) (target : SpellTarget) (param : Option String) → ClientMessage
  shop_buy : (item_id subtype amount : ℕ) → ClientMessage
  shop_sell : (item_id subtype amount : ℕ) → ClientMessage
  close_shop : ClientMessage

-- An agent's id is not the number that stands for no agent.
abbrev pub IsOptionalAgent : Option ℕ → Type 0
IsOptionalAgent none = Unit
IsOptionalAgent (some id) = id < 0xFFFF

-- A text whose length fits its prefix.
abbrev pub IsString : String → Type 0
IsString s = IsUtf8 s × IsU16 (length s)

abbrev pub IsSpellTarget : SpellTarget → Type 0
IsSpellTarget SpellTarget.none = Unit
IsSpellTarget (SpellTarget.agent id) = IsU16 id
IsSpellTarget (SpellTarget.position p) = IsPosition p

-- A spell's parameter is absent rather than empty.
abbrev pub IsParam : Option String → Type 0
IsParam none = Unit
IsParam (some s) = IsString s × (0 < length s)

abbrev pub IsSayTarget : SayTarget → Type 0
IsSayTarget SayTarget.local = Unit
IsSayTarget (SayTarget.channel id) = IsU16 id
IsSayTarget (SayTarget.player name) = IsString name

-- Every field is in the range of its type, and no identifier is the one that means none.
abbrev pub IsClientMessage : ClientMessage → Type 0
IsClientMessage (login auth_token) = IsUtf8 auth_token
IsClientMessage (move_item item amount to) = IsClientItemRef item × IsU8 amount × IsPosition to
IsClientMessage (use_item item) = IsClientItemRef item
IsClientMessage (close_container id) = IsU16 id
IsClientMessage (open_parent_container id) = IsU16 id
IsClientMessage (use_item_with source target agent) =
    IsClientItemRef source × IsClientItemRef target × IsOptionalAgent agent
IsClientMessage (look p) = IsPosition p
IsClientMessage (say message target) = IsUtf8 message × IsSayTarget target
IsClientMessage (open_channel id) = IsU16 id
IsClientMessage (close_channel id) = IsU16 id
IsClientMessage (open_pm_chat name) = IsUtf8 name
IsClientMessage (set_target agent seq) = IsOptionalAgent agent × IsU32 seq
IsClientMessage (cast_spell id target param) = IsU16 id × IsSpellTarget target × IsParam param
IsClientMessage (shop_buy item subtype amount) = IsU16 item × IsU8 subtype × IsU8 amount
IsClientMessage (shop_sell item subtype amount) = IsU16 item × IsU8 subtype × IsU8 amount
IsClientMessage m = Unit
