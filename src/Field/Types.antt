-- ===== src/Field/Types.antt =====
-- worker/fieldWorker.h: the state of a field, and what it sends. The Player objects are shared with
-- the player manager; an id names one object. `has_session` and `registered` are what the session
-- manager and the player manager answer. A packet stands for the bytes that flatbuffers builds.
use Prim.Native.String.{String}
use mmorpg_server_rl_portfol.Prelude.{
  ℕ, ℤ, nat_eq, Bool, List, [], ◌++◌, Option, none, some, update, contains, if◌then◌else◌,
}
use mmorpg_server_rl_portfol.Game.Player.{Player}
use mmorpg_server_rl_portfol.Monster.World.{
  MonsterWorld, AiState, idle, patrol, chase, attack, return_home, dead,
}
use mmorpg_server_rl_portfol.Aoi.Types.{EventType, enter, leave, move, snapshot}
use mmorpg_server_rl_portfol.Aoi.System.{FieldAoiSystem}
use mmorpg_server_rl_portfol.Storage.DirtyHub.{DirtyHub}

-- The enumerations of the protocol.
pub data FieldCmdType : Type 0 where
  cmd_enter cmd_leave cmd_move : FieldCmdType

pub data EntityType : Type 0 where
  player_type monster_type : EntityType

pub data AiStateType : Type 0 where
  type_idle type_patrol type_chase type_attack type_return type_dead : AiStateType

pub data PlayerState : Type 0 where
  player_idle player_patrol player_chase player_attack player_return player_dead : PlayerState

unfoldable pub to_fb_state : AiState → AiStateType
to_fb_state idle = type_idle
to_fb_state patrol = type_patrol
to_fb_state chase = type_chase
to_fb_state attack = type_attack
to_fb_state return_home = type_return
to_fb_state dead = type_dead

-- The overload of `to_fb_state` for a player.
unfoldable pub to_fb_player_state : PlayerState → AiStateType
to_fb_player_state player_idle = type_idle
to_fb_player_state player_patrol = type_patrol
to_fb_player_state player_chase = type_chase
to_fb_player_state player_attack = type_attack
to_fb_player_state player_return = type_return
to_fb_player_state player_dead = type_dead

unfoldable pub to_field_cmd_type : EventType → FieldCmdType
to_field_cmd_type snapshot = cmd_enter
to_field_cmd_type enter = cmd_enter
to_field_cmd_type leave = cmd_leave
to_field_cmd_type move = cmd_move

pub data Packet (F : Type 0) : Type 0 where
  field_cmd : FieldCmdType → EntityType → ℕ → F → F → String → Packet F
  combat_event : EntityType → ℕ → EntityType → ℕ → ℤ → ℤ → Packet F
  stat_event : EntityType → ℕ → ℤ → ℤ → ℤ → ℤ → Packet F
  ai_state_event : EntityType → ℕ → AiStateType → Packet F

-- `storage::redis::UserSnapshot`
pub record UserSnapshot (F : Type 0) : Type 0 where
  pub uid : ℕ
  pub x : F
  pub z : F
  pub hp : ℤ
  pub sp : ℤ
  pub inv_json : String

-- A payload for the session of a player, and a call of `redisRtWriter_`.
pub data Effect (F : Type 0) : Type 0 where
  sends : ℕ → Packet F → Effect F
  writes : UserSnapshot F → Effect F

pub record Field (F : Type 0) : Type 0 where
  pub field_id : ℤ
  pub world_time : F
  pub monster_world : MonsterWorld F
  pub aoi_system : FieldAoiSystem F
  pub players : List ℕ
  pub objects : ℕ → Option (Player F)
  pub player_acc : F
  pub monster_acc : F
  pub dirty_hub : DirtyHub
  pub has_redis_rt_writer : Bool
  pub has_session : ℕ → Bool
  pub registered : ℕ → Bool

-- What an operation leaves and does.
abbrev pub Run : Type 0 → Type 0
Run F = Field F × List (Effect F)

module _ {F : Type 0} where
  -- One operation after another.
  infixl 4 ◌then◌
  abbrev pub ◌then◌ : Run F → (Field F → Run F) → Run F
  r then g = ((g r.0).0, r.1 ++ (g r.0).1)

  abbrev pub done : Field F → Run F
  done f = (f, [])

  -- `players_.find(id)`
  unfoldable pub find_player : Field F → ℕ → Option (Player F)
  find_player f id = if contains id f.players then f.objects id else none

  -- A change of the object under an id.
  abbrev pub put_player : Field F → ℕ → Player F → Field F
  put_player f id p = record f { objects = update f.objects id (some p) }
