-- ===== src/Game/Player.antt =====
-- game/Player.h. A session is known by its number, a name by its characters' codes. `F` is the type
-- of the floating-point numbers.
use mmorpg_server_rl_portfol.Prelude.{
  ℕ, ℤ, pos, Bool, false, List, ltb_ℤ, if◌then◌else◌, FloatArith,
}

pub record PlayerStat : Type 0 where
  pub hp : ℤ
  pub max_hp : ℤ
  pub sp : ℤ
  pub max_sp : ℤ

abbrev pub new_stat : PlayerStat
new_stat = record { hp = pos 500; max_hp = pos 500; sp = pos 100; max_sp = pos 100 }

-- `set_hp` and `set_sp`: the two tests in turn.
unfoldable pub clamp_top : ℤ → ℤ → ℤ
clamp_top top v = if ltb_ℤ top v then top else v

unfoldable pub clamp_bottom : ℤ → ℤ
clamp_bottom v = if ltb_ℤ v (pos 0) then pos 0 else v

unfoldable pub set_hp : PlayerStat → ℤ → PlayerStat
unfolding clamp_top clamp_bottom
set_hp st hp = record st { hp = clamp_bottom (clamp_top st.max_hp hp) }

unfoldable pub set_max_hp : PlayerStat → ℤ → PlayerStat
unfolding clamp_top
set_max_hp st max_hp = record st { max_hp = max_hp; hp = clamp_top max_hp st.hp }

unfoldable pub set_sp : PlayerStat → ℤ → PlayerStat
unfolding clamp_top clamp_bottom
set_sp st sp = record st { sp = clamp_bottom (clamp_top st.max_sp sp) }

unfoldable pub set_max_sp : PlayerStat → ℤ → PlayerStat
unfolding clamp_top
set_max_sp st max_sp = record st { max_sp = max_sp; sp = clamp_top max_sp st.sp }

pub record Vec2 (F : Type 0) : Type 0 where
  pub x : F
  pub y : F

pub record PlayerMoveState (F : Type 0) : Type 0 where
  pub dir : Vec2 F
  pub moving : Bool
  pub speed : F
  pub last_input_time : F

pub record Player (F : Type 0) : Type 0 where
  pub id : ℕ
  pub session : ℕ
  pub name : List ℕ
  pub field_id : ℤ
  pub position : Vec2 F
  pub move_state : PlayerMoveState F
  pub stat : PlayerStat
  pub last_dirty_mark_time : F

module _ (fl : FloatArith) where
  open fl use {F, lit}

  -- `core::PLAYER_SPEED`
  abbrev pub player_speed : F
  player_speed = lit 5 1

  -- The constructor, with a session.
  unfoldable pub new_player : ℕ → ℕ → List ℕ → Player F
  new_player id session name = record {
    id = id;
    session = session;
    name = name;
    field_id = pos 0;
    position = record { x = lit 0 1; y = lit 0 1 };
    move_state = record {
      dir = record { x = lit 0 1; y = lit 0 1 };
      moving = false;
      speed = player_speed;
      last_input_time = lit 0 1;
    };
    stat = new_stat;
    last_dirty_mark_time = lit 0 1;
  }

module _ {F : Type 0} where
  unfoldable pub set_pos : Player F → F → F → Player F
  set_pos p x y = record p { position = record { x = x; y = y } }

  unfoldable pub stop_player_move : Player F → Player F
  stop_player_move p = record p { move_state = record (p.move_state) { moving = false } }
