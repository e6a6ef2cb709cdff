-- ===== src/Monster/World.antt =====
-- field/monster/Components.h, MonsterWorld.cpp, MonsterEnvironment.cpp and Systems/SpawnSystem.cpp.
-- The integers are without bound. The six storages are one map: `create_monster` adds all of a
-- monster's components at once, and nothing removes one. `get` of an absent one throws, and then the
-- operation has no result. The callbacks of the environment are a list of their calls, in order; they
-- are all set.
use Prim.Native.String.{String}
use mmorpg_server_rl_portfol.Prelude.{
  ℕ, ℤ, nat_eq, pos, ◌-ℤ◌, leb_ℤ, ltb_ℤ, ◌==◌, Bool, true, false, not, ◌||◌, List, [], ◌∷◌, ◌++◌,
  Option, none, some, update, if◌then◌else◌, FloatArith,
}

infixl 1 ◌>>=◌
abbrev pub ◌>>=◌ : {A B : Type 0} → Option A → (A → Option B) → Option B
none >>= f = none
some a >>= f = f a

-- `CAI::State`
pub data AiState : Type 0 where
  idle : AiState
  patrol : AiState
  chase : AiState
  attack : AiState
  return_home : AiState
  dead : AiState

pub record CTransform (F : Type 0) : Type 0 where
  pub x : F
  pub y : F

pub record CStats : Type 0 where
  pub max_hp : ℤ
  pub hp : ℤ
  pub max_sp : ℤ
  pub sp : ℤ
  pub atk : ℤ
  pub def : ℤ
  pub dirty : Bool

pub record CSpawnInfo (F : Type 0) : Type 0 where
  pub spawn_x : F
  pub spawn_y : F
  pub respawn_delay : F
  pub pending_respawn : Bool
  pub respawn_timer : F
  pub dead_timer : F

pub record CAi (F : Type 0) : Type 0 where
  pub state : AiState
  pub target_id : ℕ
  pub think_cooldown : F
  pub attack_cooldown : F
  pub attack_timer : F
  pub move_dir_x : F
  pub move_dir_y : F
  pub move_speed : F
  pub idle_patrol_timer : F
  pub net_synced : Bool
  pub rng : ℕ
  pub attack_cd : F

pub record Monster (F : Type 0) : Type 0 where
  pub transform : CTransform F
  pub stats : CStats
  pub monster_type : ℤ
  pub spawn_info : CSpawnInfo F
  pub ai : CAi F
  pub prefab_name : String

pub record MonsterWorld (F : Type 0) : Type 0 where
  pub monsters : List ℕ
  pub components : ℕ → Option (Monster F)

-- `env.removeFromAoi` and `env.spawnInAoi`
pub data AoiCall (F : Type 0) : Type 0 where
  remove_from_aoi : ℕ → AoiCall F
  spawn_in_aoi : ℕ → F → F → AoiCall F

module _ {F : Type 0} where
  unfoldable pub new_world : MonsterWorld F
  new_world = record { monsters = []; components = λ e. none }

  unfoldable pub set_monster : MonsterWorld F → ℕ → Monster F → MonsterWorld F
  set_monster w e m = record w { components = update w.components e (some m) }

module _ (fl : FloatArith) where
  open fl use {F, lit, fadd, fmul, fdiv, flt, fle, sqrt}

  abbrev pub f0 : F
  f0 = lit 0 1

  -- `aiComp.add(e, {})`: the defaults of `CAI`.
  abbrev pub new_ai : CAi F
  new_ai = record {
    state = patrol;
    target_id = 0;
    think_cooldown = f0;
    attack_cooldown = lit 1 1;
    attack_timer = f0;
    move_dir_x = f0;
    move_dir_y = f0;
    move_speed = f0;
    idle_patrol_timer = f0;
    net_synced = false;
    rng = 0x12345678;
    attack_cd = f0;
  }

  -- `spawnInfo.add(e, { x, y })`: the members that the braces do not name are zero.
  abbrev pub new_spawn_info : F → F → CSpawnInfo F
  new_spawn_info x y = record {
    spawn_x = x;
    spawn_y = y;
    respawn_delay = f0;
    pending_respawn = false;
    respawn_timer = f0;
    dead_timer = f0;
  }

  unfoldable pub create_monster : MonsterWorld F → ℕ → F → F → String → ℤ → CStats → MonsterWorld F
  unfolding set_monster
  create_monster w e x y prefab monster_type st =
      set_monster (record w { monsters = w.monsters ++ e ∷ [] }) e
        (record {
          transform = record { x = x; y = y };
          stats = record st { dirty = false };
          monster_type = monster_type;
          spawn_info = new_spawn_info x y;
          ai = new_ai;
          prefab_name = prefab;
        })

  unfoldable pub kill_monster : Monster F → Monster F
  kill_monster m = record m {
    stats = record (m.stats) { hp = pos 0 };
    ai = record (m.ai) { state = dead };
    spawn_info = record (m.spawn_info) { dead_timer = f0 };
  }

  -- The branch of `player_attack_monster` for a monster whose hit points are used up.
  unfoldable pub slay : Monster F → Monster F
  unfolding kill_monster
  slay m =
      let killed = kill_monster m in
      record killed {
        spawn_info = record (killed.spawn_info) { pending_respawn = true; respawn_timer = f0 };
      }

  unfoldable pub hit : Monster F → Monster F
  hit m = record m { stats = record (m.stats) { hp = m.stats.hp -ℤ pos 10; dirty = true } }

  -- What the attack makes of the monster, and whether it dies.
  unfoldable pub strike : Monster F → Monster F × Bool
  unfolding hit slay
  strike m = let m' = hit m in if leb_ℤ m'.stats.hp (pos 0) then (slay m', true) else (m', false)

  -- `player_attack_monster` once the loop has found the monster.
  unfoldable pub attack_found :
      MonsterWorld F → ℕ → Option (Monster F) → Option (MonsterWorld F × (List (AoiCall F) × Bool))
  unfolding strike set_monster
  attack_found w e none = none
  attack_found w e (some m) =
      let (m', died) = strike m in
      some (set_monster w e m', (if died then remove_from_aoi e ∷ [] else [], died))

  -- The loop over the monsters.
  unfoldable pub attack_loop :
      MonsterWorld F → ℕ → List ℕ → Option (MonsterWorld F × (List (AoiCall F) × Bool))
  unfolding attack_found
  attack_loop w mid [] = some (w, ([], false))
  attack_loop w mid (e ∷ es) =
      let rest = attack_loop w mid es in
      if not (e == mid) then rest else attack_found w e (w.components e)

  unfoldable pub player_attack_monster :
      MonsterWorld F → ℕ → Option (MonsterWorld F × (List (AoiCall F) × Bool))
  unfolding attack_loop
  player_attack_monster w mid = attack_loop w mid w.monsters

  -- The monster that SpawnSystem puts back.
  unfoldable pub respawned : Monster F → Monster F
  respawned m = record m {
    stats = record (m.stats) { hp = m.stats.max_hp };
    transform = record { x = m.spawn_info.spawn_x; y = m.spawn_info.spawn_y };
    spawn_info = record (m.spawn_info) { pending_respawn = false; respawn_timer = f0 };
    ai = record (m.ai) { state = idle; target_id = 0; think_cooldown = f0; attack_timer = f0 };
  }

  -- The body of the loop of `SpawnSystem::update`, for one monster.
  unfoldable pub spawn_one : F → ℕ → Monster F → Monster F × List (AoiCall F)
  unfolding respawned
  spawn_one dt e m =
      let sp = m.spawn_info in
      let timer = fadd sp.respawn_timer dt in
      let waited = record m { spawn_info = record sp { respawn_timer = timer } } in
      if ltb_ℤ (pos 0) m.stats.hp
      then (m, [])
      else if not sp.pending_respawn
      then (m, [])
      else if fle sp.respawn_delay f0
      then (m, [])
      else if flt timer sp.respawn_delay
      then (waited, [])
      else (respawned waited, spawn_in_aoi e sp.spawn_x sp.spawn_y ∷ [])

  unfoldable pub spawn_found :
      F → MonsterWorld F → ℕ → Option (Monster F) → Option (MonsterWorld F × List (AoiCall F))
  unfolding spawn_one set_monster
  spawn_found dt w e none = none
  spawn_found dt w e (some m) =
      let (m', calls) = spawn_one dt e m in some (set_monster w e m', calls)

  unfoldable pub spawn_loop :
      F → MonsterWorld F → List ℕ → Option (MonsterWorld F × List (AoiCall F))
  unfolding spawn_found
  spawn_loop dt w [] = some (w, [])
  spawn_loop dt w (e ∷ es) = do
    (w', first) ← spawn_found dt w e (w.components e)
    (w'', later) ← spawn_loop dt w' es
    some (w'', first ++ later)

  -- `SpawnSystem::update`
  unfoldable pub spawn_update : F → MonsterWorld F → Option (MonsterWorld F × List (AoiCall F))
  unfolding spawn_loop
  spawn_update dt w = spawn_loop dt w w.monsters

  -- `MonsterEnvironment::set_monster_move`, on the component.
  unfoldable pub set_monster_move : CAi F → F → F → F → CAi F
  set_monster_move ai dx dy speed =
      let len2 = fadd (fmul dx dx) (fmul dy dy) in
      let inv_len = fdiv (lit 1 1) (sqrt len2) in
      if flt len2 (lit 1 10000) || fle speed f0
      then record ai { move_dir_x = f0; move_dir_y = f0; move_speed = f0 }
      else record ai {
        move_dir_x = fmul dx inv_len;
        move_dir_y = fmul dy inv_len;
        move_speed = speed;
      }

  unfoldable pub stop_move : CAi F → CAi F
  unfolding set_monster_move
  stop_move ai =
      set_monster_move (record ai { move_dir_x = f0; move_dir_y = f0; move_speed = f0 }) f0 f0 f0
