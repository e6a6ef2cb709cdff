-- ===== src/Field/Monsters.antt =====
-- worker/fieldWorker.cpp: the monsters of a field, and the callbacks of their environment. A system
-- that only reports runs before its calls are made; the combat, which reads the players that it
-- changes, makes the calls of a monster before it goes on to the next.
use mmorpg_server_rl_portfol.Prelude.{
  ℕ, ℤ, nat_eq, Bool, true, false, List, [], ◌∷◌, ◌++◌, Option, none, some, if◌then◌else◌,
  FloatArith,
}
use mmorpg_server_rl_portfol.Game.Player.{Player, PlayerStat, set_hp, set_sp}
use mmorpg_server_rl_portfol.Monster.World.{
  Monster, AoiCall, remove_from_aoi, spawn_in_aoi, spawn_update, set_monster, ◌>>=◌,
}
use mmorpg_server_rl_portfol.Monster.Movement.{MoveCall, move_in_aoi, move_loop}
use mmorpg_server_rl_portfol.Monster.Combat.{
  PlayerSide, CombatCall, mark_player_dirty, broadcast_combat, broadcast_player_stat,
  broadcast_player_dead, combat_one,
}
use mmorpg_server_rl_portfol.Monster.Ai.{Senses, AiCall, broadcast_ai_state, broadcast_monster_stat}
use mmorpg_server_rl_portfol.Monster.Turn.{ai_update}
use mmorpg_server_rl_portfol.Aoi.System.{add_entity, move_entity, remove_entity}
use mmorpg_server_rl_portfol.Storage.DirtyHub.{mark_dirty}
use mmorpg_server_rl_portfol.Field.Types.{
  Field, Run, Effect, player_dead, ◌then◌, done, find_player, put_player,
}
use mmorpg_server_rl_portfol.Field.Sending as Sending

module _ {F : Type 0} where
  -- `env_.getPlayerPosition`
  unfoldable pub get_player_position : Field F → ℕ → Option (F × F)
  unfolding find_player
  get_player_position f id = elim (find_player f id) [
    | none ↦ none
    | some p ↦ some (p.position.x, p.position.y)
  ]

  -- `PlayerManager::get_by_id`
  unfoldable pub managed : Field F → ℕ → Option (Player F)
  managed f id = if f.registered id then f.objects id else none

  unfoldable pub get_player_stats : Field F → ℕ → Option PlayerStat
  unfolding managed
  get_player_stats f id = elim (managed f id) [ none ↦ none | some p ↦ some p.stat ]

  unfoldable pub set_player_stats : Field F → ℕ → ℤ → ℤ → Field F
  unfolding managed
  set_player_stats f id hp sp = elim (managed f id) [
    | none ↦ f
    | some p ↦ put_player f id (record p { stat = set_sp (set_hp p.stat hp) sp })
  ]

  abbrev pub has_position : Field F → ℕ → Bool
  has_position f id = elim (get_player_position f id) [ none ↦ false | some p ↦ true ]

  -- `env_.markPlayerDirty`
  unfoldable pub mark_dirty_player : Field F → ℕ → Field F
  unfolding find_player
  mark_dirty_player f id =
      let timed : Field F = elim (find_player f id) [
        | none ↦ f
        | some p ↦ put_player f id (record p { last_dirty_mark_time = f.world_time })
      ] in
      record timed { dirty_hub = mark_dirty timed.dirty_hub id }

  -- The callbacks that the combat calls.
  unfoldable pub combat_call : CombatCall → Field F → Run F
  unfolding mark_dirty_player
  combat_call (mark_player_dirty id) f = done (mark_dirty_player f id)
  combat_call (broadcast_combat monster_id id damage hp) f =
      (f, Sending.broadcast_combat f monster_id id damage)
  combat_call (broadcast_player_stat id hp max_hp sp max_sp) f =
      (f, Sending.broadcast_player_stat f id hp max_hp sp max_sp)
  combat_call (broadcast_player_dead id) f = (f, Sending.broadcast_player_ai_state f id player_dead)

  unfoldable pub combat_calls : List CombatCall → Field F → Run F
  unfolding combat_call
  combat_calls [] f = done f
  combat_calls (call ∷ calls) f = combat_call call f then combat_calls calls

  -- The callbacks that the AI calls.
  unfoldable pub ai_call : Field F → AiCall → List (Effect F)
  ai_call f (broadcast_ai_state e st) = Sending.broadcast_monster_ai_state f e st
  ai_call f (broadcast_monster_stat e hp max_hp sp max_sp) =
      Sending.broadcast_monster_stat f e hp max_hp sp max_sp

  unfoldable pub ai_calls : Field F → List AiCall → List (Effect F)
  unfolding ai_call
  ai_calls f [] = []
  ai_calls f (call ∷ calls) = ai_call f call ++ ai_calls f calls

  -- `monster_remove_from_aoi` and `env_.removeFromAoi`
  unfoldable pub monster_remove_from_aoi : Field F → ℕ → Run F
  monster_remove_from_aoi f id = Sending.in_grid f (λ s. remove_entity s id)

-- What the combat needs of the players.
abbrev pub field_side : Type 0 → PlayerSide
field_side F = record {
  Players = Field F;
  get_player_stats = get_player_stats;
  set_player_stats = set_player_stats;
  has_position = has_position;
}

module _ (fl : FloatArith) where
  open fl use {F, lit, fadd, fsub, fmul, flt}

  -- A turn of the loop of `env_.findClosestPlayer`: the closest so far, with its squared distance.
  unfoldable pub closer : Field F → F → F → ℕ → ℕ × F → ℕ × F
  closer f x y pid best = elim (f.objects pid) [
    | none ↦ best
    | some p ↦
        let dx = fsub p.position.x x in
        let dy = fsub p.position.y y in
        let dist_sq = fadd (fmul dx dx) (fmul dy dy) in
        if flt dist_sq best.1 then (pid, dist_sq) else best
  ]

  unfoldable pub closest_from : Field F → F → F → List ℕ → ℕ × F → ℕ × F
  unfolding closer
  closest_from f x y [] best = best
  closest_from f x y (pid ∷ pids) best = closest_from f x y pids (closer f x y pid best)

  unfoldable pub find_closest_player : Field F → F → F → F → ℕ
  unfolding closest_from
  find_closest_player f x y max_dist = (closest_from f x y f.players (0, fmul max_dist max_dist)).0

  -- What the monsters sense, with the policy.
  abbrev pub senses_of : (List F → List F) → Field F → Senses F
  senses_of policy f = record {
    closest = find_closest_player f;
    positions = get_player_position f;
    policy = policy;
  }

  -- `monster_spawn_in_aoi`
  unfoldable pub monster_spawn_in_aoi : Field F → ℕ → F → F → Run F
  monster_spawn_in_aoi f id x y = Sending.in_grid f (λ s. add_entity fl s id false x y)

  -- `env_.removeFromAoi` and `env_.spawnInAoi`
  unfoldable pub aoi_call : AoiCall F → Field F → Run F
  unfolding monster_remove_from_aoi monster_spawn_in_aoi
  aoi_call (remove_from_aoi e) f = monster_remove_from_aoi f e
  aoi_call (spawn_in_aoi e x y) f =
      monster_remove_from_aoi f e then (λ g. monster_spawn_in_aoi g e x y)

  unfoldable pub aoi_calls : List (AoiCall F) → Field F → Run F
  unfolding aoi_call
  aoi_calls [] f = done f
  aoi_calls (call ∷ calls) f = aoi_call call f then aoi_calls calls

  -- `env_.moveInAoi`
  unfoldable pub move_call : MoveCall F → Field F → Run F
  move_call (move_in_aoi e x y) f = Sending.in_grid f (λ s. move_entity fl s e x y)

  unfoldable pub move_calls : List (MoveCall F) → Field F → Run F
  unfolding move_call
  move_calls [] f = done f
  move_calls (call ∷ calls) f = move_call call f then move_calls calls

  -- The loop of `CombatSystem::update` on the field.
  unfoldable pub combat_found : F → Field F → ℕ → Option (Monster F) → Option (Run F)
  unfolding combat_calls
  combat_found dt f e none = none
  combat_found dt f e (some m) =
      let (f', (m', calls)) = combat_one fl (field_side F) dt f e m in
      some (combat_calls calls (record f' { monster_world = set_monster f'.monster_world e m' }))

  unfoldable pub combat_loop : F → List ℕ → Field F → Option (Run F)
  unfolding combat_found
  combat_loop dt [] f = some (done f)
  combat_loop dt (e ∷ es) f = do
    r ← combat_found dt f e (f.monster_world.components e)
    s ← combat_loop dt es r.0
    some (s.0, r.1 ++ s.1)

  unfoldable pub combat_update : F → Field F → Option (Run F)
  unfolding combat_loop
  combat_update dt f = combat_loop dt f.monster_world.monsters f

  -- The systems that `MonsterWorld::update` runs in turn, on the field.
  unfoldable pub spawn_system : F → Field F → Option (Run F)
  unfolding aoi_calls
  spawn_system dt f = do
    (w, calls) ← spawn_update fl dt f.monster_world
    some (aoi_calls calls (record f { monster_world = w }))

  unfoldable pub ai_system : F → (List F → List F) → Field F → Option (Run F)
  unfolding ai_calls
  ai_system dt policy f = do
    (w, calls) ← ai_update fl dt (senses_of policy f) f.monster_world
    let g = record f { monster_world = w }
    some (g, ai_calls g calls)

  unfoldable pub movement_system : F → Field F → Option (Run F)
  unfolding move_calls
  movement_system dt f = do
    (w, calls) ← move_loop fl dt (get_player_position f) f.monster_world f.monster_world.monsters
    some (move_calls calls (record f { monster_world = w }))

  -- `tick_monsters`, with the policy of the monsters
  unfoldable pub tick_monsters : F → (List F → List F) → Field F → Option (Run F)
  unfolding spawn_system ai_system movement_system combat_update
  tick_monsters step policy f = do
    spawned ← spawn_system step f
    thought ← ai_system step policy spawned.0
    moved ← movement_system step thought.0
    fought ← combat_update step moved.0
    some (fought.0, spawned.1 ++ (thought.1 ++ (moved.1 ++ fought.1)))
