-- ===== src/Monster/Turn.antt =====
-- field/monster/Systems/AISystem.cpp: what a turn reports besides what it thinks, and the loop over
-- the monsters.
use mmorpg_server_rl_portfol.Prelude.{
  ℕ, pos, leb_ℤ, int_eq, ◌==◌, Bool, true, false, List, [], ◌∷◌, ◌++◌, Option, none, some,
  if◌then◌else◌, FloatArith,
}
use mmorpg_server_rl_portfol.Monster.Random.{patrol_speed}
use mmorpg_server_rl_portfol.Monster.World.{
  Monster, MonsterWorld, CAi, CStats, AiState, idle, attack, dead, set_monster, set_monster_move,
  stop_move, f0, ◌>>=◌,
}
use mmorpg_server_rl_portfol.Monster.Ai.{
  Senses, AiCall, broadcast_ai_state, broadcast_monster_stat, announced, at_least_0, think,
}

unfoldable pub stat_call : ℕ → CStats → AiCall
stat_call e st = broadcast_monster_stat e st.hp st.max_hp st.sp st.max_sp

module _ (fl : FloatArith) where
  open fl use {F, fsub, flt}

  -- The move of a monster that is reported for the first time.
  unfoldable pub first_move : Bool → CAi F → AiState → CAi F
  first_move is_archer ai idle = stop_move fl ai
  first_move is_archer ai attack = stop_move fl ai
  first_move is_archer ai dead = stop_move fl ai
  first_move is_archer ai st =
      set_monster_move fl ai ai.move_dir_x ai.move_dir_y (patrol_speed fl is_archer)

  unfoldable pub sync : ℕ → Bool → Monster F → Monster F × List AiCall
  unfolding first_move stat_call
  sync e is_archer m =
      let ai = record (first_move is_archer m.ai m.ai.state) { net_synced = true } in
      if m.ai.net_synced
      then (m, [])
      else (record m { ai = ai }, broadcast_ai_state e m.ai.state ∷ stat_call e m.stats ∷ [])

  unfoldable pub report_dirty : ℕ → Monster F → Monster F × List AiCall
  unfolding stat_call
  report_dirty e m =
      if m.stats.dirty
      then (record m { stats = record (m.stats) { dirty = false } }, stat_call e m.stats ∷ [])
      else (m, [])

  -- The rest of the turn: the end of the dead, of one whose time has not come, or what it thinks.
  unfoldable pub rest_of_turn : F → Senses F → ℕ → Bool → AiState → Monster F → CAi F × List AiCall
  unfolding announced think
  rest_of_turn dt senses e is_archer old m =
      let cooled = record (m.ai) { think_cooldown = fsub m.ai.think_cooldown dt } in
      let dying = stop_move fl (record (m.ai) { state = dead; target_id = 0 }) in
      let ready = record cooled { think_cooldown = fl.lit 3 10 } in
      if leb_ℤ m.stats.hp (pos 0)
      then announced fl e old dying
      else if flt (f0 fl) cooled.think_cooldown
      then (cooled, [])
      else think fl e senses is_archer old m.transform m.stats ready

  -- The body of the loop of `AISystem::update`, for one monster.
  unfoldable pub ai_turn : F → Senses F → ℕ → Monster F → Monster F × List AiCall
  unfolding sync report_dirty rest_of_turn at_least_0
  ai_turn dt senses e m =
      let is_archer = m.monster_type == pos 1 in
      let cooled = record (m.ai) { attack_cd = at_least_0 fl (fsub m.ai.attack_cd dt) } in
      let (synced, first) = sync e is_archer (record m { ai = cooled }) in
      let (reported, second) = report_dirty e synced in
      let (ai, third) = rest_of_turn dt senses e is_archer m.ai.state reported in
      (record reported { ai = ai }, first ++ (second ++ third))

  unfoldable pub ai_found :
      F → Senses F → MonsterWorld F → ℕ → Option (Monster F) → Option (MonsterWorld F × List AiCall)
  unfolding ai_turn
  ai_found dt senses w e none = none
  ai_found dt senses w e (some m) =
      let (m', calls) = ai_turn dt senses e m in some (set_monster w e m', calls)

  unfoldable pub ai_loop :
      F → Senses F → MonsterWorld F → List ℕ → Option (MonsterWorld F × List AiCall)
  unfolding ai_found
  ai_loop dt senses w [] = some (w, [])
  ai_loop dt senses w (e ∷ es) = do
    (w', first) ← ai_found dt senses w e (w.components e)
    (w'', later) ← ai_loop dt senses w' es
    some (w'', first ++ later)

  -- `AISystem::update`
  unfoldable pub ai_update : F → Senses F → MonsterWorld F → Option (MonsterWorld F × List AiCall)
  unfolding ai_loop
  ai_update dt senses w = ai_loop dt senses w w.monsters
