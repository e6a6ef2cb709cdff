-- ===== src/Monster/Ai.antt =====
-- field/monster/Systems/AISystem.cpp: a turn of a monster. `stop_move` and `set_monster_move` change
-- the component; the two broadcasts are calls, in order. The players and the policy network are what
-- the monster senses.
use mmorpg_server_rl_portfol.Prelude.{
  ℕ, ℤ, pos, nat_eq, ◌==◌, ltb_ℤ, Bool, true, false, ◌&&◌, List, [], ◌∷◌, Option, none, some,
  if◌then◌else◌, FloatArith, int_eq,
}
use mmorpg_server_rl_portfol.Monster.Random.{
  frand01, frand_range, patrol_speed, chase_speed, flee_speed,
}
use mmorpg_server_rl_portfol.Monster.World.{
  CAi, CTransform, CStats, AiState, idle, patrol, chase, attack, return_home, dead,
  set_monster_move, stop_move, f0,
}
use mmorpg_server_rl_portfol.Monster.Observe.{
  make_obs16, arg_max5, obs_attack_range, obs_low_hp_ratio,
}

-- `env.findClosestPlayer`, `env.getPlayerPosition` and the policy's logits for one observation.
pub record Senses (F : Type 0) : Type 0 where
  pub closest : F → F → F → ℕ
  pub positions : ℕ → Option (F × F)
  pub policy : List F → List F

-- `env.broadcastAiState` and `env.broadcastMonsterStat`
pub data AiCall : Type 0 where
  broadcast_ai_state : ℕ → AiState → AiCall
  broadcast_monster_stat : ℕ → ℤ → ℤ → ℤ → ℤ → AiCall

unfoldable pub state_beq : AiState → AiState → Bool
state_beq idle idle = true
state_beq patrol patrol = true
state_beq chase chase = true
state_beq attack attack = true
state_beq return_home return_home = true
state_beq dead dead = true
state_beq a b = false

-- `if (ai.state != oldState) env.broadcastAiState(e, ai.state);`
unfoldable pub announce : ℕ → AiState → AiState → List AiCall
unfolding state_beq
announce e old new = if state_beq new old then [] else broadcast_ai_state e new ∷ []

-- `(CAI::State)a` of an index below 5.
unfoldable pub state_of : ℕ → AiState
state_of a =
    if a == 0
    then idle
    else if a == 1
    then patrol
    else if a == 2
    then chase
    else if a == 3
    then attack
    else return_home

-- The guards on what the policy chose.
unfoldable pub guard_patrol : AiState → AiState
guard_patrol patrol = idle
guard_patrol st = st

unfoldable pub guard_attack : Bool → AiState → AiState
guard_attack may attack = if may then attack else chase
guard_attack may st = st

unfoldable pub guard_return : Bool → AiState → AiState
guard_return healthy return_home = if healthy then chase else return_home
guard_return healthy st = st

-- The 7:3 choice, the guards and the moves work on the component; what else they read is passed.
module _ (fl : FloatArith) where
  open fl use {F, lit, of_int, fneg, fadd, fsub, fmul, fdiv, flt, fle, sqrt, cos, sin}

  -- `std::max(0.0f, v)`
  unfoldable pub at_least_0 : F → F
  at_least_0 v = if flt (f0 fl) v then v else f0 fl

  abbrev pub two_pi : F
  two_pi = lit 62831853 10000000

  abbrev pub dist_sq : CTransform F → F × F → F
  dist_sq tr (px, py) =
      let dx = fsub px tr.x in let dy = fsub py tr.y in fadd (fmul dx dx) (fmul dy dy)

  -- `getPlayerPosition` of an id that is not 0.
  unfoldable pub look : Senses F → ℕ → Option (F × F)
  look senses id = if id == 0 then none else senses.positions id

  -- The closest player becomes the target, if it has a position.
  unfoldable pub find_new : Senses F → F → CTransform F → CAi F → CAi F × Option (F × F)
  unfolding look
  find_new senses sight tr ai =
      let id = senses.closest tr.x tr.y sight in
      elim (look senses id) [
        | none ↦ (record ai { target_id = 0 }, none)
        | some p ↦ (record ai { target_id = id }, some p)
      ]

  -- The target, kept or found, with its position: there is one exactly when the code's `target` is
  -- not 0 and `hasTargetPos` is set, so that its later test of `hasTargetPos` alone never fails.
  unfoldable pub find_target : Senses F → F → CTransform F → CAi F → CAi F × Option (F × F)
  unfolding find_new
  find_target senses sight tr ai = elim (look senses ai.target_id) [
    | some p ↦ (ai, some p)
    | none ↦ find_new senses sight tr ai
  ]

  -- The target is given up, too far away or far enough.
  unfoldable pub give_up : CAi F → CAi F
  give_up ai = record (stop_move fl (record ai { target_id = 0; state = idle })) {
    idle_patrol_timer = f0 fl;
  }

  -- Away from a place, unless the monster stands there.
  unfoldable pub turn_away : CTransform F → F × F → CAi F → CAi F
  turn_away tr (px, py) ai =
      let dx = fsub px tr.x in
      let dy = fsub py tr.y in
      let d2 = fadd (fmul dx dx) (fmul dy dy) in
      let inv = fdiv (lit 1 1) (sqrt d2) in
      if flt (lit 1 1000000) d2
      then record ai { move_dir_x = fmul (fneg dx) inv; move_dir_y = fmul (fneg dy) inv }
      else ai

  -- A random direction.
  unfoldable pub turn_randomly : CAi F → CAi F
  turn_randomly ai =
      let (a, rng) = frand_range fl ai.rng (f0 fl) two_pi in
      record ai { move_dir_x = cos a; move_dir_y = sin a; rng = rng }

  unfoldable pub turn_if_still : CAi F → CAi F
  unfolding turn_randomly
  turn_if_still ai =
      let d2 = fadd (fmul ai.move_dir_x ai.move_dir_x) (fmul ai.move_dir_y ai.move_dir_y) in
      if flt d2 (lit 1 1000000) then turn_randomly ai else ai

  -- `moveSpeed = speed; set_monster_move(moveDirX, moveDirY, moveSpeed)`
  unfoldable pub move_at : F → CAi F → CAi F
  move_at speed ai =
      set_monster_move fl (record ai { move_speed = speed }) ai.move_dir_x ai.move_dir_y speed

  -- An exit of the turn that tells a change of the state.
  unfoldable pub announced : ℕ → AiState → CAi F → CAi F × List AiCall
  unfolding announce
  announced e old ai = (ai, announce e old ai.state)

  -- The flight of a monster with few hit points.
  unfoldable pub flee_timer : CAi F → F
  unfolding at_least_0
  flee_timer ai =
      if fle ai.idle_patrol_timer (f0 fl)
      then lit 12 10
      else at_least_0 (fsub ai.idle_patrol_timer ai.think_cooldown)

  unfoldable pub flee :
      ℕ → AiState → Bool → CTransform F → Option (F × F) → CAi F → CAi F × List AiCall
  unfolding flee_timer give_up turn_away turn_if_still move_at announced
  flee e old is_archer tr none ai =
      let fled = record ai { state = return_home; idle_patrol_timer = flee_timer ai } in
      announced e old (move_at (flee_speed fl is_archer) (turn_if_still fled))
  flee e old is_archer tr (some p) ai =
      let fled = record ai { state = return_home; idle_patrol_timer = flee_timer ai } in
      let end_dist = if is_archer then lit 22 1 else lit 16 1 in
      if fle fled.idle_patrol_timer (f0 fl) && fle (fmul end_dist end_dist) (dist_sq tr p)
      then announced e old (give_up fled)
      else announced e old (move_at (flee_speed fl is_archer) (turn_away tr p fled))

  -- Without a target: a new stroll or rest, seven to three, once the last one is over.
  unfoldable pub start_patrol : Bool → CAi F → CAi F
  unfolding turn_randomly move_at
  start_patrol is_archer ai =
      let (timer, rng) = frand_range fl ai.rng (lit 15 10) (lit 35 10) in
      move_at (patrol_speed fl is_archer)
        (turn_randomly (record ai { state = patrol; idle_patrol_timer = timer; rng = rng }))

  unfoldable pub start_rest : CAi F → CAi F
  start_rest ai =
      let (timer, rng) = frand_range fl ai.rng (lit 8 10) (lit 20 10) in
      stop_move fl (record ai { state = idle; idle_patrol_timer = timer; rng = rng })

  unfoldable pub roam : Bool → CAi F → CAi F
  unfolding start_patrol start_rest at_least_0 state_beq
  roam is_archer ai =
      let (r, rng) = frand01 fl ai.rng in
      let drawn = record ai { rng = rng } in
      let waited = record ai {
        idle_patrol_timer = at_least_0 (fsub ai.idle_patrol_timer ai.think_cooldown);
      } in
      if fle ai.idle_patrol_timer (f0 fl)
      then (if flt r (lit 7 10) then start_patrol is_archer drawn else start_rest drawn)
      else if state_beq ai.state idle
      then stop_move fl waited
      else set_monster_move fl waited waited.move_dir_x waited.move_dir_y waited.move_speed

  -- The archer keeps its distance: it flees, shoots or follows.
  unfoldable pub engage_archer : CTransform F → F × F → CAi F → CAi F
  unfolding turn_away move_at
  engage_archer tr p ai =
      let d2 = dist_sq tr p in
      let range = lit 170 10 in
      let min = fmul range (lit 7 10) in
      if flt d2 (fmul min min)
      then move_at (flee_speed fl true) (turn_away tr p (record ai { state = return_home }))
      else if fle d2 (fmul range range)
      then stop_move fl (record ai { state = attack })
      else move_at (chase_speed fl true) (record ai { state = chase })

  -- The move that goes with the state.
  unfoldable pub act_melee : CTransform F → F × F → CAi F → AiState → CAi F
  unfolding turn_away move_at
  act_melee tr p ai idle = stop_move fl ai
  act_melee tr p ai chase = move_at (chase_speed fl false) ai
  act_melee tr p ai return_home = move_at (flee_speed fl false) (turn_away tr p ai)
  act_melee tr p ai attack = stop_move fl ai
  act_melee tr p ai patrol = ai
  act_melee tr p ai dead = ai

  -- `dist <= attack_range && attackCd <= 0`, and `hpRatio > low_hp_ratio`.
  unfoldable pub may_attack : CTransform F → F × F → CAi F → Bool
  may_attack tr p ai =
      let d2 = dist_sq tr p in
      let dist = if flt (lit 1 1000000000000) d2 then sqrt d2 else f0 fl in
      fle dist (obs_attack_range fl) && fle ai.attack_cd (f0 fl)

  unfoldable pub is_healthy : CStats → Bool
  is_healthy st =
      let ratio =
        if ltb_ℤ (pos 0) st.max_hp then fdiv (of_int st.hp) (of_int st.max_hp) else f0 fl in
      flt (obs_low_hp_ratio fl) ratio

  unfoldable pub choose : Senses F → AiState → CTransform F → CStats → F × F → CAi F → AiState
  unfolding guard_patrol guard_attack guard_return may_attack is_healthy state_of
  choose senses old tr st p ai =
      let obs =
        make_obs16 fl tr.x tr.y (some p) (of_int st.hp) (of_int st.max_hp) ai.attack_cd old in
      let chosen = state_of (arg_max5 fl (senses.policy obs)) in
      guard_return (is_healthy st) (guard_attack (may_attack tr p ai) (guard_patrol chosen))

  unfoldable pub engage_melee : Senses F → AiState → CTransform F → CStats → F × F → CAi F → CAi F
  unfolding choose act_melee
  engage_melee senses old tr st p ai =
      let chosen = choose senses old tr st p ai in
      act_melee tr p (record ai { state = chosen }) chosen

  unfoldable pub is_low : CStats → Bool
  is_low st = ltb_ℤ (pos 0) st.max_hp && fle (fdiv (of_int st.hp) (of_int st.max_hp)) (lit 25 100)

  -- After the target is known and not given up.
  unfoldable pub decide :
      ℕ
      → Senses F
      → Bool
      → AiState
      → CTransform F
      → CStats
      → CAi F
      → Option (F × F)
      → CAi F × List AiCall
  unfolding flee roam engage_archer engage_melee is_low announced
  decide e senses is_archer old tr st ai none =
      if is_low st then flee e old is_archer tr none ai else announced e old (roam is_archer ai)
  decide e senses is_archer old tr st ai (some p) =
      let fought =
        if is_archer then engage_archer tr p ai else engage_melee senses old tr st p ai in
      if is_low st then flee e old is_archer tr (some p) ai else announced e old fought

  unfoldable pub sight_range : Bool → F
  sight_range is_archer = if is_archer then lit 180 10 else lit 110 10

  unfoldable pub is_lost : Bool → CTransform F → Option (F × F) → Bool
  is_lost is_archer tr none = false
  is_lost is_archer tr (some p) =
      let range = fmul (sight_range is_archer) (lit 14 10) in flt (fmul range range) (dist_sq tr p)

  -- What is thought, once the time for it has come.
  unfoldable pub think :
      ℕ → Senses F → Bool → AiState → CTransform F → CStats → CAi F → CAi F × List AiCall
  unfolding find_target give_up is_lost decide announced
  think e senses is_archer old tr st ai =
      let (found, target) = find_target senses (sight_range is_archer) tr ai in
      if is_lost is_archer tr target
      then announced e old (give_up found)
      else decide e senses is_archer old tr st found target
