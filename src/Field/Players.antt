-- ===== src/Field/Players.antt =====
-- worker/fieldWorker.cpp: the players of a field, their input, their walk and the marks for the
-- storage.
use mmorpg_server_rl_portfol.Prelude.{
  ℕ, nat_eq, ◌==◌, Bool, true, false, not, ◌&&◌, List, [], ◌∷◌, ◌++◌, Option, none, some,
  if◌then◌else◌, erase, insert, FloatArith,
}
use mmorpg_server_rl_portfol.Game.Player.{Player, PlayerMoveState, Vec2, set_pos}
use mmorpg_server_rl_portfol.Monster.World.{f0, ◌>>=◌}
use mmorpg_server_rl_portfol.Aoi.System.{add_entity, move_entity, remove_entity}
use mmorpg_server_rl_portfol.Storage.DirtyHub.{mark_dirty}
use mmorpg_server_rl_portfol.Field.Types.{
  Field, Run, Effect, player_idle, player_chase, FieldCmdType, cmd_move, cmd_enter, cmd_leave,
  ◌then◌, done, find_player, put_player,
}
use mmorpg_server_rl_portfol.Field.Sending.{
  send_field_enter, in_grid, broadcast_player_ai_state, write_player_rt_enqueue,
}

-- The members of a `FieldCmd` that are read.
pub record FieldCmd (F : Type 0) : Type 0 where
  pub entity_id : ℕ
  pub type : FieldCmdType
  pub dir : Option (F × F)

unfoldable pub is_move : FieldCmdType → Bool
is_move cmd_enter = false
is_move cmd_leave = false
is_move cmd_move = true

module _ {F : Type 0} where
  -- A `Player&` is the key of the object and its value.
  unfoldable pub mark_dirty_state : Field F → ℕ → Player F → Run F
  unfolding write_player_rt_enqueue
  mark_dirty_state f key p =
      let marked = record f { dirty_hub = mark_dirty f.dirty_hub p.id } in
      (
        put_player marked key (record p { last_dirty_mark_time = f.world_time }),
        write_player_rt_enqueue f p.id p,
      )

  -- The loops of `on_player_enter_field`: the others to the one who enters, then the reverse.
  unfoldable pub enter_others : Field F → ℕ → List ℕ → List (Effect F)
  unfolding send_field_enter
  enter_others f pid [] = []
  enter_others f pid (other ∷ others) =
      let rest = enter_others f pid others in
      let here : List (Effect F) = elim (f.objects other) [
        | none ↦ []
        | some p ↦ send_field_enter f pid other false p.position.x p.position.y
      ] in
      if other == pid then rest else here ++ rest

  unfoldable pub tell_others : Field F → ℕ → F → F → List ℕ → List (Effect F)
  unfolding send_field_enter
  tell_others f pid x y [] = []
  tell_others f pid x y (other ∷ others) =
      let rest = tell_others f pid x y others in
      let here : List (Effect F) = elim (f.objects other) [
        | none ↦ []
        | some p ↦ send_field_enter f other pid false x y
      ] in
      if other == pid then rest else here ++ rest

  -- The monsters; `transform.get` of an absent one throws.
  unfoldable pub enter_monsters : Field F → ℕ → List ℕ → Option (List (Effect F))
  unfolding send_field_enter
  enter_monsters f pid [] = some []
  enter_monsters f pid (e ∷ es) = do
    m ← f.monster_world.components e
    rest ← enter_monsters f pid es
    some (send_field_enter f pid e true m.transform.x m.transform.y ++ rest)

  unfoldable pub remove_player : Field F → ℕ → Run F
  unfolding in_grid
  remove_player f id =
      in_grid f (λ s. remove_entity s id)
      then (λ g. done (record g { players = erase id g.players }))

module _ (fl : FloatArith) where
  open fl use {F, lit, fadd, fsub, fmul, fdiv, flt, fle, sqrt}

  abbrev pub stopped : PlayerMoveState F → PlayerMoveState F
  stopped mv = record mv { moving = false; dir = record { x = f0 fl; y = f0 fl }; speed = f0 fl }

  -- `on_client_move_input` from the length of the direction on.
  unfoldable pub steer : Field F → ℕ → Player F → F × F → Run F
  unfolding broadcast_player_ai_state
  steer f id p (dx, dy) =
      let len2 = fadd (fmul dx dx) (fmul dy dy) in
      let inv_len = fdiv (lit 1 1) (sqrt len2) in
      let mv = record (p.move_state) { last_input_time = f.world_time } in
      let with_move =
        λ (mv' : PlayerMoveState F). put_player f id (record p { move_state = mv' }) in
      let halted = with_move (stopped mv) in
      let driven = with_move (record mv {
        moving = true;
        dir = record { x = fmul dx inv_len; y = fmul dy inv_len };
        speed = lit 45 10;
      }) in
      if flt len2 (lit 1 10000)
      then (if not mv.moving
          then done (with_move mv)
          else (halted, broadcast_player_ai_state halted id player_idle))
      else (driven, if not mv.moving then broadcast_player_ai_state driven id player_chase else [])

  -- `on_client_move_input` from the direction on, and from the player on.
  unfoldable pub steer_towards : Field F → ℕ → Player F → Option (F × F) → Run F
  unfolding steer
  steer_towards f id p none = done f
  steer_towards f id p (some d) = steer f id p d

  unfoldable pub steer_found : Field F → FieldCmd F → Option (Player F) → Run F
  unfolding steer_towards
  steer_found f cmd none = done f
  steer_found f cmd (some p) = steer_towards f cmd.entity_id p cmd.dir

  -- `on_client_move_input`, with the player id of the session, if there is one.
  unfoldable pub on_client_move_input : Field F → FieldCmd F → Option ℕ → Run F
  unfolding steer_found find_player is_move
  on_client_move_input f cmd none = done f
  on_client_move_input f cmd (some player_id) =
      if not (player_id == cmd.entity_id)
      then done f
      else if not (is_move cmd.type)
      then done f
      else steer_found f cmd (find_player f cmd.entity_id)

  unfoldable pub on_player_enter_field : Field F → ℕ → Player F → Option (Run F)
  unfolding in_grid enter_others tell_others enter_monsters send_field_enter
  on_player_enter_field f pid p =
      let x = p.position.x in
      let y = p.position.y in
      let (g, first) = in_grid f (λ s. add_entity fl s pid true x y) in
      do
        monsters ← enter_monsters g pid g.monster_world.monsters
        some (
          g,
          first
              ++ (send_field_enter g pid pid false x y
                  ++ (enter_others g pid g.players
                      ++ (monsters ++ tell_others g pid x y g.players))),
        )

  -- The pointer is the key of a shared object; there is none for the null pointer.
  unfoldable pub add_player : Field F → ℕ → Option (Run F)
  unfolding on_player_enter_field
  add_player f pid = elim (f.objects pid) [
    | none ↦ some (done f)
    | some p ↦ on_player_enter_field (record f { players = insert pid f.players }) pid p
  ]

  unfoldable pub mark_dirty_pos_if_needed : Field F → ℕ → Player F → Vec2 F → Vec2 F → Run F
  unfolding mark_dirty_state
  mark_dirty_pos_if_needed f key p old new =
      let dx = fsub new.x old.x in
      let dy = fsub new.y old.y in
      let dist_sq = fadd (fmul dx dx) (fmul dy dy) in
      let dirty_dist = lit 10 100 in
      if flt dist_sq (fmul dirty_dist dirty_dist)
      then done f
      else if flt (fsub f.world_time p.last_dirty_mark_time) (lit 25 100)
      then done f
      else mark_dirty_state f key p

  unfoldable pub is_walkable : Vec2 F → Vec2 F → Bool
  is_walkable from to = true

  -- The walk of a moving player.
  unfoldable pub walk : F → Field F → ℕ → Player F → Run F
  unfolding set_pos in_grid mark_dirty_pos_if_needed is_walkable
  walk step f pid p =
      let mv = p.move_state in
      let old = p.position in
      let x = fadd old.x (fmul (fmul mv.dir.x mv.speed) step) in
      let y = fadd old.y (fmul (fmul mv.dir.y mv.speed) step) in
      let new : Vec2 F = record { x = x; y = y } in
      let p' = set_pos p x y in
      let walked =
        in_grid (put_player f pid p') (λ s. move_entity fl s pid x y)
        then (λ g. mark_dirty_pos_if_needed g pid p' old new) in
      if not (is_walkable old new) then done f else walked

  -- The body of the loop of `tick_players`.
  unfoldable pub tick_player : F → Field F → ℕ → Player F → Run F
  unfolding walk mark_dirty_state broadcast_player_ai_state
  tick_player step f pid p =
      let mv = p.move_state in
      let p' = record p { move_state = stopped mv } in
      let halted = put_player f pid p' in
      let idled =
        (halted, broadcast_player_ai_state halted pid player_idle)
        then (λ g. mark_dirty_state g pid p') in
      if mv.moving && flt (lit 5 10) (fsub f.world_time mv.last_input_time)
      then idled
      else if not mv.moving
      then done f
      else walk step f pid p

  unfoldable pub tick_found : F → Field F → ℕ → Option (Player F) → Run F
  unfolding tick_player
  tick_found step f pid none = done f
  tick_found step f pid (some p) = tick_player step f pid p

  unfoldable pub tick_loop : F → List ℕ → Field F → Run F
  unfolding tick_found
  tick_loop step [] f = done f
  tick_loop step (pid ∷ pids) f = tick_found step f pid (f.objects pid) then tick_loop step pids

  unfoldable pub tick_players : F → Field F → Run F
  unfolding tick_loop
  tick_players step f = tick_loop step f.players f
