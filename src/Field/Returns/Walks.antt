-- ===== src/Field/Returns/Walks.antt =====
-- worker/fieldWorker.cpp: what the players do leaves the world of the monsters alone.
use mmorpg_server_rl_portfol.Prelude.{
  ℕ, zero, suc, ◌≡◌, ◌∙◌, refl, nat_eq, ◌==◌, not, ◌&&◌, List, [], ◌∷◌, Option, none, some, by_test,
  FloatArith,
}
use mmorpg_server_rl_portfol.Game.Player.{Player, Vec2}
use mmorpg_server_rl_portfol.Field.Types.{Field, Run, done, find_player}
use mmorpg_server_rl_portfol.Field.Sending.{in_grid}
use mmorpg_server_rl_portfol.Field.Players.{
  FieldCmd, tick_player, tick_found, tick_loop, tick_players, walk, mark_dirty_state,
  mark_dirty_pos_if_needed, is_walkable, steer, steer_towards, steer_found, on_client_move_input,
  is_move,
}
use mmorpg_server_rl_portfol.Field.Worker.{player_loops, player_step}
use mmorpg_server_rl_portfol.Field.Returns.{SameWorld}

module _ (fl : FloatArith) where
  open fl use {F, fsub}

  -- For a result.
  abbrev SameFor : Field F → Run F → Type 0
  SameFor f r = SameWorld f r.0

  world-mark_dirty_pos :
      (f : Field F) (key : ℕ) (p : Player F) (old new : Vec2 F)
      → SameFor f (mark_dirty_pos_if_needed fl f key p old new)
  unfolding mark_dirty_pos_if_needed mark_dirty_state
  world-mark_dirty_pos f key p old new =
      by_test (SameFor f) _ (done f) _ refl
        (by_test (SameFor f) _ (done f) (mark_dirty_state f key p) refl refl)

  world-walk : (step : F) (f : Field F) (pid : ℕ) (p : Player F) → SameFor f (walk fl step f pid p)
  unfolding walk in_grid is_walkable
  world-walk step f pid p = world-mark_dirty_pos _ pid _ p.position _

  world-tick_player :
      (step : F) (f : Field F) (pid : ℕ) (p : Player F) → SameFor f (tick_player fl step f pid p)
  unfolding tick_player mark_dirty_state
  world-tick_player step f pid p =
      by_test (SameFor f)
        (p.move_state.moving
          && fl.flt (fl.lit 5 10) (fsub f.world_time p.move_state.last_input_time))
        _ _ refl
        (by_test (SameFor f) (not p.move_state.moving) (done f) (walk fl step f pid p) refl
          (world-walk step f pid p))

  world-tick_found :
      (step : F) (f : Field F) (pid : ℕ) (o : Option (Player F))
      → SameFor f (tick_found fl step f pid o)
  unfolding tick_found
  world-tick_found step f pid none = refl
  world-tick_found step f pid (some p) = world-tick_player step f pid p

  world-tick_loop : (step : F) (pids : List ℕ) (f : Field F) → SameFor f (tick_loop fl step pids f)
  unfolding tick_loop
  world-tick_loop step [] f = refl
  world-tick_loop step (pid ∷ pids) f =
      world-tick_loop step pids (tick_found fl step f pid (f.objects pid)).0
      ∙ world-tick_found step f pid (f.objects pid)

  pub world-player_loops : (n : ℕ) (f : Field F) → SameFor f (player_loops fl n f)
  unfolding player_loops tick_players
  world-player_loops zero f = refl
  world-player_loops (suc n) f =
      let ticked = tick_players fl (player_step fl) f in
      let spent = record (ticked.0) { player_acc = fsub ticked.0.player_acc (player_step fl) } in
      by_test (SameFor f) (fl.fle (player_step fl) f.player_acc) _ (done f)
        (world-player_loops n spent ∙ world-tick_loop (player_step fl) f.players f) refl

  world-steer : (f : Field F) (id : ℕ) (p : Player F) (d : F × F) → SameFor f (steer fl f id p d)
  unfolding steer
  world-steer f id p (dx, dy) =
      by_test (SameFor f) (fl.flt (fl.fadd (fl.fmul dx dx) (fl.fmul dy dy)) (fl.lit 1 10000)) _ _
        (by_test (SameFor f) (not p.move_state.moving) _ _ refl refl) refl

  world-steer_found :
      (f : Field F) (cmd : FieldCmd F) (o : Option (Player F)) (d : Option (F × F))
      → cmd.dir ≡ d
      → SameFor f (steer_found fl f (record cmd { dir = d }) o)
  unfolding steer_found steer_towards
  world-steer_found f cmd none d same = refl
  world-steer_found f cmd (some p) none same = refl
  world-steer_found f cmd (some p) (some v) same = world-steer f cmd.entity_id p v

  pub world-on_client_move_input :
      (f : Field F) (cmd : FieldCmd F) (session : Option ℕ)
      → SameFor f (on_client_move_input fl f cmd session)
  unfolding on_client_move_input
  world-on_client_move_input f cmd none = refl
  world-on_client_move_input f cmd (some player_id) =
      by_test (SameFor f) (not (player_id == cmd.entity_id)) (done f) _ refl (
        by_test (SameFor f) (not (is_move cmd.type)) (done f) _ refl
          (world-steer_found f cmd (find_player f cmd.entity_id) cmd.dir refl))
