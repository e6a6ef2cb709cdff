-- ===== src/Field/Kept/Walks.antt =====
-- worker/fieldWorker.cpp: what the input and the walk of the players keep.
use mmorpg_server_rl_portfol.Prelude.{
  ℕ, nat_eq, ◌==◌, ◌≡◌, ◌∙◌, refl, sym, inl, inr, Bool-cases, true, not, List, [], ◌∷◌, Option,
  none, some, if_true, if_false, contains, update_self, by_test, FloatArith,
}
use mmorpg_server_rl_portfol.Game.Player.{Player, Vec2, set_pos}
use mmorpg_server_rl_portfol.Storage.DirtyHub.{mark_dirty}
use mmorpg_server_rl_portfol.Aoi.System.{move_entity, remove_entity}
use mmorpg_server_rl_portfol.Field.Types.{
  Field, find_player, put_player, player_idle, player_chase, PlayerState,
}
use mmorpg_server_rl_portfol.Field.Sending.{in_grid, broadcast_player_ai_state, broadcast_ai_state}
use mmorpg_server_rl_portfol.Field.Players.{
  FieldCmd, mark_dirty_state, mark_dirty_pos_if_needed, steer, steer_towards, steer_found,
  on_client_move_input, remove_player, is_walkable, walk, tick_player, tick_found, tick_loop,
  tick_players, stopped, is_move,
}
use mmorpg_server_rl_portfol.Field.Kept.{
  Keeps, Keeps-done, Keeps-step, Keeps-tell, Keeps-same, Keeps-put, Keeps-mark, Keeps-in_grid,
  IsHeard, silent, IsHeard-send_each, IsHeard-write,
}

module _ {F : Type 0} where
  pub found_object :
      (f : Field F) (id : ℕ) (p : Player F) → find_player f id ≡ some p → f.objects id ≡ some p
  unfolding find_player
  found_object f id p found = elim (Bool-cases (contains id f.players)) [
    | inl here ↦ sym (if_true (f.objects id) none here) ∙ found
    | inr gone ↦ absurd (let missing = sym (if_false (f.objects id) none gone) ∙ found in cc)
  ]

  pub IsHeard-player_state :
      (f : Field F) (id : ℕ) (st : PlayerState)
      → IsHeard f.has_session (broadcast_player_ai_state f id st)
  unfolding broadcast_player_ai_state broadcast_ai_state
  IsHeard-player_state f id st = IsHeard-send_each f _ _

  Keeps-mark_dirty_state :
      (f : Field F) (key : ℕ) (p : Player F)
      → f.objects key ≡ some p
      → Keeps f (mark_dirty_state f key p)
  unfolding mark_dirty_state
  Keeps-mark_dirty_state f key p at =
      let marked = record f { dirty_hub = mark_dirty f.dirty_hub p.id } in
      Keeps-step f _ _ [] _ (Keeps-mark f p.id) (
        Keeps-tell marked _ [] _
          (Keeps-put marked key p (record p { last_dirty_mark_time = f.world_time }) at refl)
          (IsHeard-write f p.id p))

  pub Keeps-remove_player : (f : Field F) (id : ℕ) → Keeps f (remove_player f id)
  unfolding remove_player
  Keeps-remove_player f id =
      let r = in_grid f (λ s. remove_entity s id) in
      Keeps-step f r.0 _ r.1 [] (Keeps-in_grid f (λ s. remove_entity s id))
        (Keeps-same r.0 _ [] refl refl refl silent)

module _ (fl : FloatArith) where
  open fl use {F}

  Keeps-steer :
      (f : Field F) (id : ℕ) (p : Player F) (d : F × F)
      → f.objects id ≡ some p
      → Keeps f (steer fl f id p d)
  unfolding steer
  Keeps-steer f id p (dx, dy) at =
      let inv_len = fl.fdiv (fl.lit 1 1) (fl.sqrt (fl.fadd (fl.fmul dx dx) (fl.fmul dy dy))) in
      let mv = record (p.move_state) { last_input_time = f.world_time } in
      let turned = record p { move_state = mv } in
      let idle = record p { move_state = stopped fl mv } in
      let moving = record p {
        move_state = record mv {
          moving = true;
          dir = record { x = fl.fmul dx inv_len; y = fl.fmul dy inv_len };
          speed = fl.lit 45 10;
        };
      } in
      let halted = put_player f id idle in
      let driven = put_player f id moving in
      by_test (Keeps f) _ _ _
        (by_test (Keeps f) (not p.move_state.moving) _ _ (Keeps-put f id p turned at refl) (
          Keeps-tell f halted [] _ (Keeps-put f id p idle at refl)
            (IsHeard-player_state halted id player_idle)))
        (Keeps-tell f driven [] _ (Keeps-put f id p moving at refl) (
          by_test (IsHeard f.has_session) (not p.move_state.moving) _ _
            (IsHeard-player_state driven id player_chase) silent))

  Keeps-steer_towards :
      (f : Field F) (id : ℕ) (p : Player F) (d : Option (F × F))
      → f.objects id ≡ some p
      → Keeps f (steer_towards fl f id p d)
  unfolding steer_towards
  Keeps-steer_towards f id p none at = Keeps-done f
  Keeps-steer_towards f id p (some d) at = Keeps-steer f id p d at

  Keeps-steer_found :
      (f : Field F) (cmd : FieldCmd F) (o : Option (Player F))
      → find_player f cmd.entity_id ≡ o
      → Keeps f (steer_found fl f cmd o)
  unfolding steer_found
  Keeps-steer_found f cmd none found = Keeps-done f
  Keeps-steer_found f cmd (some p) found =
      Keeps-steer_towards f cmd.entity_id p cmd.dir (found_object f cmd.entity_id p found)

  pub Keeps-on_client_move_input :
      (f : Field F) (cmd : FieldCmd F) (session : Option ℕ)
      → Keeps f (on_client_move_input fl f cmd session)
  unfolding on_client_move_input
  Keeps-on_client_move_input f cmd none = Keeps-done f
  Keeps-on_client_move_input f cmd (some player_id) =
      by_test (Keeps f) (not (player_id == cmd.entity_id)) _ _ (Keeps-done f) (
        by_test (Keeps f) (not (is_move cmd.type)) _ _ (Keeps-done f)
          (Keeps-steer_found f cmd (find_player f cmd.entity_id) refl))

  Keeps-mark_dirty_pos :
      (f : Field F) (key : ℕ) (p : Player F) (old new : Vec2 F)
      → f.objects key ≡ some p
      → Keeps f (mark_dirty_pos_if_needed fl f key p old new)
  unfolding mark_dirty_pos_if_needed
  Keeps-mark_dirty_pos f key p old new at =
      by_test (Keeps f) _ _ _ (Keeps-done f)
        (by_test (Keeps f) _ _ _ (Keeps-done f) (Keeps-mark_dirty_state f key p at))

  Keeps-walk :
      (step : F) (f : Field F) (pid : ℕ) (p : Player F)
      → f.objects pid ≡ some p
      → Keeps f (walk fl step f pid p)
  unfolding walk set_pos in_grid is_walkable
  Keeps-walk step f pid p at =
      let x = fl.fadd p.position.x (fl.fmul (fl.fmul p.move_state.dir.x p.move_state.speed) step) in
      let y = fl.fadd p.position.y (fl.fmul (fl.fmul p.move_state.dir.y p.move_state.speed) step) in
      let p' = set_pos p x y in
      let moved = put_player f pid p' in
      let r = in_grid moved (λ s. move_entity fl s pid x y) in
      Keeps-step f r.0 _ r.1 _
        (Keeps-step f moved r.0 [] r.1 (Keeps-put f pid p p' at refl)
          (Keeps-in_grid moved (λ s. move_entity fl s pid x y)))
        (Keeps-mark_dirty_pos r.0 pid p' p.position (record { x = x; y = y })
          (update_self f.objects pid (some p')))

  Keeps-tick_player :
      (step : F) (f : Field F) (pid : ℕ) (p : Player F)
      → f.objects pid ≡ some p
      → Keeps f (tick_player fl step f pid p)
  unfolding tick_player
  Keeps-tick_player step f pid p at =
      let p' = record p { move_state = stopped fl p.move_state } in
      let halted = put_player f pid p' in
      by_test (Keeps f) _ _ _
        (Keeps-step f halted _ _ _
          (Keeps-tell f halted [] _ (Keeps-put f pid p p' at refl)
            (IsHeard-player_state halted pid player_idle))
          (Keeps-mark_dirty_state halted pid p' (update_self f.objects pid (some p'))))
        (by_test (Keeps f) _ _ _ (Keeps-done f) (Keeps-walk step f pid p at))

  Keeps-tick_found :
      (step : F) (f : Field F) (pid : ℕ) (o : Option (Player F))
      → f.objects pid ≡ o
      → Keeps f (tick_found fl step f pid o)
  unfolding tick_found
  Keeps-tick_found step f pid none at = Keeps-done f
  Keeps-tick_found step f pid (some p) at = Keeps-tick_player step f pid p at

  Keeps-tick_loop : (step : F) (pids : List ℕ) (f : Field F) → Keeps f (tick_loop fl step pids f)
  unfolding tick_loop
  Keeps-tick_loop step [] f = Keeps-done f
  Keeps-tick_loop step (pid ∷ pids) f =
      let r = tick_found fl step f pid (f.objects pid) in
      Keeps-step f r.0 _ r.1 _ (Keeps-tick_found step f pid (f.objects pid) refl)
        (Keeps-tick_loop step pids r.0)

  pub Keeps-tick_players : (step : F) (f : Field F) → Keeps f (tick_players fl step f)
  unfolding tick_players
  Keeps-tick_players step f = Keeps-tick_loop step f.players f
