-- ===== src/Field/Courses.antt =====
-- worker/fieldWorker.cpp: the input of a client leaves the players of a field at their own places.
use mmorpg_server_rl_portfol.Prelude.{
  ℕ, nat_eq, ◌==◌, ◌≡◌, refl, not, Option, none, some, by_test, FloatArith,
}
use mmorpg_server_rl_portfol.Game.Player.{Player}
use mmorpg_server_rl_portfol.Field.Types.{Field, Run, done, find_player}
use mmorpg_server_rl_portfol.Field.Players.{
  FieldCmd, steer, steer_towards, steer_found, on_client_move_input, is_move,
}
use mmorpg_server_rl_portfol.Field.Kept.Walks.{found_object}
use mmorpg_server_rl_portfol.Field.Places.{Agrees, Agrees-put}

module _ (fl : FloatArith) where
  open fl use {F}

  Agrees-steer :
      (f : Field F) (id : ℕ) (p : Player F) (d : F × F)
      → f.objects id ≡ some p
      → Agrees f
      → Agrees (steer fl f id p d).0
  unfolding steer
  Agrees-steer f id p (dx, dy) at ok =
      let P : Run F → Type 0 = λ r. Agrees r.0 in
      by_test P (fl.flt (fl.fadd (fl.fmul dx dx) (fl.fmul dy dy)) (fl.lit 1 10000)) _ _
        (by_test P (not p.move_state.moving) _ _ (Agrees-put f id p _ at refl ok)
          (Agrees-put f id p _ at refl ok))
        (Agrees-put f id p _ at refl ok)

  Agrees-steer_found :
      (f : Field F) (cmd : FieldCmd F) (o : Option (Player F)) (d : Option (F × F))
      → find_player f cmd.entity_id ≡ o
      → Agrees f
      → Agrees (steer_found fl f (record cmd { dir = d }) o).0
  unfolding steer_found steer_towards
  Agrees-steer_found f cmd none d found ok = ok
  Agrees-steer_found f cmd (some p) none found ok = ok
  Agrees-steer_found f cmd (some p) (some v) found ok =
      Agrees-steer f cmd.entity_id p v (found_object f cmd.entity_id p found) ok

  pub Agrees-input :
      (f : Field F) (cmd : FieldCmd F) (player_id : ℕ)
      → Agrees f
      → Agrees (on_client_move_input fl f cmd (some player_id)).0
  unfolding on_client_move_input
  Agrees-input f cmd player_id ok =
      let P : Run F → Type 0 = λ r. Agrees r.0 in
      by_test P (not (player_id == cmd.entity_id)) (done f) _ ok (
        by_test P (not (is_move cmd.type)) (done f) _ ok
          (Agrees-steer_found f cmd (find_player f cmd.entity_id) cmd.dir refl ok))
