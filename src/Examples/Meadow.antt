-- ===== src/Examples/Meadow.antt =====
-- A field with one player and one monster of ten hit points.
use mmorpg_server_rl_portfol.Prelude.{
  ℤ, pos, nat_eq, int_eq, ◌==◌, ◌≡◌, ◌⊎◌, refl, true, some, none, List, [], ◌∷◌, ◌++◌, contains,
  arith, update, if◌then◌else◌, ◌-ℤ◌,
}
use mmorpg_server_rl_portfol.Game.Player.{Player, new_stat}
use mmorpg_server_rl_portfol.Monster.World.{
  MonsterWorld, create_monster, new_world, player_attack_monster, set_monster, slay, hit,
}
use mmorpg_server_rl_portfol.Monster.Combat.{IsPlayerSide}
use mmorpg_server_rl_portfol.Monster.Whole.{IsWhole, create_monster-IsWhole}
use mmorpg_server_rl_portfol.Storage.DirtyHub.{new_hub}
use mmorpg_server_rl_portfol.Storage.Stealing.{is_dirty}
use mmorpg_server_rl_portfol.Field.Types.{Field, cmd_move, player_attack}
use mmorpg_server_rl_portfol.Field.Sending.{broadcast_player_ai_state}
use mmorpg_server_rl_portfol.Field.Players.{on_client_move_input, tick_players}
use mmorpg_server_rl_portfol.Field.Monsters.{field_side, monster_remove_from_aoi}
use mmorpg_server_rl_portfol.Field.Worker.{
  FieldCodec, custom_message, skill_cmd_message, empty_field, new_field, use_skill,
}
use mmorpg_server_rl_portfol.Field.Kept.{IsHeard, IsSound, points}
use mmorpg_server_rl_portfol.Field.Life.{
  Act, joins, ticks, receives, quits, run_acts, run_acts-IsHeard, run_acts-points,
}
use mmorpg_server_rl_portfol.Field.Returns.{Lasts}
use mmorpg_server_rl_portfol.Field.Returns.Runs.{Lasts-run_acts}
use mmorpg_server_rl_portfol.Field.Birth.{new_field-lasts}
use mmorpg_server_rl_portfol.Field.Deaths.{use_skill-silent}
use mmorpg_server_rl_portfol.Field.Inputs.{Steers, on_client_move_input-Steers}
use mmorpg_server_rl_portfol.Field.Idle.{HasStopped, tick_players-stops}
use mmorpg_server_rl_portfol.Field.Points.{field_side-IsPlayerSide}
use mmorpg_server_rl_portfol.Examples.Floats.{whole_floats}
use mmorpg_server_rl_portfol.Examples.Hunt.{beast, den, weak}

-- The first byte of a payload says what it is.
abbrev toy_codec : FieldCodec ℤ
toy_codec = record {
  get_field_cmd =
      λ payload. some (record { entity_id = 3; type = cmd_move; dir = some (pos 1, pos 0) });
  get_skill_cmd = λ payload. some 5;
}

abbrev still_policy : List ℤ → List ℤ
still_policy obs = pos 1 ∷ pos 0 ∷ pos 0 ∷ pos 0 ∷ pos 0 ∷ []

abbrev pub runner : Player ℤ
runner = record {
  id = 3;
  session = 8;
  name = [];
  field_id = pos 7;
  position = record { x = pos 4; y = pos 4 };
  move_state = record {
    dir = record { x = pos 1; y = pos 0 };
    moving = true;
    speed = pos 4;
    last_input_time = pos 1;
  };
  stat = new_stat;
  last_dirty_mark_time = pos 0;
}

abbrev meadow : Field ℤ
meadow = record (empty_field whole_floats (pos 7) new_hub (λ id. id == 3) (λ id. id == 3)) {
  monster_world = den;
  players = 3 ∷ [];
  objects = λ id. if id == 3 then some runner else none;
  world_time = pos 9;
}

meadow-IsWhole : IsWhole den
unfolding new_world contains
meadow-IsWhole =
    create_monster-IsWhole whole_floats new_world 5 (pos 1) (pos 2) "Bow" (pos 0) weak
      (λ e listed. absurd (ground arith))

abbrev day : List (Act ℤ)
day =
    ticks (pos 1)
    ∷ receives (λ sess. 3) (record { type = custom_message; session = some 8; payload = [] })
    ∷ receives (λ sess. 3) (record { type = skill_cmd_message; session = some 8; payload = [] })
    ∷ joins 3
    ∷ quits 3
    ∷ []

spent_day : Lasts (run_acts whole_floats toy_codec still_policy day meadow)
unfolding empty_field
spent_day = Lasts-run_acts whole_floats toy_codec still_policy day meadow meadow-IsWhole

abbrev newborn : Field ℤ
newborn = (new_field whole_floats (λ i. i) (pos 1000) new_hub (λ id. id == 3) (λ id. id == 3)).0

new_field-lasts_example :
    Lasts (
      run_acts whole_floats toy_codec still_policy day
        (record newborn { objects = meadow.objects }))
new_field-lasts_example =
    new_field-lasts whole_floats (λ i. i) toy_codec still_policy (pos 1000) new_hub (λ id. id == 3)
      (λ id. id == 3) meadow.objects day

run_acts-IsHeard_example : IsHeard meadow.has_session spent_day.0.1
run_acts-IsHeard_example =
    run_acts-IsHeard whole_floats toy_codec still_policy day meadow spent_day.0 spent_day.1

run_acts-points_example :
    ((points spent_day.0.0 3 ≡ points meadow 3) ⊎ (is_dirty spent_day.0.0.dirty_hub 3 ≡ true))
    × (IsSound (points meadow 3) → IsSound (points spent_day.0.0 3))
run_acts-points_example =
    run_acts-points whole_floats toy_codec still_policy day meadow spent_day.0 3 spent_day.1

meadow_code : Unit {0}
unfolding empty_field create_monster new_world set_monster update contains player_attack_monster
    slay hit ◌-ℤ◌
meadow_code = tt

abbrev fallen_den : MonsterWorld ℤ
fallen_den = set_monster den 5 (slay whole_floats (hit whole_floats beast))

use_skill-silent_example :
    let left = monster_remove_from_aoi (record meadow { monster_world = fallen_den }) 5 in
    use_skill whole_floats 3 5 meadow
    ≡ some (left.0, broadcast_player_ai_state meadow 3 player_attack ++ left.1)
unfolding meadow_code
use_skill-silent_example = use_skill-silent whole_floats 3 5 meadow fallen_den refl

on_client_move_input-Steers_example : Steers meadow 3 (
    on_client_move_input whole_floats meadow
      (record { entity_id = 3; type = cmd_move; dir = some (pos 1, pos 0) })
      (some 3))
on_client_move_input-Steers_example =
    on_client_move_input-Steers whole_floats meadow
      (record { entity_id = 3; type = cmd_move; dir = some (pos 1, pos 0) }) 3

tick_players-stops_example :
    HasStopped whole_floats (tick_players whole_floats (pos 1) meadow).0 3 runner
unfolding meadow_code
tick_players-stops_example = tick_players-stops whole_floats (pos 1) meadow 3 runner refl refl refl

field_side-IsPlayerSide_example : IsPlayerSide (field_side ℤ)
field_side-IsPlayerSide_example = field_side-IsPlayerSide
