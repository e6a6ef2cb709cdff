-- ===== src/Examples/Stroll.antt =====
-- A player who joins a field with one monster, strikes it and walks there.
use mmorpg_server_rl_portfol.Prelude.{
  ℕ, ℤ, pos, [], nat_eq, contains, ◌==◌, ◌≡◌, refl, true, some, none, Option, if◌then◌else◌, insert,
  erase, set_of_list, filter, update, ◌+ℤ◌, ◌-ℤ◌,
}
use mmorpg_server_rl_portfol.Game.Player.{Player}
use mmorpg_server_rl_portfol.Monster.World as Monsters
use mmorpg_server_rl_portfol.Monster.Combat.{
  combat_one, is_attacking, attack_player, attack_stats, damaged,
}
use mmorpg_server_rl_portfol.Monster.Movement.{
  move_loop, move_found, move_one, course_of, rest_course, follow,
}
use mmorpg_server_rl_portfol.Aoi.World as World
use mmorpg_server_rl_portfol.Aoi.Sectors
use mmorpg_server_rl_portfol.Aoi.System.{
  add_entity, move_entity, remove_entity, each_watcher, new_system, set_send_func, deliver,
  record_events, record_watcher, erase_first,
}
use mmorpg_server_rl_portfol.Storage.DirtyHub.{new_hub}
use mmorpg_server_rl_portfol.Field.Types.{Field, Run}
use mmorpg_server_rl_portfol.Field.Sending.{in_grid}
use mmorpg_server_rl_portfol.Field.Players.{add_player, on_player_enter_field, enter_monsters}
use mmorpg_server_rl_portfol.Field.Monsters.{
  combat_update, combat_loop, combat_found, movement_system, set_player_stats, get_player_stats,
  managed, aoi_calls, aoi_call, monster_spawn_in_aoi, monster_remove_from_aoi,
}
use mmorpg_server_rl_portfol.Field.Worker.{
  empty_field, spawn_monster, use_skill, player_loops, template_at, clampf, monster_type_of,
}
use mmorpg_server_rl_portfol.Examples.Floats.{hundredths}
use mmorpg_server_rl_portfol.Examples.Meadow.{runner}

-- At the place 4, 4, on the way to the right with a speed of 4.
abbrev stroller : Player ℤ
stroller = record runner {
  position = record { x = pos 400; y = pos 400 };
  move_state = record {
    dir = record { x = pos 100; y = pos 0 };
    moving = true;
    speed = pos 400;
    last_input_time = pos 0;
  };
}

abbrev shared : ℕ → Option (Player ℤ)
shared id = if id == 3 then some stroller else none

abbrev plain : Field ℤ
plain = record (empty_field hundredths (pos 7) new_hub (λ id. true) (λ id. true)) {
  objects = shared;
}

abbrev run_of : Option (Run ℤ) → Run ℤ
run_of none = (plain, [])
run_of (some r) = r

abbrev hatched : Field ℤ
hatched = (spawn_monster hundredths (λ i. 9) 0 plain).0

abbrev joined : Run ℤ
joined = run_of (add_player hundredths hatched 3)

abbrev struck : Run ℤ
struck = run_of (use_skill hundredths 3 9 joined.0)

abbrev fought : Run ℤ
fought = run_of (combat_update hundredths (pos 100) struck.0)

abbrev roamed : Run ℤ
roamed = run_of (movement_system hundredths (pos 100) fought.0)

-- The code that the stroll runs.
stroll_code : Unit {0}
unfolding new_system set_send_func add_entity move_entity remove_entity deliver record_events
    record_watcher erase_first each_watcher World.new_world World.world_to_sector World.add_entity
    World.move_entity World.remove_entity World.rebuild_player_subscriptions World.unwatch_sectors
    World.watch_sectors World.leave_events World.snapshot_events World.broadcast_to_sector_watchers
    World.send_to World.move_events World.send_difference Sectors.get_or_create_sector
    Sectors.enter_sector Sectors.leave_sector Sectors.collect_view_sectors Sectors.for_range
    Sectors.ints_from Sectors.view_rows Sectors.view_row Sectors.unsubscribe contains insert erase
    set_of_list filter update ◌+ℤ◌ ◌-ℤ◌ empty_field add_player on_player_enter_field enter_monsters
    Monsters.new_world spawn_monster use_skill Monsters.create_monster Monsters.set_monster
    Monsters.player_attack_monster Monsters.attack_loop Monsters.attack_found Monsters.strike
    Monsters.hit Monsters.slay monster_spawn_in_aoi monster_remove_from_aoi in_grid template_at
    clampf monster_type_of aoi_calls aoi_call combat_update combat_loop combat_found combat_one
    is_attacking attack_player attack_stats damaged movement_system move_loop move_found move_one
    course_of rest_course follow set_player_stats get_player_stats managed
stroll_code = tt

-- A fifth of a second is four turns of the players.
abbrev strolled : Field ℤ
strolled =
    (player_loops hundredths 5 (record (roamed.0) {
      world_time = roamed.0.world_time +ℤ pos 20;
      player_acc = roamed.0.player_acc +ℤ pos 20;
    })).0

abbrev place_of : Option (Player ℤ) → ℤ
place_of none = pos 0
place_of (some p) = p.position.x

strolled_on : place_of (strolled.objects 3) ≡ pos 480
unfolding stroll_code player_loops
strolled_on = refl
