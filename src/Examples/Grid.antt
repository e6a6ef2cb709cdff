-- ===== src/Examples/Grid.antt =====
-- A field with sectors of 15 units: player 1 at the origin and monster 1000 near it.
use mmorpg_server_rl_portfol.Prelude.{
  ℤ, nat_eq, pos, ◌≡◌, refl, true, false, [], ◌∷◌, none, contains, insert, erase, set_of_list,
  filter, ◌+ℤ◌, ◌-ℤ◌, arith, update,
}
use mmorpg_server_rl_portfol.Aoi.Types.{AoiSectorCoord}
use mmorpg_server_rl_portfol.Aoi.World
use mmorpg_server_rl_portfol.Aoi.Visibility.{sees, IsExact}
use mmorpg_server_rl_portfol.Aoi.Sectors
use mmorpg_server_rl_portfol.Aoi.System.{
  FieldAoiSystem, add_entity, move_entity, remove_entity, each_watcher, new_system, set_send_func,
  deliver, record_events, record_watcher, erase_first,
}
use mmorpg_server_rl_portfol.Aoi.Reach.{
  Reach, here, next, joins, start, Reach-IsExact, Reach-keeps_IsExact, start-IsExact,
  remove_entity_stale,
}
use mmorpg_server_rl_portfol.Examples.Floats.{whole_floats}

abbrev bare_field : FieldAoiSystem ℤ
bare_field = start whole_floats (pos 1000) (pos 15) (pos 2)

abbrev with_player : FieldAoiSystem ℤ
with_player = (add_entity whole_floats bare_field 1 true (pos 0) (pos 0)).0

abbrev with_monster : FieldAoiSystem ℤ
with_monster = (add_entity whole_floats with_player 1000 false (pos 20) (pos 0)).0

-- Names what a run of the grid computes with.
grid_code : Unit {0}
unfolding start new_system set_send_func add_entity move_entity remove_entity deliver record_events
    record_watcher erase_first each_watcher World.new_world World.world_to_sector World.add_entity
    World.move_entity World.remove_entity World.rebuild_player_subscriptions World.unwatch_sectors
    World.watch_sectors World.leave_events World.snapshot_events World.broadcast_to_sector_watchers
    World.send_to World.move_events World.send_difference Sectors.get_or_create_sector
    Sectors.enter_sector Sectors.leave_sector Sectors.collect_view_sectors Sectors.for_range
    Sectors.ints_from Sectors.view_rows Sectors.view_row Sectors.unsubscribe contains insert erase
    set_of_list filter update ◌+ℤ◌ ◌-ℤ◌
grid_code = tt

-- The player is told of the monster that appears in its view.
monster_seen : each_watcher with_monster 1000 ≡ 1 ∷ []
unfolding grid_code
monster_seen = refl

-- And of its going, once it walks out of the view.
monster_gone :
    each_watcher (move_entity whole_floats with_monster 1000 (pos 100) (pos 0)).0 1000 ≡ []
unfolding grid_code
monster_gone = refl

with_monster-Reach : Reach whole_floats bare_field with_monster
unfolding grid_code
with_monster-Reach =
    next (next here (joins 1 true (pos 0) (pos 0) refl (λ t. refl)))
      (joins 1000 false (pos 20) (pos 0) refl (λ t. refl))

Reach-IsExact_example :
    contains 1 (each_watcher with_monster 1000)
    ≡ sees with_monster.aoi.view_radius
        (with_monster.aoi.entities 1)
        (with_monster.aoi.entities 1000)
unfolding grid_code
Reach-IsExact_example =
    Reach-IsExact whole_floats (pos 1000) (pos 15) (pos 2) with_monster-Reach 1 1000 refl
      (λ same. absurd (omega arith))

abbrev home : AoiSectorCoord
home = record { x = pos 0; y = pos 0 }

with_monster-IsExact : IsExact with_monster
with_monster-IsExact =
    Reach-keeps_IsExact whole_floats (start-IsExact whole_floats (pos 1000) (pos 15) (pos 2))
      with_monster-Reach

remove_entity_stale_example :
    let s' = (remove_entity with_monster 1).0 in
    (s'.aoi.entities 1 ≡ none)
    × (contains 1 (each_watcher s' 1000)
        ≡ sees with_monster.aoi.view_radius
            (with_monster.aoi.entities 1)
            (with_monster.aoi.entities 1000))
unfolding grid_code
remove_entity_stale_example =
    remove_entity_stale with_monster 1 with_monster-IsExact _ refl 1000 refl
