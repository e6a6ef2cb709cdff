-- ===== src/Field/Birth.antt =====
-- worker/fieldWorker.cpp: a field from its constructor on.
use mmorpg_server_rl_portfol.Prelude.{
  ℕ, ℤ, zero, suc, pos, ◌+◌, ◌%◌, int_eq, ◌==◌, Bool, not, List, Option, by_test, contains, arith,
  length, FloatArith,
}
use mmorpg_server_rl_portfol.Game.Player.{Player}
use mmorpg_server_rl_portfol.Monster.World.{new_world}
use mmorpg_server_rl_portfol.Monster.Whole.{IsWhole, create_monster-IsWhole}
use mmorpg_server_rl_portfol.Storage.DirtyHub.{DirtyHub}
use mmorpg_server_rl_portfol.Field.Types.{Field, Run, done}
use mmorpg_server_rl_portfol.Field.Sending.{in_grid}
use mmorpg_server_rl_portfol.Field.Monsters.{monster_spawn_in_aoi}
use mmorpg_server_rl_portfol.Field.Worker.{
  FieldCodec, stats_of, template_at, k_monster_templates, spawn_monster, spawn_monsters,
  spawn_monsters_even_grid, empty_field, new_field,
}
use mmorpg_server_rl_portfol.Field.Life.{Act, run_acts}
use mmorpg_server_rl_portfol.Field.Returns.{Lasts}
use mmorpg_server_rl_portfol.Field.Returns.Runs.{Lasts-run_acts}

module _ (fl : FloatArith) (make_database_id : ℕ → ℕ) where
  open fl use {F}

  -- For a result.
  abbrev WholeAfter : Run F → Type 0
  WholeAfter r = IsWhole r.0.monster_world

  spawn_monster-IsWhole :
      (i : ℕ) (f : Field F)
      → IsWhole f.monster_world
      → WholeAfter (spawn_monster fl make_database_id i f)
  unfolding spawn_monster monster_spawn_in_aoi in_grid
  spawn_monster-IsWhole i f ok =
      create_monster-IsWhole fl f.monster_world _ _ _ _ _
        (stats_of (template_at (i % length k_monster_templates))) ok

  spawn_monsters-IsWhole :
      (count i : ℕ) (f : Field F)
      → IsWhole f.monster_world
      → WholeAfter (spawn_monsters fl make_database_id count i f)
  unfolding spawn_monsters
  spawn_monsters-IsWhole zero i f ok = ok
  spawn_monsters-IsWhole (suc count) i f ok =
      spawn_monsters-IsWhole count (i + 1) (spawn_monster fl make_database_id i f).0
        (spawn_monster-IsWhole i f ok)

  new_field-IsWhole :
      (field_id : ℤ) (hub : DirtyHub) (has_session registered : ℕ → Bool)
      → WholeAfter (new_field fl make_database_id field_id hub has_session registered)
  unfolding new_field spawn_monsters_even_grid empty_field new_world contains
  new_field-IsWhole field_id hub has_session registered =
      let f = empty_field fl field_id hub has_session registered in
      let none_yet : IsWhole f.monster_world = λ e listed. absurd (ground arith) in
      by_test WholeAfter (field_id == pos 1000)
        (spawn_monsters_even_grid fl make_database_id (pos 1000) f) (done f)
        (by_test WholeAfter (not (pos 1000 == pos 1000)) (done f)
          (spawn_monsters fl make_database_id 300 0 f) none_yet
          (spawn_monsters-IsWhole 300 0 f none_yet))
        none_yet

  -- From its constructor on, whatever player objects there are and whatever the clock, the messages,
  -- the arrivals and the departures bring in any order, a field goes through it without an exception.
  pub new_field-lasts :
      (codec : FieldCodec F) (policy : List F → List F) (field_id : ℤ) (hub : DirtyHub)
      (has_session registered : ℕ → Bool) (objects : ℕ → Option (Player F)) (acts : List (Act F))
      → let f = (new_field fl make_database_id field_id hub has_session registered).0 in
        Lasts (run_acts fl codec policy acts (record f { objects = objects }))
  new_field-lasts codec policy field_id hub has_session registered objects acts =
      let f = (new_field fl make_database_id field_id hub has_session registered).0 in
      Lasts-run_acts fl codec policy acts (record f { objects = objects })
        (new_field-IsWhole field_id hub has_session registered)
