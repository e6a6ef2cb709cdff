-- ===== src/Field/Returns.antt =====
-- worker/fieldWorker.cpp: nothing that happens to a field throws, as long as the monsters of its world
-- have their components, which stays so.
pub mod Walks
pub mod Runs
use mathlib.Core.Path.{subst}
use mmorpg_server_rl_portfol.Prelude.{
  ℕ, ℤ, zero, suc, pos, nat_eq, ◌==◌, ◌≡◌, ◌∙◌, refl, sym, ap, Bool, true, false, not, ◌&&◌, List,
  [], ◌∷◌, ◌++◌, Option, none, some, contains, insert, if◌then◌else◌, by_test, FloatArith, int_eq,
  ◌-ℤ◌, leb_ℤ,
}
use mmorpg_server_rl_portfol.Game.Player.{Player, PlayerStat, Vec2, set_hp, set_sp, set_pos}
use mmorpg_server_rl_portfol.Monster.World.{
  Monster, MonsterWorld, AoiCall, remove_from_aoi, spawn_in_aoi, set_monster, spawn_update,
  player_attack_monster, ◌>>=◌,
}
use mmorpg_server_rl_portfol.Monster.Movement.{MoveCall, move_in_aoi, move_loop}
use mmorpg_server_rl_portfol.Monster.Combat.{
  CombatCall, mark_player_dirty, broadcast_combat, broadcast_player_stat, broadcast_player_dead,
  combat_one-cases, combat_one, attack_player, attack_stats, is_attacking, damaged,
}
use mmorpg_server_rl_portfol.Monster.Turn.{ai_update}
use mmorpg_server_rl_portfol.Monster.Whole.{
  IsWhole, set_monster-IsWhole, Goes, Goes-spawn_update, Goes-ai_update, Goes-move_all,
  Goes-player_attack_monster,
}
use mmorpg_server_rl_portfol.Field.Types.{Field, Run, Effect, ◌then◌, done, find_player, put_player}
use mmorpg_server_rl_portfol.Field.Sending as Sending
use mmorpg_server_rl_portfol.Field.Players.{
  FieldCmd, tick_player, tick_found, tick_loop, tick_players, walk, mark_dirty_state,
  mark_dirty_pos_if_needed, is_walkable, steer, steer_towards, steer_found, on_client_move_input,
  is_move,
}
use mmorpg_server_rl_portfol.Field.Monsters.{
  managed, get_player_stats, set_player_stats, get_player_position, has_position, field_side,
  mark_dirty_player, combat_call, combat_calls, aoi_call, aoi_calls, monster_remove_from_aoi,
  monster_spawn_in_aoi, move_call, move_calls, combat_found, combat_loop, combat_update,
  spawn_system, ai_system, movement_system, tick_monsters, senses_of,
}

module _ {F : Type 0} where
  -- The world of the monsters is the same.
  abbrev pub SameWorld : Field F → Field F → Type 0
  SameWorld f g = g.monster_world ≡ f.monster_world

  world-mark_dirty_player : (f : Field F) (id : ℕ) → SameWorld f (mark_dirty_player f id)
  unfolding mark_dirty_player
  world-mark_dirty_player f id = timed (find_player f id)
    where
      timed :
          (o : Option (Player F))
          → SameWorld f (elim o as (λ x. Field F) [
            | none ↦ f
            | some p ↦ put_player f id (record p { last_dirty_mark_time = f.world_time })
          ])
      timed none = refl
      timed (some p) = refl

  world-set_player_stats :
      (f : Field F) (id : ℕ) (hp sp : ℤ) → SameWorld f (set_player_stats f id hp sp)
  unfolding set_player_stats
  world-set_player_stats f id hp sp = put (managed f id)
    where
      put :
          (o : Option (Player F))
          → SameWorld f (elim o as (λ x. Field F) [
            | none ↦ f
            | some p ↦ put_player f id (record p { stat = set_sp (set_hp p.stat hp) sp })
          ])
      put none = refl
      put (some p) = refl

  world-combat_call : (call : CombatCall) (f : Field F) → SameWorld f (combat_call call f).0
  unfolding combat_call
  world-combat_call (mark_player_dirty id) f = world-mark_dirty_player f id
  world-combat_call (broadcast_combat monster_id id damage hp) f = refl
  world-combat_call (broadcast_player_stat id hp max_hp sp max_sp) f = refl
  world-combat_call (broadcast_player_dead id) f = refl

  world-combat_calls :
      (calls : List CombatCall) (f : Field F) → SameWorld f (combat_calls calls f).0
  unfolding combat_calls
  world-combat_calls [] f = refl
  world-combat_calls (call ∷ calls) f =
      world-combat_calls calls (combat_call call f).0 ∙ world-combat_call call f

  world-attack :
      (f : Field F) (e id : ℕ) (atk : ℤ) (o : Option PlayerStat)
      → SameWorld f
          (elim o as (λ x. Field F × List CombatCall) [
            | none ↦ (f, [])
            | some st ↦ attack_stats (field_side F) f e id atk st
          ]).0
  unfolding attack_stats
  world-attack f e id atk none = refl
  world-attack f e id atk (some st) =
      by_test (SameWorld f) (not (damaged st.hp atk == st.hp)) _ _
        (world-set_player_stats f id (damaged st.hp atk) st.sp) refl

  -- There is a result, and it is whole.
  abbrev pub Lasts : Option (Run F) → Type 0
  Lasts o = (r : Run F) × (o ≡ some r) × IsWhole r.0.monster_world

  pub Lasts-bind :
      (o : Option (Run F)) (g : Run F → Option (Run F))
      → Lasts o
      → ((r : Run F) → IsWhole r.0.monster_world → Lasts (g r))
      → Lasts (o >>= g)
  Lasts-bind o g (r, at, ok) h = let (s, at', ok') = h r ok in (s, ap (λ x. x >>= g) at ∙ at', ok')

  pub Lasts-goes :
      {C : Type 0} (w : MonsterWorld F) (o : Option (MonsterWorld F × C))
      (g : MonsterWorld F × C → Option (Run F))
      → Goes w o
      → ((r : MonsterWorld F × C) → IsWhole r.0 → Lasts (g r))
      → Lasts (o >>= g)
  Lasts-goes w o g (r, at, same, ok) h =
      let (s, at', ok') = h r ok in (s, ap (λ x. x >>= g) at ∙ at', ok')

  -- The world of a field, changed and then left alone.
  pub Lasts-some :
      (f : Field F) (r : Run F) → IsWhole f.monster_world → SameWorld f r.0 → Lasts (some r)
  Lasts-some f r ok same = (r, refl, subst IsWhole (sym same) ok)

module _ (fl : FloatArith) where
  open fl use {F, fadd, flt}

  pub world-aoi_calls :
      (calls : List (AoiCall F)) (f : Field F) → SameWorld f (aoi_calls fl calls f).0
  unfolding aoi_calls aoi_call monster_remove_from_aoi monster_spawn_in_aoi Sending.in_grid
  world-aoi_calls [] f = refl
  world-aoi_calls (remove_from_aoi e ∷ calls) f =
      world-aoi_calls calls (aoi_call fl (remove_from_aoi e) f).0
  world-aoi_calls (spawn_in_aoi e x y ∷ calls) f =
      world-aoi_calls calls (aoi_call fl (spawn_in_aoi e x y) f).0

  pub world-move_calls :
      (calls : List (MoveCall F)) (f : Field F) → SameWorld f (move_calls fl calls f).0
  unfolding move_calls move_call Sending.in_grid
  world-move_calls [] f = refl
  world-move_calls (move_in_aoi e x y ∷ calls) f =
      world-move_calls calls (move_call fl (move_in_aoi e x y) f).0

  world-combat_one :
      (dt : F) (f : Field F) (e : ℕ) (m : Monster F)
      → SameWorld f (combat_one fl (field_side F) dt f e m).0
  unfolding attack_player
  world-combat_one dt f e m =
      combat_one-cases fl (field_side F) (λ r. SameWorld f r.0) dt f e m (λ n. refl)
        (λ n. world-attack f e m.ai.target_id m.stats.atk (get_player_stats f m.ai.target_id))

  pub Lasts-combat_found :
      (dt : F) (f : Field F) (e : ℕ) (m : Monster F)
      → IsWhole f.monster_world
      → Lasts (combat_found fl dt f e (some m))
  unfolding combat_found
  Lasts-combat_found dt f e m ok =
      let r = combat_one fl (field_side F) dt f e m in
      let g = record (r.0) { monster_world = set_monster r.0.monster_world e r.1.0 } in
      Lasts-some g (combat_calls r.1.1 g)
        (set_monster-IsWhole r.0.monster_world e r.1.0
          (subst IsWhole (sym (world-combat_one dt f e m)) ok))
        (world-combat_calls r.1.1 g)

  pub combat_found-monsters :
      (dt : F) (f : Field F) (e : ℕ) (m : Monster F) (r : Run F)
      → combat_found fl dt f e (some m) ≡ some r
      → r.0.monster_world.monsters ≡ f.monster_world.monsters
  unfolding combat_found set_monster
  combat_found-monsters dt f e m r at =
      let q = combat_one fl (field_side F) dt f e m in
      let g = record (q.0) { monster_world = set_monster q.0.monster_world e q.1.0 } in
      let result : combat_calls q.1.1 g ≡ r =
        ap (λ (o : Option (Run F)). elim o as (λ x. Run F) [ none ↦ r | some s ↦ s ]) at in
      ap (λ (s : Run F). s.0.monster_world.monsters) (sym result)
      ∙ ap (λ (w : MonsterWorld F). w.monsters) (world-combat_calls q.1.1 g)
      ∙ ap (λ (w : MonsterWorld F). w.monsters) (world-combat_one dt f e m)
