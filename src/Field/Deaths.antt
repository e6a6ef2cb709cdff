-- ===== src/Field/Deaths.antt =====
-- worker/fieldWorker.cpp: the death of a monster by a skill.
use mmorpg_server_rl_portfol.Prelude.{
  ℕ, nat_eq, ◌≡◌, ◌∙◌, ap, Bool, true, List, [], ◌∷◌, ◌++◌, append_nil, Option, some, update_self,
  if◌then◌else◌, FloatArith,
}
use mmorpg_server_rl_portfol.Monster.World.{
  MonsterWorld, AoiCall, remove_from_aoi, player_attack_monster, dead, ◌>>=◌,
}
use mmorpg_server_rl_portfol.Aoi.System.{remove_entity, each_watcher}
use mmorpg_server_rl_portfol.Field.Types.{
  Field, ◌then◌, player_attack, monster_type, ai_state_event, to_fb_state,
}
use mmorpg_server_rl_portfol.Field.Sending.{
  in_grid, send_each, broadcast_player_ai_state, broadcast_monster_ai_state, broadcast_ai_state,
}
use mmorpg_server_rl_portfol.Field.Monsters.{aoi_calls, aoi_call, monster_remove_from_aoi}
use mmorpg_server_rl_portfol.Field.Worker.{use_skill}

module _ {F : Type 0} where
  removed_watchers :
      (f : Field F) (id : ℕ) → each_watcher (monster_remove_from_aoi f id).0.aoi_system id ≡ []
  unfolding monster_remove_from_aoi in_grid remove_entity each_watcher
  removed_watchers f id = update_self _ id []

  silence :
      (f : Field F) (id : ℕ)
      → broadcast_monster_ai_state (monster_remove_from_aoi f id).0 id dead ≡ []
  unfolding broadcast_monster_ai_state broadcast_ai_state send_each
  silence f id =
      let g = (monster_remove_from_aoi f id).0 in
      ap (λ ws. send_each g ws (ai_state_event monster_type id (to_fb_state dead)))
        (removed_watchers f id)

module _ (fl : FloatArith) where
  open fl use {F}

  -- A skill that kills a monster sends the attack of the player to the watchers of the player, then
  -- the departure of the monster; that the monster is dead is sent to no one.
  pub use_skill-silent :
      (pid target : ℕ) (f : Field F) (w : MonsterWorld F)
      → player_attack_monster fl f.monster_world target
        ≡ some (w, (remove_from_aoi target ∷ [], true))
      → let left = monster_remove_from_aoi (record f { monster_world = w }) target in
        use_skill fl pid target f
        ≡ some (left.0, broadcast_player_ai_state f pid player_attack ++ left.1)
  unfolding use_skill aoi_calls aoi_call
  use_skill-silent pid target f w killed =
      let g = record f { monster_world = w } in
      let left = monster_remove_from_aoi g target in
      let attacked = broadcast_player_ai_state f pid player_attack in
      ap
        (λ (o : Option (MonsterWorld F × (List (AoiCall F) × Bool))). o >>= (λ a.
          let r = aoi_calls fl a.1.0 (record f { monster_world = a.0 }) in
          some (
            r.0,
            attacked ++ (r.1 ++ (if a.1.1 then broadcast_monster_ai_state r.0 target dead else [])),
          )))
        killed
      ∙ ap (λ out. some (left.0, attacked ++ ((left.1 ++ []) ++ out))) (silence g target)
      ∙ ap (λ out. some (left.0, attacked ++ out)) (append_nil (left.1 ++ []) ∙ append_nil left.1)
