-- ===== src/Field/Life.antt =====
-- The life of a field of worker/fieldWorker.cpp: its clock ticks, its players send messages, join and
-- leave, in any order.
use mmorpg_server_rl_portfol.Prelude.{
  ℕ, ◌≡◌, ◌⊎◌, true, List, [], ◌∷◌, ◌++◌, Option, none, some, FloatArith, by_test, nat_eq, refl,
}
use mmorpg_server_rl_portfol.Monster.World.{player_attack_monster, ◌>>=◌}
use mmorpg_server_rl_portfol.Storage.Stealing.{is_dirty}
use mmorpg_server_rl_portfol.Field.Types.{Field, Run, done, player_attack}
use mmorpg_server_rl_portfol.Field.Sending.{broadcast_monster_ai_state, broadcast_ai_state}
use mmorpg_server_rl_portfol.Field.Players.{
  add_player, remove_player, on_client_move_input, FieldCmd,
}
use mmorpg_server_rl_portfol.Field.Monsters.{aoi_calls}
use mmorpg_server_rl_portfol.Field.Worker.{
  FieldCodec, NetMessage, MessageType, skill_cmd_message, custom_message, other_message,
  update_world, handle_message, handle_by_type, handle_skill, handle_custom, use_skill, asker,
}
use mmorpg_server_rl_portfol.Field.Kept.{
  Keeps, Keeps-done, Keeps-step, Keeps-tell, Keeps-same, IsHeard, silent, IsSound, points,
  IsHeard-send_each,
}
use mmorpg_server_rl_portfol.Field.Kept.Walks.{
  Keeps-on_client_move_input, Keeps-remove_player, IsHeard-player_state,
}
use mmorpg_server_rl_portfol.Field.Kept.Entries.{Saves-joins}
use mmorpg_server_rl_portfol.Field.Kept.Ticks.{
  Saves, Saves-bind, saved, Saves-update_world, Keeps-aoi_calls,
}

-- What happens to a field. A message comes with the player ids that the sessions answer then.
pub data Act (F : Type 0) : Type 0 where
  ticks : F → Act F
  receives : (ℕ → ℕ) → NetMessage → Act F
  joins : ℕ → Act F
  quits : ℕ → Act F

module _ (fl : FloatArith) (codec : FieldCodec fl.F) (policy : List fl.F → List fl.F) where
  open fl use {F}

  Saves-use_skill : (pid target : ℕ) (f : Field F) → Saves f (use_skill fl pid target f)
  unfolding use_skill broadcast_monster_ai_state broadcast_ai_state
  Saves-use_skill pid target f =
      Saves-bind f (player_attack_monster fl f.monster_world target) _ (λ a at.
        let g = record f { monster_world = a.0 } in
        let r = aoi_calls fl a.1.0 g in
        Keeps-step f f r.0 _ _
          (Keeps-same f f _ refl refl refl (IsHeard-player_state f pid player_attack))
          (Keeps-step f g r.0 [] _ (Keeps-same f g [] refl refl refl silent) (
            Keeps-tell g r.0 r.1 _ (Keeps-aoi_calls fl a.1.0 g)
              (by_test (IsHeard r.0.has_session) a.1.1 _ _ (IsHeard-send_each r.0 _ _) silent))))

  Saves-by_type :
      (player_id : ℕ → ℕ) (msg : NetMessage) (type : MessageType) (f : Field F)
      → Saves f (handle_by_type fl codec player_id msg type f)
  unfolding handle_by_type handle_skill handle_custom
  Saves-by_type player_id msg skill_cmd_message f =
      skill (asker fl player_id msg.session) (codec.get_skill_cmd msg.payload)
    where
      skill :
          (session target : Option ℕ)
          → Saves f (elim session as (λ x. Option (Run F)) [
            | none ↦ some (done f)
            | some pid ↦ elim target as (λ x. Option (Run F)) [
              | none ↦ some (done f)
              | some t ↦ use_skill fl pid t f
            ]
          ])
      skill none target = Keeps-done f
      skill (some pid) none = Keeps-done f
      skill (some pid) (some t) = Saves-use_skill pid t f
  Saves-by_type player_id msg custom_message f = custom (codec.get_field_cmd msg.payload)
    where
      custom :
          (o : Option (FieldCmd F))
          → Keeps f (elim o as (λ x. Run F) [
            | none ↦ done f
            | some cmd ↦ on_client_move_input fl f cmd (asker fl player_id msg.session)
          ])
      custom none = Keeps-done f
      custom (some cmd) = Keeps-on_client_move_input fl f cmd (asker fl player_id msg.session)
  Saves-by_type player_id msg other_message f = Keeps-done f

  unfoldable pub act : Act F → Field F → Option (Run F)
  act (ticks dt) f = update_world fl policy dt f
  act (receives player_id msg) f = handle_message fl codec player_id msg f
  act (joins pid) f = add_player fl f pid
  act (quits pid) f = some (remove_player f pid)

  unfoldable pub run_acts : List (Act F) → Field F → Option (Run F)
  unfolding act
  run_acts [] f = some (done f)
  run_acts (a ∷ acts) f = do r ← act a f; s ← run_acts acts r.0; some (s.0, r.1 ++ s.1)

  Saves-act : (a : Act F) (f : Field F) → Saves f (act a f)
  unfolding act handle_message add_player
  Saves-act (ticks dt) f = Saves-update_world fl policy dt f
  Saves-act (receives player_id msg) f = Saves-by_type player_id msg msg.type f
  Saves-act (joins pid) f = Saves-joins fl f pid (f.objects pid)
  Saves-act (quits pid) f = Keeps-remove_player f pid

  Saves-run_acts : (acts : List (Act F)) (f : Field F) → Saves f (run_acts acts f)
  unfolding run_acts
  Saves-run_acts [] f = Keeps-done f
  Saves-run_acts (a ∷ acts) f = Saves-bind f (act a f) _ (λ r first.
      Saves-bind f (run_acts acts r.0) _ (λ s later.
        Keeps-step f r.0 s.0 r.1 s.1 (saved f _ r (Saves-act a f) first)
          (saved r.0 _ s (Saves-run_acts acts r.0) later)))

  -- Whatever the clock, the messages, the arrivals and the departures bring in any order, a field
  -- sends something only to players that have a session.
  pub run_acts-IsHeard :
      (acts : List (Act F)) (f : Field F) (r : Run F)
      → run_acts acts f ≡ some r
      → IsHeard f.has_session r.1
  run_acts-IsHeard acts f r same = (saved f _ r (Saves-run_acts acts f) same).heard

  -- Whatever happens to a field, the points of a player that differ afterwards wait for a write by the
  -- storage, and points that lay between 0 and their maxima still do.
  pub run_acts-points :
      (acts : List (Act F)) (f : Field F) (r : Run F) (id : ℕ)
      → run_acts acts f ≡ some r
      → ((points r.0 id ≡ points f id) ⊎ (is_dirty r.0.dirty_hub id ≡ true))
        × (IsSound (points f id) → IsSound (points r.0 id))
  run_acts-points acts f r id same =
      let k = saved f _ r (Saves-run_acts acts f) same in (k.changed id, k.sound id)
