-- ===== src/Field/Kept/Ticks.antt =====
-- worker/fieldWorker.cpp and field/monster/MonsterWorld.cpp: what the systems of the monsters and the
-- clock of the field keep.
use mathlib.Core.Path.{subst}
use mmorpg_server_rl_portfol.Prelude.{
  ℕ, ℤ, zero, suc, pos, int_eq, nat_eq, ◌==◌, leb_ℤ, ◌≡◌, ◌∙◌, refl, sym, false, not, ◌&&◌, List,
  [], ◌∷◌, ◌++◌, Option, none, some, if◌then◌else◌, by_test, append_assoc, FloatArith,
}
use mmorpg_server_rl_portfol.Game.Player.{PlayerStat}
use mmorpg_server_rl_portfol.Monster.World.{
  Monster, MonsterWorld, AoiCall, remove_from_aoi, spawn_in_aoi, spawn_update, set_monster, ◌>>=◌,
}
use mmorpg_server_rl_portfol.Monster.Movement.{MoveCall, move_in_aoi, move_loop}
use mmorpg_server_rl_portfol.Monster.Combat.{
  CombatCall, combat_one-cases, attack_player, attack_stats, damaged, mark_player_dirty,
  broadcast_combat, broadcast_player_stat, broadcast_player_dead,
}
use mmorpg_server_rl_portfol.Monster.Ai.{AiCall, broadcast_ai_state, broadcast_monster_stat}
use mmorpg_server_rl_portfol.Monster.Turn.{ai_update}
use mmorpg_server_rl_portfol.Aoi.System.{add_entity, move_entity, remove_entity}
use mmorpg_server_rl_portfol.Field.Types.{Field, Run, ◌then◌, done}
use mmorpg_server_rl_portfol.Field.Sending as Sending
use mmorpg_server_rl_portfol.Field.Players.{tick_players}
use mmorpg_server_rl_portfol.Field.Monsters.{
  get_player_stats, set_player_stats, get_player_position, field_side, combat_calls, ai_call,
  ai_calls, aoi_call, aoi_calls, monster_remove_from_aoi, monster_spawn_in_aoi, move_call,
  move_calls, combat_found, combat_loop, combat_update, spawn_system, ai_system, movement_system,
  tick_monsters, senses_of,
}
use mmorpg_server_rl_portfol.Field.Worker.{
  player_loops, monster_loops, update_world, player_step, monster_step,
}
use mmorpg_server_rl_portfol.Field.Kept.{
  Keeps, Keeps-done, Keeps-step, Keeps-same, Keeps-in_grid, IsHeard, silent, IsHeard-append,
  IsHeard-send_each,
}
use mmorpg_server_rl_portfol.Field.Kept.Walks.{Keeps-tick_players}
use mmorpg_server_rl_portfol.Field.Kept.Fights.{Keeps-combat_calls, Keeps-struck}

module _ {F : Type 0} where
  -- The operation throws, or keeps what is to be kept.
  abbrev pub Saves : Field F → Option (Run F) → Type 0
  Saves f none = Unit
  Saves f (some r) = Keeps f r

  -- What holds of the result of a chain of operations.
  pub Saves-bind :
      {A : Type 0} (f : Field F) (o : Option A) (g : A → Option (Run F))
      → ((a : A) → o ≡ some a → Saves f (g a))
      → Saves f (o >>= g)
  Saves-bind f none g h = tt
  Saves-bind f (some a) g h = h a refl

  pub saved : (f : Field F) (o : Option (Run F)) (r : Run F) → Saves f o → o ≡ some r → Keeps f r
  saved f o r h same = subst (Saves f) same h

  Keeps-world : (f : Field F) (w : MonsterWorld F) → Keeps f (done (record f { monster_world = w }))
  Keeps-world f w = Keeps-same f _ [] refl refl refl silent

  IsHeard-ai_calls : (f : Field F) (calls : List AiCall) → IsHeard f.has_session (ai_calls f calls)
  unfolding ai_calls ai_call Sending.broadcast_monster_ai_state Sending.broadcast_ai_state
      Sending.broadcast_monster_stat Sending.broadcast_stat_event
  IsHeard-ai_calls f [] = silent
  IsHeard-ai_calls f (broadcast_ai_state e st ∷ calls) =
      IsHeard-append f.has_session _ (ai_calls f calls) (IsHeard-send_each f _ _)
        (IsHeard-ai_calls f calls)
  IsHeard-ai_calls f (broadcast_monster_stat e hp max_hp sp max_sp ∷ calls) =
      IsHeard-append f.has_session _ (ai_calls f calls) (IsHeard-send_each f _ _)
        (IsHeard-ai_calls f calls)

module _ (fl : FloatArith) where
  open fl use {F, lit, fadd, fsub, fle, flt}

  Keeps-aoi_call : (call : AoiCall F) (f : Field F) → Keeps f (aoi_call fl call f)
  unfolding aoi_call monster_remove_from_aoi monster_spawn_in_aoi
  Keeps-aoi_call (remove_from_aoi e) f = Keeps-in_grid f (λ s. remove_entity s e)
  Keeps-aoi_call (spawn_in_aoi e x y) f =
      let r = monster_remove_from_aoi f e in
      Keeps-step f r.0 _ r.1 _ (Keeps-in_grid f (λ s. remove_entity s e))
        (Keeps-in_grid r.0 (λ s. add_entity fl s e false x y))

  pub Keeps-aoi_calls : (calls : List (AoiCall F)) (f : Field F) → Keeps f (aoi_calls fl calls f)
  unfolding aoi_calls
  Keeps-aoi_calls [] f = Keeps-done f
  Keeps-aoi_calls (call ∷ calls) f =
      let r = aoi_call fl call f in
      Keeps-step f r.0 _ r.1 _ (Keeps-aoi_call call f) (Keeps-aoi_calls calls r.0)

  Keeps-move_calls : (calls : List (MoveCall F)) (f : Field F) → Keeps f (move_calls fl calls f)
  unfolding move_calls move_call
  Keeps-move_calls [] f = Keeps-done f
  Keeps-move_calls (move_in_aoi e x y ∷ calls) f =
      let r = Sending.in_grid f (λ s. move_entity fl s e x y) in
      Keeps-step f r.0 _ r.1 _ (Keeps-in_grid f (λ s. move_entity fl s e x y))
        (Keeps-move_calls calls r.0)

  -- A monster's turn of the combat, from what the attack makes of the players on.
  abbrev after_attack : Field F → ℕ → Monster F → Field F × List CombatCall → Run F
  after_attack f e m r =
      combat_calls r.1 (record (r.0) { monster_world = set_monster r.0.monster_world e m })

  Keeps-attack :
      (f : Field F) (e id : ℕ) (m : Monster F) (atk : ℤ) (o : Option PlayerStat)
      → Keeps f (
          after_attack f e m (elim o as (λ x. Field F × List CombatCall) [
            | none ↦ (f, [])
            | some st ↦ attack_stats (field_side F) f e id atk st
          ]))
  unfolding attack_stats
  Keeps-attack f e id m atk none =
      let g = record f { monster_world = set_monster f.monster_world e m } in
      Keeps-step f g _ [] _ (Keeps-world f _) (Keeps-combat_calls [] g)
  Keeps-attack f e id m atk (some st) =
      let new_hp = damaged st.hp atk in
      let b = not (new_hp == st.hp) in
      let p' = if b then set_player_stats f id new_hp st.sp else f in
      let said = broadcast_combat e id atk new_hp ∷ [] in
      let points =
        if b then broadcast_player_stat id new_hp st.max_hp st.sp st.max_sp ∷ [] else [] in
      let died = if b && leb_ℤ new_hp (pos 0) then broadcast_player_dead id ∷ [] else [] in
      let g = record p' { monster_world = set_monster p'.monster_world e m } in
      let first = if b then mark_player_dirty id ∷ [] else [] in
      subst (λ calls. Keeps f (combat_calls calls g))
        (sym (append_assoc (first ++ said) points died ∙ append_assoc first said (points ++ died)))
        (Keeps-struck f id new_hp st.sp b g.monster_world (said ++ (points ++ died)))

  Keeps-combat_found :
      (dt : F) (f : Field F) (e : ℕ) (o : Option (Monster F)) → Saves f (combat_found fl dt f e o)
  unfolding combat_found attack_player
  Keeps-combat_found dt f e none = tt
  Keeps-combat_found dt f e (some m) =
      combat_one-cases fl (field_side F) (λ r. Keeps f (after_attack f e r.1.0 (r.0, r.1.1))) dt f e
        m (λ n. Keeps-attack f e 0 n (pos 0) none)
        (λ n. Keeps-attack f e m.ai.target_id n m.stats.atk (get_player_stats f m.ai.target_id))

  Keeps-combat_loop : (dt : F) (es : List ℕ) (f : Field F) → Saves f (combat_loop fl dt es f)
  unfolding combat_loop
  Keeps-combat_loop dt [] f = Keeps-done f
  Keeps-combat_loop dt (e ∷ es) f =
      Saves-bind f (combat_found fl dt f e (f.monster_world.components e)) _ (λ r first.
        Saves-bind f (combat_loop fl dt es r.0) _ (λ s later.
          Keeps-step f r.0 s.0 r.1 s.1 (saved f _ r (Keeps-combat_found dt f e _) first)
            (saved r.0 _ s (Keeps-combat_loop dt es r.0) later)))

  Keeps-spawn_system : (dt : F) (f : Field F) → Saves f (spawn_system fl dt f)
  unfolding spawn_system
  Keeps-spawn_system dt f = Saves-bind f (spawn_update fl dt f.monster_world) _ (λ r same.
      let g = record f { monster_world = r.0 } in
      Keeps-step f g _ [] _ (Keeps-world f r.0) (Keeps-aoi_calls r.1 g))

  Keeps-ai_system :
      (dt : F) (policy : List F → List F) (f : Field F) → Saves f (ai_system fl dt policy f)
  unfolding ai_system
  Keeps-ai_system dt policy f =
      Saves-bind f (ai_update fl dt (senses_of fl policy f) f.monster_world) _ (λ r same.
        let g = record f { monster_world = r.0 } in
        Keeps-same f g _ refl refl refl (IsHeard-ai_calls g r.1))

  Keeps-movement_system : (dt : F) (f : Field F) → Saves f (movement_system fl dt f)
  unfolding movement_system
  Keeps-movement_system dt f =
      Saves-bind f
        (move_loop fl dt (get_player_position f) f.monster_world f.monster_world.monsters) _
        (λ r same.
          let g = record f { monster_world = r.0 } in
          Keeps-step f g _ [] _ (Keeps-world f r.0) (Keeps-move_calls r.1 g))

  Keeps-tick_monsters :
      (step : F) (policy : List F → List F) (f : Field F) → Saves f (tick_monsters fl step policy f)
  unfolding tick_monsters combat_update
  Keeps-tick_monsters step policy f = Saves-bind f (spawn_system fl step f) _ (λ a at_a.
      Saves-bind f (ai_system fl step policy a.0) _ (λ b at_b.
        Saves-bind f (movement_system fl step b.0) _ (λ c at_c.
          Saves-bind f (combat_update fl step c.0) _ (λ d at_d.
            Keeps-step f a.0 d.0 a.1 _ (saved f _ a (Keeps-spawn_system step f) at_a) (
              Keeps-step a.0 b.0 d.0 b.1 _ (saved a.0 _ b (Keeps-ai_system step policy a.0) at_b) (
                Keeps-step b.0 c.0 d.0 c.1 d.1 (saved b.0 _ c (Keeps-movement_system step b.0) at_c)
                  (saved c.0 _ d (Keeps-combat_loop step c.0.monster_world.monsters c.0) at_d)))))))

  Keeps-player_loops : (n : ℕ) (f : Field F) → Keeps f (player_loops fl n f)
  unfolding player_loops
  Keeps-player_loops zero f = Keeps-done f
  Keeps-player_loops (suc n) f =
      let ticked = tick_players fl (player_step fl) f in
      let spent = record (ticked.0) { player_acc = fsub ticked.0.player_acc (player_step fl) } in
      by_test (Keeps f) _ _ _
        (Keeps-step f ticked.0 _ ticked.1 _ (Keeps-tick_players fl (player_step fl) f) (
          Keeps-step ticked.0 spent _ [] _ (Keeps-same ticked.0 spent [] refl refl refl silent)
            (Keeps-player_loops n spent)))
        (Keeps-done f)

  Keeps-monster_loops :
      (policy : List F → List F) (n : ℕ) (f : Field F) → Saves f (monster_loops fl policy n f)
  unfolding monster_loops
  Keeps-monster_loops policy zero f = Keeps-done f
  Keeps-monster_loops policy (suc n) f =
      by_test (Saves f) (fle (monster_step fl) f.monster_acc) _ (some (done f))
        (Saves-bind f (tick_monsters fl (monster_step fl) policy f) _ (λ a at_a.
          let spent = record (a.0) { monster_acc = fsub a.0.monster_acc (monster_step fl) } in
          Saves-bind f (monster_loops fl policy n spent) _ (λ b at_b.
            Keeps-step f a.0 b.0 a.1 b.1
              (saved f _ a (Keeps-tick_monsters (monster_step fl) policy f) at_a)
              (Keeps-step a.0 spent b.0 [] b.1 (Keeps-same a.0 spent [] refl refl refl silent)
                (saved spent _ b (Keeps-monster_loops policy n spent) at_b)))))
        (Keeps-done f)

  pub Saves-update_world :
      (policy : List F → List F) (dt : F) (f : Field F) → Saves f (update_world fl policy dt f)
  unfolding update_world
  Saves-update_world policy dt f =
      let timed = record f {
        world_time = fadd f.world_time dt;
        player_acc = fadd f.player_acc dt;
      } in
      let walked = player_loops fl 5 timed in
      let ready = record (walked.0) { monster_acc = fadd walked.0.monster_acc dt } in
      by_test (Saves f) (fle dt (lit 0 1)) (some (done f)) _ (Keeps-done f) (
        Saves-bind f (monster_loops fl policy 3 ready) _ (λ r at.
          Keeps-step f timed r.0 [] _ (Keeps-same f timed [] refl refl refl silent) (
            Keeps-step timed walked.0 r.0 walked.1 r.1 (Keeps-player_loops 5 timed) (
              Keeps-step walked.0 ready r.0 [] r.1
                (Keeps-same walked.0 ready [] refl refl refl silent)
                (saved ready _ r (Keeps-monster_loops policy 3 ready) at)))))
