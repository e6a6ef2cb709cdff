-- ===== src/Field/Returns/Runs.antt =====
-- worker/fieldWorker.cpp: each thing that happens to a field has a result.
use mathlib.Core.Path.{subst}
use mmorpg_server_rl_portfol.Prelude.{
  ℕ, zero, suc, ◌≡◌, ◌∙◌, refl, sym, ap, nat_eq, true, false, List, [], ◌∷◌, ◌++◌, Option, none,
  some, insert, by_test, FloatArith,
}
use mmorpg_server_rl_portfol.Game.Player.{Player}
use mmorpg_server_rl_portfol.Monster.World.{spawn_update, player_attack_monster, ◌>>=◌}
use mmorpg_server_rl_portfol.Monster.Movement.{move_loop}
use mmorpg_server_rl_portfol.Monster.Turn.{ai_update}
use mmorpg_server_rl_portfol.Monster.Whole.{
  IsWhole, head-Listed, tail-Listed, Listed, Goes-spawn_update, Goes-ai_update, Goes-move_all,
  Goes-player_attack_monster,
}
use mmorpg_server_rl_portfol.Aoi.System.{add_entity}
use mmorpg_server_rl_portfol.Field.Types.{Field, Run, Effect, done}
use mmorpg_server_rl_portfol.Field.Sending as Sending
use mmorpg_server_rl_portfol.Field.Players.{
  FieldCmd, add_player, remove_player, on_player_enter_field, enter_monsters, enter_others,
  tell_others, on_client_move_input,
}
use mmorpg_server_rl_portfol.Field.Monsters.{
  aoi_calls, ai_calls, move_calls, combat_found, combat_loop, combat_update, spawn_system,
  ai_system, movement_system, tick_monsters, senses_of, get_player_position,
}
use mmorpg_server_rl_portfol.Field.Worker.{
  FieldCodec, NetMessage, MessageType, skill_cmd_message, custom_message, other_message,
  player_loops, monster_loops, monster_step, update_world, handle_message, handle_by_type,
  handle_skill, handle_custom, use_skill, asker,
}
use mmorpg_server_rl_portfol.Field.Life.{Act, ticks, receives, joins, quits, act, run_acts}
use mmorpg_server_rl_portfol.Field.Returns.{
  SameWorld, Lasts, Lasts-bind, Lasts-goes, Lasts-some, Lasts-combat_found, combat_found-monsters,
  world-aoi_calls, world-move_calls,
}
use mmorpg_server_rl_portfol.Field.Returns.Walks.{world-player_loops, world-on_client_move_input}

-- A chain of two, whose results are put together.
join_lasts :
    {F : Type 0} (o : Option (Run F)) (g : Field F → Option (Run F))
    → Lasts o
    → ((f : Field F) → IsWhole f.monster_world → Lasts (g f))
    → Lasts (o >>= (λ r. g r.0 >>= (λ s. some (s.0, r.1 ++ s.1))))
join_lasts o g first later =
    Lasts-bind o _ first
      (λ r ok. Lasts-bind (g r.0) _ (later r.0 ok) (λ s ok'. ((s.0, r.1 ++ s.1), refl, ok')))

module _ (fl : FloatArith) where
  open fl use {F, fadd, fsub, fle, lit}

  Lasts-combat_loop :
      (dt : F) (es : List ℕ) (f : Field F)
      → Listed es f.monster_world
      → IsWhole f.monster_world
      → Lasts (combat_loop fl dt es f)
  unfolding combat_loop
  Lasts-combat_loop dt [] f listed ok = (done f, refl, ok)
  Lasts-combat_loop dt (e ∷ es) f listed ok =
      let (m, at) = ok e (head-Listed e es f.monster_world listed) in
      let (r, first, ok') = Lasts-combat_found fl dt f e m ok in
      let same = combat_found-monsters fl dt f e m r first in
      let (s, later, ok'') =
        Lasts-combat_loop dt es r.0 (tail-Listed e es f.monster_world r.0.monster_world same listed)
          ok' in
      (
        (s.0, r.1 ++ s.1),
        ap
              (λ o.
                combat_found fl dt f e o
                >>= (λ x. combat_loop fl dt es x.0 >>= (λ y. some (y.0, x.1 ++ y.1))))
              at
            ∙ ap (λ o. o >>= (λ x. combat_loop fl dt es x.0 >>= (λ y. some (y.0, x.1 ++ y.1))))
                first
            ∙ ap (λ o. o >>= (λ y. some (y.0, r.1 ++ y.1))) later,
        ok'',
      )

  Lasts-tick_monsters :
      (step : F) (policy : List F → List F) (f : Field F)
      → IsWhole f.monster_world
      → Lasts (tick_monsters fl step policy f)
  unfolding tick_monsters spawn_system ai_system movement_system combat_update
  Lasts-tick_monsters step policy f ok =
      Lasts-bind (spawn_system fl step f) _
        (Lasts-goes f.monster_world (spawn_update fl step f.monster_world) _
          (Goes-spawn_update fl step f.monster_world ok)
          (λ r ok'.
            let g = record f { monster_world = r.0 } in
            Lasts-some g (aoi_calls fl r.1 g) ok' (world-aoi_calls fl r.1 g)))
        (λ a ok_a.
          Lasts-bind (ai_system fl step policy a.0) _
            (Lasts-goes a.0.monster_world
              (ai_update fl step (senses_of fl policy a.0) a.0.monster_world) _
              (Goes-ai_update fl step (senses_of fl policy a.0) a.0.monster_world ok_a)
              (λ r ok'.
                let g = record (a.0) { monster_world = r.0 } in ((g, ai_calls g r.1), refl, ok')))
            (λ b ok_b.
              Lasts-bind (movement_system fl step b.0) _
                (Lasts-goes b.0.monster_world
                  (move_loop fl step (get_player_position b.0) b.0.monster_world
                    b.0.monster_world.monsters)
                  _ (Goes-move_all fl step (get_player_position b.0) b.0.monster_world ok_b)
                  (λ r ok'.
                    let g = record (b.0) { monster_world = r.0 } in
                    Lasts-some g (move_calls fl r.1 g) ok' (world-move_calls fl r.1 g)))
                (λ c ok_c.
                  Lasts-bind (combat_update fl step c.0) _
                    (Lasts-combat_loop step c.0.monster_world.monsters c.0 (λ e h. h) ok_c)
                    (λ d ok_d. ((d.0, a.1 ++ (b.1 ++ (c.1 ++ d.1))), refl, ok_d)))))

  Lasts-monster_loops :
      (policy : List F → List F) (n : ℕ) (f : Field F)
      → IsWhole f.monster_world
      → Lasts (monster_loops fl policy n f)
  unfolding monster_loops
  Lasts-monster_loops policy zero f ok = (done f, refl, ok)
  Lasts-monster_loops policy (suc n) f ok =
      by_test Lasts (fle (monster_step fl) f.monster_acc) _ (some (done f))
        (join_lasts (tick_monsters fl (monster_step fl) policy f)
          (λ g.
            monster_loops fl policy n
              (record g { monster_acc = fsub g.monster_acc (monster_step fl) }))
          (Lasts-tick_monsters (monster_step fl) policy f ok)
          (λ g ok'.
            Lasts-monster_loops policy n
              (record g { monster_acc = fsub g.monster_acc (monster_step fl) }) ok'))
        (done f, refl, ok)

  Lasts-update_world :
      (policy : List F → List F) (dt : F) (f : Field F)
      → IsWhole f.monster_world
      → Lasts (update_world fl policy dt f)
  unfolding update_world
  Lasts-update_world policy dt f ok =
      let timed = record f {
        world_time = fadd f.world_time dt;
        player_acc = fadd f.player_acc dt;
      } in
      let walked = player_loops fl 5 timed in
      let ready = record (walked.0) { monster_acc = fadd walked.0.monster_acc dt } in
      by_test Lasts (fle dt (lit 0 1)) (some (done f)) _ (done f, refl, ok)
        (Lasts-bind (monster_loops fl policy 3 ready) _
          (Lasts-monster_loops policy 3 ready
            (subst IsWhole (sym (world-player_loops fl 5 timed)) ok))
          (λ r ok'. ((r.0, walked.1 ++ r.1), refl, ok')))

  enter_all :
      (f : Field F) (pid : ℕ) (es : List ℕ)
      → Listed es f.monster_world
      → IsWhole f.monster_world
      → (out : List (Effect F)) × (enter_monsters f pid es ≡ some out)
  unfolding enter_monsters
  enter_all f pid [] listed ok = ([], refl)
  enter_all f pid (e ∷ es) listed ok =
      let (m, at) = ok e (head-Listed e es f.monster_world listed) in
      let (rest, done_es) =
        enter_all f pid es (tail-Listed e es f.monster_world f.monster_world refl listed) ok in
      (
        _,
        ap
              (λ o. o >>= (λ n. enter_monsters f pid es >>= (λ r.
                some (Sending.send_field_enter f pid e true n.transform.x n.transform.y ++ r))))
              at
            ∙ ap
                (λ o. o >>= (λ r.
                  some (Sending.send_field_enter f pid e true m.transform.x m.transform.y ++ r)))
                done_es,
      )

  pub Lasts-joins :
      (f : Field F) (pid : ℕ) (o : Option (Player F))
      → IsWhole f.monster_world
      → Lasts (elim o as (λ x. Option (Run F)) [
        | none ↦ some (done f)
        | some p ↦ on_player_enter_field fl (record f { players = insert pid f.players }) pid p
      ])
  unfolding on_player_enter_field Sending.in_grid
  Lasts-joins f pid none ok = (done f, refl, ok)
  Lasts-joins f pid (some p) ok =
      let x = p.position.x in
      let y = p.position.y in
      let h = record f { players = insert pid f.players } in
      let r = Sending.in_grid h (λ s. add_entity fl s pid true x y) in
      let g = r.0 in
      let (monsters, at) = enter_all g pid g.monster_world.monsters (λ e k. k) ok in
      (
        (
          g,
          r.1
              ++ (Sending.send_field_enter g pid pid false x y
                  ++ (enter_others g pid g.players
                      ++ (monsters ++ tell_others g pid x y g.players))),
        ),
        ap
            (λ o. o >>= (λ ms. some (
              g,
              r.1
                  ++ (Sending.send_field_enter g pid pid false x y
                      ++ (enter_others g pid g.players ++ (ms ++ tell_others g pid x y g.players))),
            )))
            at,
        ok,
      )

  Lasts-use_skill :
      (pid target : ℕ) (f : Field F) → IsWhole f.monster_world → Lasts (use_skill fl pid target f)
  unfolding use_skill
  Lasts-use_skill pid target f ok =
      Lasts-goes f.monster_world (player_attack_monster fl f.monster_world target) _
        (Goes-player_attack_monster fl f.monster_world target ok)
        (λ a ok'.
          let g = record f { monster_world = a.0 } in
          Lasts-some g _ ok' (world-aoi_calls fl a.1.0 g))

module _ (fl : FloatArith) (codec : FieldCodec fl.F) (policy : List fl.F → List fl.F) where
  open fl use {F}

  Lasts-by_type :
      (player_id : ℕ → ℕ) (msg : NetMessage) (type : MessageType) (f : Field F)
      → IsWhole f.monster_world
      → Lasts (handle_by_type fl codec player_id msg type f)
  unfolding handle_by_type handle_skill handle_custom
  Lasts-by_type player_id msg skill_cmd_message f ok =
      skill (asker fl player_id msg.session) (codec.get_skill_cmd msg.payload)
    where
      skill :
          (session target : Option ℕ)
          → Lasts (elim session as (λ x. Option (Run F)) [
            | none ↦ some (done f)
            | some pid ↦ elim target as (λ x. Option (Run F)) [
              | none ↦ some (done f)
              | some t ↦ use_skill fl pid t f
            ]
          ])
      skill none target = (done f, refl, ok)
      skill (some pid) none = (done f, refl, ok)
      skill (some pid) (some t) = Lasts-use_skill fl pid t f ok
  Lasts-by_type player_id msg custom_message f ok =
      Lasts-some f _ ok (custom (codec.get_field_cmd msg.payload))
    where
      custom :
          (o : Option (FieldCmd F))
          → SameWorld f
              (elim o as (λ x. Run F) [
                | none ↦ done f
                | some cmd ↦ on_client_move_input fl f cmd (asker fl player_id msg.session)
              ]).0
      custom none = refl
      custom (some cmd) = world-on_client_move_input fl f cmd (asker fl player_id msg.session)
  Lasts-by_type player_id msg other_message f ok = (done f, refl, ok)

  Lasts-act : (a : Act F) (f : Field F) → IsWhole f.monster_world → Lasts (act fl codec policy a f)
  unfolding act handle_message add_player remove_player Sending.in_grid
  Lasts-act (ticks dt) f ok = Lasts-update_world fl policy dt f ok
  Lasts-act (receives player_id msg) f ok = Lasts-by_type player_id msg msg.type f ok
  Lasts-act (joins pid) f ok = Lasts-joins fl f pid (f.objects pid) ok
  Lasts-act (quits pid) f ok = (remove_player f pid, refl, ok)

  -- Where the monsters have their components, whatever happens to a field happens without an
  -- exception, and they still have them.
  pub Lasts-run_acts :
      (acts : List (Act F)) (f : Field F)
      → IsWhole f.monster_world
      → Lasts (run_acts fl codec policy acts f)
  unfolding run_acts
  Lasts-run_acts [] f ok = (done f, refl, ok)
  Lasts-run_acts (a ∷ acts) f ok =
      join_lasts (act fl codec policy a f) (run_acts fl codec policy acts) (Lasts-act a f ok)
        (λ g ok'. Lasts-run_acts acts g ok')
