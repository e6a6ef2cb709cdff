-- ===== src/Field/Presence.antt =====
-- worker/fieldWorker.cpp: who is in a field is in its grid, from an empty field on.
use mathlib.Core.Path.{subst}
use mmorpg_server_rl_portfol.Prelude.{
  ℕ, ℤ, pos, nat_eq, ◌==◌, ◌≡◌, ◌∙◌, refl, sym, ap, inl, inr, Bool, Bool-cases, true, false, not,
  ◌&&◌, List, Option, none, some, contains, contains-insert, contains-erase, insert, if_true,
  if_false, eq_of_beq, arith, FloatArith,
}
use mmorpg_server_rl_portfol.Game.Player.{Player}
use mmorpg_server_rl_portfol.Monster.World.{◌>>=◌}
use mmorpg_server_rl_portfol.Aoi.Types.{AoiVec2}
use mmorpg_server_rl_portfol.Aoi.System.{add_entity, remove_entity, deliver}
use mmorpg_server_rl_portfol.Aoi.Preserve.{add_entity-Settles}
use mmorpg_server_rl_portfol.Aoi.Exact.{add_entity-IsExact}
use mmorpg_server_rl_portfol.Aoi.Reach.{start, start-IsExact, remove_entity-IsExact}
use mmorpg_server_rl_portfol.Storage.DirtyHub.{DirtyHub}
use mmorpg_server_rl_portfol.Field.Types.{Field, Run, Effect, done}
use mmorpg_server_rl_portfol.Field.Sending.{in_grid}
use mmorpg_server_rl_portfol.Field.Worker.{player_loops, empty_field, use_skill, spawn_monster}
use mmorpg_server_rl_portfol.Field.Monsters.{ai_system, movement_system, combat_update}
use mmorpg_server_rl_portfol.Field.Courses.{Agrees-input}
use mmorpg_server_rl_portfol.Field.Roaming.{others_stay, landed, Walked-spawned}
use mmorpg_server_rl_portfol.Field.Roaming.Walks.{AreApart, Lands-movement_system}
use mmorpg_server_rl_portfol.Field.Roaming.Fights.{
  Agrees-world, Lands-use_skill, Lands-ai_system, Lands-combat_update,
}
use mmorpg_server_rl_portfol.Field.Players.{
  FieldCmd, on_client_move_input, add_player, remove_player, on_player_enter_field, enter_monsters,
}
use mmorpg_server_rl_portfol.Field.Places.{Agrees, StandsAt, Agrees-player_loops, held}

module _ {F : Type 0} where
  Agrees-quits : (f : Field F) (pid : ℕ) → Agrees f → Agrees (remove_player f pid).0
  unfolding remove_player in_grid remove_entity deliver
  Agrees-quits f pid ok = record {
    exact = remove_entity-IsExact f.aoi_system pid ok.exact;
    places = λ id p listed found.
        let before : (not (id == pid) && contains id f.players) ≡ true =
          sym (contains-erase id pid f.players) ∙ listed in
        let apart : (id == pid) ≡ false = ground arith in
        let among : contains id f.players ≡ true = ground arith in
        let (e, here, at_x, at_y) = ok.places id p among found in
        (e, others_stay f.aoi_system.aoi pid id ok.exact.consistent apart ∙ here, at_x, at_y);
  }

module _ (fl : FloatArith) where
  open fl use {F}

  -- The id is new to the grid: not in it, and in no list of watchers.
  abbrev pub IsNew : Field F → ℕ → Type 0
  IsNew f pid =
      (f.aoi_system.aoi.entities pid ≡ none)
      × ((t : ℕ) → contains pid (f.aoi_system.watchers t) ≡ false)

  Agrees-arrived :
      (f : Field F) (pid : ℕ) (p : Player F)
      → IsNew f pid
      → f.objects pid ≡ some p
      → Agrees f
      → Agrees
          (in_grid
            (record f { players = insert pid f.players })
            (λ s. add_entity fl s pid true p.position.x p.position.y)).0
  unfolding in_grid add_entity deliver
  Agrees-arrived f pid p (absent, unknown) at ok =
      let s = f.aoi_system in
      let place : AoiVec2 F = record { x = p.position.x; y = p.position.y } in
      let (subs, settled) = add_entity-Settles fl s.aoi pid ok.exact.consistent place absent true in
      record {
        exact = add_entity-IsExact fl s pid ok.exact p.position.x p.position.y absent unknown true;
        places = λ id q listed found. elim (Bool-cases (id == pid)) [
          | inl same ↦
              let mine : p ≡ q =
                held (f.objects id) p q (ap f.objects (eq_of_beq id pid same) ∙ at) found in
              subst (StandsAt (add_entity fl s pid true p.position.x p.position.y).0 id) mine
                (_, settled.maps id ∙ if_true _ (s.aoi.entities id) same, refl, refl)
          | inr other ↦
              let among : contains id f.players ≡ true =
                ground (arith, contains-insert id pid f.players) in
              let (e, here, at_x, at_y) = ok.places id q among found in
              (e, settled.maps id ∙ if_false _ (s.aoi.entities id) other ∙ here, at_x, at_y)
        ];
      }

  -- The field that `on_player_enter_field` leaves, if it does not throw.
  pub entered_field :
      (f g : Field F) (pid : ℕ) (p : Player F) (o : Option (List (Effect F)))
      (out : List (Effect F) → List (Effect F)) (r : Run F)
      → (o >>= (λ monsters. some (g, out monsters))) ≡ some r
      → r.0 ≡ g
  entered_field f g pid p none out r same = absurd cc
  entered_field f g pid p (some monsters) out r same =
      ap (λ (x : Option (Run F)). elim x as (λ y. Field F) [ none ↦ g | some q ↦ q.0 ]) (sym same)

  pub Agrees-joins :
      (f : Field F) (pid : ℕ) (r : Run F) (o : Option (Player F))
      → f.objects pid ≡ o
      → IsNew f pid
      → (elim o as (λ x. Option (Run F)) [
        | none ↦ some (done f)
        | some p ↦ on_player_enter_field fl (record f { players = insert pid f.players }) pid p
      ])
        ≡ some r
      → Agrees f
      → Agrees r.0
  unfolding on_player_enter_field
  Agrees-joins f pid r none at new same ok =
      subst Agrees
        (ap (λ (x : Option (Run F)). elim x as (λ y. Field F) [ none ↦ f | some q ↦ q.0 ]) same) ok
  Agrees-joins f pid r (some p) at new same ok =
      let h = record f { players = insert pid f.players } in
      let g = (in_grid h (λ s. add_entity fl s pid true p.position.x p.position.y)).0 in
      subst Agrees
        (sym (entered_field h g pid p (enter_monsters g pid g.monster_world.monsters) _ r same))
        (Agrees-arrived f pid p new at ok)

  -- What players and monsters do in a field. Players walk while the clock goes on, as in
  -- `update_world`, steer, join under a new id, use skills on
  -- what is no player, and leave; monsters are made under a new id, and the AI, the movement and the
  -- combat run on them while no monster has the id of a player.
  pub data Visits (f : Field F) : Field F → Type 0 where
    stands : Visits f f
    walks :
        {g : Field F} (dt : F)
        → Visits f g
        → Visits f
            (player_loops fl 5 (record g {
              world_time = fl.fadd g.world_time dt;
              player_acc = fl.fadd g.player_acc dt;
            })).0
    steers :
        {g : Field F} (cmd : FieldCmd F) (player_id : ℕ)
        → Visits f g
        → Visits f (on_client_move_input fl g cmd (some player_id)).0
    joins :
        {g : Field F} (pid : ℕ) (r : Run F)
        → IsNew g pid
        → add_player fl g pid ≡ some r
        → Visits f g
        → Visits f r.0
    quits : {g : Field F} (pid : ℕ) → Visits f g → Visits f (remove_player g pid).0
    strikes :
        {g : Field F} (pid target : ℕ) (r : Run F)
        → contains target g.players ≡ false
        → use_skill fl pid target g ≡ some r
        → Visits f g
        → Visits f r.0
    hatches :
        {g : Field F} (make_database_id : ℕ → ℕ) (i : ℕ)
        → IsNew g (make_database_id i)
        → contains (make_database_id i) g.players ≡ false
        → Visits f g
        → Visits f (spawn_monster fl make_database_id i g).0
    thinks :
        {g : Field F} (dt : F) (policy : List F → List F) (r : Run F)
        → ai_system fl dt policy g ≡ some r
        → Visits f g
        → Visits f r.0
    roams :
        {g : Field F} (dt : F) (r : Run F)
        → AreApart fl g
        → movement_system fl dt g ≡ some r
        → Visits f g
        → Visits f r.0
    fights :
        {g : Field F} (dt : F) (r : Run F)
        → combat_update fl dt g ≡ some r
        → Visits f g
        → Visits f r.0

  Visits-keeps_Agrees : (f : Field F) {g : Field F} → Agrees f → Visits f g → Agrees g
  unfolding add_player spawn_monster
  Visits-keeps_Agrees f ok stands = ok
  Visits-keeps_Agrees f ok (walks dt v) =
      let before = Visits-keeps_Agrees f ok v in
      Agrees-player_loops fl 5 _ (record { exact = before.exact; places = before.places })
  Visits-keeps_Agrees f ok (steers cmd player_id v) =
      Agrees-input fl _ cmd player_id (Visits-keeps_Agrees f ok v)
  Visits-keeps_Agrees f ok (joins {g} pid r new same v) =
      Agrees-joins g pid r (g.objects pid) refl new same (Visits-keeps_Agrees f ok v)
  Visits-keeps_Agrees f ok (quits pid v) = Agrees-quits _ pid (Visits-keeps_Agrees f ok v)
  Visits-keeps_Agrees f ok (strikes {g} pid target r other same v) =
      (landed g _ r (Lands-use_skill fl pid target g other (Visits-keeps_Agrees f ok v)) same).0
  Visits-keeps_Agrees f ok (hatches {g} make_database_id i (absent, unknown) other v) =
      (Walked-spawned fl _ (make_database_id i) _ _ other absent unknown
        (Agrees-world g _ (Visits-keeps_Agrees f ok v))).0
  Visits-keeps_Agrees f ok (thinks {g} dt policy r same v) =
      (landed g _ r (Lands-ai_system fl dt policy g (Visits-keeps_Agrees f ok v)) same).0
  Visits-keeps_Agrees f ok (roams {g} dt r apart same v) =
      (landed g _ r (Lands-movement_system fl dt g apart (Visits-keeps_Agrees f ok v)) same).0
  Visits-keeps_Agrees f ok (fights {g} dt r same v) =
      (landed g _ r (Lands-combat_update fl dt g (Visits-keeps_Agrees f ok v)) same).0

  pub Visits-Agrees :
      (field_id : ℤ) (hub : DirtyHub) (has_session registered : ℕ → Bool)
      (objects : ℕ → Option (Player F)) {g : Field F}
      → Visits (record (empty_field fl field_id hub has_session registered) { objects = objects }) g
      → Agrees g
  unfolding empty_field start contains
  Visits-Agrees field_id hub has_session registered objects v =
      Visits-keeps_Agrees
        (record (empty_field fl field_id hub has_session registered) { objects = objects })
        (record {
          exact = start-IsExact fl field_id (fl.lit 15 1) (pos 2);
          places = λ id p listed found. absurd (ground arith);
        })
        v
