-- ===== src/Field/Places.antt =====
-- worker/fieldWorker.cpp over field/: the players of a field and its grid.
use mathlib.Core.Path.{subst}
use mmorpg_server_rl_portfol.Prelude.{
  ℕ, zero, suc, nat_eq, ◌==◌, ◌≡◌, ◌∙◌, refl, sym, ap, inl, inr, Bool-cases, true, not, ◌&&◌, List,
  [], ◌∷◌, Option, none, some, contains, update, update_self, if_true, if_false, by_test, eq_of_beq,
  beq_refl, arith, FloatArith,
}
use mmorpg_server_rl_portfol.Game.Player.{Player, set_pos}
use mmorpg_server_rl_portfol.Aoi.Types.{Entity}
use mmorpg_server_rl_portfol.Aoi.System.{FieldAoiSystem, move_entity, deliver}
use mmorpg_server_rl_portfol.Aoi.Moves.{move_entity-Settles}
use mmorpg_server_rl_portfol.Aoi.Visibility.{IsExact}
use mmorpg_server_rl_portfol.Aoi.Reach.{moves-IsExact}
use mmorpg_server_rl_portfol.Field.Types.{Field, Run, done, put_player}
use mmorpg_server_rl_portfol.Field.Sending.{in_grid}
use mmorpg_server_rl_portfol.Field.Worker.{player_loops, player_step}
use mmorpg_server_rl_portfol.Field.Players.{
  mark_dirty_state, mark_dirty_pos_if_needed, is_walkable, walk, tick_player, tick_found, tick_loop,
  tick_players, stopped,
}

module _ {F : Type 0} where
  -- The grid has the entity where the player object says.
  abbrev pub StandsAt : FieldAoiSystem F → ℕ → Player F → Type 0
  StandsAt s id p =
      (e : Entity F) × (s.aoi.entities id ≡ some e)
      × (e.pos.x ≡ p.position.x)
      × (e.pos.y ≡ p.position.y)

  -- The lists of watchers are exact, and every player of the field is in the grid at its own place.
  pub record Agrees (f : Field F) : Type 0 where
    pub exact : IsExact f.aoi_system
    pub places :
        (id : ℕ) (p : Player F)
        → contains id f.players ≡ true
        → f.objects id ≡ some p
        → StandsAt f.aoi_system id p

  -- The field agrees, with the same players.
  abbrev pub Walked : Field F → Run F → Type 0
  Walked f r = Agrees r.0 × (r.0.players ≡ f.players)

  pub held : (o : Option (Player F)) (p q : Player F) → o ≡ some p → o ≡ some q → p ≡ q
  held o p q h k =
      ap (λ (x : Option (Player F)). elim x as (λ y. Player F) [ none ↦ p | some r ↦ r ])
        (sym h ∙ k)

  -- An object written again at the same place.
  pub Agrees-put :
      (f : Field F) (key : ℕ) (p q : Player F)
      → f.objects key ≡ some p
      → q.position ≡ p.position
      → Agrees f
      → Agrees (put_player f key q)
  unfolding update
  Agrees-put f key p q at same ok = record {
    exact = ok.exact;
    places = λ id r listed found. elim (Bool-cases (id == key)) [
      | inl here ↦
          let mine : q ≡ r =
            held (some q) q r refl (sym (if_true (some q) (f.objects id) here) ∙ found) in
          let old = ok.places id p listed (ap f.objects (eq_of_beq id key here) ∙ at) in
          subst (StandsAt f.aoi_system id) mine
            (old.0, old.1, old.2 ∙ ap (λ v. v.x) (sym same), old.3 ∙ ap (λ v. v.y) (sym same))
      | inr there ↦ ok.places id r listed (sym (if_false (some q) (f.objects id) there) ∙ found)
    ];
  }

  Agrees-mark_dirty_state :
      (f : Field F) (key : ℕ) (p : Player F)
      → f.objects key ≡ some p
      → Agrees f
      → Agrees (mark_dirty_state f key p).0
  unfolding mark_dirty_state
  Agrees-mark_dirty_state f key p at ok =
      let put = Agrees-put f key p (record p { last_dirty_mark_time = f.world_time }) at refl ok in
      record { exact = put.exact; places = put.places }

module _ (fl : FloatArith) where
  open fl use {F, fadd, fsub, fmul, flt, lit}

  Agrees-walked :
      (f : Field F) (pid : ℕ) (p : Player F) (x y : F)
      → contains pid f.players ≡ true
      → f.objects pid ≡ some p
      → Agrees f
      → Agrees (in_grid (put_player f pid (set_pos p x y)) (λ s. move_entity fl s pid x y)).0
  unfolding in_grid update move_entity deliver set_pos
  Agrees-walked f pid p x y listed at ok =
      let s = f.aoi_system in
      let p' = set_pos p x y in
      let (e, here, at_x, at_y) = ok.places pid p listed at in
      let settled =
        move_entity-Settles fl s.aoi pid ok.exact.consistent (record { x = x; y = y }) e here in
      record {
        exact = moves-IsExact fl s pid x y ok.exact;
        places = λ id r among found. elim (Bool-cases (id == pid)) [
          | inl same ↦
              let mine : p' ≡ r =
                held (some p') p' r refl (sym (if_true (some p') (f.objects id) same) ∙ found) in
              subst (StandsAt (move_entity fl s pid x y).0 id) mine
                (_, settled.maps id ∙ if_true _ (s.aoi.entities id) same, refl, refl)
          | inr other ↦
              let (d, there, at_x', at_y') =
                ok.places id r among (sym (if_false (some p') (f.objects id) other) ∙ found) in
              (d, settled.maps id ∙ if_false _ (s.aoi.entities id) other ∙ there, at_x', at_y')
        ];
      }

  Walked-walk :
      (step : F) (f : Field F) (pid : ℕ) (p : Player F)
      → contains pid f.players ≡ true
      → f.objects pid ≡ some p
      → Agrees f
      → Walked f (walk fl step f pid p)
  unfolding walk is_walkable mark_dirty_pos_if_needed in_grid
  Walked-walk step f pid p listed at ok =
      let x = fadd p.position.x (fmul (fmul p.move_state.dir.x p.move_state.speed) step) in
      let y = fadd p.position.y (fmul (fmul p.move_state.dir.y p.move_state.speed) step) in
      let p' = set_pos p x y in
      let g = (in_grid (put_player f pid p') (λ s. move_entity fl s pid x y)).0 in
      let ok_g : Agrees g = Agrees-walked f pid p x y listed at ok in
      by_test (Walked f) _ (done g) _ (ok_g, refl)
        (by_test (Walked f) _ (done g) (mark_dirty_state g pid p') (ok_g, refl)
          (Agrees-mark_dirty_state g pid p' (update_self f.objects pid (some p')) ok_g, refl))

  Walked-tick_player :
      (step : F) (f : Field F) (pid : ℕ) (p : Player F)
      → contains pid f.players ≡ true
      → f.objects pid ≡ some p
      → Agrees f
      → Walked f (tick_player fl step f pid p)
  unfolding tick_player mark_dirty_state
  Walked-tick_player step f pid p listed at ok =
      let p' = record p { move_state = stopped fl p.move_state } in
      let halted = put_player f pid p' in
      by_test (Walked f)
        (p.move_state.moving && flt (lit 5 10) (fsub f.world_time p.move_state.last_input_time)) _ _
        (
          Agrees-mark_dirty_state halted pid p' (update_self f.objects pid (some p'))
              (Agrees-put f pid p p' at refl ok),
          refl,
        )
        (by_test (Walked f) (not p.move_state.moving) (done f) (walk fl step f pid p) (ok, refl)
          (Walked-walk step f pid p listed at ok))

  Walked-tick_found :
      (step : F) (f : Field F) (pid : ℕ) (o : Option (Player F))
      → contains pid f.players ≡ true
      → f.objects pid ≡ o
      → Agrees f
      → Walked f (tick_found fl step f pid o)
  unfolding tick_found
  Walked-tick_found step f pid none listed at ok = (ok, refl)
  Walked-tick_found step f pid (some p) listed at ok = Walked-tick_player step f pid p listed at ok

  Walked-tick_loop :
      (step : F) (pids : List ℕ) (f : Field F)
      → ((id : ℕ) → contains id pids ≡ true → contains id f.players ≡ true)
      → Agrees f
      → Walked f (tick_loop fl step pids f)
  unfolding tick_loop contains
  Walked-tick_loop step [] f listed ok = (ok, refl)
  Walked-tick_loop step (pid ∷ pids) f listed ok =
      let r = tick_found fl step f pid (f.objects pid) in
      let (ok_r, same) =
        Walked-tick_found step f pid (f.objects pid) (listed pid (ground (arith, beq_refl pid)))
          refl ok in
      let (ok_s, same') =
        Walked-tick_loop step pids r.0
          (λ id h. ap (contains id) same ∙ listed id (ground (arith, h))) ok_r in
      (ok_s, same' ∙ same)

  pub Agrees-player_loops : (n : ℕ) (f : Field F) → Agrees f → Agrees (player_loops fl n f).0
  unfolding player_loops tick_players
  Agrees-player_loops zero f ok = ok
  Agrees-player_loops (suc n) f ok =
      let ticked = tick_players fl (player_step fl) f in
      let spent = record (ticked.0) { player_acc = fsub ticked.0.player_acc (player_step fl) } in
      let ok_t = (Walked-tick_loop (player_step fl) f.players f (λ id h. h) ok).0 in
      by_test (λ (r : Run F). Agrees r.0) (fl.fle (player_step fl) f.player_acc) _ (done f)
        (Agrees-player_loops n spent (record { exact = ok_t.exact; places = ok_t.places })) ok
