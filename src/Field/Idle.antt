-- ===== src/Field/Idle.antt =====
-- worker/fieldWorker.cpp: a player whose client has fallen silent stops.
use mathlib.Core.Path.{subst}
use mmorpg_server_rl_portfol.Prelude.{
  ℕ, nat_eq, ◌==◌, ◌≡◌, ◌∙◌, refl, sym, ap, inl, inr, Bool, Bool-cases, true, false, not, ◌&&◌,
  List, [], ◌∷◌, Option, none, some, contains, update, update_self, if_true, if_false, by_test,
  eq_of_beq, arith, FloatArith,
}
use mmorpg_server_rl_portfol.Game.Player.{Player, PlayerMoveState, set_pos}
use mmorpg_server_rl_portfol.Aoi.System.{move_entity}
use mmorpg_server_rl_portfol.Field.Types.{Field, Run, done, put_player}
use mmorpg_server_rl_portfol.Field.Sending.{in_grid}
use mmorpg_server_rl_portfol.Field.Players.{
  mark_dirty_state, mark_dirty_pos_if_needed, is_walkable, walk, tick_player, tick_found, tick_loop,
  tick_players, stopped,
}

module _ {F : Type 0} where
  -- Only the object under an id may differ, and the time is the same.
  record Alone (f : Field F) (id : ℕ) (g : Field F) : Type 0 where
    others : (j : ℕ) → (j == id) ≡ false → g.objects j ≡ f.objects j
    time : g.world_time ≡ f.world_time

  Alone-done : (f : Field F) (id : ℕ) → Alone f id f
  Alone-done f id = record { others = λ j apart. refl; time = refl }

  -- The object under an id, written once more.
  Alone-again :
      (f g : Field F) (id : ℕ) (q : Player F) → Alone f id g → Alone f id (put_player g id q)
  unfolding update
  Alone-again f g id q a = record {
    others = λ j apart. if_false (some q) (g.objects j) apart ∙ a.others j apart;
    time = a.time;
  }

module _ (fl : FloatArith) where
  open fl use {F, lit, fsub, fadd, fmul, flt}

  Alone-mark_dirty_state :
      (f g : Field F) (key : ℕ) (p : Player F)
      → Alone f key g
      → Alone f key (mark_dirty_state g key p).0
  unfolding mark_dirty_state
  Alone-mark_dirty_state f g key p a =
      let again = Alone-again f g key (record p { last_dirty_mark_time = g.world_time }) a in
      record { others = again.others; time = again.time }

  Alone-walk :
      (step : F) (f : Field F) (pid : ℕ) (p : Player F) → Alone f pid (walk fl step f pid p).0
  unfolding walk in_grid is_walkable mark_dirty_pos_if_needed set_pos update
  Alone-walk step f pid p =
      let x = fadd p.position.x (fmul (fmul p.move_state.dir.x p.move_state.speed) step) in
      let y = fadd p.position.y (fmul (fmul p.move_state.dir.y p.move_state.speed) step) in
      let p' = set_pos p x y in
      let g = (in_grid (put_player f pid p') (λ s. move_entity fl s pid x y)).0 in
      let at_g : Alone f pid g = record {
        others = λ j apart. if_false (some p') (f.objects j) apart;
        time = refl;
      } in
      by_test (λ (r : Run F). Alone f pid r.0) _ (done g) _ at_g
        (by_test (λ (r : Run F). Alone f pid r.0) _ (done g) (mark_dirty_state g pid p') at_g
          (Alone-mark_dirty_state f g pid p' at_g))

  -- The test of the code: it moves, and its last input is too old.
  abbrev pub is_silent : Field F → Player F → Bool
  is_silent f p =
      p.move_state.moving && flt (lit 5 10) (fsub f.world_time p.move_state.last_input_time)

  Alone-tick_player :
      (step : F) (f : Field F) (pid : ℕ) (p : Player F)
      → Alone f pid (tick_player fl step f pid p).0
  unfolding tick_player
  Alone-tick_player step f pid p =
      let p' = record p { move_state = stopped fl p.move_state } in
      let halted = put_player f pid p' in
      by_test (λ (r : Run F). Alone f pid r.0) (is_silent f p) _ _
        (Alone-mark_dirty_state f halted pid p' (Alone-again f f pid p' (Alone-done f pid)))
        (by_test (λ (r : Run F). Alone f pid r.0) (not p.move_state.moving) (done f)
          (walk fl step f pid p) (Alone-done f pid) (Alone-walk step f pid p))

  Alone-tick_found :
      (step : F) (f : Field F) (pid : ℕ) (o : Option (Player F))
      → Alone f pid (tick_found fl step f pid o).0
  unfolding tick_found
  Alone-tick_found step f pid none = Alone-done f pid
  Alone-tick_found step f pid (some p) = Alone-tick_player step f pid p

  -- The player stands still where it stood.
  abbrev pub HasStopped : Field F → ℕ → Player F → Type 0
  HasStopped g pid p =
      (q : Player F) × (g.objects pid ≡ some q)
      × (q.move_state ≡ stopped fl p.move_state)
      × (q.position ≡ p.position)

  stops :
      (step : F) (f : Field F) (pid : ℕ) (p : Player F)
      → is_silent f p ≡ true
      → HasStopped (tick_player fl step f pid p).0 pid p
  unfolding tick_player mark_dirty_state
  stops step f pid p silent =
      let p' = record p { move_state = stopped fl p.move_state } in
      let q = record p' { last_dirty_mark_time = f.world_time } in
      let halted = put_player f pid p' in
      subst (λ (r : Run F). HasStopped r.0 pid p) (sym (if_true _ _ silent))
        (q, update_self (update f.objects pid (some p')) pid (some q), refl, refl)

  -- Standing, it goes on standing.
  stays :
      (step : F) (f : Field F) (pid : ℕ) (p q : Player F)
      → q.move_state ≡ stopped fl p.move_state
      → tick_player fl step f pid q ≡ done f
  unfolding tick_player
  stays step f pid p q still =
      if_false _ _ (
        ap
          (λ (mv : PlayerMoveState F).
            mv.moving && flt (lit 5 10) (fsub f.world_time mv.last_input_time))
          still)
      ∙ if_true _ _ (ap (λ (mv : PlayerMoveState F). not mv.moving) still)

  loop_stays :
      (step : F) (pids : List ℕ) (f : Field F) (pid : ℕ) (p : Player F)
      → HasStopped f pid p
      → HasStopped (tick_loop fl step pids f).0 pid p
  unfolding tick_loop tick_found
  loop_stays step [] f pid p h = h
  loop_stays step (k ∷ pids) f pid p (q, at, still, place) = elim (Bool-cases (pid == k)) [
    | inl same ↦
        let at_k : f.objects k ≡ some q = ap f.objects (sym (eq_of_beq pid k same)) ∙ at in
        let ticked : tick_found fl step f k (f.objects k) ≡ done f =
          ap (tick_found fl step f k) at_k ∙ stays step f k p q still in
        subst (λ (r : Run F). HasStopped (tick_loop fl step pids r.0).0 pid p) (sym ticked)
          (loop_stays step pids f pid p (q, at, still, place))
    | inr other ↦
        let r = tick_found fl step f k (f.objects k) in
        loop_stays step pids r.0 pid p
          (q, (Alone-tick_found step f k (f.objects k)).others pid other ∙ at, still, place)
  ]

  loop_stops :
      (step : F) (pids : List ℕ) (f : Field F) (pid : ℕ) (p : Player F)
      → contains pid pids ≡ true
      → f.objects pid ≡ some p
      → is_silent f p ≡ true
      → HasStopped (tick_loop fl step pids f).0 pid p
  unfolding tick_loop contains tick_found
  loop_stops step [] f pid p listed at silent = absurd (ground arith)
  loop_stops step (k ∷ pids) f pid p listed at silent = elim (Bool-cases (pid == k)) [
    | inl same ↦
        let at_k : f.objects k ≡ some p = ap f.objects (sym (eq_of_beq pid k same)) ∙ at in
        let now : HasStopped (tick_found fl step f k (f.objects k)).0 pid p =
          subst (λ o. HasStopped (tick_found fl step f k o).0 pid p) (sym at_k)
            (subst (λ id. HasStopped (tick_player fl step f k p).0 id p)
              (sym (eq_of_beq pid k same)) (stops step f k p silent)) in
        loop_stays step pids (tick_found fl step f k (f.objects k)).0 pid p now
    | inr other ↦
        let r = tick_found fl step f k (f.objects k) in
        let alone = Alone-tick_found step f k (f.objects k) in
        loop_stops step pids r.0 pid p (ground arith) (alone.others pid other ∙ at) (
          ap (λ t. p.move_state.moving && flt (lit 5 10) (fsub t p.move_state.last_input_time))
            alone.time
          ∙ silent)
  ]

  -- A player of the field that moves, with its last input longer ago than the code allows, stands
  -- still after the next tick, at the place where it was.
  pub tick_players-stops :
      (step : F) (f : Field F) (pid : ℕ) (p : Player F)
      → contains pid f.players ≡ true
      → f.objects pid ≡ some p
      → is_silent f p ≡ true
      → HasStopped (tick_players fl step f).0 pid p
  unfolding tick_players
  tick_players-stops step f pid p listed at silent =
      loop_stops step f.players f pid p listed at silent
