-- ===== src/Field/Inputs.antt =====
-- worker/fieldWorker.cpp: what the input of a client may change.
use mmorpg_server_rl_portfol.Prelude.{
  ℕ, nat_eq, ◌==◌, ◌≡◌, ◌≢◌, ◌∙◌, refl, sym, ap, inl, inr, Bool-cases, true, not, Option, none,
  some, update, if_true, if_false, by_test, beq_ne, eq_of_beq, FloatArith, List, [], contains,
  update_self,
}
use mathlib.Core.Path.{subst}
use mmorpg_server_rl_portfol.Game.Player.{Player, PlayerMoveState}
use mmorpg_server_rl_portfol.Field.Types.{Field, Run, Effect, done, put_player, find_player}
use mmorpg_server_rl_portfol.Field.Players.{
  FieldCmd, steer, steer_towards, steer_found, on_client_move_input, is_move,
}

module _ {F : Type 0} where
  -- Only the object of one player may differ, and of it only how it moves.
  pub record Steers (f : Field F) (id : ℕ) (r : Run F) : Type 0 where
    pub rest : r.0 ≡ record f { objects = r.0.objects }
    pub others : (j : ℕ) → j ≢ id → r.0.objects j ≡ f.objects j
    pub own :
        (p : Player F)
        → find_player f id ≡ some p
        → (q : Player F) × (find_player r.0 id ≡ some q)
          × (record q { move_state = p.move_state } ≡ p)

  Steers-done : (f : Field F) (id : ℕ) → Steers f id (done f)
  Steers-done f id = record {
    rest = refl;
    others = λ j apart. refl;
    own = λ p found. (p, found, refl);
  }

  same_player : (o : Option (Player F)) (p q : Player F) → o ≡ some p → o ≡ some q → p ≡ q
  same_player o p q h k =
      ap (λ (x : Option (Player F)). elim x as (λ y. Player F) [ none ↦ p | some r ↦ r ])
        (sym h ∙ k)

  -- The object with another move.
  Steers-put :
      (f : Field F) (id : ℕ) (p : Player F) (mv : PlayerMoveState F) (out : List (Effect F))
      → find_player f id ≡ some p
      → Steers f id (put_player f id (record p { move_state = mv }), out)
  unfolding update find_player
  Steers-put f id p mv out found =
      let q = record p { move_state = mv } in
      let here : contains id f.players ≡ true = elim (Bool-cases (contains id f.players)) [
        | inl listed ↦ listed
        | inr gone ↦ absurd (let missing = sym (if_false (f.objects id) none gone) ∙ found in cc)
      ] in
      record {
        rest = refl;
        others = λ j apart. if_false (some q) (f.objects j) (beq_ne j id apart);
        own = λ p' found'. (
          q,
          if_true (update f.objects id (some q) id) none here ∙ update_self f.objects id (some q),
          ap (λ (r : Player F). record p { move_state = r.move_state })
                (sym (same_player (find_player f id) p p' found found'))
              ∙ same_player (find_player f id) p p' found found',
        );
      }

module _ (fl : FloatArith) where
  open fl use {F}

  Steers-steer :
      (f : Field F) (id : ℕ) (p : Player F) (d : F × F)
      → find_player f id ≡ some p
      → Steers f id (steer fl f id p d)
  unfolding steer
  Steers-steer f id p (dx, dy) found =
      let len2 = fl.fadd (fl.fmul dx dx) (fl.fmul dy dy) in
      by_test (Steers f id) (fl.flt len2 (fl.lit 1 10000)) _ _
        (by_test (Steers f id) (not p.move_state.moving) _ _ (Steers-put f id p _ [] found)
          (Steers-put f id p _ _ found))
        (Steers-put f id p _ _ found)

  Steers-found :
      (f : Field F) (cmd : FieldCmd F) (o : Option (Player F)) (d : Option (F × F))
      → find_player f cmd.entity_id ≡ o
      → Steers f cmd.entity_id (steer_found fl f (record cmd { dir = d }) o)
  unfolding steer_found steer_towards
  Steers-found f cmd none d found = Steers-done f cmd.entity_id
  Steers-found f cmd (some p) none found = Steers-done f cmd.entity_id
  Steers-found f cmd (some p) (some v) found = Steers-steer f cmd.entity_id p v found

  -- What a client sends as input changes at most how its own player moves: not where the player
  -- stands, not its points, nothing of another player and nothing else of the field.
  pub on_client_move_input-Steers :
      (f : Field F) (cmd : FieldCmd F) (player_id : ℕ)
      → Steers f player_id (on_client_move_input fl f cmd (some player_id))
  unfolding on_client_move_input
  on_client_move_input-Steers f cmd player_id = elim (Bool-cases (player_id == cmd.entity_id)) [
    | inl same ↦
        subst (λ id. Steers f id (on_client_move_input fl f cmd (some player_id)))
          (sym (eq_of_beq player_id cmd.entity_id same))
          (by_test (Steers f cmd.entity_id) (not (player_id == cmd.entity_id)) (done f) _
            (Steers-done f cmd.entity_id)
            (by_test (Steers f cmd.entity_id) (not (is_move cmd.type)) (done f) _
              (Steers-done f cmd.entity_id)
              (Steers-found f cmd (find_player f cmd.entity_id) cmd.dir refl)))
    | inr other ↦
        subst (Steers f player_id) (sym (if_true (done f) _ (ap not other)))
          (Steers-done f player_id)
  ]
