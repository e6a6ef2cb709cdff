-- ===== src/Field/Roaming.antt =====
-- worker/fieldWorker.cpp: the monsters of a field spawn, think, walk, fight and fall, and its players
-- are in the grid at their own places as before.
pub mod Walks
pub mod Fights
use mmorpg_server_rl_portfol.Prelude.{
  ℕ, ℤ, nat_eq, ◌==◌, ◌≡◌, ◌∙◌, refl, sym, ap, inl, inr, Bool, Bool-cases, Option-cases, true,
  false, not, List, [], ◌∷◌, ◌++◌, Option, none, some, contains, if◌then◌else◌, if_true, if_false,
  by_test, eq_of_beq, beq_refl, arith, FloatArith,
}
use mathlib.Core.Path.{subst}
use mmorpg_server_rl_portfol.Game.Player.{Player, PlayerStat, set_hp, set_sp}
use mmorpg_server_rl_portfol.Monster.World.{
  Monster, MonsterWorld, set_monster, AoiCall, remove_from_aoi, attack_loop, attack_found,
  player_attack_monster, strike, ◌>>=◌,
}
use mmorpg_server_rl_portfol.Monster.Movement.{
  MoveCall, move_in_aoi, move_loop, move_found, move_one, move_one-IsReported,
}
use mmorpg_server_rl_portfol.Monster.Combat.{
  CombatCall, combat_one-cases, attack_player, attack_stats, damaged, mark_player_dirty,
  broadcast_combat, broadcast_player_stat, broadcast_player_dead,
}
use mmorpg_server_rl_portfol.Aoi.Types.{AoiVec2, AoiWorld}
use mmorpg_server_rl_portfol.Aoi.World as World
use mmorpg_server_rl_portfol.Aoi.System.{
  add_entity, move_entity, remove_entity, deliver, record_events,
}
use mmorpg_server_rl_portfol.Aoi.Invariant.{IsConsistent}
use mmorpg_server_rl_portfol.Aoi.Preserve.{add_entity-Settles, remove_entity-Settles}
use mmorpg_server_rl_portfol.Aoi.Moves.{move_entity-Settles}
use mmorpg_server_rl_portfol.Aoi.Exact.{add_entity-IsExact}
use mmorpg_server_rl_portfol.Aoi.ExactMoves.{move_entity_absent}
use mmorpg_server_rl_portfol.Aoi.Reach.{moves-IsExact, remove_entity-IsExact}
use mmorpg_server_rl_portfol.Field.Types.{Field, Run, done, find_player, put_player}
use mmorpg_server_rl_portfol.Field.Sending.{in_grid}
use mmorpg_server_rl_portfol.Field.Monsters.{
  managed, get_player_stats, set_player_stats, field_side, mark_dirty_player, combat_call,
  combat_calls, combat_found, combat_loop, combat_update, aoi_call, aoi_calls, move_call,
  move_calls, movement_system, get_player_position, monster_remove_from_aoi, monster_spawn_in_aoi,
}
use mmorpg_server_rl_portfol.Field.Worker.{use_skill}
use mmorpg_server_rl_portfol.Field.Kept.Walks.{found_object}
use mmorpg_server_rl_portfol.Field.Places.{Agrees, Walked, Agrees-put}

-- A player has not the id of one who is none.
unlike :
    (ids : List ℕ) (id e : ℕ) → contains id ids ≡ true → contains e ids ≡ false → (id == e) ≡ false
unlike ids id e listed other = elim (Bool-cases (id == e)) [
  | inr apart ↦ apart
  | inl same ↦ absurd (let both = ap (λ k. contains k ids) (eq_of_beq id e same) in cc)
]

module _ {F : Type 0} where
  -- The field throws, or agrees, with the same players.
  abbrev pub Lands : Field F → Option (Run F) → Type 0
  Lands f none = Unit
  Lands f (some r) = Walked f r

  pub landed : (f : Field F) (o : Option (Run F)) (r : Run F) → Lands f o → o ≡ some r → Walked f r
  landed f o r h same = subst (Lands f) same h

  pub Lands-bind :
      {A : Type 0} (f : Field F) (o : Option A) (g : A → Option (Run F))
      → ((a : A) → o ≡ some a → Lands f (g a))
      → Lands f (o >>= g)
  Lands-bind f none g h = tt
  Lands-bind f (some a) g h = h a refl

  -- A removal leaves the others in the grid.
  pub others_stay :
      (w : AoiWorld F) (pid a : ℕ)
      → IsConsistent w
      → (a == pid) ≡ false
      → (World.remove_entity w pid).0.entities a ≡ w.entities a
  unfolding World.remove_entity
  others_stay w pid a v apart = elim (Option-cases (w.entities pid)) [
    | inl absent ↦ rw (absent, World.remove_entity) refl
    | inr (e, here) ↦
        (remove_entity-Settles w pid v e here).maps a ∙ if_false none (w.entities a) apart
  ]

  pub Walked-removed :
      (f : Field F) (e : ℕ)
      → contains e f.players ≡ false
      → Agrees f
      → Walked f (monster_remove_from_aoi f e)
  unfolding monster_remove_from_aoi in_grid remove_entity deliver
  Walked-removed f e other ok = (
    record {
      exact = remove_entity-IsExact f.aoi_system e ok.exact;
      places = λ id p listed found.
          let (d, here, at_x, at_y) = ok.places id p listed found in
          (
            d,
            others_stay f.aoi_system.aoi e id ok.exact.consistent
                  (unlike f.players id e listed other)
                ∙ here,
            at_x,
            at_y,
          );
    },
    refl,
  )

module _ (fl : FloatArith) where
  open fl use {F}

  pub Walked-roamed :
      (f : Field F) (e : ℕ) (x y : F)
      → contains e f.players ≡ false
      → Agrees f
      → Walked f (move_call fl (move_in_aoi e x y) f)
  unfolding move_call in_grid move_entity deliver
  Walked-roamed f e x y other ok =
      let s = f.aoi_system in
      let still : (id : ℕ)
          → (id == e) ≡ false
          → (World.move_entity fl s.aoi e (record { x = x; y = y })).0.entities id
            ≡ s.aoi.entities id =
        λ id apart. elim (Option-cases (s.aoi.entities e)) [
          | inl absent ↦ ap (λ r. r.0.entities id) (move_entity_absent fl s e x y absent)
          | inr (old, here) ↦
              (move_entity-Settles fl s.aoi e ok.exact.consistent (record { x = x; y = y }) old
                  here).maps
                id
              ∙ if_false _ (s.aoi.entities id) apart
        ] in
      (
        record {
          exact = moves-IsExact fl s e x y ok.exact;
          places = λ id p listed found.
              let (d, here, at_x, at_y) = ok.places id p listed found in
              (d, still id (unlike f.players id e listed other) ∙ here, at_x, at_y);
        },
        refl,
      )

  -- A monster under an id that is new to the grid.
  pub Walked-spawned :
      (f : Field F) (e : ℕ) (x y : F)
      → contains e f.players ≡ false
      → f.aoi_system.aoi.entities e ≡ none
      → ((t : ℕ) → contains e (f.aoi_system.watchers t) ≡ false)
      → Agrees f
      → Walked f (monster_spawn_in_aoi fl f e x y)
  unfolding monster_spawn_in_aoi in_grid add_entity deliver
  Walked-spawned f e x y other absent unknown ok =
      let s = f.aoi_system in
      let place : AoiVec2 F = record { x = x; y = y } in
      let (subs, settled) = add_entity-Settles fl s.aoi e ok.exact.consistent place absent false in
      (
        record {
          exact = add_entity-IsExact fl s e ok.exact x y absent unknown false;
          places = λ id p listed found.
              let (d, here, at_x, at_y) = ok.places id p listed found in
              (
                d,
                settled.maps id
                    ∙ if_false _ (s.aoi.entities id) (unlike f.players id e listed other)
                    ∙ here,
                at_x,
                at_y,
              );
        },
        refl,
      )
