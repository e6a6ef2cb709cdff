-- ===== src/Field/Roaming/Walks.antt =====
-- worker/fieldWorker.cpp: the walks of the monsters leave the players of a field at their own places.
use mmorpg_server_rl_portfol.Prelude.{
  ℕ, nat_eq, ◌≡◌, ◌∙◌, refl, sym, inl, inr, true, false, List, [], ◌∷◌, ◌++◌, Option, none, some,
  contains, beq_refl, arith, FloatArith,
}
use mathlib.Core.Path.{subst}
use mmorpg_server_rl_portfol.Monster.World.{Monster, MonsterWorld, set_monster, ◌>>=◌}
use mmorpg_server_rl_portfol.Monster.Movement.{
  MoveCall, move_in_aoi, move_loop, move_found, move_one, move_one-IsReported,
}
use mmorpg_server_rl_portfol.Field.Types.{Field}
use mmorpg_server_rl_portfol.Field.Monsters.{
  move_call, move_calls, movement_system, get_player_position,
}
use mmorpg_server_rl_portfol.Field.Places.{Agrees, Walked}
use mmorpg_server_rl_portfol.Field.Roaming.{Lands, Lands-bind, Walked-roamed}

module _ (fl : FloatArith) where
  open fl use {F}

  -- Every call moves a monster, under an id of no player.
  data IsAway (players : List ℕ) : List (MoveCall F) → Type 0 where
    none_moves : IsAway players []
    one_moves :
        {e : ℕ} {x y : F} {calls : List (MoveCall F)}
        → contains e players ≡ false
        → IsAway players calls
        → IsAway players (move_in_aoi e x y ∷ calls)

  IsAway-append :
      (players : List ℕ) (xs ys : List (MoveCall F))
      → IsAway players xs
      → IsAway players ys
      → IsAway players (xs ++ ys)
  IsAway-append players _ ys none_moves k = k
  IsAway-append players _ ys (one_moves h hs) k = one_moves h (IsAway-append players _ ys hs k)

  Walked-move_calls :
      (calls : List (MoveCall F)) (f : Field F)
      → IsAway f.players calls
      → Agrees f
      → Walked f (move_calls fl calls f)
  unfolding move_calls
  Walked-move_calls [] f none_moves ok = (ok, refl)
  Walked-move_calls (move_in_aoi e x y ∷ calls) f (one_moves other away) ok =
      let r = move_call fl (move_in_aoi e x y) f in
      let (ok_r, same) = Walked-roamed fl f e x y other ok in
      let (ok_s, same') =
        Walked-move_calls calls r.0 (subst (λ ids. IsAway ids calls) (sym same) away) ok_r in
      (ok_s, same' ∙ same)

  -- What the movement answers.
  abbrev Strays : List ℕ → Option (MonsterWorld F × List (MoveCall F)) → Type 0
  Strays players none = Unit
  Strays players (some r) = IsAway players r.1

  IsAway-move_one :
      (dt : F) (positions : ℕ → Option (F × F)) (players : List ℕ) (e : ℕ) (m : Monster F)
      → contains e players ≡ false
      → IsAway players (move_one fl dt positions e m).1
  IsAway-move_one dt positions players e m other = elim (move_one-IsReported fl dt positions e m) [
    | inl (calls, same) ↦ subst (IsAway players) (sym calls) none_moves
    | inr (calls, walks) ↦ subst (IsAway players) (sym calls) (one_moves other none_moves)
  ]

  Strays-move_loop :
      (dt : F) (positions : ℕ → Option (F × F)) (players : List ℕ) (w : MonsterWorld F)
      (es : List ℕ)
      → ((e : ℕ) → contains e es ≡ true → contains e players ≡ false)
      → Strays players (move_loop fl dt positions w es)
  unfolding move_loop move_found contains
  Strays-move_loop dt positions players w [] apart = none_moves
  Strays-move_loop dt positions players w (e ∷ es) apart =
      found (w.components e)
        (λ w'. Strays-move_loop dt positions players w' es (λ a h. apart a (ground (arith, h))))
    where
      other : contains e players ≡ false
      other = apart e (ground (arith, beq_refl e))

      later :
          (calls : List (MoveCall F)) (o : Option (MonsterWorld F × List (MoveCall F)))
          → IsAway players calls
          → Strays players o
          → Strays players (o >>= (λ s. some (s.0, calls ++ s.1)))
      later calls none away rest = tt
      later calls (some s) away rest = IsAway-append players calls s.1 away rest

      found :
          (o : Option (Monster F))
          → ((w' : MonsterWorld F) → Strays players (move_loop fl dt positions w' es))
          → Strays players (
              move_found fl dt positions w e o
              >>= (λ r. move_loop fl dt positions r.0 es >>= (λ s. some (s.0, r.1 ++ s.1))))
      found none rest = tt
      found (some m) rest =
          later (move_one fl dt positions e m).1 _ (IsAway-move_one dt positions players e m other)
            (rest (set_monster w e (move_one fl dt positions e m).0))

  -- The ids of the monsters are those of no players.
  abbrev pub AreApart : Field F → Type 0
  AreApart f = (e : ℕ) → contains e f.monster_world.monsters ≡ true → contains e f.players ≡ false

  pub Lands-movement_system :
      (dt : F) (f : Field F) → AreApart f → Agrees f → Lands f (movement_system fl dt f)
  unfolding movement_system
  Lands-movement_system dt f apart ok =
      let w = f.monster_world in
      Lands-bind f (move_loop fl dt (get_player_position f) w w.monsters) _ (λ r at.
        Walked-move_calls r.1 (record f { monster_world = r.0 })
          (subst (Strays f.players) at
            (Strays-move_loop dt (get_player_position f) f.players w w.monsters apart))
          (record { exact = ok.exact; places = ok.places }))
