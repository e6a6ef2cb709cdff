-- ===== src/Field/Kept/Entries.antt =====
-- worker/fieldWorker.cpp: what the arrival of a player keeps.
use mmorpg_server_rl_portfol.Prelude.{
  ℕ, ◌≡◌, true, List, [], ◌∷◌, Option, none, some, FloatArith, by_test, nat_eq, ◌==◌, refl, Bool,
  false, insert,
}
use mathlib.Core.Path.{subst}
use mmorpg_server_rl_portfol.Game.Player.{Player}
use mmorpg_server_rl_portfol.Monster.World.{◌>>=◌}
use mmorpg_server_rl_portfol.Aoi.System.{add_entity}
use mmorpg_server_rl_portfol.Field.Types.{Field, Run, Effect, done}
use mmorpg_server_rl_portfol.Field.Sending.{in_grid, send_field_enter}
use mmorpg_server_rl_portfol.Field.Players.{
  on_player_enter_field, enter_others, tell_others, enter_monsters,
}
use mmorpg_server_rl_portfol.Field.Kept.{
  Keeps, Keeps-done, Keeps-step, Keeps-tell, Keeps-same, Keeps-in_grid, IsHeard, silent,
  IsHeard-append, IsHeard-send_to,
}
use mmorpg_server_rl_portfol.Field.Kept.Ticks.{Saves, Saves-bind}

module _ {F : Type 0} where
  IsHeard-field_enter :
      (f : Field F) (watcher subject : ℕ) (is_monster : Bool) (x y : F)
      → IsHeard f.has_session (send_field_enter f watcher subject is_monster x y)
  unfolding send_field_enter
  IsHeard-field_enter f watcher subject is_monster x y = IsHeard-send_to f watcher _

  IsHeard-enter_one :
      (f : Field F) (pid other : ℕ) (o : Option (Player F))
      → IsHeard f.has_session (elim o as (λ x. List (Effect F)) [
        | none ↦ []
        | some p ↦ send_field_enter f pid other false p.position.x p.position.y
      ])
  IsHeard-enter_one f pid other none = silent
  IsHeard-enter_one f pid other (some p) = IsHeard-field_enter f pid other false _ _

  IsHeard-enter_others :
      (f : Field F) (pid : ℕ) (others : List ℕ) → IsHeard f.has_session (enter_others f pid others)
  unfolding enter_others
  IsHeard-enter_others f pid [] = silent
  IsHeard-enter_others f pid (other ∷ others) =
      let rest = IsHeard-enter_others f pid others in
      by_test (IsHeard f.has_session) (other == pid) _ _ rest (
        IsHeard-append f.has_session _ (enter_others f pid others)
          (IsHeard-enter_one f pid other (f.objects other)) rest)

  IsHeard-tell_one :
      (f : Field F) (pid other : ℕ) (x y : F) (o : Option (Player F))
      → IsHeard f.has_session (elim o as (λ x. List (Effect F)) [
        | none ↦ []
        | some p ↦ send_field_enter f other pid false x y
      ])
  IsHeard-tell_one f pid other x y none = silent
  IsHeard-tell_one f pid other x y (some p) = IsHeard-field_enter f other pid false x y

  IsHeard-tell_others :
      (f : Field F) (pid : ℕ) (x y : F) (others : List ℕ)
      → IsHeard f.has_session (tell_others f pid x y others)
  unfolding tell_others
  IsHeard-tell_others f pid x y [] = silent
  IsHeard-tell_others f pid x y (other ∷ others) =
      let rest = IsHeard-tell_others f pid x y others in
      by_test (IsHeard f.has_session) (other == pid) _ _ rest (
        IsHeard-append f.has_session _ (tell_others f pid x y others)
          (IsHeard-tell_one f pid other x y (f.objects other)) rest)

  abbrev AllHeard : Field F → Option (List (Effect F)) → Type 0
  AllHeard f none = Unit
  AllHeard f (some out) = IsHeard f.has_session out

  AllHeard-bind :
      {A : Type 0} (f : Field F) (o : Option A) (g : A → Option (List (Effect F)))
      → ((a : A) → o ≡ some a → AllHeard f (g a))
      → AllHeard f (o >>= g)
  AllHeard-bind f none g h = tt
  AllHeard-bind f (some a) g h = h a refl

  IsHeard-when :
      (f : Field F) (o : Option (List (Effect F))) (out : List (Effect F))
      → AllHeard f o
      → o ≡ some out
      → IsHeard f.has_session out
  IsHeard-when f o out h same = subst (AllHeard f) same h

  IsHeard-enter_monsters :
      (f : Field F) (pid : ℕ) (es : List ℕ) → AllHeard f (enter_monsters f pid es)
  unfolding enter_monsters
  IsHeard-enter_monsters f pid [] = silent
  IsHeard-enter_monsters f pid (e ∷ es) =
      AllHeard-bind f (f.monster_world.components e) _ (λ m here.
        AllHeard-bind f (enter_monsters f pid es) _ (λ rest at.
          IsHeard-append f.has_session _ rest
            (IsHeard-field_enter f pid e true m.transform.x m.transform.y)
            (IsHeard-when f _ rest (IsHeard-enter_monsters f pid es) at)))

  Saves-after : (f g : Field F) (o : Option (Run F)) → Keeps f (done g) → Saves g o → Saves f o
  Saves-after f g none k s = tt
  Saves-after f g (some r) k s = Keeps-step f g r.0 [] r.1 k s

module _ (fl : FloatArith) where
  open fl use {F}

  Saves-on_player_enter_field :
      (f : Field F) (pid : ℕ) (p : Player F) → Saves f (on_player_enter_field fl f pid p)
  unfolding on_player_enter_field
  Saves-on_player_enter_field f pid p =
      let r = in_grid f (λ s. add_entity fl s pid true p.position.x p.position.y) in
      let g = r.0 in
      Saves-bind f (enter_monsters g pid g.monster_world.monsters) _ (λ monsters at.
        Keeps-tell f g r.1 _
          (Keeps-in_grid f (λ s. add_entity fl s pid true p.position.x p.position.y))
          (IsHeard-append g.has_session _ _
            (IsHeard-field_enter g pid pid false p.position.x p.position.y)
            (IsHeard-append g.has_session _ _ (IsHeard-enter_others g pid g.players) (
              IsHeard-append g.has_session monsters _
                (IsHeard-when g _ monsters (IsHeard-enter_monsters g pid g.monster_world.monsters)
                  at)
                (IsHeard-tell_others g pid p.position.x p.position.y g.players)))))

  pub Saves-joins :
      (f : Field F) (pid : ℕ) (o : Option (Player F))
      → Saves f (elim o as (λ x. Option (Run F)) [
        | none ↦ some (done f)
        | some p ↦ on_player_enter_field fl (record f { players = insert pid f.players }) pid p
      ])
  Saves-joins f pid none = Keeps-done f
  Saves-joins f pid (some p) =
      let g = record f { players = insert pid f.players } in
      Saves-after f g _ (Keeps-same f g [] refl refl refl silent)
        (Saves-on_player_enter_field g pid p)
