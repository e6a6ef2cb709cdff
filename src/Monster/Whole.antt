-- ===== src/Monster/Whole.antt =====
-- When no `get` of field/monster/ throws: every monster of the list has its components, and the
-- systems of the monsters, which keep it so, have a result.
use mmorpg_server_rl_portfol.Prelude.{
  ℕ, ℤ, nat_eq, ◌==◌, ◌≡◌, ◌∙◌, refl, sym, ap, inl, inr, Bool-cases, true, false, not, List, [],
  ◌∷◌, ◌++◌, Option, some, contains, contains-append, update, if_true, if_false, beq_refl, by_test,
  arith, FloatArith,
}
use mathlib.Core.Path.{subst}
use Prim.Native.String.{String}
use mmorpg_server_rl_portfol.Monster.World.{
  Monster, MonsterWorld, CStats, create_monster, set_monster, spawn_one, spawn_found, spawn_loop,
  spawn_update, player_attack_monster, attack_loop, attack_found, strike, ◌>>=◌,
}
use mmorpg_server_rl_portfol.Monster.Movement.{move_one, move_found, move_loop}
use mmorpg_server_rl_portfol.Monster.Ai.{Senses}
use mmorpg_server_rl_portfol.Monster.Turn.{ai_turn, ai_found, ai_loop, ai_update}

module _ {F : Type 0} where
  abbrev pub IsWhole : MonsterWorld F → Type 0
  IsWhole w = (e : ℕ) → contains e w.monsters ≡ true → (m : Monster F) × (w.components e ≡ some m)

  pub set_monster-IsWhole :
      (w : MonsterWorld F) (e : ℕ) (m : Monster F) → IsWhole w → IsWhole (set_monster w e m)
  unfolding set_monster update
  set_monster-IsWhole w e m ok j listed = elim (Bool-cases (j == e)) [
    | inl same ↦ (m, if_true (some m) (w.components j) same)
    | inr other ↦ let (n, at) = ok j listed in (n, if_false (some m) (w.components j) other ∙ at)
  ]

  -- There is a result: a world with the same list, whole again.
  abbrev pub Goes : {C : Type 0} → MonsterWorld F → Option (MonsterWorld F × C) → Type 0
  Goes {C} w o = (r : MonsterWorld F × C) × (o ≡ some r) × (r.0.monsters ≡ w.monsters) × IsWhole r.0

  Goes-set :
      {C : Type 0} (w : MonsterWorld F) (e : ℕ) (m : Monster F) (c : C)
      → IsWhole w
      → Goes w (some (set_monster w e m, c))
  unfolding set_monster
  Goes-set w e m c ok = ((set_monster w e m, c), refl, refl, set_monster-IsWhole w e m ok)

  -- The monsters of a list that the world has.
  abbrev pub Listed : List ℕ → MonsterWorld F → Type 0
  Listed es w = (e : ℕ) → contains e es ≡ true → contains e w.monsters ≡ true

  pub head-Listed :
      (e : ℕ) (es : List ℕ) (w : MonsterWorld F) → Listed (e ∷ es) w → contains e w.monsters ≡ true
  unfolding contains
  head-Listed e es w listed = listed e (ground (arith, beq_refl e))

  pub tail-Listed :
      (e : ℕ) (es : List ℕ) (w v : MonsterWorld F)
      → v.monsters ≡ w.monsters
      → Listed (e ∷ es) w
      → Listed es v
  unfolding contains
  tail-Listed e es w v same listed j h = ap (contains j) same ∙ listed j (ground (arith, h))

  -- A turn of a loop, and the rest of it.
  Goes-step :
      {C : Type 0} (w : MonsterWorld F) (o : Option (MonsterWorld F × List C))
      (rest : MonsterWorld F → Option (MonsterWorld F × List C))
      → Goes w o
      → ((v : MonsterWorld F) → v.monsters ≡ w.monsters → IsWhole v → Goes v (rest v))
      → Goes w (o >>= (λ r. rest r.0 >>= (λ s. some (s.0, r.1 ++ s.1))))
  Goes-step w o rest ((v, first), at, same, ok) h =
      let ((u, later), at', same', ok') = h v same ok in
      (
        (u, first ++ later),
        ap (λ x. x >>= (λ r. rest r.0 >>= (λ s. some (s.0, r.1 ++ s.1)))) at
            ∙ ap (λ x. x >>= (λ s. some (s.0, first ++ s.1))) at',
        same' ∙ same,
        ok',
      )

module _ (fl : FloatArith) where
  open fl use {F}

  Goes-spawn_loop :
      (dt : F) (es : List ℕ) (w : MonsterWorld F)
      → Listed es w
      → IsWhole w
      → Goes w (spawn_loop fl dt w es)
  unfolding spawn_loop spawn_found
  Goes-spawn_loop dt [] w listed ok = ((w, []), refl, refl, ok)
  Goes-spawn_loop dt (e ∷ es) w listed ok =
      let (m, at) = ok e (head-Listed e es w listed) in
      Goes-step w (spawn_found fl dt w e (w.components e)) (λ v. spawn_loop fl dt v es)
        (subst (λ o. Goes w (spawn_found fl dt w e o)) (sym at)
          (Goes-set w e (spawn_one fl dt e m).0 (spawn_one fl dt e m).1 ok))
        (λ v same ok'. Goes-spawn_loop dt es v (tail-Listed e es w v same listed) ok')

  pub Goes-spawn_update : (dt : F) (w : MonsterWorld F) → IsWhole w → Goes w (spawn_update fl dt w)
  unfolding spawn_update
  Goes-spawn_update dt w ok = Goes-spawn_loop dt w.monsters w (λ e h. h) ok

  Goes-ai_loop :
      (dt : F) (senses : Senses F) (es : List ℕ) (w : MonsterWorld F)
      → Listed es w
      → IsWhole w
      → Goes w (ai_loop fl dt senses w es)
  unfolding ai_loop ai_found
  Goes-ai_loop dt senses [] w listed ok = ((w, []), refl, refl, ok)
  Goes-ai_loop dt senses (e ∷ es) w listed ok =
      let (m, at) = ok e (head-Listed e es w listed) in
      Goes-step w (ai_found fl dt senses w e (w.components e)) (λ v. ai_loop fl dt senses v es)
        (subst (λ o. Goes w (ai_found fl dt senses w e o)) (sym at)
          (Goes-set w e (ai_turn fl dt senses e m).0 (ai_turn fl dt senses e m).1 ok))
        (λ v same ok'. Goes-ai_loop dt senses es v (tail-Listed e es w v same listed) ok')

  pub Goes-ai_update :
      (dt : F) (senses : Senses F) (w : MonsterWorld F)
      → IsWhole w
      → Goes w (ai_update fl dt senses w)
  unfolding ai_update
  Goes-ai_update dt senses w ok = Goes-ai_loop dt senses w.monsters w (λ e h. h) ok

  Goes-move_loop :
      (dt : F) (positions : ℕ → Option (F × F)) (es : List ℕ) (w : MonsterWorld F)
      → Listed es w
      → IsWhole w
      → Goes w (move_loop fl dt positions w es)
  unfolding move_loop move_found
  Goes-move_loop dt positions [] w listed ok = ((w, []), refl, refl, ok)
  Goes-move_loop dt positions (e ∷ es) w listed ok =
      let (m, at) = ok e (head-Listed e es w listed) in
      Goes-step w (move_found fl dt positions w e (w.components e))
        (λ v. move_loop fl dt positions v es)
        (subst (λ o. Goes w (move_found fl dt positions w e o)) (sym at)
          (Goes-set w e (move_one fl dt positions e m).0 (move_one fl dt positions e m).1 ok))
        (λ v same ok'. Goes-move_loop dt positions es v (tail-Listed e es w v same listed) ok')

  pub Goes-move_all :
      (dt : F) (positions : ℕ → Option (F × F)) (w : MonsterWorld F)
      → IsWhole w
      → Goes w (move_loop fl dt positions w w.monsters)
  Goes-move_all dt positions w ok = Goes-move_loop dt positions w.monsters w (λ e h. h) ok

  Goes-attack_loop :
      (mid : ℕ) (es : List ℕ) (w : MonsterWorld F)
      → Listed es w
      → IsWhole w
      → Goes w (attack_loop fl w mid es)
  unfolding attack_loop attack_found
  Goes-attack_loop mid [] w listed ok = ((w, ([], false)), refl, refl, ok)
  Goes-attack_loop mid (e ∷ es) w listed ok =
      let (m, at) = ok e (head-Listed e es w listed) in
      by_test (Goes w) (not (e == mid)) _ _
        (Goes-attack_loop mid es w (tail-Listed e es w w refl listed) ok)
        (subst (λ o. Goes w (attack_found fl w e o)) (sym at) (Goes-set w e (strike fl m).0 _ ok))

  pub Goes-player_attack_monster :
      (w : MonsterWorld F) (mid : ℕ) → IsWhole w → Goes w (player_attack_monster fl w mid)
  unfolding player_attack_monster
  Goes-player_attack_monster w mid ok = Goes-attack_loop mid w.monsters w (λ e h. h) ok

  pub create_monster-IsWhole :
      (w : MonsterWorld F) (e : ℕ) (x y : F) (prefab : String) (monster_type : ℤ) (st : CStats)
      → IsWhole w
      → IsWhole (create_monster fl w e x y prefab monster_type st)
  unfolding create_monster set_monster update contains
  create_monster-IsWhole w e x y prefab monster_type st ok j listed = elim (Bool-cases (j == e)) [
    | inl same ↦ (_, if_true _ (w.components j) same)
    | inr other ↦
        let before : contains j w.monsters ≡ true =
          ground (arith, contains-append j w.monsters (e ∷ [])) in
        let (n, at) = ok j before in (n, if_false _ (w.components j) other ∙ at)
  ]
