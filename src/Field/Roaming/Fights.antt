-- ===== src/Field/Roaming/Fights.antt =====
-- worker/fieldWorker.cpp: the fights between the monsters and the players of a field, in both
-- directions, and the turns of the AI; the players are in the grid at their own places as before.
use mmorpg_server_rl_portfol.Prelude.{
  ℕ, ℤ, nat_eq, int_eq, ◌==◌, ◌≡◌, ◌∙◌, refl, sym, inl, inr, Bool, Bool-cases, false, not, List, [],
  ◌∷◌, Option, none, some, contains, if_true, if_false, by_test, eq_of_beq, FloatArith,
}
use mathlib.Core.Path.{subst}
use mmorpg_server_rl_portfol.Game.Player.{Player, PlayerStat, set_hp, set_sp}
use mmorpg_server_rl_portfol.Monster.World.{
  Monster, MonsterWorld, AoiCall, remove_from_aoi, set_monster, attack_loop, attack_found,
  player_attack_monster, strike,
}
use mmorpg_server_rl_portfol.Monster.Combat.{
  CombatCall, combat_one-cases, attack_player, attack_stats, damaged, mark_player_dirty,
  broadcast_combat, broadcast_player_stat, broadcast_player_dead,
}
use mmorpg_server_rl_portfol.Monster.Turn.{ai_update}
use mmorpg_server_rl_portfol.Field.Types.{Field, done, find_player, put_player}
use mmorpg_server_rl_portfol.Field.Monsters.{
  managed, get_player_stats, set_player_stats, field_side, mark_dirty_player, combat_call,
  combat_calls, combat_found, combat_loop, combat_update, aoi_call, aoi_calls, ai_system, senses_of,
}
use mmorpg_server_rl_portfol.Field.Worker.{use_skill}
use mmorpg_server_rl_portfol.Field.Kept.Walks.{found_object}
use mmorpg_server_rl_portfol.Field.Places.{Agrees, Walked, Agrees-put}
use mmorpg_server_rl_portfol.Field.Roaming.{Lands, landed, Lands-bind, Walked-removed}

module _ {F : Type 0} where
  pub Agrees-world :
      (f : Field F) (w : MonsterWorld F) → Agrees f → Agrees (record f { monster_world = w })
  Agrees-world f w ok = record { exact = ok.exact; places = ok.places }

  Walked-timed :
      (f : Field F) (id : ℕ) (o : Option (Player F))
      → find_player f id ≡ o
      → Agrees f
      → Walked f (
          done (elim o as (λ x. Field F) [
            | none ↦ f
            | some p ↦ put_player f id (record p { last_dirty_mark_time = f.world_time })
          ]))
  Walked-timed f id none found ok = (ok, refl)
  Walked-timed f id (some p) found ok =
      (Agrees-put f id p _ (found_object f id p found) refl ok, refl)

  Walked-combat_call : (call : CombatCall) (f : Field F) → Agrees f → Walked f (combat_call call f)
  unfolding combat_call mark_dirty_player
  Walked-combat_call (mark_player_dirty id) f ok =
      let (ok', same) = Walked-timed f id (find_player f id) refl ok in
      (record { exact = ok'.exact; places = ok'.places }, same)
  Walked-combat_call (broadcast_combat monster_id id damage hp) f ok = (ok, refl)
  Walked-combat_call (broadcast_player_stat id hp max_hp sp max_sp) f ok = (ok, refl)
  Walked-combat_call (broadcast_player_dead id) f ok = (ok, refl)

  Walked-combat_calls :
      (calls : List CombatCall) (f : Field F) → Agrees f → Walked f (combat_calls calls f)
  unfolding combat_calls
  Walked-combat_calls [] f ok = (ok, refl)
  Walked-combat_calls (call ∷ calls) f ok =
      let (ok', same) = Walked-combat_call call f ok in
      let (ok'', same') = Walked-combat_calls calls (combat_call call f).0 ok' in
      (ok'', same' ∙ same)

  managed_object :
      (f : Field F) (id : ℕ) (p : Player F) → managed f id ≡ some p → f.objects id ≡ some p
  unfolding managed
  managed_object f id p found = elim (Bool-cases (f.registered id)) [
    | inl known ↦ sym (if_true (f.objects id) none known) ∙ found
    | inr unknown ↦ absurd (let missing = sym (if_false (f.objects id) none unknown) ∙ found in cc)
  ]

  Walked-set :
      (f : Field F) (id : ℕ) (hp sp : ℤ) (o : Option (Player F))
      → managed f id ≡ o
      → Agrees f
      → Walked f (
          done (elim o as (λ x. Field F) [
            | none ↦ f
            | some p ↦ put_player f id (record p { stat = set_sp (set_hp p.stat hp) sp })
          ]))
  Walked-set f id hp sp none found ok = (ok, refl)
  Walked-set f id hp sp (some p) found ok =
      (Agrees-put f id p _ (managed_object f id p found) refl ok, refl)

  Walked-attack :
      (f : Field F) (e id : ℕ) (m : Monster F) (atk : ℤ) (o : Option PlayerStat)
      → Agrees f
      → Walked f (
          done
            (elim o as (λ x. Field F × List CombatCall) [
              | none ↦ (f, [])
              | some st ↦ attack_stats (field_side F) f e id atk st
            ]).0)
  unfolding attack_stats set_player_stats
  Walked-attack f e id m atk none ok = (ok, refl)
  Walked-attack f e id m atk (some st) ok =
      by_test (λ g. Walked f (done g)) (not (damaged st.hp atk == st.hp)) _ f
        (Walked-set f id (damaged st.hp atk) st.sp (managed f id) refl ok) (ok, refl)

module _ (fl : FloatArith) where
  open fl use {F}

  Lands-combat_found :
      (dt : F) (f : Field F) (e : ℕ) (o : Option (Monster F))
      → Agrees f
      → Lands f (combat_found fl dt f e o)
  unfolding combat_found attack_player
  Lands-combat_found dt f e none ok = tt
  Lands-combat_found dt f e (some m) ok =
      combat_one-cases fl (field_side F)
        (λ r. Walked f (
          combat_calls r.1.1
            (record (r.0) { monster_world = set_monster r.0.monster_world e r.1.0 })))
        dt f e m (λ n. Walked-combat_calls [] _ (Agrees-world f _ ok))
        (λ n.
          let r = attack_player (field_side F) f e m.ai.target_id m.stats.atk in
          let (ok', same) =
            Walked-attack f e m.ai.target_id m m.stats.atk (get_player_stats f m.ai.target_id) ok in
          let (ok'', same') =
            Walked-combat_calls r.1
              (record (r.0) { monster_world = set_monster r.0.monster_world e n })
              (Agrees-world r.0 _ ok') in
          (ok'', same' ∙ same))

  Lands-combat_loop :
      (dt : F) (es : List ℕ) (f : Field F) → Agrees f → Lands f (combat_loop fl dt es f)
  unfolding combat_loop
  Lands-combat_loop dt [] f ok = (ok, refl)
  Lands-combat_loop dt (e ∷ es) f ok =
      Lands-bind f (combat_found fl dt f e (f.monster_world.components e)) _ (λ r first.
        let (ok', same) = landed f _ r (Lands-combat_found dt f e _ ok) first in
        Lands-bind f (combat_loop fl dt es r.0) _ (λ s later.
          let (ok'', same') = landed r.0 _ s (Lands-combat_loop dt es r.0 ok') later in
          (ok'', same' ∙ same)))

  pub Lands-combat_update : (dt : F) (f : Field F) → Agrees f → Lands f (combat_update fl dt f)
  unfolding combat_update
  Lands-combat_update dt f ok = Lands-combat_loop dt f.monster_world.monsters f ok

  pub Lands-ai_system :
      (dt : F) (policy : List F → List F) (f : Field F)
      → Agrees f
      → Lands f (ai_system fl dt policy f)
  unfolding ai_system
  Lands-ai_system dt policy f ok =
      Lands-bind f (ai_update fl dt (senses_of fl policy f) f.monster_world) _
        (λ r at. (Agrees-world f r.0 ok, refl))

  -- The calls of an attack keep a field in which the monster is no player.
  abbrev Harmless : ℕ → Option (MonsterWorld F × (List (AoiCall F) × Bool)) → Type 0
  Harmless mid none = Unit
  Harmless mid (some r) =
      (g : Field F) → contains mid g.players ≡ false → Agrees g → Walked g (aoi_calls fl r.1.0 g)

  Harmless-attack_found :
      (w : MonsterWorld F) (e : ℕ) (o : Option (Monster F)) → Harmless e (attack_found fl w e o)
  unfolding attack_found aoi_calls aoi_call
  Harmless-attack_found w e none = tt
  Harmless-attack_found w e (some m) = λ g other ok.
      by_test (λ calls. Walked g (aoi_calls fl calls g)) (strike fl m).1 (remove_from_aoi e ∷ []) []
        (Walked-removed g e other ok) (ok, refl)

  Harmless-attack_loop :
      (w : MonsterWorld F) (mid : ℕ) (es : List ℕ) → Harmless mid (attack_loop fl w mid es)
  unfolding attack_loop
  Harmless-attack_loop w mid [] = λ g other ok. unfold aoi_calls in (ok, refl)
  Harmless-attack_loop w mid (e ∷ es) = elim (Bool-cases (e == mid)) [
    | inl same ↦ rw same (
        subst (λ k. Harmless k (attack_found fl w e (w.components e))) (eq_of_beq e mid same)
          (Harmless-attack_found w e (w.components e)))
    | inr other ↦ rw other (Harmless-attack_loop w mid es)
  ]

  -- A skill against a monster, under the id of no player.
  pub Lands-use_skill :
      (pid target : ℕ) (f : Field F)
      → contains target f.players ≡ false
      → Agrees f
      → Lands f (use_skill fl pid target f)
  unfolding use_skill player_attack_monster
  Lands-use_skill pid target f other ok =
      Lands-bind f (player_attack_monster fl f.monster_world target) _ (λ a at.
        subst (Harmless target) at
          (Harmless-attack_loop f.monster_world target f.monster_world.monsters)
          (record f { monster_world = a.0 }) other (Agrees-world f a.0 ok))
