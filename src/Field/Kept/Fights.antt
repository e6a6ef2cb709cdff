-- ===== src/Field/Kept/Fights.antt =====
-- worker/fieldWorker.cpp and field/monster: what a tick of the monsters keeps.
use mathlib.Core.Path.{subst}
use mmorpg_server_rl_portfol.Prelude.{
  ℕ, ℤ, int_eq, nat_eq, ◌==◌, ◌≡◌, ◌∙◌, refl, sym, ap, inl, inr, Bool, Bool-cases, true, false,
  List, [], ◌∷◌, ◌++◌, Option, none, some, if◌then◌else◌, if_true, if_false, update, eq_of_beq,
  beq_refl, arith,
}
use mmorpg_server_rl_portfol.Game.Player.{Player, PlayerStat, set_hp, set_sp}
use mmorpg_server_rl_portfol.Game.Stats.{IsStat, do_call, do_call-IsStat, sets_hp, sets_sp}
use mmorpg_server_rl_portfol.Monster.World.{MonsterWorld}
use mmorpg_server_rl_portfol.Monster.Combat.{
  CombatCall, mark_player_dirty, broadcast_combat, broadcast_player_stat, broadcast_player_dead,
}
use mmorpg_server_rl_portfol.Storage.DirtyHub.{mark_dirty}
use mmorpg_server_rl_portfol.Storage.Stealing.{is_dirty, is_dirty-mark_dirty}
use mmorpg_server_rl_portfol.Field.Types.{
  Field, Effect, ◌then◌, done, find_player, put_player, player_dead, player_type, monster_type,
}
use mmorpg_server_rl_portfol.Field.Sending as Sending
use mmorpg_server_rl_portfol.Field.Monsters.{
  managed, set_player_stats, mark_dirty_player, combat_call, combat_calls,
}
use mmorpg_server_rl_portfol.Field.Kept.{
  Keeps, Keeps-done, Keeps-step, Keeps-same, Keeps-put, Keeps-mark, IsHeard, silent, IsSound,
  points, stat_of, IsHeard-send_each, IsHeard-send_to,
}
use mmorpg_server_rl_portfol.Field.Kept.Walks.{found_object, IsHeard-player_state}

set-IsSound :
    (st : PlayerStat) (hp sp : ℤ) → IsSound (some st) → IsSound (some (set_sp (set_hp st hp) sp))
unfolding do_call
set-IsSound st hp sp ok st' same =
    subst (λ (o : Option PlayerStat). elim o as (λ x. Type 0) [ none ↦ Unit | some s ↦ IsStat s ])
      same
      (do_call-IsStat (set_hp st hp) (sets_sp sp) (do_call-IsStat st (sets_hp hp) (ok st refl)))

module _ {F : Type 0} where
  Keeps-timed :
      (f : Field F) (id : ℕ) (o : Option (Player F))
      → find_player f id ≡ o
      → let timed : Field F = elim o as (λ x. Field F) [
        | none ↦ f
        | some p ↦ put_player f id (record p { last_dirty_mark_time = f.world_time })
      ] in
        Keeps f (done (record timed { dirty_hub = mark_dirty timed.dirty_hub id }))
  Keeps-timed f id none found = Keeps-mark f id
  Keeps-timed f id (some p) found =
      let timed = put_player f id (record p { last_dirty_mark_time = f.world_time }) in
      Keeps-step f timed _ [] [] (Keeps-put f id p _ (found_object f id p found) refl)
        (Keeps-mark timed id)

  Keeps-mark_dirty_player : (f : Field F) (id : ℕ) → Keeps f (done (mark_dirty_player f id))
  unfolding mark_dirty_player
  Keeps-mark_dirty_player f id = Keeps-timed f id (find_player f id) refl

  marked_player : (f : Field F) (id : ℕ) → is_dirty (mark_dirty_player f id).dirty_hub id ≡ true
  unfolding mark_dirty_player
  marked_player f id = is_dirty-mark_dirty _ id id ∙ ground (arith, beq_refl id)

  IsHeard-combat :
      (f : Field F) (monster_id id : ℕ) (damage : ℤ) (o : Option (Player F))
      → IsHeard f.has_session (elim o as (λ x. List (Effect F)) [
        | none ↦ []
        | some p ↦
            Sending.send_combat_event f monster_type monster_id player_type id damage p.stat.hp
      ])
  unfolding Sending.send_combat_event
  IsHeard-combat f monster_id id damage none = silent
  IsHeard-combat f monster_id id damage (some p) = IsHeard-send_to f id _

  Keeps-combat_call : (call : CombatCall) (f : Field F) → Keeps f (combat_call call f)
  unfolding combat_call Sending.broadcast_combat Sending.broadcast_player_stat
      Sending.broadcast_stat_event
  Keeps-combat_call (mark_player_dirty id) f = Keeps-mark_dirty_player f id
  Keeps-combat_call (broadcast_combat monster_id id damage hp) f =
      Keeps-same f f _ refl refl refl (IsHeard-combat f monster_id id damage (find_player f id))
  Keeps-combat_call (broadcast_player_stat id hp max_hp sp max_sp) f =
      Keeps-same f f _ refl refl refl (IsHeard-send_each f _ _)
  Keeps-combat_call (broadcast_player_dead id) f =
      Keeps-same f f _ refl refl refl (IsHeard-player_state f id player_dead)

  pub Keeps-combat_calls : (calls : List CombatCall) (f : Field F) → Keeps f (combat_calls calls f)
  unfolding combat_calls
  Keeps-combat_calls [] f = Keeps-done f
  Keeps-combat_calls (call ∷ calls) f =
      let r = combat_call call f in
      Keeps-step f r.0 _ r.1 _ (Keeps-combat_call call f) (Keeps-combat_calls calls r.0)

  -- The points of one player are set; the storage has not heard of it yet.
  record Sets (f : Field F) (id : ℕ) (g : Field F) : Type 0 where
    session : g.has_session ≡ f.has_session
    hub : g.dirty_hub ≡ f.dirty_hub
    others : (j : ℕ) → (j == id) ≡ false → points g j ≡ points f j
    sound : (j : ℕ) → IsSound (points f j) → IsSound (points g j)

  Sets-put :
      (f : Field F) (w : MonsterWorld F) (id : ℕ) (hp sp : ℤ) (o : Option (Player F))
      → managed f id ≡ o
      → Sets f id
          (record (elim o as (λ x. Field F) [
            | none ↦ f
            | some p ↦ put_player f id (record p { stat = set_sp (set_hp p.stat hp) sp })
          ]) { monster_world = w })
  unfolding update managed
  Sets-put f w id hp sp none found = record {
    session = refl;
    hub = refl;
    others = λ j apart. refl;
    sound = λ j ok. ok;
  }
  Sets-put f w id hp sp (some p) found =
      let q = record p { stat = set_sp (set_hp p.stat hp) sp } in
      let held : f.objects id ≡ some p = elim (Bool-cases (f.registered id)) [
        | inl known ↦ sym (if_true (f.objects id) none known) ∙ found
        | inr unknown ↦
            absurd (let missing = sym (if_false (f.objects id) none unknown) ∙ found in cc)
      ] in
      record {
        session = refl;
        hub = refl;
        others = λ j apart. ap stat_of (if_false (some q) (f.objects j) apart);
        sound = λ j ok. elim (Bool-cases (j == id)) [
          | inl same ↦ subst IsSound (sym (ap stat_of (if_true (some q) (f.objects j) same))) (
              set-IsSound p.stat hp sp
                (subst IsSound (ap stat_of (ap f.objects (eq_of_beq j id same) ∙ held)) ok))
          | inr other ↦ subst IsSound (sym (ap stat_of (if_false (some q) (f.objects j) other))) ok
        ];
      }

  Sets-set_player_stats :
      (f : Field F) (w : MonsterWorld F) (id : ℕ) (hp sp : ℤ)
      → Sets f id (record (set_player_stats f id hp sp) { monster_world = w })
  unfolding set_player_stats
  Sets-set_player_stats f w id hp sp = Sets-put f w id hp sp (managed f id) refl

  -- Then it hears of it.
  Keeps-set : (f g : Field F) (id : ℕ) → Sets f id g → Keeps f (done (mark_dirty_player g id))
  Keeps-set f g id set =
      let k = Keeps-mark_dirty_player g id in
      record {
        session = k.session ∙ set.session;
        heard = silent;
        changed = λ j. elim (Bool-cases (j == id)) [
          | inl same ↦ inr (
              ap (is_dirty (mark_dirty_player g id).dirty_hub) (eq_of_beq j id same)
              ∙ marked_player g id)
          | inr other ↦ elim (k.changed j) [
            | inl kept ↦ inl (kept ∙ set.others j other)
            | inr marked ↦ inr marked
          ]
        ];
        waiting = λ j h. k.waiting j (ap (λ d. is_dirty d j) set.hub ∙ h);
        sound = λ j ok. k.sound j (set.sound j ok);
      }

  pub Keeps-struck :
      (f : Field F) (id : ℕ) (hp sp : ℤ) (b : Bool) (w : MonsterWorld F) (tail : List CombatCall)
      → Keeps f (
          combat_calls
            ((if b then mark_player_dirty id ∷ [] else []) ++ tail)
            (record (if b then set_player_stats f id hp sp else f) { monster_world = w }))
  unfolding combat_calls combat_call
  Keeps-struck f id hp sp true w tail =
      let g = record (set_player_stats f id hp sp) { monster_world = w } in
      let h = mark_dirty_player g id in
      Keeps-step f h _ [] _ (Keeps-set f g id (Sets-set_player_stats f w id hp sp))
        (Keeps-combat_calls tail h)
  Keeps-struck f id hp sp false w tail =
      let g = record f { monster_world = w } in
      Keeps-step f g _ [] _ (Keeps-same f g [] refl refl refl silent) (Keeps-combat_calls tail g)
