-- ===== src/Monster/Thoughts.antt =====
-- What holds of a turn of field/monster/Systems/AISystem.cpp.
pub mod Told
pub mod Kept
use mmorpg_server_rl_portfol.Prelude.{
  by_test, ℕ, pos, leb_ℤ, ltb_ℤ, int_eq, nat_eq, ◌==◌, ◌≡◌, ◌≢◌, ◌∙◌, refl, sym, ap, inl, inr, Bool,
  Bool-cases, true, false, ◌&&◌, List, [], ◌∷◌, ◌++◌, Option, none, some, if◌then◌else◌, if_true,
  if_false, beq_refl, arith, FloatArith,
}
use mathlib.Core.Path.{subst}
use mmorpg_server_rl_portfol.Monster.World.{
  Monster, CAi, CStats, CTransform, AiState, idle, patrol, chase, attack, return_home, dead,
  stop_move, set_monster_move, f0,
}
use mmorpg_server_rl_portfol.Monster.Ai.{
  Senses, AiCall, broadcast_ai_state, broadcast_monster_stat, state_beq, choose, guard_patrol,
  guard_attack, guard_return, may_attack, is_healthy, state_of, at_least_0, announce, announced,
  flee, flee_timer, give_up, move_at, turn_away, decide, is_low, roam, engage_archer, engage_melee,
  find_target, sight_range, is_lost, think, dist_sq,
}
use mmorpg_server_rl_portfol.Monster.Random.{flee_speed}
use mmorpg_server_rl_portfol.Monster.Observe.{make_obs16, arg_max5}
use mmorpg_server_rl_portfol.Monster.Turn.{
  stat_call, sync, first_move, report_dirty, rest_of_turn, ai_turn,
}
use mmorpg_server_rl_portfol.Monster.Thoughts.Told.{
  told_state, told_state-append, told_state-sync, told_state-report_dirty, IsTold,
  rest_of_turn-IsTold,
}
use mmorpg_server_rl_portfol.Monster.Thoughts.Kept.{
  IsKept, sync-IsKept, report_dirty-IsKept, dies, turn_stats, sync-stats, report_dirty-told,
}

state_of-lives : (a : ℕ) → state_of a ≢ dead
unfolding state_of
state_of-lives a h = ground arith

-- The three guards, on any state but that of the dead.
guards :
    (may healthy : Bool) (st : AiState)
    → st ≢ dead
    → let chosen = guard_return healthy (guard_attack may (guard_patrol st)) in
      (chosen ≡ attack → may ≡ true)
      × (chosen ≡ return_home → healthy ≡ false)
      × (chosen ≢ patrol)
      × (chosen ≢ dead)
unfolding guard_return guard_attack guard_patrol
guards may healthy st lives = ground arith

module _ (fl : FloatArith) where
  open fl use {F, lit, fsub, fmul, fdiv, flt, fle, sqrt, of_int}

  -- Who was told the state that a monster had before its turn is told, by the end of it, the state
  -- that it has then; what is told of other monsters does not count.
  pub told_state-ai_turn :
      (dt : F) (senses : Senses F) (e : ℕ) (m : Monster F)
      → told_state e m.ai.state (ai_turn fl dt senses e m).1 ≡ (ai_turn fl dt senses e m).0.ai.state
  unfolding ai_turn
  told_state-ai_turn dt senses e m =
      let is_archer = m.monster_type == pos 1 in
      let old = m.ai.state in
      let cooled = record m {
        ai = record (m.ai) { attack_cd = at_least_0 fl (fsub m.ai.attack_cd dt) };
      } in
      let (synced, first) = sync fl e is_archer cooled in
      let (reported, second) = report_dirty fl e synced in
      let third = (rest_of_turn fl dt senses e is_archer old reported).1 in
      let kept = report_dirty-IsKept fl e cooled synced (sync-IsKept fl e is_archer cooled) in
      told_state-append e old first (second ++ third)
      ∙ ap (λ st. told_state e st (second ++ third)) (told_state-sync fl e is_archer cooled)
      ∙ told_state-append e old second third
      ∙ ap (λ st. told_state e st third) (told_state-report_dirty fl e old synced)
      ∙ (rest_of_turn-IsTold fl dt senses e is_archer reported old kept.state).told

  -- A turn changes neither the place nor the points of a monster, and points that were marked as
  -- changed are told, as they are, and not marked any more. A monster without hit points is dead after it, with no target and standing still.
  pub ai_turn_lem :
      (dt : F) (senses : Senses F) (e : ℕ) (m : Monster F)
      → let (m', calls) = ai_turn fl dt senses e m in
        (m'.transform ≡ m.transform)
        × (m'.stats ≡ record (m.stats) { dirty = false })
        × (m.stats.dirty ≡ true
            → (before after : List AiCall) × (calls
                ≡ before
                  ++ broadcast_monster_stat e m.stats.hp m.stats.max_hp m.stats.sp m.stats.max_sp
                    ∷ after))
        × (leb_ℤ m.stats.hp (pos 0) ≡ true
            → (m'.ai.state ≡ dead) × (m'.ai.target_id ≡ 0) × (m'.ai.move_speed ≡ f0 fl))
  unfolding ai_turn
  ai_turn_lem dt senses e m =
      let is_archer = m.monster_type == pos 1 in
      let cooled = record m {
        ai = record (m.ai) { attack_cd = at_least_0 fl (fsub m.ai.attack_cd dt) };
      } in
      let (synced, first) = sync fl e is_archer cooled in
      let reported = (report_dirty fl e synced).0 in
      let third = (rest_of_turn fl dt senses e is_archer m.ai.state reported).1 in
      let kept = report_dirty-IsKept fl e cooled synced (sync-IsKept fl e is_archer cooled) in
      let stats : reported.stats ≡ record (m.stats) { dirty = false } =
        turn_stats fl e is_archer cooled in
      (
        kept.place,
        stats,
        λ marked. (
          first,
          third,
          ap (λ calls. first ++ (calls ++ third))
              (report_dirty-told fl e synced m.stats (sync-stats fl e is_archer cooled) marked),
        ),
        λ fallen.
            dies fl dt senses e is_archer m.ai.state reported
              (ap (λ (st : CStats). leb_ℤ st.hp (pos 0)) stats ∙ fallen),
      )

  both : (a b : Bool) → a && b ≡ true → (a ≡ true) × (b ≡ true)
  both a b h = (ground arith, ground arith)

  -- Whatever the policy answers, a monster without a bow attacks only with the target within 1.3 and
  -- its cooldown at 0 or below, and flees from a target only with a quarter of its hit points or less;
  -- it never sets out on patrol or dies fl by it. A squared distance of at most 1e-12 counts as 0.
  pub choose-guarded :
      (senses : Senses F) (old : AiState) (tr : CTransform F) (st : CStats) (p : F × F) (ai : CAi F)
      → let chosen = choose fl senses old tr st p ai in
        let d2 = dist_sq fl tr p in
        (chosen ≡ attack
          → (fle (if flt (lit 1 1000000000000) d2 then sqrt d2 else lit 0 1) (lit 13 10) ≡ true)
            × (fle ai.attack_cd (lit 0 1) ≡ true))
        × (chosen ≡ return_home
            → flt (lit 25 100) (
                if ltb_ℤ (pos 0) st.max_hp then fdiv (of_int st.hp) (of_int st.max_hp) else lit 0 1)
              ≡ false)
        × (chosen ≢ patrol)
        × (chosen ≢ dead)
  unfolding choose may_attack is_healthy
  choose-guarded senses old tr st p ai =
      let obs =
        make_obs16 fl tr.x tr.y (some p) (of_int st.hp) (of_int st.max_hp) ai.attack_cd old in
      let a = arg_max5 fl (senses.policy obs) in
      let (may, healthy, no_patrol, no_death) =
        guards (may_attack fl tr p ai) (is_healthy fl st) (state_of a) (state_of-lives a) in
      ((λ h. both _ _ (may h)), healthy, no_patrol, no_death)
