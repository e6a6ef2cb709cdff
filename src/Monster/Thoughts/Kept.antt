-- ===== src/Monster/Thoughts/Kept.antt =====
-- What a turn of field/monster/Systems/AISystem.cpp leaves alone, and what it tells of the points.
use mmorpg_server_rl_portfol.Prelude.{
  by_test, ℕ, pos, leb_ℤ, int_eq, nat_eq, ◌≡◌, ◌∙◌, refl, sym, ap, inl, inr, Bool, Bool-cases, true,
  false, List, [], ◌∷◌, if_true, if_false, FloatArith,
}
use mathlib.Core.Path.{subst}
use mmorpg_server_rl_portfol.Monster.World.{
  Monster, CAi, CStats, AiState, idle, patrol, chase, attack, return_home, dead, stop_move,
  set_monster_move, f0,
}
use mmorpg_server_rl_portfol.Monster.Ai.{Senses, AiCall, broadcast_monster_stat, announced}
use mmorpg_server_rl_portfol.Monster.Turn.{stat_call, sync, first_move, report_dirty, rest_of_turn}

module _ (fl : FloatArith) where
  open fl use {F, lit, fsub, fmul, fdiv, flt, fle, sqrt, of_int}

  -- What a turn leaves alone: the place, the points and the spawn data; the mark that the points
  -- changed is gone.
  pub record IsKept (m m' : Monster F) : Type 0 where
    pub place : m'.transform ≡ m.transform
    pub points : record (m'.stats) { dirty = false } ≡ record (m.stats) { dirty = false }
    pub spawn : m'.spawn_info ≡ m.spawn_info
    pub state : m'.ai.state ≡ m.ai.state

  stop_move-state : (ai : CAi F) → (stop_move fl ai).state ≡ ai.state
  unfolding stop_move set_monster_move
  stop_move-state ai = by_test (λ (r : CAi F). r.state ≡ ai.state) _ _ _ refl refl

  first_move-state :
      (is_archer : Bool) (ai : CAi F) (st : AiState)
      → (first_move fl is_archer ai st).state ≡ ai.state
  unfolding first_move set_monster_move
  first_move-state is_archer ai idle = stop_move-state ai
  first_move-state is_archer ai attack = stop_move-state ai
  first_move-state is_archer ai dead = stop_move-state ai
  first_move-state is_archer ai patrol = by_test (λ (r : CAi F). r.state ≡ ai.state) _ _ _ refl refl
  first_move-state is_archer ai chase = by_test (λ (r : CAi F). r.state ≡ ai.state) _ _ _ refl refl
  first_move-state is_archer ai return_home =
      by_test (λ (r : CAi F). r.state ≡ ai.state) _ _ _ refl refl

  pub sync-IsKept : (e : ℕ) (is_archer : Bool) (m : Monster F) → IsKept m (sync fl e is_archer m).0
  unfolding sync
  sync-IsKept e is_archer m =
      by_test (λ (r : Monster F × List AiCall). IsKept m r.0) m.ai.net_synced _ _
        (record { place = refl; points = refl; spawn = refl; state = refl })
        (record {
          place = refl;
          points = refl;
          spawn = refl;
          state = first_move-state is_archer m.ai m.ai.state;
        })

  pub report_dirty-IsKept :
      (e : ℕ) (m n : Monster F) → IsKept m n → IsKept m (report_dirty fl e n).0
  unfolding report_dirty
  report_dirty-IsKept e m n ok =
      by_test (λ (r : Monster F × List AiCall). IsKept m r.0) n.stats.dirty _ _
        (record { place = ok.place; points = ok.points; spawn = ok.spawn; state = ok.state }) ok

  report_dirty-dirty : (e : ℕ) (m : Monster F) → (report_dirty fl e m).0.stats.dirty ≡ false
  unfolding report_dirty
  report_dirty-dirty e m = elim (Bool-cases m.stats.dirty) [
    | inl marked ↦ ap (λ (r : Monster F × List AiCall). r.0.stats.dirty) (if_true _ _ marked)
    | inr plain ↦ ap (λ (r : Monster F × List AiCall). r.0.stats.dirty) (if_false _ _ plain) ∙ plain
  ]

  stop_move-speed : (ai : CAi F) → (stop_move fl ai).move_speed ≡ f0 fl
  unfolding stop_move set_monster_move
  stop_move-speed ai = by_test (λ (r : CAi F). r.move_speed ≡ f0 fl) _ _ _ refl refl

  stop_move-target_id : (ai : CAi F) → (stop_move fl ai).target_id ≡ ai.target_id
  unfolding stop_move set_monster_move
  stop_move-target_id ai = by_test (λ (r : CAi F). r.target_id ≡ ai.target_id) _ _ _ refl refl

  pub dies :
      (dt : F) (senses : Senses F) (e : ℕ) (is_archer : Bool) (old : AiState) (m : Monster F)
      → leb_ℤ m.stats.hp (pos 0) ≡ true
      → let ai = (rest_of_turn fl dt senses e is_archer old m).0 in
        (ai.state ≡ dead) × (ai.target_id ≡ 0) × (ai.move_speed ≡ f0 fl)
  unfolding rest_of_turn announced
  dies dt senses e is_archer old m fallen =
      let dying = record (m.ai) { state = dead; target_id = 0 } in
      subst
        (λ (r : CAi F × List AiCall).
          (r.0.state ≡ dead) × (r.0.target_id ≡ 0) × (r.0.move_speed ≡ f0 fl))
        (sym (if_true (announced fl e old (stop_move fl dying)) _ fallen))
        (stop_move-state dying, stop_move-target_id dying, stop_move-speed dying)

  -- The stats after a turn.
  pub turn_stats :
      (e : ℕ) (is_archer : Bool) (m : Monster F)
      → (report_dirty fl e (sync fl e is_archer m).0).0.stats ≡ record (m.stats) { dirty = false }
  turn_stats e is_archer m =
      let kept = report_dirty-IsKept e m (sync fl e is_archer m).0 (sync-IsKept e is_archer m) in
      ap (λ d. record ((report_dirty fl e (sync fl e is_archer m).0).0.stats) { dirty = d })
        (report_dirty-dirty e (sync fl e is_archer m).0)
      ∙ kept.points

  pub sync-stats :
      (e : ℕ) (is_archer : Bool) (m : Monster F) → (sync fl e is_archer m).0.stats ≡ m.stats
  unfolding sync
  sync-stats e is_archer m =
      by_test (λ (r : Monster F × List AiCall). r.0.stats ≡ m.stats) m.ai.net_synced _ _ refl refl

  pub report_dirty-told :
      (e : ℕ) (m : Monster F) (st : CStats)
      → m.stats ≡ st
      → st.dirty ≡ true
      → (report_dirty fl e m).1 ≡ broadcast_monster_stat e st.hp st.max_hp st.sp st.max_sp ∷ []
  unfolding report_dirty stat_call
  report_dirty-told e m st same marked =
      ap (λ (r : Monster F × List AiCall). r.1)
        (if_true _ (m, []) (ap (λ (x : CStats). x.dirty) same ∙ marked))
      ∙ ap (λ x. stat_call e x ∷ []) same
