-- ===== src/Monster/Thoughts/Told.antt =====
-- What a turn of field/monster/Systems/AISystem.cpp tells of the state of a monster.
use mmorpg_server_rl_portfol.Prelude.{
  by_test, ℕ, pos, leb_ℤ, int_eq, nat_eq, ◌==◌, ◌≡◌, ◌∙◌, refl, sym, ap, inl, inr, Bool, Bool-cases,
  true, ◌&&◌, List, [], ◌∷◌, ◌++◌, Option, none, some, if◌then◌else◌, if_true, if_false, beq_refl,
  arith, FloatArith,
}
use mmorpg_server_rl_portfol.Monster.World.{
  Monster, CAi, CStats, CTransform, AiState, return_home, dead, stop_move, f0,
}
use mmorpg_server_rl_portfol.Monster.Ai.{
  Senses, AiCall, broadcast_ai_state, broadcast_monster_stat, state_beq, announce, announced, flee,
  flee_timer, give_up, move_at, turn_away, decide, is_low, roam, engage_archer, engage_melee,
  find_target, sight_range, is_lost, think, dist_sq,
}
use mmorpg_server_rl_portfol.Monster.Random.{flee_speed}
use mmorpg_server_rl_portfol.Monster.Turn.{stat_call, sync, report_dirty, rest_of_turn}

-- The state of a monster that its watchers were last told, from what they were told before.
abbrev pub told_state : ℕ → AiState → List AiCall → AiState
told_state e st [] = st
told_state e st (broadcast_ai_state id new ∷ calls) =
    told_state e (if id == e then new else st) calls
told_state e st (broadcast_monster_stat id hp max_hp sp max_sp ∷ calls) = told_state e st calls

state_beq-eq : (a b : AiState) → state_beq a b ≡ true → a ≡ b
unfolding state_beq
state_beq-eq a b h = ground arith

pub told_state-append :
    (e : ℕ) (st : AiState) (xs ys : List AiCall)
    → told_state e st (xs ++ ys) ≡ told_state e (told_state e st xs) ys
told_state-append e st [] ys = refl
told_state-append e st (broadcast_ai_state id new ∷ xs) ys =
    told_state-append e (if id == e then new else st) xs ys
told_state-append e st (broadcast_monster_stat id hp max_hp sp max_sp ∷ xs) ys =
    told_state-append e st xs ys

told_state-announce : (e : ℕ) (old new : AiState) → told_state e old (announce e old new) ≡ new
unfolding announce
told_state-announce e old new = elim (Bool-cases (state_beq new old)) [
  | inl same ↦ ap (told_state e old) (if_true [] _ same) ∙ sym (state_beq-eq new old same)
  | inr other ↦ ap (told_state e old) (if_false [] _ other) ∙ if_true new old (beq_refl e)
]

module _ (fl : FloatArith) where
  open fl use {F, lit, fsub, fmul, fdiv, flt, fle, sqrt, of_int}

  pub told_state-sync :
      (e : ℕ) (is_archer : Bool) (m : Monster F)
      → told_state e m.ai.state (sync fl e is_archer m).1 ≡ m.ai.state
  unfolding sync stat_call
  told_state-sync e is_archer m =
      by_test (λ (r : Monster F × List AiCall). told_state e m.ai.state r.1 ≡ m.ai.state)
        m.ai.net_synced _ _ refl (if_true m.ai.state m.ai.state (beq_refl e))

  pub told_state-report_dirty :
      (e : ℕ) (st : AiState) (m : Monster F) → told_state e st (report_dirty fl e m).1 ≡ st
  unfolding report_dirty stat_call
  told_state-report_dirty e st m =
      by_test (λ (r : Monster F × List AiCall). told_state e st r.1 ≡ st) m.stats.dirty _ _ refl
        refl

  -- An exit with the calls before it tells the state that the monster leaves with.
  pub record IsTold (e : ℕ) (old : AiState) (r : CAi F × List AiCall) : Type 0 where
    pub told : told_state e old r.1 ≡ r.0.state

  announced-IsTold : (e : ℕ) (old : AiState) (ai : CAi F) → IsTold e old (announced fl e old ai)
  unfolding announced
  announced-IsTold e old ai = record { told = told_state-announce e old ai.state }

  flee-IsTold :
      (e : ℕ) (old : AiState) (is_archer : Bool) (tr : CTransform F) (o : Option (F × F))
      (ai : CAi F)
      → IsTold e old (flee fl e old is_archer tr o ai)
  unfolding flee
  flee-IsTold e old is_archer tr none ai = announced-IsTold e old _
  flee-IsTold e old is_archer tr (some p) ai =
      let fled = record ai { state = return_home; idle_patrol_timer = flee_timer fl ai } in
      let end_dist = if is_archer then lit 22 1 else lit 16 1 in
      by_test (IsTold e old)
        (fle fled.idle_patrol_timer (f0 fl) && fle (fmul end_dist end_dist) (dist_sq fl tr p))
        (announced fl e old (give_up fl fled))
        (announced fl e old (move_at fl (flee_speed fl is_archer) (turn_away fl tr p fled)))
        (announced-IsTold e old _) (announced-IsTold e old _)

  decide-IsTold :
      (e : ℕ) (senses : Senses F) (is_archer : Bool) (old : AiState) (tr : CTransform F)
      (st : CStats) (ai : CAi F) (o : Option (F × F))
      → IsTold e old (decide fl e senses is_archer old tr st ai o)
  unfolding decide
  decide-IsTold e senses is_archer old tr st ai none =
      by_test (IsTold e old) (is_low fl st) (flee fl e old is_archer tr none ai)
        (announced fl e old (roam fl is_archer ai)) (flee-IsTold e old is_archer tr none ai)
        (announced-IsTold e old _)
  decide-IsTold e senses is_archer old tr st ai (some p) =
      by_test (IsTold e old) (is_low fl st) (flee fl e old is_archer tr (some p) ai)
        (announced fl e old
          (if is_archer then engage_archer fl tr p ai else engage_melee fl senses old tr st p ai))
        (flee-IsTold e old is_archer tr (some p) ai) (announced-IsTold e old _)

  think-IsTold :
      (e : ℕ) (senses : Senses F) (is_archer : Bool) (old : AiState) (tr : CTransform F)
      (st : CStats) (ai : CAi F)
      → IsTold e old (think fl e senses is_archer old tr st ai)
  unfolding think
  think-IsTold e senses is_archer old tr st ai =
      let (found, target) = find_target fl senses (sight_range fl is_archer) tr ai in
      by_test (IsTold e old) (is_lost fl is_archer tr target)
        (announced fl e old (give_up fl found))
        (decide fl e senses is_archer old tr st found target) (announced-IsTold e old _)
        (decide-IsTold e senses is_archer old tr st found target)

  pub rest_of_turn-IsTold :
      (dt : F) (senses : Senses F) (e : ℕ) (is_archer : Bool) (m : Monster F) (old : AiState)
      → m.ai.state ≡ old
      → IsTold e old (rest_of_turn fl dt senses e is_archer old m)
  unfolding rest_of_turn
  rest_of_turn-IsTold dt senses e is_archer m old same =
      let cooled = record (m.ai) { think_cooldown = fsub m.ai.think_cooldown dt } in
      let dying = stop_move fl (record (m.ai) { state = dead; target_id = 0 }) in
      let ready = record cooled { think_cooldown = lit 3 10 } in
      let thought = think fl e senses is_archer old m.transform m.stats ready in
      by_test (IsTold e old) (leb_ℤ m.stats.hp (pos 0)) (announced fl e old dying) _
        (announced-IsTold e old _)
        (by_test (IsTold e old) (flt (f0 fl) cooled.think_cooldown) (cooled, []) thought
          (record { told = sym same })
          (think-IsTold e senses is_archer old m.transform m.stats ready))
