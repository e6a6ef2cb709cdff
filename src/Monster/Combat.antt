-- ===== src/Monster/Combat.antt =====
-- field/monster/Systems/CombatSystem.cpp. The players are behind callbacks of the environment: their
-- state is a parameter with the reading and the writing of a player's points.
use mmorpg_server_rl_portfol.Prelude.{
  ℕ, ℤ, pos, ◌-ℤ◌, leb_ℤ, ltb_ℤ, int_eq, ◌==◌, Bool, true, false, not, ◌&&◌, List, [], ◌∷◌, ◌++◌,
  Option, none, some, ◌≡◌, ◌≢◌, ◌≤ℤ◌, if◌then◌else◌, by_test, FloatArith,
}
use mmorpg_server_rl_portfol.Game.Player.{PlayerStat}
use mmorpg_server_rl_portfol.Monster.World.{Monster, AiState, attack}

-- `env.getPlayerStats`, `setPlayerStats` and whether `getPlayerPosition` finds the player.
pub record PlayerSide : Type 1 where
  pub Players : Type 0
  pub get_player_stats : Players → ℕ → Option PlayerStat
  pub set_player_stats : Players → ℕ → ℤ → ℤ → Players
  pub has_position : Players → ℕ → Bool

-- What a set of points leaves, as the code relies on it: the player's own points are those written,
-- within the maxima, and no one else's change.
pub record IsPlayerSide (ps : PlayerSide) : Type 0 where
  pub set_self :
      (p : ps.Players) (id : ℕ) (st : PlayerStat) (hp sp : ℤ)
      → ps.get_player_stats p id ≡ some st
      → pos 0 ≤ℤ hp
      → hp ≤ℤ st.max_hp
      → pos 0 ≤ℤ sp
      → sp ≤ℤ st.max_sp
      → ps.get_player_stats (ps.set_player_stats p id hp sp) id
        ≡ some (record st { hp = hp; sp = sp })
  pub set_other :
      (p : ps.Players) (id j : ℕ) (hp sp : ℤ)
      → j ≢ id
      → ps.get_player_stats (ps.set_player_stats p id hp sp) j ≡ ps.get_player_stats p j

pub data CombatCall : Type 0 where
  mark_player_dirty : ℕ → CombatCall
  broadcast_combat : ℕ → ℕ → ℤ → ℤ → CombatCall
  broadcast_player_stat : ℕ → ℤ → ℤ → ℤ → ℤ → CombatCall
  broadcast_player_dead : ℕ → CombatCall

-- `std::max(0, hp - dmg)`
unfoldable pub damaged : ℤ → ℤ → ℤ
damaged hp dmg = if ltb_ℤ (pos 0) (hp -ℤ dmg) then hp -ℤ dmg else pos 0

module _ (ps : PlayerSide) where
  open ps use {Players}

  -- `attack_player` once the player's points are read.
  unfoldable pub attack_stats : Players → ℕ → ℕ → ℤ → PlayerStat → Players × List CombatCall
  unfolding damaged
  attack_stats p monster_id player_id dmg st =
      let new_hp = damaged st.hp dmg in
      let hp_changed = not (new_hp == st.hp) in
      (
        if hp_changed then ps.set_player_stats p player_id new_hp st.sp else p,
        (if hp_changed then mark_player_dirty player_id ∷ [] else [])
            ++ (broadcast_combat monster_id player_id dmg new_hp ∷ [])
            ++ (if hp_changed
                then broadcast_player_stat player_id new_hp st.max_hp st.sp st.max_sp ∷ []
                else [])
            ++ (if hp_changed && leb_ℤ new_hp (pos 0)
                then broadcast_player_dead player_id ∷ []
                else []),
      )

  unfoldable pub attack_player : Players → ℕ → ℕ → ℤ → Players × List CombatCall
  unfolding attack_stats
  attack_player p monster_id player_id atk = elim (ps.get_player_stats p player_id) [
    | none ↦ (p, [])
    | some st ↦ attack_stats p monster_id player_id atk st
  ]

module _ (fl : FloatArith) (ps : PlayerSide) where
  open fl use {F, lit, fadd, flt}
  open ps use {Players}

  unfoldable pub is_attacking : AiState → Bool
  is_attacking attack = true
  is_attacking st = false

  -- The body of the loop of `CombatSystem::update`, for one monster.
  unfoldable pub combat_one : F → Players → ℕ → Monster F → Players × (Monster F × List CombatCall)
  unfolding attack_player is_attacking
  combat_one dt p e m =
      let timer = fadd m.ai.attack_timer dt in
      let timed = record m { ai = record (m.ai) { attack_timer = timer } } in
      let (p', calls) = attack_player ps p e m.ai.target_id m.stats.atk in
      if not (is_attacking m.ai.state)
      then (p, (record m { ai = record (m.ai) { attack_timer = lit 0 1 } }, []))
      else if flt timer m.ai.attack_cooldown
      then (p, (timed, []))
      else if not (ps.has_position p m.ai.target_id)
      then (p, (timed, []))
      else (
        p',
        (record m { ai = record (m.ai) { attack_cd = lit 9 10; attack_timer = lit 0 1 } }, calls),
      )

  -- A turn of the combat leaves the players alone and calls nothing, or attacks.
  pub combat_one-cases {ℓ} :
      (P : Players × (Monster F × List CombatCall) → Type ℓ) (dt : F) (p : Players) (e : ℕ)
      (m : Monster F)
      → ((m' : Monster F) → P (p, (m', [])))
      → ((m' : Monster F)
          → let r = attack_player ps p e m.ai.target_id m.stats.atk in P (r.0, (m', r.1)))
      → P (combat_one dt p e m)
  unfolding combat_one
  combat_one-cases P dt p e m calm fights =
      let timer = fadd m.ai.attack_timer dt in
      let reset = record m { ai = record (m.ai) { attack_timer = lit 0 1 } } in
      let timed = record m { ai = record (m.ai) { attack_timer = timer } } in
      let struck = record m {
        ai = record (m.ai) { attack_cd = lit 9 10; attack_timer = lit 0 1 };
      } in
      let r = attack_player ps p e m.ai.target_id m.stats.atk in
      by_test P (not (is_attacking m.ai.state)) (p, (reset, [])) _ (calm reset)
        (by_test P (flt timer m.ai.attack_cooldown) (p, (timed, [])) _ (calm timed)
          (by_test P (not (ps.has_position p m.ai.target_id)) (p, (timed, [])) (r.0, (struck, r.1))
            (calm timed) (fights struck)))
