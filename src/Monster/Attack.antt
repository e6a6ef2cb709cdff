-- ===== src/Monster/Attack.antt =====
-- What an attack does: of a player on a monster, and of a monster on a player.
use mmorpg_server_rl_portfol.Prelude.{
  ℕ, ℤ, nat_eq, int_eq, pos, ◌-ℤ◌, ◌≤ℤ◌, leb_ℤ, ◌==◌, ◌≡◌, ◌≢◌, ◌∙◌, refl, sym, ap, inl, inr, Bool,
  Bool-cases, true, false, not, contains, List, [], ◌∷◌, some, if◌then◌else◌, if_true, if_false,
  arith, FloatArith, eq_of_beq, beq_symm, -ℤ_parts,
}
use mathlib.Core.Path.{subst}
use mmorpg_server_rl_portfol.Game.Player.{PlayerStat}
use mmorpg_server_rl_portfol.Game.Stats.{IsStat}
use mmorpg_server_rl_portfol.Monster.World.{
  Monster, MonsterWorld, dead, remove_from_aoi, set_monster, hit, slay, kill_monster, strike,
  attack_found, attack_loop, player_attack_monster,
}
use mmorpg_server_rl_portfol.Monster.Combat.{
  PlayerSide, IsPlayerSide, damaged, attack_stats, attack_player,
}

module _ (fl : FloatArith) where
  open fl use {F}

  -- The attacked monster: it dies exactly when ten points were all it had; then it has none, is dead
  -- and waits to respawn, else it has ten less and its state stays.
  pub record IsStruck (m m' : Monster F) (died : Bool) : Type 0 where
    pub dies : died ≡ leb_ℤ m.stats.hp (pos 10)
    pub falls :
        died ≡ true
        → (m'.stats.hp ≡ pos 0) × (m'.ai.state ≡ dead) × (m'.spawn_info.pending_respawn ≡ true)
    pub stands :
        died ≡ false
        → (m'.stats.hp ≡ m.stats.hp -ℤ pos 10) × (m'.ai ≡ m.ai) × (pos 0 ≤ℤ m'.stats.hp)

  used_up : (hp : ℤ) → leb_ℤ (hp -ℤ pos 10) (pos 0) ≡ leb_ℤ hp (pos 10)
  used_up hp = ground (arith, -ℤ_parts hp (pos 10))

  left_up : (hp : ℤ) → leb_ℤ (hp -ℤ pos 10) (pos 0) ≡ false → pos 0 ≤ℤ hp -ℤ pos 10
  left_up hp h = ground arith

  strike-IsStruck : (m : Monster F) → IsStruck m (strike fl m).0 (strike fl m).1
  unfolding strike hit slay kill_monster
  strike-IsStruck m =
      let P : Monster F × Bool → Type 0 = λ r. IsStruck m r.0 r.1 in
      let test = used_up m.stats.hp in
      elim (Bool-cases (leb_ℤ (m.stats.hp -ℤ pos 10) (pos 0))) [
        | inl gone ↦ subst P (sym (if_true _ _ gone)) (record {
          dies = sym gone ∙ test;
          falls = λ h. (refl, refl, refl);
          stands = λ h. absurd (ground arith);
        })
        | inr up ↦ subst P (sym (if_false _ _ up)) (record {
          dies = sym up ∙ test;
          falls = λ h. absurd (ground arith);
          stands = λ h. (refl, refl, left_up m.stats.hp up);
        })
      ]

  in_loop :
      (w : MonsterWorld F) (mid : ℕ) (m : Monster F)
      → w.components mid ≡ some m
      → (es : List ℕ) → contains mid es ≡ true
      → attack_loop fl w mid es
        ≡ some (
          set_monster w mid (strike fl m).0,
          (if (strike fl m).1 then remove_from_aoi mid ∷ [] else [], (strike fl m).1),
        )
  unfolding attack_loop attack_found contains
  in_loop w mid m at [] h = absurd (ground arith)
  in_loop w mid m at (e ∷ es) h = elim (Bool-cases (e == mid)) [
    | inl same ↦
        if_false _ _ (ap not same)
        ∙ ap (λ k. attack_found fl w k (w.components k)) (eq_of_beq e mid same)
        ∙ ap (attack_found fl w mid) at
    | inr other ↦
        if_true _ _ (ap not other) ∙ in_loop w mid m at es (ground (arith, beq_symm e mid))
  ]

  -- An attack on a monster of the world changes that monster alone: it is struck, and it leaves the
  -- grid, once, exactly when it dies, which is also the answer.
  pub player_attack_monster_lem :
      (w : MonsterWorld F) (mid : ℕ) (m : Monster F)
      → contains mid w.monsters ≡ true
      → w.components mid ≡ some m
      → (m' : Monster F) × (died : Bool) × (player_attack_monster fl w mid
          ≡ some (set_monster w mid m', (if died then remove_from_aoi mid ∷ [] else [], died)))
        × IsStruck m m' died
  unfolding player_attack_monster
  player_attack_monster_lem w mid m here at =
      ((strike fl m).0, (strike fl m).1, in_loop w mid m at w.monsters here, strike-IsStruck m)

-- The points that an attack leaves.
damaged_low : (hp dmg : ℤ) → pos 0 ≤ℤ damaged hp dmg
unfolding damaged
damaged_low hp dmg = ground arith

damaged_high : (hp dmg top : ℤ) → pos 0 ≤ℤ dmg → pos 0 ≤ℤ hp → hp ≤ℤ top → damaged hp dmg ≤ℤ top
unfolding damaged
damaged_high hp dmg top h k l = ground (arith, -ℤ_parts hp dmg)

damaged_lem : (hp dmg : ℤ) → damaged hp dmg ≡ (if leb_ℤ hp dmg then pos 0 else hp -ℤ dmg)
unfolding damaged
damaged_lem hp dmg = ground (arith, -ℤ_parts hp dmg)

module _ (ps : PlayerSide) (ok : IsPlayerSide ps) where
  open ps use {Players}

  attack_player-damaged :
      (p : Players) (monster_id player_id j : ℕ) (dmg : ℤ) (st : PlayerStat)
      → ps.get_player_stats p player_id ≡ some st
      → pos 0 ≤ℤ dmg
      → IsStat st
      → (ps.get_player_stats (attack_player ps p monster_id player_id dmg).0 player_id
          ≡ some (record st { hp = damaged st.hp dmg }))
        × (j ≢ player_id
            → ps.get_player_stats (attack_player ps p monster_id player_id dmg).0 j
              ≡ ps.get_player_stats p j)
  unfolding attack_player attack_stats
  attack_player-damaged p monster_id player_id j dmg st at h ok_st =
      let P : Players → Type 0 = λ q.
        (ps.get_player_stats q player_id ≡ some (record st { hp = damaged st.hp dmg }))
        × (j ≢ player_id → ps.get_player_stats q j ≡ ps.get_player_stats p j) in
      rw (at, attack_player)
        (elim (Bool-cases (damaged st.hp dmg == st.hp)) [
          | inl same ↦ subst P (sym (if_false _ p (ap not same))) (
            at
                ∙ ap (λ hp. some (record st { hp = hp }))
                    (sym (eq_of_beq (damaged st.hp dmg) st.hp same)),
            λ apart. refl,
          )
          | inr other ↦ subst P (sym (if_true _ p (ap not other))) (
            ok.set_self p player_id st (damaged st.hp dmg) st.sp at (damaged_low st.hp dmg)
                (damaged_high st.hp dmg st.max_hp h ok_st.hp_low ok_st.hp_high) ok_st.sp_low
                ok_st.sp_high,
            λ apart. ok.set_other p player_id j (damaged st.hp dmg) st.sp apart,
          )
        ])

  -- An attack of a monster whose damage is not negative leaves the player, whose hit points and skill
  -- points lie between 0 and their maxima, with the damage off the hit points, or 0 where that would
  -- be less, and nothing else changed; for every other player nothing is read differently.
  pub attack_player_lem :
      (p : Players) (monster_id player_id j : ℕ) (dmg : ℤ) (st : PlayerStat)
      → ps.get_player_stats p player_id ≡ some st
      → pos 0 ≤ℤ dmg
      → IsStat st
      → (ps.get_player_stats (attack_player ps p monster_id player_id dmg).0 player_id
          ≡ some (record st { hp = if leb_ℤ st.hp dmg then pos 0 else st.hp -ℤ dmg }))
        × (j ≢ player_id
            → ps.get_player_stats (attack_player ps p monster_id player_id dmg).0 j
              ≡ ps.get_player_stats p j)
  attack_player_lem p monster_id player_id j dmg st at h ok_st =
      let (hit, others) = attack_player-damaged p monster_id player_id j dmg st at h ok_st in
      (hit ∙ ap (λ hp. some (record st { hp = hp })) (damaged_lem st.hp dmg), others)
