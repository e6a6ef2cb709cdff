-- ===== src/Monster/Observe.antt =====
-- field/monster/RL/RlObs16.h: what the policy of a monster sees, and the choice from its answer.
use mmorpg_server_rl_portfol.Prelude.{
  ℕ, ◌+◌, Bool, true, ◌&&◌, List, [], ◌∷◌, ◌++◌, Option, none, some, if◌then◌else◌, FloatArith,
}
use mmorpg_server_rl_portfol.Monster.World.{
  AiState, idle, patrol, chase, attack, return_home, dead, f0,
}

module _ (fl : FloatArith) where
  open fl use {F, lit, fadd, fsub, fmul, fdiv, flt, fle, sqrt}

  -- The members of `ObsParams`, which nothing changes.
  abbrev pub obs_sight : F
  obs_sight = lit 11 1

  abbrev pub obs_attack_range : F
  obs_attack_range = lit 13 10

  abbrev pub obs_keep_attack_range : F
  obs_keep_attack_range = lit 18 10

  abbrev pub obs_low_hp_ratio : F
  obs_low_hp_ratio = lit 25 100

  unfoldable pub clampf : F → F → F → F
  clampf v lo hi = if flt v lo then lo else if flt hi v then hi else v

  abbrev pub bit : Bool → F
  bit b = if b then lit 1 1 else f0 fl

  -- The elements 9 to 13, which mark the last action; `Dead` marks none.
  unfoldable pub last_action : AiState → List F
  last_action idle = bit true ∷ f0 fl ∷ f0 fl ∷ f0 fl ∷ f0 fl ∷ []
  last_action patrol = f0 fl ∷ bit true ∷ f0 fl ∷ f0 fl ∷ f0 fl ∷ []
  last_action chase = f0 fl ∷ f0 fl ∷ bit true ∷ f0 fl ∷ f0 fl ∷ []
  last_action attack = f0 fl ∷ f0 fl ∷ f0 fl ∷ bit true ∷ f0 fl ∷ []
  last_action return_home = f0 fl ∷ f0 fl ∷ f0 fl ∷ f0 fl ∷ bit true ∷ []
  last_action dead = f0 fl ∷ f0 fl ∷ f0 fl ∷ f0 fl ∷ f0 fl ∷ []

  -- What the branch on `hasTarget` writes.
  pub record TargetObs : Type 0 where
    pub has : F
    pub distance : F
    pub dir_x : F
    pub dir_y : F
    pub can_attack : F
    pub in_attack : F
    pub in_keep : F

  unfoldable pub target_obs : F → F → F → Option (F × F) → TargetObs
  unfolding clampf
  target_obs mx my attack_cd none = record {
    has = f0 fl;
    distance = f0 fl;
    dir_x = f0 fl;
    dir_y = f0 fl;
    can_attack = f0 fl;
    in_attack = f0 fl;
    in_keep = f0 fl;
  }
  target_obs mx my attack_cd (some (tx, ty)) =
      let vx = fsub tx mx in
      let vy = fsub ty my in
      let dist = sqrt (fadd (fmul vx vx) (fmul vy vy)) in
      let far = flt (lit 1 1000000) dist in
      let in_attack = bit (fle dist obs_attack_range) in
      record {
        has = lit 1 1;
        distance = clampf (fdiv dist obs_sight) (f0 fl) (lit 2 1);
        dir_x = if far then fdiv vx dist else f0 fl;
        dir_y = if far then fdiv vy dist else f0 fl;
        can_attack = bit (fle attack_cd (f0 fl) && flt (lit 5 10) in_attack);
        in_attack = in_attack;
        in_keep = bit (fle dist obs_keep_attack_range);
      }

  unfoldable pub hp_ratio : F → F → F
  hp_ratio hp max_hp = if flt (f0 fl) max_hp then fdiv hp max_hp else f0 fl

  -- `MakeObs16`, as the list of the sixteen numbers.
  unfoldable pub make_obs16 : F → F → Option (F × F) → F → F → F → AiState → List F
  unfolding target_obs hp_ratio last_action
  make_obs16 mx my target hp max_hp attack_cd last =
      let t = target_obs mx my attack_cd target in
      let ratio = clampf (hp_ratio hp max_hp) (f0 fl) (lit 1 1) in
      t.has
      ∷ t.distance
      ∷ t.dir_x
      ∷ t.dir_y
      ∷ ratio
      ∷ bit (fle ratio obs_low_hp_ratio)
      ∷ t.can_attack
      ∷ t.in_attack
      ∷ t.in_keep
      ∷ (last_action last ++ f0 fl ∷ f0 fl ∷ [])

  -- The loop of `ArgMax5` from an index on.
  unfoldable pub arg_max_from : ℕ → ℕ → F → List F → ℕ
  arg_max_from i best bestv [] = best
  arg_max_from i best bestv (v ∷ vs) =
      let (best', bestv') = if flt bestv v then (i, v) else (best, bestv) in
      arg_max_from (i + 1) best' bestv' vs

  -- `ArgMax5`; without a first number it would read out of bounds, and the policy answers five.
  unfoldable pub arg_max5 : List F → ℕ
  unfolding arg_max_from
  arg_max5 [] = 0
  arg_max5 (v ∷ vs) = arg_max_from 1 0 v vs
