-- ===== src/Examples/Mind.antt =====
-- A monster of ten hit points that thinks, without players around it or with one next to it.
use mmorpg_server_rl_portfol.Prelude.{
  ℤ, int_eq, nat_eq, pos, ◌≡◌, ◌≢◌, true, false, some, List, [], ◌∷◌, ◌++◌, arith, leb_ℤ, ltb_ℤ,
  if◌then◌else◌,
}
use mmorpg_server_rl_portfol.Monster.World.{Monster, attack, return_home, patrol, dead}
use mmorpg_server_rl_portfol.Monster.Ai.{Senses, AiCall, broadcast_monster_stat, choose, dist_sq}
use mmorpg_server_rl_portfol.Monster.Observe.{arg_max5}
use mmorpg_server_rl_portfol.Monster.Turn.{ai_turn}
use mmorpg_server_rl_portfol.Monster.Thoughts.{told_state-ai_turn, ai_turn_lem, choose-guarded}
use mmorpg_server_rl_portfol.Monster.Thoughts.Told.{told_state}
use mmorpg_server_rl_portfol.Monster.Policy.{IsStrict, IsMax, arg_max5-IsMax}
use mmorpg_server_rl_portfol.Examples.Floats.{whole_floats}
use mmorpg_server_rl_portfol.Examples.Hunt.{beast}

-- One player at the origin, and a policy that always answers the attack.
abbrev keen : Senses ℤ
keen = record {
  closest = λ x y sight. 1;
  positions = λ id. some (pos 0, pos 0);
  policy = λ obs. pos 0 ∷ pos 0 ∷ pos 0 ∷ pos 9 ∷ pos 0 ∷ [];
}

told_state-ai_turn_example :
    told_state 5 patrol (ai_turn whole_floats (pos 1) keen 5 beast).1
    ≡ (ai_turn whole_floats (pos 1) keen 5 beast).0.ai.state
told_state-ai_turn_example = told_state-ai_turn whole_floats (pos 1) keen 5 beast

abbrev fallen : Monster ℤ
fallen = record beast { stats = record (beast.stats) { hp = pos 0; dirty = true } }

ai_turn_lem_example :
    let (m', calls) = ai_turn whole_floats (pos 1) keen 5 fallen in
    (m'.transform ≡ beast.transform)
    × (m'.stats ≡ record (beast.stats) { hp = pos 0; dirty = false })
    × (fallen.stats.dirty ≡ true
        → (before after : List AiCall) × (calls
            ≡ before
              ++ broadcast_monster_stat 5
                  (pos 0)
                  fallen.stats.max_hp
                  fallen.stats.sp
                  fallen.stats.max_sp
                ∷ after))
    × (leb_ℤ fallen.stats.hp (pos 0) ≡ true
        → (m'.ai.state ≡ dead) × (m'.ai.target_id ≡ 0) × (m'.ai.move_speed ≡ pos 0))
ai_turn_lem_example = ai_turn_lem whole_floats (pos 1) keen 5 fallen

choose-guarded_example :
    let chosen =
      choose whole_floats keen patrol beast.transform beast.stats (pos 0, pos 0) beast.ai in
    let d2 = dist_sq whole_floats beast.transform (pos 0, pos 0) in
    (chosen ≡ attack
      → (whole_floats.fle
            (if whole_floats.flt (whole_floats.lit 1 1000000000000) d2
              then whole_floats.sqrt d2
              else pos 0)
            (whole_floats.lit 13 10)
          ≡ true)
        × (whole_floats.fle beast.ai.attack_cd (pos 0) ≡ true))
    × (chosen ≡ return_home
        → whole_floats.flt (whole_floats.lit 25 100) (
            if ltb_ℤ (pos 0) beast.stats.max_hp
            then whole_floats.fdiv beast.stats.hp beast.stats.max_hp
            else pos 0)
          ≡ false)
    × (chosen ≢ patrol)
    × (chosen ≢ dead)
choose-guarded_example =
    choose-guarded whole_floats keen patrol beast.transform beast.stats (pos 0, pos 0) beast.ai

whole_floats-IsStrict : IsStrict whole_floats
whole_floats-IsStrict = record { irrefl = λ a. ground arith; trans = λ a b c h k. ground arith }

arg_max5-IsMax_example :
    IsMax whole_floats whole_floats-IsStrict
      (pos 2 ∷ pos 7 ∷ pos 1 ∷ [])
      (arg_max5 whole_floats (pos 2 ∷ pos 7 ∷ pos 1 ∷ []))
arg_max5-IsMax_example =
    arg_max5-IsMax whole_floats whole_floats-IsStrict (pos 2) (pos 7 ∷ pos 1 ∷ [])
