-- ===== src/Game/Stats.antt =====
-- The bounds that game/Player.h keeps on hit points and skill points.
use mmorpg_server_rl_portfol.Prelude.{ℤ, pos, ◌≤ℤ◌, List, [], ◌∷◌, arith}
use mmorpg_server_rl_portfol.Game.Player.{
  PlayerStat, set_hp, set_max_hp, set_sp, set_max_sp, clamp_top, clamp_bottom, new_stat,
}

-- A call of a setter. The maxima that the code sets are not negative.
pub data StatCall : Type 0 where
  sets_hp : ℤ → StatCall
  sets_sp : ℤ → StatCall
  sets_max_hp : (v : ℤ) → pos 0 ≤ℤ v → StatCall
  sets_max_sp : (v : ℤ) → pos 0 ≤ℤ v → StatCall

unfoldable pub do_call : PlayerStat → StatCall → PlayerStat
do_call st (sets_hp v) = set_hp st v
do_call st (sets_sp v) = set_sp st v
do_call st (sets_max_hp v h) = set_max_hp st v
do_call st (sets_max_sp v h) = set_max_sp st v

unfoldable pub do_calls : PlayerStat → List StatCall → PlayerStat
do_calls st [] = st
do_calls st (c ∷ cs) = do_calls (do_call st c) cs

pub record IsStat (st : PlayerStat) : Type 0 where
  pub hp_low : pos 0 ≤ℤ st.hp
  pub hp_high : st.hp ≤ℤ st.max_hp
  pub sp_low : pos 0 ≤ℤ st.sp
  pub sp_high : st.sp ≤ℤ st.max_sp

clamp_low : (top v : ℤ) → pos 0 ≤ℤ clamp_bottom (clamp_top top v)
unfolding clamp_bottom
clamp_low top v = ground arith

clamp_high : (top v : ℤ) → pos 0 ≤ℤ top → clamp_bottom (clamp_top top v) ≤ℤ top
unfolding clamp_bottom clamp_top
clamp_high top v h = ground arith

lowered_low : (top v : ℤ) → pos 0 ≤ℤ top → pos 0 ≤ℤ v → pos 0 ≤ℤ clamp_top top v
unfolding clamp_top
lowered_low top v h k = ground arith

lowered_high : (top v : ℤ) → clamp_top top v ≤ℤ top
unfolding clamp_top
lowered_high top v = ground arith

zero_le : (a b : ℤ) → pos 0 ≤ℤ a → a ≤ℤ b → pos 0 ≤ℤ b
zero_le a b h k = ground arith

pub do_call-IsStat : (st : PlayerStat) (c : StatCall) → IsStat st → IsStat (do_call st c)
unfolding do_call set_hp set_sp set_max_hp set_max_sp
do_call-IsStat st (sets_hp v) ok = record {
  hp_low = clamp_low st.max_hp v;
  hp_high = clamp_high st.max_hp v (zero_le st.hp st.max_hp ok.hp_low ok.hp_high);
  sp_low = ok.sp_low;
  sp_high = ok.sp_high;
}
do_call-IsStat st (sets_sp v) ok = record {
  hp_low = ok.hp_low;
  hp_high = ok.hp_high;
  sp_low = clamp_low st.max_sp v;
  sp_high = clamp_high st.max_sp v (zero_le st.sp st.max_sp ok.sp_low ok.sp_high);
}
do_call-IsStat st (sets_max_hp v h) ok = record {
  hp_low = lowered_low v st.hp h ok.hp_low;
  hp_high = lowered_high v st.hp;
  sp_low = ok.sp_low;
  sp_high = ok.sp_high;
}
do_call-IsStat st (sets_max_sp v h) ok = record {
  hp_low = ok.hp_low;
  hp_high = ok.hp_high;
  sp_low = lowered_low v st.sp h ok.sp_low;
  sp_high = lowered_high v st.sp;
}

do_calls_from : (st : PlayerStat) (cs : List StatCall) → IsStat st → IsStat (do_calls st cs)
unfolding do_calls
do_calls_from st [] ok = ok
do_calls_from st (c ∷ cs) ok = do_calls_from (do_call st c) cs (do_call-IsStat st c ok)

-- From a new player on, whatever calls of the setters follow, with maxima that are not negative, hit
-- points and skill points stay between 0 and their maxima.
pub do_calls-IsStat : (cs : List StatCall) → IsStat (do_calls new_stat cs)
do_calls-IsStat cs = do_calls_from new_stat cs (record {
  hp_low = omega arith;
  hp_high = omega arith;
  sp_low = omega arith;
  sp_high = omega arith;
})
