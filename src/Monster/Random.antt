-- ===== src/Monster/Random.antt =====
-- core/core_types.h: the pseudo-random numbers of a monster, and the speeds. A uint32_t is a number
-- below 2 ^ 32; `<<` cuts to 32 bits, `>>` divides.
use Prim.Native.Nat.{bit_xor}
use mmorpg_server_rl_portfol.Prelude.{ℕ, ◌*◌, ◌/◌, ◌%◌, ◌^◌, Bool, if◌then◌else◌, FloatArith, pos}
use mmorpg_server_rl_portfol.Game.Player.{player_speed}

-- `s ^= (s << 13)`, `s ^= (s >> 17)` and `s ^= (s << 5)`
unfoldable pub xor_left13 : ℕ → ℕ
xor_left13 s = bit_xor s (s * 2 ^ 13 % 2 ^ 32)

unfoldable pub xor_right17 : ℕ → ℕ
xor_right17 s = bit_xor s (s / 2 ^ 17)

unfoldable pub xor_left5 : ℕ → ℕ
xor_left5 s = bit_xor s (s * 2 ^ 5 % 2 ^ 32)

-- The new state, which is also the number drawn.
unfoldable pub xorshift32 : ℕ → ℕ
unfolding xor_left13 xor_right17 xor_left5
xorshift32 s = xor_left5 (xor_right17 (xor_left13 s))

-- `xorshift32(s) & 0xFFFFFF`: the low 24 bits, as the remainder.
unfoldable pub low24 : ℕ → ℕ
low24 n = n % 2 ^ 24

module _ (fl : FloatArith) where
  open fl use {F, lit, of_int, fadd, fsub, fmul, fdiv}

  -- A number of [0, 1) and the new state.
  unfoldable pub frand01 : ℕ → F × ℕ
  unfolding xorshift32 low24
  frand01 s = let s' = xorshift32 s in (fdiv (of_int (pos (low24 s'))) (of_int (pos 0x1000000)), s')

  unfoldable pub frand_range : ℕ → F → F → F × ℕ
  unfolding frand01
  frand_range s a b = let (r, s') = frand01 s in (fadd a (fmul (fsub b a) r), s')

  unfoldable pub patrol_speed : Bool → F
  patrol_speed is_archer = fmul (player_speed fl) (lit 50 100)

  -- `CHASE_ARCHER_MUL` and `CHASE_MELEE_MUL` are equal, and so are those of the flight.
  unfoldable pub chase_speed : Bool → F
  chase_speed is_archer = fmul (player_speed fl) (if is_archer then lit 110 100 else lit 110 100)

  unfoldable pub flee_speed : Bool → F
  flee_speed is_archer = fmul (player_speed fl) (if is_archer then lit 70 100 else lit 70 100)
