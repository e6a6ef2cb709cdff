-- ===== src/Monster/Seeds.antt =====
-- The states that core/core_types.h draws random numbers from.
use Prim.Native.Nat.{bit_xor, digits, differ, bit_xor-bitwise}
use native.Mathlib.Numerals.{unary_clauses}
use mmorpg_server_rl_portfol.Prelude.{
  ℕ, zero, suc, ◌*◌, ◌/◌, ◌%◌, ◌^◌, ◌≤◌, ◌<◌, ◌≡◌, ◌≢◌, ◌∙◌, sym, ap, arith,
}
use mmorpg_server_rl_portfol.Monster.Random.{xor_left13, xor_right17, xor_left5, xorshift32, low24}

abbrev xor_digits : ℕ → ℕ → ℕ → ℕ
xor_digits n a b = digits (λ b. b) differ n a b

differ-zero : (x y : ℕ) → differ x y ≡ 0 → x ≡ y
differ-zero zero y h = sym h
differ-zero (suc x) zero h = absurd (omega arith)
differ-zero (suc x) (suc y) h = ap suc (differ-zero x y h)

differ-bit : (x y : ℕ) → x < 2 → y < 2 → differ x y < 2
differ-bit zero y h k = k
differ-bit (suc x) zero h k = h
differ-bit (suc x) (suc y) h k = differ-bit x y (omega arith) (omega arith)

-- Numbers with no digit apart are equal.
xor_digits-zero : (n a b : ℕ) → a ≤ n → xor_digits n a b ≡ 0 → a ≡ b
xor_digits-zero zero zero b h e = sym e
xor_digits-zero zero (suc a) b h e = absurd (omega arith)
xor_digits-zero (suc n) zero b h e = sym e
xor_digits-zero (suc n) (suc a) b h e =
    let high = xor_digits-zero n (suc a / 2) (b / 2) (omega arith) (omega arith) in
    let low = differ-zero (suc a % 2) (b % 2) (omega arith) in omega arith

bit_xor-zero : (a b : ℕ) → bit_xor a b ≡ 0 → a ≡ b
bit_xor-zero a b h = xor_digits-zero a a b (omega arith) (sym (bit_xor-bitwise a b) ∙ h)

pow_double : (k : ℕ) → 2 ^ suc k ≡ 2 ^ k * 2
pow_double k = simp unary_clauses

-- A number below a power of two has no digit from there on.
xor_digits-lt : (k n a b : ℕ) → a ≤ n → a < 2 ^ k → b < 2 ^ k → xor_digits n a b < 2 ^ k
xor_digits-lt k zero a b h p q = q
xor_digits-lt k (suc n) zero b h p q = q
xor_digits-lt zero (suc n) (suc a) b h p q = absurd (omega arith)
xor_digits-lt (suc k) (suc n) (suc a) b h p q =
    let double : 2 ^ suc k ≡ 2 ^ k * 2 = pow_double k in
    let high = xor_digits-lt k n (suc a / 2) (b / 2) (omega arith) (omega arith) (omega arith) in
    let low = differ-bit (suc a % 2) (b % 2) (omega arith) (omega arith) in omega arith

bit_xor-lt : (a b : ℕ) → a < 2 ^ 32 → b < 2 ^ 32 → bit_xor a b < 2 ^ 32
bit_xor-lt a b p q =
    let bound = xor_digits-lt 32 a a b (omega arith) p q in omega (arith, bit_xor-bitwise a b)

xor_left13-zero : (s : ℕ) → s < 2 ^ 32 → xor_left13 s ≡ 0 → s ≡ 0
unfolding xor_left13
xor_left13-zero s h e = let same = bit_xor-zero s (s * 2 ^ 13 % 2 ^ 32) e in omega arith

xor_right17-zero : (s : ℕ) → xor_right17 s ≡ 0 → s ≡ 0
unfolding xor_right17
xor_right17-zero s e = let same = bit_xor-zero s (s / 2 ^ 17) e in omega arith

xor_left5-zero : (s : ℕ) → s < 2 ^ 32 → xor_left5 s ≡ 0 → s ≡ 0
unfolding xor_left5
xor_left5-zero s h e = let same = bit_xor-zero s (s * 2 ^ 5 % 2 ^ 32) e in omega arith

-- A seed that is not 0 stays a 32-bit number that is not 0, so that the generator never sticks; the
-- part of it that becomes a fraction is below the divisor 2 ^ 24.
pub xorshift32-bounds :
    (s : ℕ)
    → s < 2 ^ 32
    → s ≢ 0
    → (xorshift32 s < 2 ^ 32) × (xorshift32 s ≢ 0) × (low24 (xorshift32 s) < 2 ^ 24)
unfolding xorshift32 xor_left13 xor_right17 xor_left5 low24
xorshift32-bounds s h seed =
    let a = xor_left13 s in
    let b = xor_right17 a in
    let below_a : a < 2 ^ 32 = bit_xor-lt s (s * 2 ^ 13 % 2 ^ 32) h (omega arith) in
    let below_b : b < 2 ^ 32 = bit_xor-lt a (a / 2 ^ 17) below_a (omega arith) in
    (
      bit_xor-lt b (b * 2 ^ 5 % 2 ^ 32) below_b (omega arith),
      (λ e. seed (xor_left13-zero s h (xor_right17-zero a (xor_left5-zero b below_b e)))),
      omega arith,
    )
