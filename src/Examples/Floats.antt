-- ===== src/Examples/Floats.antt =====
-- An arithmetic on whole numbers that stands in for the floats where an example has to run.
use mmorpg_server_rl_portfol.Prelude.{
  ℤ, pos, pos_part, ◌+ℤ◌, ◌-ℤ◌, ◌/◌, ◌*◌, ltb_ℤ, leb_ℤ, int_beq, FloatArith,
}

abbrev pub whole_floats : FloatArith
whole_floats = record {
  F = ℤ;
  lit = λ n d. pos (n / d);
  of_int = λ a. a;
  fneg = λ a. pos 0 -ℤ a;
  fadd = ◌+ℤ◌;
  fsub = ◌-ℤ◌;
  fmul = λ a b. pos (pos_part a * pos_part b);
  fdiv = λ a b. pos (pos_part a / pos_part b);
  flt = ltb_ℤ;
  fle = leb_ℤ;
  feq = int_beq;
  sqrt = λ a. a;
  cos = λ a. a;
  sin = λ a. a;
  floor_int = λ a. a;
}

-- The same in hundredths.
abbrev pub hundredths : FloatArith
hundredths = record {
  F = ℤ;
  lit = λ n d. pos (n * 100 / d);
  of_int = λ a. pos (pos_part a * 100);
  fneg = λ a. pos 0 -ℤ a;
  fadd = ◌+ℤ◌;
  fsub = ◌-ℤ◌;
  fmul = λ a b. pos (pos_part a * pos_part b / 100);
  fdiv = λ a b. pos (pos_part a * 100 / pos_part b);
  flt = ltb_ℤ;
  fle = leb_ℤ;
  feq = int_beq;
  sqrt = λ a. a;
  cos = λ a. a;
  sin = λ a. a;
  floor_int = λ a. pos (pos_part a / 100);
}
