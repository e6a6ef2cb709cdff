-- ===== src/Storage/Reading.antt =====
-- A reader of the JSON text that storage/DB/Proc/userStateProc.cpp hands to the database: an array of
-- objects with the five fields in order, the coordinates as their text up to the comma.
pub mod Rows
use mmorpg_server_rl_portfol.Prelude.{
  ℕ, zero, suc, ◌+◌, ◌-◌, ◌*◌, ◌/◌, ◌%◌, ◌<◌, nat_beq, ℤ, pos, negsuc, ◌≡◌, ◌≢◌, ◌∙◌, refl, sym, ap,
  inl, inr, Bool, Bool-cases, true, false, ◌&&◌, List, [], ◌∷◌, ◌++◌, map, length, Option, none,
  some, ltb, leb, if◌then◌else◌, if_true, if_false, arith,
}
use mathlib.Core.Path.{subst}
use mmorpg_server_rl_portfol.Field.Types.{UserSnapshot}
use mmorpg_server_rl_portfol.Storage.Json.{
  codes, show_digits, show_nat, show_int, show_row, show_rows, build_snapshot_json,
}

pub record Row : Type 0 where
  pub uid : ℕ
  pub x : List ℕ
  pub z : List ℕ
  pub hp : ℤ
  pub sp : ℤ

infixl 5 ◌>>=◌
abbrev pub ◌>>=◌ {ℓ κ} : {A : Type ℓ} {B : Type κ} → Option A → (A → Option B) → Option B
none >>= f = none
some a >>= f = f a

abbrev pub expect : List ℕ → List ℕ → Option (List ℕ)
expect [] s = some s
expect (p ∷ ps) [] = none
expect (p ∷ ps) (c ∷ s) = if nat_beq p c then expect ps s else none

abbrev pub is_digit : ℕ → Bool
is_digit c = leb b'0' c && leb c b'9'

-- The digits that follow, behind `n`.
abbrev pub read_more : List ℕ → ℕ → ℕ × List ℕ
read_more [] n = (n, [])
read_more (c ∷ s) n = if is_digit c then read_more s (n * 10 + (c - b'0')) else (n, c ∷ s)

abbrev pub read_nat : List ℕ → Option (ℕ × List ℕ)
read_nat [] = none
read_nat (c ∷ s) = if is_digit c then some (read_more (c ∷ s) 0) else none

abbrev pub minus : ℕ → ℤ
minus zero = pos 0
minus (suc n) = negsuc n

abbrev pub read_int : List ℕ → Option (ℤ × List ℕ)
read_int [] = none
read_int (c ∷ s) =
    if nat_beq c b'-'
    then (read_nat s >>= λ r. some (minus r.0, r.1))
    else (read_nat (c ∷ s) >>= λ r. some (pos r.0, r.1))

abbrev pub until_comma : List ℕ → List ℕ × List ℕ
until_comma [] = ([], [])
until_comma (c ∷ s) =
    let rest = until_comma s in if nat_beq c b',' then ([], c ∷ s) else (c ∷ rest.0, rest.1)

abbrev pub read_row : List ℕ → Option (Row × List ℕ)
read_row s0 = do
  s1 ← expect (codes "{\"uid\":") s0
  (uid, s2) ← read_nat s1
  s3 ← expect (codes ",\"x\":") s2
  s4 ← expect (codes ",\"z\":") (until_comma s3).1
  s5 ← expect (codes ",\"hp\":") (until_comma s4).1
  (hp, s6) ← read_int s5
  s7 ← expect (codes ",\"sp\":") s6
  (sp, s8) ← read_int s7
  s9 ← expect (codes "}") s8
  some (record { uid = uid; x = (until_comma s3).0; z = (until_comma s4).0; hp = hp; sp = sp }, s9)

-- The objects up to the bracket that ends the text, `later` once one was read.
unfoldable pub read_rows : ℕ → Bool → List ℕ → Option (List Row)
read_rows zero later s = none
read_rows (suc fuel) later s = elim (expect (codes "]") s) [
  | some [] ↦ some []
  | some (c ∷ rest) ↦ none
  | none ↦ do
    s1 ← expect (if later then codes "," else []) s
    (row, s2) ← read_row s1
    rows ← read_rows fuel true s2
    some (row ∷ rows)
]

unfoldable pub read_json : ℕ → List ℕ → Option (List Row)
read_json fuel s = expect (codes "[") s >>= read_rows fuel false

digit_lem : (n : ℕ) → is_digit (b'0' + n % 10) ≡ true
digit_lem n = ground arith

-- The text begins with a digit.
BeginsNumber : List ℕ → Type 0
BeginsNumber s = (d : ℕ) × (t : List ℕ) × (s ≡ d ∷ t) × (is_digit d ≡ true)

show_digits-BeginsNumber :
    (fuel n : ℕ) (rest : List ℕ) → n < fuel → BeginsNumber (show_digits fuel n rest)
unfolding show_digits BeginsNumber
show_digits-BeginsNumber zero n rest h = absurd (omega arith)
show_digits-BeginsNumber (suc fuel) n rest h = elim (Bool-cases (ltb n 10)) [
  | inl last ↦ (b'0' + n % 10, rest, if_true _ _ last, digit_lem n)
  | inr more ↦
      let below : n / 10 < fuel = ground arith in
      subst BeginsNumber (sym (if_false _ _ more))
        (show_digits-BeginsNumber fuel (n / 10) ((b'0' + n % 10) ∷ rest) below)
]

read_more_digit :
    (d : ℕ) (s : List ℕ) (n : ℕ)
    → is_digit d ≡ true
    → read_more (d ∷ s) n ≡ read_more s (n * 10 + (d - b'0'))
read_more_digit d s n h = if_true _ _ h

read_more-show_digits :
    (fuel n : ℕ) (rest : List ℕ)
    → n < fuel
    → read_more (show_digits fuel n rest) 0 ≡ read_more rest n
unfolding show_digits
read_more-show_digits zero n rest h = absurd (omega arith)
read_more-show_digits (suc fuel) n rest h =
    let d = b'0' + n % 10 in
    elim (Bool-cases (ltb n 10)) [
      | inl last ↦
          let value : 0 * 10 + (d - b'0') ≡ n = ground arith in
          ap (λ s. read_more s 0) (if_true _ _ last)
          ∙ read_more_digit d rest 0 (digit_lem n)
          ∙ ap (read_more rest) value
      | inr more ↦
          let below : n / 10 < fuel = ground arith in
          let value : n / 10 * 10 + (d - b'0') ≡ n = omega arith in
          ap (λ s. read_more s 0) (if_false _ _ more)
          ∙ read_more-show_digits fuel (n / 10) (d ∷ rest) below
          ∙ read_more_digit d rest (n / 10) (digit_lem n)
          ∙ ap (read_more rest) value
    ]

show_nat-BeginsNumber : (n : ℕ) (rest : List ℕ) → BeginsNumber (show_nat n rest)
unfolding show_nat
show_nat-BeginsNumber n rest = show_digits-BeginsNumber (suc n) n rest (omega arith)

read_nat-begins : (s : List ℕ) → BeginsNumber s → read_nat s ≡ some (read_more s 0)
unfolding BeginsNumber
read_nat-begins s (d, t, same, digit) =
    subst (λ u. read_nat u ≡ some (read_more u 0)) (sym same) (if_true _ _ digit)

read_int-begins :
    (s : List ℕ) → BeginsNumber s → read_int s ≡ (read_nat s >>= λ r. some (pos r.0, r.1))
unfolding BeginsNumber
read_int-begins s (d, t, same, digit) =
    let other : nat_beq d b'-' ≡ false = ground arith in
    subst (λ u. read_int u ≡ (read_nat u >>= λ r. some (pos r.0, r.1))) (sym same)
      (if_false _ _ other)

-- A number is read back in front of a byte that is no digit.
module _ (c : ℕ) (rest : List ℕ) (ends : is_digit c ≡ false) where
  pub read_nat-show_nat : (n : ℕ) → read_nat (show_nat n (c ∷ rest)) ≡ some (n, c ∷ rest)
  unfolding show_nat
  read_nat-show_nat n =
      read_nat-begins _ (show_nat-BeginsNumber n (c ∷ rest))
      ∙ ap some (
          read_more-show_digits (suc n) n (c ∷ rest) (omega arith)
          ∙ if_false (read_more rest (n * 10 + (c - b'0'))) (n, c ∷ rest) ends)

  pub read_int-show_int : (i : ℤ) → read_int (show_int i (c ∷ rest)) ≡ some (i, c ∷ rest)
  unfolding show_int
  read_int-show_int (pos n) =
      read_int-begins _ (show_nat-BeginsNumber n (c ∷ rest))
      ∙ ap (λ o. o >>= λ (r : ℕ × List ℕ). some (pos r.0, r.1)) (read_nat-show_nat n)
  read_int-show_int (negsuc n) =
      ap (λ o. o >>= λ (r : ℕ × List ℕ). some (minus r.0, r.1)) (read_nat-show_nat (suc n))

-- No byte of the text is a comma.
abbrev pub IsPlain : List ℕ → Type 0
IsPlain [] = Unit
IsPlain (c ∷ s) = (nat_beq c b',' ≡ false) × IsPlain s

pub until_comma-plain :
    (t rest : List ℕ) → IsPlain t → until_comma (t ++ b',' ∷ rest) ≡ (t, b',' ∷ rest)
until_comma-plain [] rest plain = refl
until_comma-plain (c ∷ t) rest (other, plain) =
    if_false _ _ other
    ∙ ap (λ (r : List ℕ × List ℕ). (c ∷ r.0, r.1)) (until_comma-plain t rest plain)
