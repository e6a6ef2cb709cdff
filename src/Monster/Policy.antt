-- ===== src/Monster/Policy.antt =====
-- The choice of field/monster/RL/RlObs16.h among the five numbers of the policy.
use mathlib.Core.Path.{subst}
use mmorpg_server_rl_portfol.Prelude.{
  ℕ, ◌+◌, ◌≡◌, ◌∙◌, refl, sym, ap, inl, inr, Bool-cases, true, false, List, [], ◌∷◌, ◌++◌, length,
  get_elem?, get_elem?-append, get_elem?-length, append_assoc, append_nil, length-append, some,
  if◌then◌else◌, if_true, if_false, arith, FloatArith,
}
use mmorpg_server_rl_portfol.Monster.Observe.{arg_max5, arg_max_from}

-- What is assumed of `<` on floats; it holds with NaN, too.
pub record IsStrict (fl : FloatArith) : Type 0 where
  pub irrefl : (a : fl.F) → fl.flt a a ≡ false
  pub trans : (a b c : fl.F) → fl.flt a b ≡ true → fl.flt b c ≡ true → fl.flt a c ≡ true

module _ (fl : FloatArith) where
  open fl use {F, flt}

  -- No number of the list is above this one.
  abbrev pub NoneAbove : F → List F → Type 0
  NoneAbove v [] = Unit
  NoneAbove v (u ∷ us) = (flt v u ≡ false) × NoneAbove v us

  NoneAbove-append :
      (v u : F) (us : List F) → NoneAbove v us → flt v u ≡ false → NoneAbove v (us ++ u ∷ [])
  NoneAbove-append v u [] h k = (k, tt)
  NoneAbove-append v u (w ∷ us) (h, hs) k = (h, NoneAbove-append v u us hs k)

  module _ (ok : IsStrict fl) where
    not_above : (v w u : F) → flt v w ≡ true → flt v u ≡ false → flt w u ≡ false
    not_above v w u h k = elim (Bool-cases (flt w u)) [
      | inl above ↦ absurd (ground (arith, ok.trans v w u h above))
      | inr below ↦ below
    ]

    NoneAbove-raise : (v w : F) (us : List F) → flt v w ≡ true → NoneAbove v us → NoneAbove w us
    NoneAbove-raise v w [] h hs = tt
    NoneAbove-raise v w (u ∷ us) h (k, hs) = (not_above v w u h k, NoneAbove-raise v w us h hs)

    -- The index leads to a number of the list that none is above.
    abbrev pub IsMax : List F → ℕ → Type 0
    IsMax vs i = (v : F) × (get_elem? vs i ≡ some v) × NoneAbove v vs

    -- A turn of the loop that goes on with this index and number.
    goes_on :
        (seen rest : List F) (v bestv w : F) (best i : ℕ)
        → ◌≡◌ {A = ℕ × F} (if flt bestv v then (length seen, v) else (best, bestv)) (i, w)
        → IsMax ((seen ++ v ∷ []) ++ rest) (arg_max_from fl (length (seen ++ v ∷ [])) i w rest)
        → IsMax (seen ++ v ∷ rest) (arg_max_from fl (length seen) best bestv (v ∷ rest))
    unfolding arg_max_from
    goes_on seen rest v bestv w best i pick h =
        subst (λ vs. IsMax vs (arg_max_from fl (length seen) best bestv (v ∷ rest)))
          (append_assoc seen (v ∷ []) rest)
          (subst (IsMax ((seen ++ v ∷ []) ++ rest))
            (ap (λ n. arg_max_from fl n i w rest) (length-append seen (v ∷ []))
              ∙ ap (λ (r : ℕ × F). arg_max_from fl (length seen + 1) r.0 r.1 rest) (sym pick))
            h)

    arg_max_from-IsMax :
        (seen rest : List F) (best : ℕ) (bestv : F)
        → get_elem? seen best ≡ some bestv
        → NoneAbove bestv seen
        → IsMax (seen ++ rest) (arg_max_from fl (length seen) best bestv rest)
    unfolding arg_max_from
    arg_max_from-IsMax seen [] best bestv at above = (
      bestv,
      get_elem?-append seen [] best bestv at,
      subst (NoneAbove bestv) (sym (append_nil seen)) above,
    )
    arg_max_from-IsMax seen (v ∷ rest) best bestv at above = elim (Bool-cases (flt bestv v)) [
      | inl higher ↦ goes_on seen rest v bestv v best (length seen) (if_true _ _ higher) (
          arg_max_from-IsMax (seen ++ v ∷ []) rest (length seen) v (get_elem?-length seen [] v)
            (NoneAbove-append v v seen (NoneAbove-raise bestv v seen higher above) (ok.irrefl v)))
      | inr lower ↦ goes_on seen rest v bestv bestv best best (if_false _ _ lower) (
          arg_max_from-IsMax (seen ++ v ∷ []) rest best bestv
            (get_elem?-append seen (v ∷ []) best bestv at)
            (NoneAbove-append bestv v seen above lower))
    ]

    -- The action chosen is the index of one of the policy's numbers, and none of them is above that one.
    pub arg_max5-IsMax : (v : F) (vs : List F) → IsMax (v ∷ vs) (arg_max5 fl (v ∷ vs))
    unfolding arg_max5
    arg_max5-IsMax v vs = arg_max_from-IsMax (v ∷ []) vs 0 v refl (ok.irrefl v, tt)
