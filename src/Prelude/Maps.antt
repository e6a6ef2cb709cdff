-- ===== src/Prelude/Maps.antt =====
-- Hash maps. One that the code only looks up and writes at a key is a function; one that it also
-- iterates is an association list, whose order stands for the iteration order.
use mathlib.Core.Path.{◌≡◌}
use mathlib.Core.List.{List, [], ◌∷◌}
use mathlib.Core.Option.{Option, none, some}
use native.Mathlib.Omega.{arith}
use mmorpg_server_rl_portfol.Prelude.Tests.{Key, ◌==◌, if◌then◌else◌, eq_of_beq, beq_refl, beq_symm}

module _ {ℓ κ} {K : Type ℓ} {V : Type κ} ⦃key : Key K⦄ where
  -- `m[k] = v`
  unfoldable pub update : (K → V) → K → V → K → V
  update m k v j = if j == k then v else m j

  pub update_self : (m : K → V) (k : K) (v : V) → update m k v k ≡ v
  unfolding update
  update_self m k v = ground (arith, beq_refl k)

  unfoldable pub lookup : K → List (K × V) → Option V
  lookup k [] = none
  lookup k ((j, v) ∷ m) = if k == j then some v else lookup k m

  -- `m[k] = v` keeps the entry's place, or adds one.
  unfoldable pub put : K → V → List (K × V) → List (K × V)
  put k v [] = (k, v) ∷ []
  put k v ((j, w) ∷ m) = if k == j then (k, v) ∷ m else (j, w) ∷ put k v m

  -- `m.erase(k)`
  unfoldable pub remove : K → List (K × V) → List (K × V)
  remove k [] = []
  remove k ((j, w) ∷ m) = let rest = remove k m in if k == j then rest else (j, w) ∷ rest

  pub lookup-put :
      (j k : K) (v : V) (m : List (K × V))
      → lookup j (put k v m) ≡ (if j == k then some v else lookup j m)
  unfolding lookup put
  lookup-put j k v [] = ground arith
  lookup-put j k v ((i, w) ∷ m) = ground (
    arith,
    lookup-put j k v m,
    eq_of_beq k i,
    eq_of_beq j k,
    eq_of_beq j i,
    beq_refl i,
    beq_refl k,
  )

  pub lookup-remove :
      (j k : K) (m : List (K × V)) → lookup j (remove k m) ≡ (if j == k then none else lookup j m)
  unfolding lookup remove
  lookup-remove j k [] = ground arith
  lookup-remove j k ((i, w) ∷ m) = ground (
    arith,
    lookup-remove j k m,
    eq_of_beq k i,
    eq_of_beq j k,
    eq_of_beq j i,
    beq_refl i,
    beq_refl k,
    beq_symm j k,
  )
