-- ===== src/Storage/Stealing.antt =====
-- Who is in the set of storage/DirtyHub.h, and what a sweep over the shards takes.
use mmorpg_server_rl_portfol.Prelude.{
  ℕ, nat_eq, zero, suc, ◌+◌, ◌%◌, ◌<◌, ◌==◌, ◌≡◌, ◌∙◌, sym, ap, inl, inr, Bool, Bool-cases, true,
  false, not, ◌&&◌, ◌||◌, contains, update, leb, ltb, if_true, if_false, arith, contains-append,
  contains-insert, eq_of_beq, beq_refl,
}
use mmorpg_server_rl_portfol.Storage.DirtyHub.{
  DirtyHub, k_shards, shard_of, mark_dirty, steal_shard, steal_from, steal_all, new_hub,
}

unfoldable pub is_dirty : DirtyHub → ℕ → Bool
is_dirty hub uid = contains uid (hub.shards (shard_of uid))

-- A user is in its own shard and in no other.
pub record IsHub (hub : DirtyHub) : Type 0 where
  pub in_shard : (i uid : ℕ) → contains uid (hub.shards i) ≡ true → shard_of uid ≡ i

pub new_hub-IsHub : IsHub new_hub
unfolding new_hub contains
new_hub-IsHub = record { in_shard = λ i uid h. absurd (ground arith) }

marked_shard :
    (hub : DirtyHub) (uid v i : ℕ)
    → contains v ((mark_dirty hub uid).shards i)
      ≡ ((i == shard_of uid && v == uid) || contains v (hub.shards i))
unfolding mark_dirty update
marked_shard hub uid v i = elim (Bool-cases (i == shard_of uid)) [
  | inl same ↦
      ap (contains v) (if_true _ _ same)
      ∙ contains-insert v uid (hub.shards (shard_of uid))
      ∙ ap (λ s. v == uid || contains v (hub.shards s)) (sym (eq_of_beq i (shard_of uid) same))
      ∙ rw same
  | inr other ↦ ap (contains v) (if_false _ _ other) ∙ rw other
]

own_shard :
    (v uid : ℕ) (d : Bool) → ((shard_of v == shard_of uid && v == uid) || d) ≡ (v == uid || d)
own_shard v uid d = elim (Bool-cases (v == uid)) [
  | inl same ↦ ground (arith, ap shard_of (eq_of_beq v uid same))
  | inr other ↦ ground arith
]

-- Marking a user adds it and no one else.
pub is_dirty-mark_dirty :
    (hub : DirtyHub) (uid v : ℕ) → is_dirty (mark_dirty hub uid) v ≡ (v == uid || is_dirty hub v)
unfolding is_dirty
is_dirty-mark_dirty hub uid v =
    marked_shard hub uid v (shard_of v) ∙ own_shard v uid (contains v (hub.shards (shard_of v)))

pub mark_dirty-IsHub : (hub : DirtyHub) (uid : ℕ) → IsHub hub → IsHub (mark_dirty hub uid)
mark_dirty-IsHub hub uid ok = record {
  in_shard = λ i v h. elim (Bool-cases (contains v (hub.shards i))) [
    | inl held ↦ ok.in_shard i v held
    | inr out ↦
        let both : (i == shard_of uid && v == uid) ≡ true =
          ground (arith, marked_shard hub uid v i) in
        ap shard_of (eq_of_beq v uid (ground arith))
        ∙ sym (eq_of_beq i (shard_of uid) (ground arith))
  ];
}

steal_shard-out :
    (hub : DirtyHub) (i v : ℕ)
    → IsHub hub
    → contains v (steal_shard hub i).1 ≡ (shard_of v == i && is_dirty hub v)
unfolding steal_shard is_dirty
steal_shard-out hub i v ok = elim (Bool-cases (shard_of v == i)) [
  | inl same ↦ ap (λ s. contains v (hub.shards s)) (sym (eq_of_beq _ _ same)) ∙ rw same
  | inr other ↦ elim (Bool-cases (contains v (hub.shards i))) [
    | inl held ↦ absurd (ground (arith, ok.in_shard i v held, beq_refl (shard_of v)))
    | inr out ↦ out ∙ rw other
  ]
]

steal_shard-left :
    (hub : DirtyHub) (i v : ℕ)
    → is_dirty (steal_shard hub i).0 v ≡ (not (shard_of v == i) && is_dirty hub v)
unfolding steal_shard is_dirty update contains
steal_shard-left hub i v = elim (Bool-cases (shard_of v == i)) [
  | inl same ↦ ap (contains v) (if_true _ _ same) ∙ rw same
  | inr other ↦ ap (contains v) (if_false _ _ other) ∙ rw other
]

steal_shard-IsHub : (hub : DirtyHub) (i : ℕ) → IsHub hub → IsHub (steal_shard hub i).0
unfolding steal_shard update contains
steal_shard-IsHub hub i ok = record {
  in_shard = λ j v h. elim (Bool-cases (j == i)) [
    | inl same ↦ absurd (ground (arith, sym (ap (contains v) (if_true _ _ same)) ∙ h))
    | inr other ↦ ok.in_shard j v (sym (ap (contains v) (if_false _ _ other)) ∙ h)
  ];
}

abbrev pub in_range : ℕ → ℕ → ℕ → Bool
in_range i count s = leb i s && ltb s (i + count)

range_taken :
    (i count s : ℕ) (d : Bool)
    → ((s == i && d) || (in_range (i + 1) count s && (not (s == i) && d)))
      ≡ (in_range i (suc count) s && d)
range_taken i count s d = ground arith

range_left :
    (i count s : ℕ) (d : Bool)
    → (not (in_range (i + 1) count s) && (not (s == i) && d))
      ≡ (not (in_range i (suc count) s) && d)
range_left i count s d = ground arith

or_both : {a b c d : Bool} → a ≡ c → b ≡ d → (a || b) ≡ (c || d)
or_both h k = rw (h, k)

-- The sweep over a range of shards takes the users of these shards and leaves the others.
pub steal_from_lem :
    (count i : ℕ) (hub : DirtyHub) (v : ℕ)
    → IsHub hub
    → (contains v (steal_from count i hub).1 ≡ (in_range i count (shard_of v) && is_dirty hub v))
      × (is_dirty (steal_from count i hub).0 v
          ≡ (not (in_range i count (shard_of v)) && is_dirty hub v))
      × IsHub (steal_from count i hub).0
unfolding steal_from contains
steal_from_lem zero i hub v ok = (ground arith, ground arith, ok)
steal_from_lem (suc count) i hub v ok =
    let hub' = (steal_shard hub i).0 in
    let (taken, left, ok') = steal_from_lem count (i + 1) hub' v (steal_shard-IsHub hub i ok) in
    let here = steal_shard-left hub i v in
    (
      contains-append v (steal_shard hub i).1 _
          ∙ or_both (steal_shard-out hub i v ok)
              (taken ∙ ap (λ d. in_range (i + 1) count (shard_of v) && d) here)
          ∙ range_taken i count (shard_of v) (is_dirty hub v),
      left
          ∙ ap (λ d. not (in_range (i + 1) count (shard_of v)) && d) here
          ∙ range_left i count (shard_of v) (is_dirty hub v),
      ok',
    )

mod_lt : (n : ℕ) → n % 64 < 64
mod_lt n = omega arith

all_shards : (uid : ℕ) → in_range 0 k_shards (shard_of uid) ≡ true
unfolding shard_of
all_shards uid = ground (arith, mod_lt uid)

-- `steal_all` hands over every dirty user and no one else, and leaves no one dirty.
pub steal_all_lem :
    (hub : DirtyHub) (v : ℕ)
    → IsHub hub
    → (contains v (steal_all hub).1 ≡ is_dirty hub v)
      × (is_dirty (steal_all hub).0 v ≡ false)
      × IsHub (steal_all hub).0
unfolding steal_all
steal_all_lem hub v ok =
    let (taken, left, ok') = steal_from_lem k_shards 0 hub v ok in
    (
      taken ∙ ap (λ r. r && is_dirty hub v) (all_shards v),
      left ∙ ap (λ r. not r && is_dirty hub v) (all_shards v),
      ok',
    )
