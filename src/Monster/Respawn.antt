-- ===== src/Monster/Respawn.antt =====
-- Whether a monster comes back: field/monster/Systems/SpawnSystem.cpp on what MonsterWorld.cpp makes.
use mathlib.Core.Path.{subst, fun_ext}
use Prim.Native.String.{String}
use mmorpg_server_rl_portfol.Prelude.{
  ℕ, ℤ, nat_eq, pos, ltb_ℤ, ◌==◌, ◌≡◌, ◌∙◌, refl, sym, ap, inl, inr, Bool, Bool-cases, true, not,
  List, [], ◌∷◌, ◌++◌, Option, none, some, update, if_true, if_false, arith, FloatArith, eq_of_beq,
  beq_refl, contains, contains-append, ◌⊎◌,
}
use mmorpg_server_rl_portfol.Monster.World.{
  Monster, MonsterWorld, CStats, AoiCall, new_world, set_monster, create_monster,
  player_attack_monster, strike, hit, slay, kill_monster, attack_found, attack_loop, spawn_one,
  spawn_found, spawn_loop, spawn_update, f0, ◌>>=◌,
}

world_of :
    {A B : Type 0} {v w : A} {r s : B}
    → ◌≡◌ {A = Option (A × B)} (some (v, r)) (some (w, s))
    → v ≡ w
world_of {A} {B} {v} h = ap (λ (o : Option (A × B)). elim o [ none ↦ v | some p ↦ p.0 ]) h

in_or_last :
    (k e : ℕ) (es : List ℕ) → contains k (es ++ e ∷ []) ≡ true → (contains k es ≡ true) ⊎ (k ≡ e)
unfolding contains
in_or_last k e es h = elim (Bool-cases (contains k es)) [
  | inl here ↦ inl here
  | inr out ↦ inr (eq_of_beq k e (ground (arith, contains-append k es (e ∷ []))))
]

module _ (fl : FloatArith) where
  open fl use {F, fle}

  -- Every monster of the list has its components, and the delay of each is the zero it was made with.
  record IsUndelayed (w : MonsterWorld F) : Type 0 where
    undelayed :
        (e : ℕ) (m : Monster F) → w.components e ≡ some m → m.spawn_info.respawn_delay ≡ f0 fl
    listed : (e : ℕ) → contains e w.monsters ≡ true → (m : Monster F) × (w.components e ≡ some m)

  -- The worlds that creations, attacks and updates of the spawn system lead to.
  pub data Lived : MonsterWorld F → Type 0 where
    empty : Lived new_world
    created :
        {w : MonsterWorld F} (e : ℕ) (x y : F) (prefab : String) (monster_type : ℤ) (st : CStats)
        → Lived w
        → Lived (create_monster fl w e x y prefab monster_type st)
    attacked :
        {w w' : MonsterWorld F} (mid : ℕ) (r : List (AoiCall F) × Bool)
        → player_attack_monster fl w mid ≡ some (w', r)
        → Lived w
        → Lived w'
    updated :
        {w w' : MonsterWorld F} (dt : F) (calls : List (AoiCall F))
        → spawn_update fl dt w ≡ some (w', calls)
        → Lived w
        → Lived w'

  delay_of : Option (Monster F) → F
  delay_of none = f0 fl
  delay_of (some m) = m.spawn_info.respawn_delay

  -- Putting a monster into the world, listed before or added by the caller.
  set_monster-IsUndelayed :
      (w v : MonsterWorld F) (e : ℕ) (m : Monster F)
      → ((k : ℕ) → contains k v.monsters ≡ true → (contains k w.monsters ≡ true) ⊎ (k ≡ e))
      → v.components ≡ update w.components e (some m)
      → IsUndelayed w
      → m.spawn_info.respawn_delay ≡ f0 fl
      → IsUndelayed v
  unfolding update delay_of
  set_monster-IsUndelayed w v e m old set ok zero_delay = record {
    undelayed = λ k n h. elim (Bool-cases (k == e)) [
      | inl same ↦
          ap delay_of (sym h ∙ ap (λ c. c k) set ∙ if_true (some m) (w.components k) same)
          ∙ zero_delay
      | inr other ↦
          ok.undelayed k n (sym (ap (λ c. c k) set ∙ if_false (some m) (w.components k) other) ∙ h)
    ];
    listed = λ k h. elim (Bool-cases (k == e)) [
      | inl same ↦ (m, ap (λ c. c k) set ∙ if_true (some m) (w.components k) same)
      | inr other ↦ elim (old k h) [
        | inl here ↦
            let (n, at) = ok.listed k here in
            (n, ap (λ c. c k) set ∙ if_false (some m) (w.components k) other ∙ at)
        | inr same ↦ absurd (ground (arith, same, beq_refl e))
      ]
    ];
  }

  -- One monster that is not delayed stays as it is.
  spawn_one-still :
      (dt : F) (e : ℕ) (m : Monster F)
      → fle (f0 fl) (f0 fl) ≡ true
      → m.spawn_info.respawn_delay ≡ f0 fl
      → spawn_one fl dt e m ≡ (m, [])
  unfolding spawn_one
  spawn_one-still dt e m zero_le still = elim (Bool-cases (ltb_ℤ (pos 0) m.stats.hp)) [
    | inl alive ↦ if_true _ _ alive
    | inr fallen ↦ if_false _ _ fallen ∙ elim (Bool-cases m.spawn_info.pending_respawn) [
      | inr off ↦ if_true _ _ (ap not off)
      | inl on ↦ if_false _ _ (ap not on) ∙ if_true _ _ (ap (λ d. fle d (f0 fl)) still ∙ zero_le)
    ]
  ]

  -- Putting back what is there changes nothing.
  set_monster_again :
      (w : MonsterWorld F) (e : ℕ) (m : Monster F) → w.components e ≡ some m → set_monster w e m ≡ w
  unfolding set_monster update
  set_monster_again w e m at =
      ap (λ c. record w { components = c })
        (fun_ext (λ k. elim (Bool-cases (k == e)) [
          | inl same ↦
              if_true (some m) (w.components k) same
              ∙ sym at
              ∙ ap w.components (sym (eq_of_beq k e same))
          | inr other ↦ if_false (some m) (w.components k) other
        ]))

  spawn_found-still :
      (dt : F) (w : MonsterWorld F) (e : ℕ) (m : Monster F)
      → fle (f0 fl) (f0 fl) ≡ true
      → m.spawn_info.respawn_delay ≡ f0 fl
      → w.components e ≡ some m
      → spawn_found fl dt w e (w.components e) ≡ some (w, [])
  unfolding spawn_found
  spawn_found-still dt w e m zero_le still at =
      ap (spawn_found fl dt w e) at
      ∙ ap (λ (r : Monster F × List (AoiCall F)). some (set_monster w e r.0, r.1))
          (spawn_one-still dt e m zero_le still)
      ∙ ap (λ v. some (v, [])) (set_monster_again w e m at)

  spawn_loop-still :
      (dt : F) (w : MonsterWorld F) (es : List ℕ)
      → fle (f0 fl) (f0 fl) ≡ true
      → IsUndelayed w
      → ((e : ℕ) → contains e es ≡ true → contains e w.monsters ≡ true)
      → spawn_loop fl dt w es ≡ some (w, [])
  unfolding spawn_loop contains
  spawn_loop-still dt w [] zero_le ok part = refl
  spawn_loop-still dt w (e ∷ es) zero_le ok part =
      let (m, at) = ok.listed e (part e (ground (arith, beq_refl e))) in
      ap
        (λ (o : Option (MonsterWorld F × List (AoiCall F))).
          o >>= λ r. spawn_loop fl dt r.0 es >>= λ s. some (s.0, r.1 ++ s.1))
        (spawn_found-still dt w e m zero_le (ok.undelayed e m at) at)
      ∙ ap (λ (o : Option (MonsterWorld F × List (AoiCall F))). o >>= λ s. some (s.0, s.1))
          (spawn_loop-still dt w es zero_le ok (λ k h. part k (ground (arith, h))))

  strike_delay :
      (m : Monster F) → (strike fl m).0.spawn_info.respawn_delay ≡ m.spawn_info.respawn_delay
  unfolding strike hit slay kill_monster
  strike_delay m = ground arith

  created-IsUndelayed :
      (w : MonsterWorld F) (e : ℕ) (x y : F) (prefab : String) (monster_type : ℤ) (st : CStats)
      → IsUndelayed w
      → IsUndelayed (create_monster fl w e x y prefab monster_type st)
  unfolding create_monster set_monster contains
  created-IsUndelayed w e x y prefab monster_type st ok =
      set_monster-IsUndelayed w (create_monster fl w e x y prefab monster_type st) e _
        (λ k h. in_or_last k e w.monsters h) refl ok refl

  attack_found-IsUndelayed :
      (w w' : MonsterWorld F) (e : ℕ) (o : Option (Monster F)) (r : List (AoiCall F) × Bool)
      → w.components e ≡ o
      → attack_found fl w e o ≡ some (w', r)
      → IsUndelayed w
      → IsUndelayed w'
  unfolding attack_found set_monster
  attack_found-IsUndelayed w w' e none r at h ok = absurd (ground arith)
  attack_found-IsUndelayed w w' e (some m) r at h ok = subst IsUndelayed (world_of h) (
      set_monster-IsUndelayed w (set_monster w e (strike fl m).0) e (strike fl m).0
        (λ k here. inl here) refl ok (strike_delay m ∙ ok.undelayed e m at))

  attack_loop-IsUndelayed :
      (w w' : MonsterWorld F) (mid : ℕ) (es : List ℕ) (r : List (AoiCall F) × Bool)
      → attack_loop fl w mid es ≡ some (w', r)
      → IsUndelayed w
      → IsUndelayed w'
  unfolding attack_loop
  attack_loop-IsUndelayed w w' mid [] r h ok = subst IsUndelayed (world_of h) ok
  attack_loop-IsUndelayed w w' mid (e ∷ es) r h ok = elim (Bool-cases (e == mid)) [
    | inl same ↦
        attack_found-IsUndelayed w w' e (w.components e) r refl
          (sym (if_false _ _ (ap not same)) ∙ h) ok
    | inr other ↦ attack_loop-IsUndelayed w w' mid es r (sym (if_true _ _ (ap not other)) ∙ h) ok
  ]

  Lived-IsUndelayed : {w : MonsterWorld F} → fle (f0 fl) (f0 fl) ≡ true → Lived w → IsUndelayed w
  unfolding new_world player_attack_monster spawn_update contains
  Lived-IsUndelayed zero_le empty = record {
    undelayed = λ e m h. absurd (ground arith);
    listed = λ e h. absurd (ground arith);
  }
  Lived-IsUndelayed zero_le (created {w} e x y prefab monster_type st l) =
      created-IsUndelayed w e x y prefab monster_type st (Lived-IsUndelayed zero_le l)
  Lived-IsUndelayed zero_le (attacked {w} {w'} mid r h l) =
      attack_loop-IsUndelayed w w' mid w.monsters r h (Lived-IsUndelayed zero_le l)
  Lived-IsUndelayed zero_le (updated {w} {w'} dt calls h l) =
      let ok = Lived-IsUndelayed zero_le l in
      subst IsUndelayed
        (world_of (sym (spawn_loop-still dt w w.monsters zero_le ok (λ k here. here)) ∙ h)) ok

  -- Whatever monsters are created and attacked, and however often and long the spawn system runs, it
  -- changes nothing and puts no monster back: a monster that died stays dead. Of the numbers only
  -- 0 <= 0 is assumed.
  pub spawn_update-still :
      (w : MonsterWorld F) (dt : F)
      → fle (f0 fl) (f0 fl) ≡ true
      → Lived w
      → spawn_update fl dt w ≡ some (w, [])
  unfolding spawn_update
  spawn_update-still w dt zero_le l =
      spawn_loop-still dt w w.monsters zero_le (Lived-IsUndelayed zero_le l) (λ k here. here)
