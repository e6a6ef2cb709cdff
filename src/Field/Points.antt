-- ===== src/Field/Points.antt =====
-- worker/fieldWorker.cpp: the field is the side of the players that the combat of the monsters needs.
use mmorpg_server_rl_portfol.Prelude.{
  ℕ, ℤ, pos, nat_eq, ◌≡◌, ◌≢◌, ◌∙◌, ◌≤ℤ◌, sym, ap, inl, inr, true, Bool-cases, Option-cases, Option,
  none, some, update, update_self, if_true, if_false, beq_ne, arith, if◌then◌else◌,
}
use mmorpg_server_rl_portfol.Game.Player.{
  Player, PlayerStat, set_hp, set_sp, clamp_top, clamp_bottom,
}
use mmorpg_server_rl_portfol.Monster.Combat.{IsPlayerSide}
use mmorpg_server_rl_portfol.Field.Types.{Field, put_player}
use mmorpg_server_rl_portfol.Field.Monsters.{
  managed, get_player_stats, set_player_stats, field_side,
}

clamp_inside : (top v : ℤ) → pos 0 ≤ℤ v → v ≤ℤ top → clamp_bottom (clamp_top top v) ≡ v
unfolding clamp_bottom clamp_top
clamp_inside top v low high = ground arith

set_inside :
    (st : PlayerStat) (hp sp : ℤ)
    → pos 0 ≤ℤ hp
    → hp ≤ℤ st.max_hp
    → pos 0 ≤ℤ sp
    → sp ≤ℤ st.max_sp
    → set_sp (set_hp st hp) sp ≡ record st { hp = hp; sp = sp }
unfolding set_hp set_sp
set_inside st hp sp hp_low hp_high sp_low sp_high =
    ap (λ v. record st { hp = v; sp = clamp_bottom (clamp_top st.max_sp sp) })
      (clamp_inside st.max_hp hp hp_low hp_high)
    ∙ ap (λ v. record st { hp = hp; sp = v }) (clamp_inside st.max_sp sp sp_low sp_high)

module _ {F : Type 0} where
  -- `get_by_id` by its registration.
  managed_known :
      (f : Field F) (id : ℕ) (p : Player F) → managed f id ≡ some p → f.registered id ≡ true
  unfolding managed
  managed_known f id p at = elim (Bool-cases (f.registered id)) [
    | inl known ↦ known
    | inr unknown ↦ absurd (let missing = sym (if_false (f.objects id) none unknown) ∙ at in cc)
  ]

  stats_found :
      (f : Field F) (id : ℕ) (st : PlayerStat)
      → get_player_stats f id ≡ some st
      → (p : Player F) × (managed f id ≡ some p) × (p.stat ≡ st)
  unfolding get_player_stats
  stats_found f id st at = elim (Option-cases (managed f id)) [
    | inl missing ↦ absurd (let nothing = sym (ap stats missing) ∙ at in cc)
    | inr (p, found) ↦ (
      p,
      found,
      ap (λ (o : Option PlayerStat). elim o as (λ x. PlayerStat) [ none ↦ st | some s ↦ s ])
          (sym (ap stats found) ∙ at),
    )
  ]
    where
      stats : Option (Player F) → Option PlayerStat
      stats o = elim o [ none ↦ none | some p ↦ some p.stat ]

  -- A set of points, of a managed player.
  set_found :
      (f : Field F) (id : ℕ) (p : Player F) (hp sp : ℤ)
      → managed f id ≡ some p
      → set_player_stats f id hp sp
        ≡ put_player f id (record p { stat = set_sp (set_hp p.stat hp) sp })
  unfolding set_player_stats
  set_found f id p hp sp found =
      ap
        (λ (o : Option (Player F)). elim o as (λ x. Field F) [
          | none ↦ f
          | some q ↦ put_player f id (record q { stat = set_sp (set_hp q.stat hp) sp })
        ])
        found

  read_self :
      (f : Field F) (id : ℕ) (q : Player F)
      → f.registered id ≡ true
      → get_player_stats (put_player f id q) id ≡ some q.stat
  unfolding get_player_stats managed
  read_self f id q known =
      ap
        (λ (o : Option (Player F)). elim o as (λ x. Option PlayerStat) [
          | none ↦ none
          | some p ↦ some p.stat
        ])
        (if_true (update f.objects id (some q) id) none known ∙ update_self f.objects id (some q))

  read_other :
      (f : Field F) (id j : ℕ) (q : Player F)
      → j ≢ id
      → get_player_stats (put_player f id q) j ≡ get_player_stats f j
  unfolding get_player_stats managed update
  read_other f id j q apart =
      ap
        (λ (o : Option (Player F)).
          let held = if f.registered j then o else none in
          elim held as (λ x. Option PlayerStat) [ none ↦ none | some p ↦ some p.stat ])
        (if_false (some q) (f.objects j) (beq_ne j id apart))

  set_missing :
      (f : Field F) (id : ℕ) (hp sp : ℤ) → managed f id ≡ none → set_player_stats f id hp sp ≡ f
  unfolding set_player_stats
  set_missing f id hp sp missing =
      ap
        (λ (o : Option (Player F)). elim o as (λ x. Field F) [
          | none ↦ f
          | some q ↦ put_player f id (record q { stat = set_sp (set_hp q.stat hp) sp })
        ])
        missing

  -- The field gives the combat what it needs: points set within the maxima are read back, and no
  -- other player is read differently.
  pub field_side-IsPlayerSide : IsPlayerSide (field_side F)
  field_side-IsPlayerSide = record {
    set_self = λ f id st hp sp at hp_low hp_high sp_low sp_high.
        let (p, found, stat) = stats_found f id st at in
        ap (λ g. get_player_stats g id) (set_found f id p hp sp found)
        ∙ read_self f id (record p { stat = set_sp (set_hp p.stat hp) sp })
            (managed_known f id p found)
        ∙ ap (λ s. some (set_sp (set_hp s hp) sp)) stat
        ∙ ap some (set_inside st hp sp hp_low hp_high sp_low sp_high);
    set_other = λ f id j hp sp apart. elim (Option-cases (managed f id)) [
      | inl missing ↦ ap (λ g. get_player_stats g j) (set_missing f id hp sp missing)
      | inr (p, found) ↦
          ap (λ g. get_player_stats g j) (set_found f id p hp sp found)
          ∙ read_other f id j (record p { stat = set_sp (set_hp p.stat hp) sp }) apart
    ];
  }
