-- ===== src/Net/Unbinding.antt =====
-- What a lookup in net/sessionManager.h finds after a session is removed.
use mmorpg_server_rl_portfol.Prelude.{
  ℕ, nat_eq, ◌==◌, ◌≡◌, ◌≢◌, ◌∙◌, refl, sym, ap, inl, inr, Bool, Bool-cases, Option-cases, true,
  false, List, [], ◌∷◌, Option, none, some, lookup, if_true, if_false, beq_refl, beq_ne, arith,
}
use mmorpg_server_rl_portfol.Net.Registry.{
  SessionManager, goes, unbind_session, unbind_session-apart, remove_session, unbind_player, lock,
  lock_found, find_by_player_id,
}

module _ (live : ℕ → Option ℕ) where
  pub find_lem :
      (mgr : SessionManager) (pid : ℕ)
      → (find_by_player_id live mgr pid).1 ≡ lock_found live (lookup pid mgr.sessions_by_player_id)
  unfolding find_by_player_id
  find_lem mgr pid = by_found (lock_found live (lookup pid mgr.sessions_by_player_id))
    where
      by_found :
          (o : Option ℕ)
          → (elim o as (λ x. SessionManager × Option ℕ) [
            | none ↦ (unbind_player mgr pid, none)
            | some sess ↦ (mgr, some sess)
          ]).1
            ≡ o
      by_found none = refl
      by_found (some sess) = refl

  same_some : (a b : ℕ) → ◌≡◌ {A = Option ℕ} (some a) (some b) → a ≡ b
  same_some a b h = ap (λ (o : Option ℕ). elim o as (λ x. ℕ) [ none ↦ a | some c ↦ c ]) h

  -- What a lock gives back is what was looked up, and there is a session.
  pub locked :
      (o : Option ℕ) (sess : ℕ)
      → lock_found live o ≡ some sess
      → (o ≡ some sess) × ((id : ℕ) × (live sess ≡ some id))
  unfolding lock_found lock
  locked none sess h = absurd cc
  locked (some s) sess h = elim (Option-cases (live s)) [
    | inl gone ↦ absurd (
        let nothing : ◌≡◌ {A = Option ℕ} none (some sess) =
          sym (
            ap (λ (o : Option ℕ). elim o as (λ x. Option ℕ) [ none ↦ none | some id ↦ some s ])
              gone)
          ∙ h in
        cc)
    | inr (id, alive) ↦
        let found : ◌≡◌ {A = Option ℕ} (some s) (some sess) =
          sym (
            ap (λ (o : Option ℕ). elim o as (λ x. Option ℕ) [ none ↦ none | some i ↦ some s ])
              alive)
          ∙ h in
        (found, (id, ap live (sym (same_some s sess found)) ∙ alive))
  ]

  goes_of : (sid sess id : ℕ) → live sess ≡ some id → goes live sid sess ≡ (id == sid)
  unfolding goes
  goes_of sid sess id alive =
      ap (λ (o : Option ℕ). elim o as (λ x. Bool) [ none ↦ true | some i ↦ i == sid ]) alive

  unbind_session-keeps :
      (sid pid sess : ℕ) (entries : List (ℕ × ℕ))
      → goes live sid sess ≡ false
      → lookup pid entries ≡ some sess
      → lookup pid (unbind_session live sid entries) ≡ some sess
  unfolding unbind_session lookup
  unbind_session-keeps sid pid sess [] stays h = h
  unbind_session-keeps sid pid sess ((k, s) ∷ entries) stays h = elim (Bool-cases (pid == k)) [
    | inl same ↦
        let here : s ≡ sess = same_some s sess (sym (if_true (some s) _ same) ∙ h) in
        ap (lookup pid)
          (if_false (unbind_session live sid entries) _ (ap (goes live sid) here ∙ stays))
        ∙ if_true (some s) _ same
        ∙ ap some here
    | inr other ↦
        let rest =
          unbind_session-keeps sid pid sess entries stays (sym (if_false (some s) _ other) ∙ h) in
        elim (Bool-cases (goes live sid s)) [
          | inl dropped ↦
              ap (lookup pid) (if_true (unbind_session live sid entries) _ dropped) ∙ rest
          | inr kept ↦
              ap (lookup pid) (if_false (unbind_session live sid entries) _ kept)
              ∙ if_false (some s) _ other
              ∙ rest
        ]
  ]

  -- After a session is removed no player id leads to it any more, and every player id that leads to
  -- another session before still does.
  pub find_by_player_id-remove_session :
      (mgr : SessionManager) (sid pid sess : ℕ)
      → ((find_by_player_id live (remove_session live mgr sid) pid).1 ≡ some sess
          → live sess ≢ some sid)
        × ((find_by_player_id live mgr pid).1 ≡ some sess
            → live sess ≢ some sid
            → (find_by_player_id live (remove_session live mgr sid) pid).1 ≡ some sess)
  unfolding remove_session lock_found lock
  find_by_player_id-remove_session mgr sid pid sess =
      let after = remove_session live mgr sid in
      (
        λ found here.
            let (at, alive) = locked _ sess (sym (find_lem after pid) ∙ found) in
            let stays = unbind_session-apart live sid pid sess mgr.sessions_by_player_id at in
            ground (arith, goes_of sid sess sid here, beq_refl sid),
        λ found apart.
            let (at, (id, alive)) = locked _ sess (sym (find_lem mgr pid) ∙ found) in
            let stays : goes live sid sess ≡ false =
              goes_of sid sess id alive ∙ beq_ne id sid (λ same. apart (alive ∙ ap some same)) in
            find_lem after pid
            ∙ ap (lock_found live)
                (unbind_session-keeps sid pid sess mgr.sessions_by_player_id stays at)
            ∙ ap (λ (o : Option ℕ). elim o as (λ x. Option ℕ) [ none ↦ none | some i ↦ some sess ])
                alive,
      )
