-- ===== src/Game/Logins.antt =====
-- game/PlayerManager.cpp over any run of logins and removals.
use mmorpg_server_rl_portfol.Prelude.{
  ℕ, nat_eq, ◌==◌, ◌≡◌, ◌≢◌, ◌∙◌, sym, ap, inl, inr, Bool-cases, List, none, some, if◌then◌else◌,
  arith, eq_of_beq, beq_refl, beq_ne, beq_symm, update_self, FloatArith,
}
use mmorpg_server_rl_portfol.Game.Player.{Player, new_player}
use mmorpg_server_rl_portfol.Game.PlayerManager.{
  PlayerManager, get_by_id, get_by_session, remove_by_session, remove_by_id, create_player,
  new_manager,
}
use mmorpg_server_rl_portfol.Game.Links.{
  IsLinked, update_other, update_same, same_id, same_player_id, still_there, remove_by_id-IsLinked,
  remove_by_session-IsLinked, found_own, found_some, found-remove_by_session, remove_by_id_forgets,
}

module _ (fl : FloatArith) where
  open fl use {F}

  -- The managers that logins with new ids and removals lead to.
  pub data Managed : PlayerManager F → Type 0 where
    starts : Managed new_manager
    creates :
        {mgr : PlayerManager F} (id : ℕ) (name : List ℕ) (sess : ℕ)
        → get_by_id mgr id ≡ none
        → Managed mgr
        → Managed (create_player fl mgr id name sess)
    removes_session :
        {mgr : PlayerManager F} (sess : ℕ) → Managed mgr → Managed (remove_by_session mgr sess)
    removes_id : {mgr : PlayerManager F} (id : ℕ) → Managed mgr → Managed (remove_by_id mgr id)

  create_player-IsLinked :
      (mgr : PlayerManager F) (id : ℕ) (name : List ℕ) (sess : ℕ)
      → get_by_id mgr id ≡ none
      → IsLinked mgr
      → IsLinked (create_player fl mgr id name sess)
  unfolding create_player get_by_id new_player
  create_player-IsLinked mgr id name sess new ok = record {
    linked = λ s j h. elim (Bool-cases (s == sess)) [
      | inl same ↦
          let at_j : id ≡ j =
            same_id id j (sym (update_same mgr.id_by_session sess s (some id) same) ∙ h) in
          (
            new_player fl id sess name,
            update_same mgr.players_by_id id j (some (new_player fl id sess name))
                (ap (λ k. k == id) (sym at_j) ∙ beq_refl id),
            sym (eq_of_beq s sess same),
          )
      | inr other ↦
          let (q, at_j, owned) =
            ok.linked s j (sym (update_other mgr.id_by_session sess s (some id) other) ∙ h) in
          (q, still_there id j (some (new_player fl id sess name)) mgr q new at_j, owned)
    ];
    filed = λ j q h. elim (Bool-cases (j == id)) [
      | inl same ↦
          sym (same_player_id _ q (sym (update_same mgr.players_by_id id j _ same) ∙ h))
          ∙ sym (eq_of_beq j id same)
      | inr other ↦ ok.filed j q (sym (update_other mgr.players_by_id id j _ other) ∙ h)
    ];
  }

  Managed-IsLinked : {mgr : PlayerManager F} → Managed mgr → IsLinked mgr
  unfolding new_manager
  Managed-IsLinked starts = record {
    linked = λ s j h. absurd (ground arith);
    filed = λ j q h. absurd (ground arith);
  }
  Managed-IsLinked (creates {mgr} id name sess new m) =
      create_player-IsLinked mgr id name sess new (Managed-IsLinked m)
  Managed-IsLinked (removes_session {mgr} sess m) =
      remove_by_session-IsLinked mgr sess (Managed-IsLinked m)
  Managed-IsLinked (removes_id {mgr} id m) = remove_by_id-IsLinked mgr id (Managed-IsLinked m)

  -- After any logins with new ids and any removals, a session that finds a player finds its own one,
  -- and the id of that player leads to the same player.
  pub get_by_session-owner :
      (mgr : PlayerManager F) (sess : ℕ) (p : Player F)
      → Managed mgr
      → get_by_session mgr sess ≡ some p
      → (p.session ≡ sess) × (get_by_id mgr p.id ≡ some p)
  get_by_session-owner mgr sess p m h = found_own mgr sess p (Managed-IsLinked m) h

  -- After any logins with new ids and any removals, a session that logs out finds no player any more,
  -- and every other session finds what it found.
  pub get_by_session-remove_by_session :
      (mgr : PlayerManager F) (sess s : ℕ)
      → Managed mgr
      → get_by_session (remove_by_session mgr sess) s
        ≡ (if s == sess then none else get_by_session mgr s)
  get_by_session-remove_by_session mgr sess s m =
      found-remove_by_session mgr sess s (Managed-IsLinked m)

  -- A session logs in, and again under another id; then it finds the new player. Once the old player
  -- is removed by its id, the session finds no player any more, though the new one is still filed.
  pub remove_by_id-create_player :
      (mgr : PlayerManager F) (sess old new : ℕ) (name name' : List ℕ)
      → new ≢ old
      → let twice = create_player fl (create_player fl mgr old name sess) new name' sess in
        let now = new_player fl new sess name' in
        (get_by_session twice sess ≡ some now)
        × (get_by_session (remove_by_id twice old) sess ≡ none)
        × (get_by_id (remove_by_id twice old) new ≡ some now)
  unfolding create_player get_by_id get_by_session new_player
  remove_by_id-create_player mgr sess old new name name' apart =
      let once = create_player fl mgr old name sess in
      let twice = create_player fl once new name' sess in
      let now = new_player fl new sess name' in
      let filed : get_by_id twice new ≡ some now = update_self once.players_by_id new (some now) in
      let known : get_by_id twice old ≡ some (new_player fl old sess name) =
        update_other once.players_by_id new old (some now) (beq_symm old new ∙ beq_ne new old apart)
        ∙ update_self mgr.players_by_id old (some (new_player fl old sess name)) in
      let (lost, kept) =
        remove_by_id_forgets twice old new (new_player fl old sess name) known apart in
      (
        found_some twice sess new (update_self once.id_by_session sess (some new)) ∙ filed,
        lost,
        kept ∙ filed,
      )
