-- ===== src/Game/Links.antt =====
-- How the two maps of game/PlayerManager.cpp hang together.
use mmorpg_server_rl_portfol.Prelude.{
  ℕ, nat_eq, ◌==◌, ◌≡◌, ◌≢◌, ◌∙◌, sym, ap, inl, inr, Bool-cases, true, false, Option, none, some,
  Option-cases, if◌then◌else◌, if_true, if_false, arith, update, eq_of_beq, beq_refl, beq_ne,
  update_self,
}
use mathlib.Core.Path.{subst}
use mmorpg_server_rl_portfol.Game.Player.{Player}
use mmorpg_server_rl_portfol.Game.PlayerManager.{
  PlayerManager, get_by_id, get_by_session, remove_by_session, remove_by_id,
}

pub update_other :
    {A : Type 0} (m : ℕ → A) (k j : ℕ) (v : A) → (j == k) ≡ false → update m k v j ≡ m j
unfolding update
update_other m k j v h = if_false v (m j) h

pub update_same : {A : Type 0} (m : ℕ → A) (k j : ℕ) (v : A) → (j == k) ≡ true → update m k v j ≡ v
unfolding update
update_same m k j v h = if_true v (m j) h

pub same_id : (i j : ℕ) → some i ≡ some j → i ≡ j
same_id i j h = cc

-- An entry that is left after an erase was there, under another key.
left_over :
    {A : Type 0} (m : ℕ → Option A) (k j : ℕ) (a : A)
    → update m k none j ≡ some a
    → ((j == k) ≡ false) × (m j ≡ some a)
left_over m k j a h = elim (Bool-cases (j == k)) [
  | inl same ↦ absurd (ground (arith, gone m k j (eq_of_beq j k same), h))
  | inr other ↦ (other, sym (update_other m k j none other) ∙ h)
]
  where
    gone : {A : Type 0} (m : ℕ → Option A) (k j : ℕ) → j ≡ k → update m k none j ≡ none
    gone m k j same = ap (update m k none) same ∙ update_self m k none

module _ {F : Type 0} where
  -- Every session leads to a player of that session, and every player is filed under its id.
  pub record IsLinked (mgr : PlayerManager F) : Type 0 where
    pub linked :
        (sess id : ℕ)
        → mgr.id_by_session sess ≡ some id
        → (p : Player F) × (mgr.players_by_id id ≡ some p) × (p.session ≡ sess)
    pub filed : (id : ℕ) (p : Player F) → mgr.players_by_id id ≡ some p → p.id ≡ id

  pub same_session : (p q : Player F) → some p ≡ some q → p.session ≡ q.session
  same_session p q h = cc

  pub same_player_id : (p q : Player F) → some p ≡ some q → p.id ≡ q.id
  same_player_id p q h = cc

  pub still_there :
      (id j : ℕ) (v : Option (Player F)) (mgr : PlayerManager F) (q : Player F)
      → mgr.players_by_id id ≡ none
      → mgr.players_by_id j ≡ some q
      → update mgr.players_by_id id v j ≡ some q
  still_there id j v mgr q new at_j = elim (Bool-cases (j == id)) [
    | inl same ↦
        absurd (ground (arith, new, sym (ap mgr.players_by_id (eq_of_beq j id same)) ∙ at_j))
    | inr other ↦ update_other mgr.players_by_id id j v other ∙ at_j
  ]

  -- Erasing a player and the entry of its session.
  unlink : PlayerManager F → ℕ → ℕ → PlayerManager F
  unlink mgr id sess = record {
    players_by_id = update mgr.players_by_id id none;
    id_by_session = update mgr.id_by_session sess none;
  }

  module _ (mgr : PlayerManager F) (id : ℕ) (p : Player F) (ok : IsLinked mgr)
      (found : mgr.players_by_id id ≡ some p) where
    kept :
        (sess j : ℕ)
        → (sess == p.session) ≡ false
        → mgr.id_by_session sess ≡ some j
        → (q : Player F) × (update mgr.players_by_id id none j ≡ some q) × (q.session ≡ sess)
    kept sess j other link =
        let (q, at_j, owned) = ok.linked sess j link in
        elim (Bool-cases (j == id)) [
          | inl same ↦
              let at_id : mgr.players_by_id id ≡ some q =
                ap mgr.players_by_id (sym (eq_of_beq j id same)) ∙ at_j in
              absurd
                (ground (arith, same_session p q (sym found ∙ at_id), owned, beq_refl sess, other))
          | inr apart ↦ (q, update_other mgr.players_by_id id j none apart ∙ at_j, owned)
        ]

    unlink-IsLinked : IsLinked (unlink mgr id p.session)
    unfolding unlink
    unlink-IsLinked = record {
      linked = λ sess j h.
          let (other, link) = left_over mgr.id_by_session p.session sess j h in
          kept sess j other link;
      filed = λ j q h. ok.filed j q (left_over mgr.players_by_id id j q h).1;
    }

  pub remove_by_id-IsLinked :
      (mgr : PlayerManager F) (id : ℕ) → IsLinked mgr → IsLinked (remove_by_id mgr id)
  unfolding remove_by_id unlink
  remove_by_id-IsLinked mgr id ok = elim (Option-cases (mgr.players_by_id id)) [
    | inl absent ↦ rw (absent, remove_by_id) ok
    | inr (p, found) ↦ rw (found, remove_by_id) (unlink-IsLinked mgr id p ok found)
  ]

  pub remove_by_session-IsLinked :
      (mgr : PlayerManager F) (sess : ℕ) → IsLinked mgr → IsLinked (remove_by_session mgr sess)
  unfolding remove_by_session unlink
  remove_by_session-IsLinked mgr sess ok = elim (Option-cases (mgr.id_by_session sess)) [
    | inl absent ↦ rw (absent, remove_by_session) ok
    | inr (id, link) ↦
        let (p, found, owned) = ok.linked sess id link in
        rw (link, remove_by_session)
          (subst (λ s. IsLinked (unlink mgr id s)) owned (unlink-IsLinked mgr id p ok found))
  ]

  look : PlayerManager F → Option ℕ → Option (Player F)
  look mgr none = none
  look mgr (some id) = mgr.players_by_id id

  found_none :
      (mgr : PlayerManager F) (sess : ℕ)
      → mgr.id_by_session sess ≡ none
      → get_by_session mgr sess ≡ none
  unfolding get_by_session look
  found_none mgr sess h = ap (look mgr) h

  pub found_some :
      (mgr : PlayerManager F) (sess id : ℕ)
      → mgr.id_by_session sess ≡ some id
      → get_by_session mgr sess ≡ mgr.players_by_id id
  unfolding get_by_session look
  found_some mgr sess id h = ap (look mgr) h

  -- Removing a player by its id takes the entry of its session away, whoever that session has logged
  -- in as since: it finds no player any more, while every other player is still filed.
  pub remove_by_id_forgets :
      (mgr : PlayerManager F) (id j : ℕ) (p : Player F)
      → get_by_id mgr id ≡ some p
      → j ≢ id
      → (get_by_session (remove_by_id mgr id) p.session ≡ none)
        × (get_by_id (remove_by_id mgr id) j ≡ get_by_id mgr j)
  unfolding get_by_id remove_by_id unlink
  remove_by_id_forgets mgr id j p found apart =
      rw (found, remove_by_id)
        (
          found_none (unlink mgr id p.session) p.session
              (update_self mgr.id_by_session p.session none),
          update_other mgr.players_by_id id j none (beq_ne j id apart),
        )

  apart_ids :
      (mgr : PlayerManager F) (sess s id k : ℕ)
      → IsLinked mgr
      → mgr.id_by_session sess ≡ some id
      → mgr.id_by_session s ≡ some k
      → (s == sess) ≡ false
      → (k == id) ≡ false
  apart_ids mgr sess s id k ok link at_s other = elim (Bool-cases (k == id)) [
    | inr apart ↦ apart
    | inl same ↦
        let (p, at_id, owns) = ok.linked sess id link in
        let (q, at_k, owned) = ok.linked s k at_s in
        let one =
          same_session q p (sym at_k ∙ ap mgr.players_by_id (eq_of_beq k id same) ∙ at_id) in
        absurd (ground (arith, sym owned ∙ one ∙ owns, other, beq_refl sess))
  ]

  -- What the sessions find once a player and its own session are unlinked.
  found-unlink :
      (mgr : PlayerManager F) (sess id s : ℕ)
      → IsLinked mgr
      → mgr.id_by_session sess ≡ some id
      → get_by_session (unlink mgr id sess) s ≡ (if s == sess then none else get_by_session mgr s)
  unfolding unlink
  found-unlink mgr sess id s ok link = elim (Bool-cases (s == sess)) [
    | inl same ↦
        found_none (unlink mgr id sess) s (update_same mgr.id_by_session sess s none same)
        ∙ sym (if_true _ _ same)
    | inr other ↦
        let left : (unlink mgr id sess).id_by_session s ≡ mgr.id_by_session s =
          update_other mgr.id_by_session sess s none other in
        elim (Option-cases (mgr.id_by_session s)) [
          | inl absent ↦
              found_none (unlink mgr id sess) s (left ∙ absent)
              ∙ sym (found_none mgr s absent)
              ∙ sym (if_false _ _ other)
          | inr (k, at_s) ↦
              found_some (unlink mgr id sess) s k (left ∙ at_s)
              ∙ update_other mgr.players_by_id id k none
                  (apart_ids mgr sess s id k ok link at_s other)
              ∙ sym (found_some mgr s k at_s)
              ∙ sym (if_false _ _ other)
        ]
  ]

  pub found-remove_by_session :
      (mgr : PlayerManager F) (sess s : ℕ)
      → IsLinked mgr
      → get_by_session (remove_by_session mgr sess) s
        ≡ (if s == sess then none else get_by_session mgr s)
  unfolding unlink remove_by_session
  found-remove_by_session mgr sess s ok = elim (Option-cases (mgr.id_by_session sess)) [
    | inl absent ↦
        rw (absent, remove_by_session)
          (elim (Bool-cases (s == sess)) [
            | inl same ↦
                found_none mgr s (ap mgr.id_by_session (eq_of_beq s sess same) ∙ absent)
                ∙ sym (if_true _ _ same)
            | inr other ↦ sym (if_false _ _ other)
          ])
    | inr (id, link) ↦ rw (link, remove_by_session) (found-unlink mgr sess id s ok link)
  ]

  -- A session finds its own player only, filed under the player's id.
  pub found_own :
      (mgr : PlayerManager F) (sess : ℕ) (p : Player F)
      → IsLinked mgr
      → get_by_session mgr sess ≡ some p
      → (p.session ≡ sess) × (get_by_id mgr p.id ≡ some p)
  unfolding get_by_session get_by_id look
  found_own mgr sess p ok h = elim (Option-cases (mgr.id_by_session sess)) [
    | inl absent ↦ absurd (ground (arith, sym (ap (look mgr) absent) ∙ h))
    | inr (id, link) ↦
        let (q, found, owned) = ok.linked sess id link in
        let at_id : mgr.players_by_id id ≡ some p = sym (ap (look mgr) link) ∙ h in
        (
          sym (same_session q p (sym found ∙ at_id)) ∙ owned,
          ap mgr.players_by_id (ok.filed id p at_id) ∙ at_id,
        )
  ]
