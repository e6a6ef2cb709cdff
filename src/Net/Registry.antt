-- ===== src/Net/Registry.antt =====
-- net/sessionManager.h, and the sessions that net/tcp_server.cpp keeps. A session is a number for its
-- address. `live` is what `lock` finds of a weak pointer: the id of the session, while there is one.
use mmorpg_server_rl_portfol.Prelude.{
  ℕ, nat_eq, ◌==◌, ◌≡◌, ◌∙◌, sym, ap, inl, inr, Bool, Bool-cases, true, false, List, [], ◌∷◌,
  Option, none, some, lookup, put, remove, if◌then◌else◌, if_true, if_false,
}
use mathlib.Core.Path.{subst}

pub record SessionManager : Type 0 where
  pub sessions_by_session_id : List (ℕ × ℕ)
  pub sessions_by_player_id : List (ℕ × ℕ)

unfoldable pub new_registry : SessionManager
new_registry = record { sessions_by_session_id = []; sessions_by_player_id = [] }

-- A null pointer is ignored; `sid` is the id of the session.
unfoldable pub add_session : SessionManager → ℕ → Option ℕ → SessionManager
add_session mgr sid none = mgr
add_session mgr sid (some sess) = record mgr {
  sessions_by_session_id = put sid sess mgr.sessions_by_session_id;
}

-- The test of the loop of `remove_session`: the entry goes.
unfoldable pub goes : (ℕ → Option ℕ) → ℕ → ℕ → Bool
goes live sid sess = elim (live sess) [ none ↦ true | some id ↦ id == sid ]

-- The loop of `remove_session`.
unfoldable pub unbind_session : (ℕ → Option ℕ) → ℕ → List (ℕ × ℕ) → List (ℕ × ℕ)
unfolding goes
unbind_session live sid [] = []
unbind_session live sid ((pid, sess) ∷ entries) =
    let rest = unbind_session live sid entries in
    if goes live sid sess then rest else (pid, sess) ∷ rest

unfoldable pub remove_session : (ℕ → Option ℕ) → SessionManager → ℕ → SessionManager
unfolding unbind_session
remove_session live mgr sid = record {
  sessions_by_session_id = remove sid mgr.sessions_by_session_id;
  sessions_by_player_id = unbind_session live sid mgr.sessions_by_player_id;
}

unfoldable pub bind_player : SessionManager → ℕ → Option ℕ → SessionManager
bind_player mgr pid none = mgr
bind_player mgr pid (some sess) = record mgr {
  sessions_by_player_id = put pid sess mgr.sessions_by_player_id;
}

unfoldable pub unbind_player : SessionManager → ℕ → SessionManager
unbind_player mgr pid = record mgr { sessions_by_player_id = remove pid mgr.sessions_by_player_id }

-- `it->second.lock()`
unfoldable pub lock : (ℕ → Option ℕ) → ℕ → Option ℕ
lock live sess = elim (live sess) [ none ↦ none | some id ↦ some sess ]

unfoldable pub lock_found : (ℕ → Option ℕ) → Option ℕ → Option ℕ
unfolding lock
lock_found live none = none
lock_found live (some sess) = lock live sess

unfoldable pub find_by_session_id : (ℕ → Option ℕ) → SessionManager → ℕ → Option ℕ
unfolding lock_found
find_by_session_id live mgr sid = lock_found live (lookup sid mgr.sessions_by_session_id)

-- An entry whose session is gone is erased.
unfoldable pub find_by_player_id : (ℕ → Option ℕ) → SessionManager → ℕ → SessionManager × Option ℕ
unfolding lock_found unbind_player
find_by_player_id live mgr pid =
    let found = lock_found live (lookup pid mgr.sessions_by_player_id) in
    elim found [ none ↦ (unbind_player mgr pid, none) | some sess ↦ (mgr, some sess) ]

-- `TcpServer::on_session_closed`, on the vector of sessions.
unfoldable pub erase_session : ℕ → List ℕ → List ℕ
erase_session sess [] = []
erase_session sess (s ∷ sessions) = if s == sess then sessions else s ∷ erase_session sess sessions

-- What is left after a session is removed is not of it.
pub unbind_session-apart :
    (live : ℕ → Option ℕ) (sid pid sess : ℕ) (entries : List (ℕ × ℕ))
    → lookup pid (unbind_session live sid entries) ≡ some sess
    → goes live sid sess ≡ false
unfolding unbind_session lookup
unbind_session-apart live sid pid sess [] h = absurd (cc)
unbind_session-apart live sid pid sess ((k, s) ∷ entries) h = elim (Bool-cases (goes live sid s)) [
  | inl dropped ↦
      unbind_session-apart live sid pid sess entries
        (ap (lookup pid) (sym (if_true (unbind_session live sid entries) _ dropped)) ∙ h)
  | inr kept ↦ elim (Bool-cases (pid == k)) [
    | inl same ↦
        let here : ◌≡◌ {A = Option ℕ} (some s) (some sess) =
          sym (if_true (some s) _ same)
          ∙ ap (lookup pid) (sym (if_false (unbind_session live sid entries) _ kept))
          ∙ h in
        subst
          (λ (o : Option ℕ). elim o as (λ x. Type 0) [
            | none ↦ Unit
            | some t ↦ goes live sid t ≡ false
          ])
          here kept
    | inr other ↦ unbind_session-apart live sid pid sess entries (
        sym (if_false (some s) _ other)
        ∙ ap (lookup pid) (sym (if_false (unbind_session live sid entries) _ kept))
        ∙ h)
  ]
]
