-- ===== src/Handlers/Entry.antt =====
-- core/handlers: the way of a client into a field, and the requests that lead nowhere.
use mathlib.Core.Path.{subst}
use mmorpg_server_rl_portfol.Prelude.{
  ℕ, pos, nat_eq, int_eq, ◌≡◌, ◌∙◌, refl, sym, ap, true, false, ◌||◌, List, [], ◌∷◌, is_empty,
  Option, none, some, update, update_self, lookup-put, if_true, if_false, beq_refl, FloatArith,
}
use mmorpg_server_rl_portfol.Net.Session.{Session, in_field}
use mmorpg_server_rl_portfol.Net.Registry.{bind_player, find_by_player_id, lock_found, lock}
use mmorpg_server_rl_portfol.Net.Unbinding.{find_lem}
use mmorpg_server_rl_portfol.Game.Player.{Player, new_player, set_pos}
use mmorpg_server_rl_portfol.Game.PlayerManager.{create_player, get_by_session}
use mmorpg_server_rl_portfol.Worker.Registry.{create_field}
use mmorpg_server_rl_portfol.Handlers.Logic.{
  Envelope, Login, Reply, login_ack, enter_field_ack, joins_field, Lobby, verify_fbs_req,
  verify_found, packet_login, packet_enter_field, log_in, login_found, on_recv_login, place,
  put_session, enter_created, enter_found, enter_req, on_recv_enter_field,
}

-- The envelope of a request.
abbrev pub login_envelope : Login → Envelope
login_envelope req = record {
  pkt_type = packet_login;
  pkt_as_ping = none;
  pkt_as_login = some req;
  pkt_as_enter_field = none;
  pkt_as_skill_cmd = none;
}

abbrev pub enter_envelope : ℕ → Envelope
enter_envelope field_id = record {
  pkt_type = packet_enter_field;
  pkt_as_ping = none;
  pkt_as_login = none;
  pkt_as_enter_field = some field_id;
  pkt_as_skill_cmd = none;
}

module _ (fl : FloatArith) where
  open fl use {F, lit}

  -- The lobby after a login that is taken.
  abbrev logged_in_lobby : ℕ → Lobby F → ℕ → Login → Lobby F
  logged_in_lobby id lobby sess req = record lobby {
    players = create_player fl lobby.players id req.user_id sess;
    sessions = update lobby.sessions sess (record (lobby.sessions sess) { player_id = id });
    registry = bind_player lobby.registry id (some sess);
  }

  login_taken :
      (id : ℕ) (lobby : Lobby F) (sess : ℕ) (req : Login)
      → (is_empty req.user_id || is_empty req.token) ≡ false
      → on_recv_login fl id lobby sess (login_envelope req)
        ≡ (logged_in_lobby id lobby sess req, login_ack true id req.user_id (pos 1000) ∷ [])
  unfolding on_recv_login verify_fbs_req verify_found login_found log_in put_session
  login_taken id lobby sess req full = if_false _ _ full

  session_player :
      (id : ℕ) (lobby : Lobby F) (sess : ℕ) (req : Login)
      → get_by_session (logged_in_lobby id lobby sess req).players sess
        ≡ some (new_player fl id sess req.user_id)
  unfolding get_by_session create_player
  session_player id lobby sess req =
      ap
        (λ (o : Option ℕ). elim o as (λ x. Option (Player F)) [
          | none ↦ none
          | some k ↦
              update lobby.players.players_by_id id (some (new_player fl id sess req.user_id)) k
        ])
        (update_self lobby.players.id_by_session sess (some id))
      ∙ update_self lobby.players.players_by_id id (some (new_player fl id sess req.user_id))

  bound_session :
      (live : ℕ → Option ℕ) (id sid : ℕ) (lobby : Lobby F) (sess : ℕ) (req : Login)
      → live sess ≡ some sid
      → (find_by_player_id live (logged_in_lobby id lobby sess req).registry id).1 ≡ some sess
  unfolding bind_player lock_found lock
  bound_session live id sid lobby sess req alive =
      find_lem live (logged_in_lobby id lobby sess req).registry id
      ∙ ap (lock_found live) (
          lookup-put id id sess lobby.registry.sessions_by_player_id
          ∙ if_true (some sess) _ (beq_refl id))
      ∙ ap (λ (o : Option ℕ). elim o as (λ x. Option ℕ) [ none ↦ none | some i ↦ some sess ]) alive

  -- A session that entered a field, with its player at the entry of the field.
  abbrev pub HasEntered : Lobby F → ℕ → ℕ → ℕ → Type 0
  HasEntered lobby sess id field_id =
      ((lobby.sessions sess).state ≡ in_field)
      × ((lobby.sessions sess).player_id ≡ id)
      × ((lobby.sessions sess).field_id ≡ pos field_id)
      × (q : Player F) × (lobby.players.players_by_id id ≡ some q)
      × (q.id ≡ id)
      × (q.field_id ≡ pos field_id)
      × (q.position.x ≡ lit 1021 10)
      × (q.position.y ≡ lit 15591 100)

  entered :
      (id : ℕ) (lobby : Lobby F) (sess field_id field : ℕ) (p : Player F)
      → get_by_session lobby.players sess ≡ some p
      → p.id ≡ id
      → (lobby.sessions sess).player_id ≡ id
      → (create_field lobby.fields (pos field_id)).1 ≡ some field
      → let r = on_recv_enter_field fl lobby sess (enter_envelope field_id) in
        (r.1 ≡ enter_field_ack (pos field_id) id ∷ joins_field field id ∷ [])
        × HasEntered r.0 sess id field_id
  unfolding on_recv_enter_field verify_fbs_req verify_found enter_req enter_found enter_created
      put_session place set_pos
  entered id lobby sess field_id field p known named mine made =
      let P : Lobby F × List Reply → Type 0 = λ r.
        (r.1 ≡ enter_field_ack (pos field_id) id ∷ joins_field field id ∷ [])
        × HasEntered r.0 sess id field_id in
      let fields = (create_field lobby.fields (pos field_id)).0 in
      let s = record (lobby.sessions sess) { field_id = pos field_id; state = in_field } in
      let at = update_self lobby.sessions sess s in
      let placed = set_pos (record p { field_id = pos field_id }) (lit 1021 10) (lit 15591 100) in
      subst (λ o. P (enter_found fl lobby sess (pos field_id) o)) (sym known)
        (subst
          (λ o.
            P (
              enter_created fl (place fl lobby p (pos field_id)) sess p (pos field_id) (fields, o)))
          (sym made)
          (
            ap (λ i. enter_field_ack (pos field_id) i ∷ joins_field field i ∷ []) named,
            (
              ap (λ (t : Session). t.state) at,
              ap (λ (t : Session). t.player_id) at ∙ mine,
              ap (λ (t : Session). t.field_id) at,
              placed,
              ap (update lobby.players.players_by_id p.id (some placed)) (sym named)
                  ∙ update_self lobby.players.players_by_id p.id (some placed),
              named,
              refl,
              refl,
              refl,
            ),
          ))

  -- A client that logs in with a user id and a token, and then asks for a field that can be made, is
  -- told its new player id, leads from this id to its own session while that lives, is in the field
  -- afterwards, with its player at the entry, and joins the worker of just this field under just this
  -- id.
  pub login_enter :
      (live : ℕ → Option ℕ) (id sid : ℕ) (lobby : Lobby F) (sess field_id field : ℕ) (req : Login)
      → (is_empty req.user_id || is_empty req.token) ≡ false
      → live sess ≡ some sid
      → (create_field lobby.fields (pos field_id)).1 ≡ some field
      → let first = on_recv_login fl id lobby sess (login_envelope req) in
        let second = on_recv_enter_field fl first.0 sess (enter_envelope field_id) in
        (first.1 ≡ login_ack true id req.user_id (pos 1000) ∷ [])
        × ((find_by_player_id live first.0.registry id).1 ≡ some sess)
        × (second.1 ≡ enter_field_ack (pos field_id) id ∷ joins_field field id ∷ [])
        × HasEntered second.0 sess id field_id
  unfolding new_player
  login_enter live id sid lobby sess field_id field req full alive made =
      let l = logged_in_lobby id lobby sess req in
      let (told, there) =
        entered id l sess field_id field (new_player fl id sess req.user_id)
          (session_player id lobby sess req) refl
          (ap (λ (t : Session). t.player_id)
            (update_self lobby.sessions sess (record (lobby.sessions sess) { player_id = id })))
          made in
      subst
        (λ (r : Lobby F × List Reply).
          (r.1 ≡ login_ack true id req.user_id (pos 1000) ∷ [])
          × ((find_by_player_id live r.0.registry id).1 ≡ some sess)
          × ((on_recv_enter_field fl r.0 sess (enter_envelope field_id)).1
              ≡ enter_field_ack (pos field_id) id ∷ joins_field field id ∷ [])
          × HasEntered (on_recv_enter_field fl r.0 sess (enter_envelope field_id)).0 sess id
              field_id)
        (sym (login_taken id lobby sess req full))
        (refl, bound_session live id sid lobby sess req alive, told, there)
