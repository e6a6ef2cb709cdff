-- ===== src/Server.antt =====
-- How the handlers of core/handlers reach the workers of the fields: `FieldManager::create_field` makes
-- and starts a field worker, `add_player` is called on it by the game worker, and messages go to its
-- queue (the end of worker/fieldWorker.cpp). A field worker is known by a number for its address.
pub mod Joining
pub mod Messages
use mmorpg_server_rl_portfol.Prelude.{
  ℕ, ℤ, pos, nat_eq, Bool, true, false, List, [], ◌∷◌, ◌++◌, map, Option, none, some, update,
  FloatArith,
}
use mmorpg_server_rl_portfol.Monster.World.{◌>>=◌}
use mmorpg_server_rl_portfol.Storage.DirtyHub.{DirtyHub}
use mmorpg_server_rl_portfol.Game.Player.{Player}
use mmorpg_server_rl_portfol.Net.Registry.{find_by_player_id}
use mmorpg_server_rl_portfol.Worker.Registry.{FieldManager, get_field}
use mmorpg_server_rl_portfol.Worker.Loop.{Worker, new_worker, start, push}
use mmorpg_server_rl_portfol.Field.Types.{Field, Effect}
use mmorpg_server_rl_portfol.Field.Players.{FieldCmd, add_player}
use mmorpg_server_rl_portfol.Field.Worker.{NetMessage, skill_cmd_message, custom_message, new_field}
use mmorpg_server_rl_portfol.Field.Types.{cmd_move}
use mmorpg_server_rl_portfol.Handlers.Logic.{
  Envelope, Lobby, Reply, login_ack, enter_field_ack, skill_cmd_ack, joins_field, to_field_worker,
  on_recv_enter_field, on_recv_skill_cmd,
}

-- A field worker: its queue and thread, and the field that its messages change.
pub record FieldThread (F : Type 0) : Type 0 where
  pub worker : Worker NetMessage
  pub field : Field F

pub record Server (F : Type 0) : Type 0 where
  pub lobby : Lobby F
  pub threads : ℕ → Option (FieldThread F)

-- What leaves the server: a reply of a handler, or what a field sends or writes.
pub data Out (F : Type 0) : Type 0 where
  replied : Reply → Out F
  effect : Effect F → Out F

-- `GetFieldWorker`
unfoldable pub get_field_worker : FieldManager → ℤ → Option ℕ
unfolding get_field
get_field_worker fields field_id = get_field fields field_id

-- The message that `OnRecv_SkillCmd` makes.
unfoldable pub skill_message : (ℕ → ℕ → List ℕ) → ℕ → ℕ → ℕ → NetMessage
skill_message encode sess skill target = record {
  type = skill_cmd_message;
  session = some sess;
  payload = encode skill target;
}

module _ {F : Type 0} where
  unfoldable pub push_to : Server F → ℕ → NetMessage → Option (FieldThread F) → Server F × Bool
  push_to srv addr msg none = (srv, false)
  push_to srv addr msg (some t) = (
    record srv {
      threads = update srv.threads addr (some (record t { worker = push t.worker msg }));
    },
    true,
  )

  unfoldable pub push_found : Server F → NetMessage → Option ℕ → Server F × Bool
  unfolding push_to
  push_found srv msg none = (srv, false)
  push_found srv msg (some addr) = push_to srv addr msg (srv.threads addr)

  -- `SendToFieldWorker`
  unfoldable pub send_to_field_worker : Server F → ℤ → NetMessage → Server F × Bool
  unfolding push_found get_field
  send_to_field_worker srv field_id msg = push_found srv msg (get_field srv.lobby.fields field_id)

  -- The message of `send_move_to_fieldworker`, with the payload that flatbuffers makes of the command.
  unfoldable pub move_message : (FieldCmd F → List ℕ) → ℕ → NetMessage
  move_message encode player_id = record {
    type = custom_message;
    session = none;
    payload = encode (record { entity_id = player_id; type = cmd_move; dir = none });
  }

  unfoldable pub send_move_to_fieldworker :
      (FieldCmd F → List ℕ) → Server F → ℕ → ℤ → Server F × Bool
  unfolding send_to_field_worker move_message
  send_move_to_fieldworker encode srv player_id field_id =
      send_to_field_worker srv field_id (move_message encode player_id)

module _ (fl : FloatArith) (make_database_id : ℕ → ℕ) (hub : DirtyHub) (registered : ℕ → Bool)
    (live : ℕ → Option ℕ) (encode : ℕ → ℕ → List ℕ) where
  open fl use {F}

  -- A field worker as `create_field` makes and starts it.
  unfoldable pub new_thread : ℤ → FieldThread F
  unfolding start
  new_thread field_id = record {
    worker = start new_worker;
    field = (new_field fl make_database_id field_id hub (λ id. false) registered).0;
  }

  unfoldable pub thread_at : Server F → ℕ → ℤ → FieldThread F
  thread_at srv addr field_id = elim (srv.threads addr) [ none ↦ new_thread field_id | some t ↦ t ]

  -- `SessionManager::instance().find_by_player_id(id)`, as a field asks it.
  unfoldable pub has_session_of : Server F → ℕ → Bool
  has_session_of srv id = elim (find_by_player_id live srv.lobby.registry id).1 [
    | none ↦ false
    | some sess ↦ true
  ]

  -- `fw->add_player(player)`: the field shares the object with the manager of the players.
  unfoldable pub join_thread : Server F → ℕ → Player F → Option (Server F × List (Out F))
  unfolding thread_at has_session_of
  join_thread srv addr p =
      let t = thread_at srv addr p.field_id in
      do
        r ←
            add_player fl
              (record (t.field) {
                objects = update t.field.objects p.id (some p);
                has_session = has_session_of srv;
              })
              p.id
        some (
          record srv { threads = update srv.threads addr (some (record t { field = r.0 })) },
          map effect r.1,
        )

  unfoldable pub join_worker : Server F → ℕ → Option (Player F) → Option (Server F × List (Out F))
  unfolding join_thread
  join_worker srv addr none = some (srv, [])
  join_worker srv addr (some p) = join_thread srv addr p

  -- What a handler gave, on the sessions and the fields. The session of the sender is `sess`.
  unfoldable pub perform_one : ℕ → Server F → Reply → Option (Server F × List (Out F))
  unfolding join_worker skill_message
  perform_one sess srv (login_ack ok id name field_id) =
      some (srv, replied (login_ack ok id name field_id) ∷ [])
  perform_one sess srv (enter_field_ack field_id id) =
      some (srv, replied (enter_field_ack field_id id) ∷ [])
  perform_one sess srv (skill_cmd_ack skill target ok err) =
      some (srv, replied (skill_cmd_ack skill target ok err) ∷ [])
  perform_one sess srv (joins_field addr id) =
      join_worker srv addr (srv.lobby.players.players_by_id id)
  perform_one sess srv (to_field_worker field_id skill target) =
      some ((send_to_field_worker srv field_id (skill_message encode sess skill target)).0, [])

  unfoldable pub perform : ℕ → Server F → List Reply → Option (Server F × List (Out F))
  unfolding perform_one
  perform sess srv [] = some (srv, [])
  perform sess srv (reply ∷ replies) = do
    r ← perform_one sess srv reply
    s ← perform sess r.0 replies
    some (s.0, r.1 ++ s.1)

  -- The handlers with what they call.
  unfoldable pub serve_enter_field : Server F → ℕ → Envelope → Option (Server F × List (Out F))
  unfolding perform
  serve_enter_field srv sess env =
      let (lobby, replies) = on_recv_enter_field fl srv.lobby sess env in
      perform sess (record srv { lobby = lobby }) replies

  unfoldable pub serve_skill_cmd : Server F → ℕ → Envelope → Option (Server F × List (Out F))
  unfolding perform
  serve_skill_cmd srv sess env =
      let (lobby, replies) = on_recv_skill_cmd srv.lobby sess env in
      perform sess (record srv { lobby = lobby }) replies
