-- ===== src/Net/Server.antt =====
-- net/tcp_server.cpp: the connections that the server accepts and closes. A session is the number of its
-- address; `objects` holds those that a `shared_ptr` keeps alive. The answers of uv, the address of a
-- new session and its id, which comes from the missing ids.h, are arguments.
pub mod Doors
use mmorpg_server_rl_portfol.Prelude.{
  ℕ, nat_eq, Bool, true, false, not, List, [], ◌∷◌, ◌++◌, Option, none, some, update, if◌then◌else◌,
}
use mmorpg_server_rl_portfol.Net.Session.{Session, new_session}
use mmorpg_server_rl_portfol.Net.Registry.{
  SessionManager, new_registry, add_session, remove_session, erase_session,
}

-- `gameWorker_` is whether it is set.
pub record TcpServer : Type 0 where
  pub sessions : List ℕ
  pub game_worker : Bool
  pub registry : SessionManager
  pub objects : ℕ → Option Session

unfoldable pub new_server : Bool → TcpServer
new_server game_worker = record {
  sessions = [];
  game_worker = game_worker;
  registry = new_registry;
  objects = λ addr. none;
}

-- The id of the session that a weak pointer still finds.
abbrev pub id_of : Option Session → Option ℕ
id_of none = none
id_of (some s) = some s.id

abbrev pub living : TcpServer → ℕ → Option ℕ
living server addr = id_of (server.objects addr)

-- The session of a connection that is taken.
unfoldable pub accepted_session : TcpServer → ℕ → Session
accepted_session server sid = record (new_session sid) {
  game_worker = server.game_worker;
  player_id = 4;
}

-- `on_new_conn`; a session that is not accepted is gone at the end.
unfoldable pub on_new_conn : TcpServer → Bool → Bool → ℕ → ℕ → TcpServer
unfolding accepted_session
on_new_conn server status_ok accepted addr sid =
    let taken = record server {
      sessions = server.sessions ++ addr ∷ [];
      registry = add_session server.registry sid (some addr);
      objects = update server.objects addr (some (accepted_session server sid));
    } in
    if not status_ok then server else if accepted then taken else server

-- The callback that `on_new_conn` sets, for a session that is alive.
unfoldable pub close_found : TcpServer → ℕ → Option Session → TcpServer
close_found server addr none = server
close_found server addr (some s) = record server {
  registry = remove_session (living server) server.registry s.id;
  sessions = erase_session addr server.sessions;
}

-- `Session::on_closed`
unfoldable pub on_closed : TcpServer → ℕ → TcpServer
unfolding close_found
on_closed server addr = close_found server addr (server.objects addr)

-- The last `shared_ptr` to a session goes.
unfoldable pub destroy : TcpServer → ℕ → TcpServer
destroy server addr = record server { objects = update server.objects addr none }
