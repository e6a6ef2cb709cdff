-- ===== src/Examples/Doors.antt =====
-- Two connections, of which one closes.
use mmorpg_server_rl_portfol.Prelude.{
  ℕ, nat_eq, ◌≡◌, ◌≢◌, ◌↔◌, refl, true, contains, some, update, arith,
}
use mmorpg_server_rl_portfol.Net.Session.{new_session}
use mmorpg_server_rl_portfol.Net.Registry.{find_by_session_id}
use mmorpg_server_rl_portfol.Net.Server.{
  TcpServer, new_server, living, on_new_conn, on_closed, accepted_session,
}
use mmorpg_server_rl_portfol.Net.Server.Doors.{
  Serves, opens, connects, closes, find_by_session_id-Serves,
}

abbrev one_open : TcpServer
one_open = on_new_conn (new_server true) true true 500 1

abbrev two_open : TcpServer
two_open = on_new_conn one_open true true 600 2

abbrev one_left : TcpServer
one_left = on_closed two_open 500

fresh_id : (other : ℕ) → living one_open other ≢ some 2
unfolding on_new_conn new_server update accepted_session new_session
fresh_id other = ground arith

one_left-Serves : Serves one_left
unfolding new_server on_new_conn update contains
one_left-Serves =
    closes 500
      (connects true true 600 2
        (connects true true 500 1 (opens true) refl (λ other h. absurd (cc))) refl fresh_id)
      refl

find_by_session_id-Serves_example :
    (find_by_session_id (living one_left) one_left.registry 2 ≡ some 600)
    ↔ ((contains 600 one_left.sessions ≡ true) × (living one_left 600 ≡ some 2))
find_by_session_id-Serves_example = find_by_session_id-Serves 2 600 one_left-Serves
