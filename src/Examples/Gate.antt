-- ===== src/Examples/Gate.antt =====
-- A client that logs in at an empty server and enters a field.
use mmorpg_server_rl_portfol.Prelude.{
  arith, ℕ, ℤ, nat_eq, int_eq, ◌==◌, ◌≡◌, ◌≢◌, true, some, none, [], ◌∷◌, Option, if◌then◌else◌,
}
use mmorpg_server_rl_portfol.Net.Session.{new_session}
use mmorpg_server_rl_portfol.Net.Registry.{
  SessionManager, new_registry, bind_player, find_by_player_id, remove_session,
}
use mmorpg_server_rl_portfol.Net.Unbinding.{find_by_player_id-remove_session}
use mmorpg_server_rl_portfol.Game.PlayerManager.{new_manager}
use mmorpg_server_rl_portfol.Handlers.Logic.{
  Lobby, Login, on_recv_login, register_all_game_handlers,
}
use mmorpg_server_rl_portfol.Handlers.Entry.{login_envelope}
use mmorpg_server_rl_portfol.Worker.Dispatcher.{Dispatcher}
use mmorpg_server_rl_portfol.Handlers.Dispatching.{
  dispatch_envelope, expected_handler, dispatch_envelope-registered,
}
use mmorpg_server_rl_portfol.Examples.Floats.{whole_floats}

abbrev lobby : Lobby ℤ
lobby = record {
  sessions = λ sess. new_session sess;
  players = new_manager;
  registry = new_registry;
  fields = record { fields = λ id. none; has_storage = true; fresh = 40 };
}

abbrev pub alive : ℕ → Option ℕ
alive sess = if sess == 8 then some 2 else if sess == 9 then some 3 else none

abbrev pub ann : Login
ann = record { user_id = 97 ∷ []; token = 1 ∷ [] }

abbrev crowd : SessionManager
crowd = bind_player (bind_player new_registry 71 (some 8)) 72 (some 9)

find_by_player_id-remove_session_example :
    ((find_by_player_id alive (remove_session alive crowd 2) 72).1 ≡ some 9 → alive 9 ≢ some 2)
    × ((find_by_player_id alive crowd 72).1 ≡ some 9
        → alive 9 ≢ some 2
        → (find_by_player_id alive (remove_session alive crowd 2) 72).1 ≡ some 9)
find_by_player_id-remove_session_example = find_by_player_id-remove_session alive crowd 2 72 9

abbrev no_handlers : Dispatcher
no_handlers = record { handlers = λ packet. none }

dispatch_envelope-registered_example :
    dispatch_envelope whole_floats
      (register_all_game_handlers no_handlers)
      true
      71
      lobby
      8
      (login_envelope ann)
    ≡ on_recv_login whole_floats 71 lobby 8 (login_envelope ann)
unfolding expected_handler
dispatch_envelope-registered_example =
    dispatch_envelope-registered whole_floats no_handlers true 71 lobby 8 (login_envelope ann)
      (omega arith)
