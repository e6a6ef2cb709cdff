-- ===== src/Examples/Lobby.antt =====
-- Two players on two sessions, and a session that logs in twice.
use mmorpg_server_rl_portfol.Prelude.{ℤ, nat_eq, pos, ◌≡◌, refl, some, none, [], ◌∷◌, update, arith}
use mmorpg_server_rl_portfol.Game.Player.{Player, new_player, new_stat}
use mmorpg_server_rl_portfol.Game.PlayerManager.{
  PlayerManager, get_by_id, get_by_session, create_player, remove_by_id, new_manager,
}
use mmorpg_server_rl_portfol.Game.Stats.{IsStat, do_calls, do_calls-IsStat, sets_hp, sets_max_hp}
use mmorpg_server_rl_portfol.Game.Logins.{
  Managed, starts, creates, get_by_session-owner, remove_by_id-create_player,
}
use mmorpg_server_rl_portfol.Examples.Floats.{whole_floats}

abbrev one_login : PlayerManager ℤ
one_login = create_player whole_floats new_manager 1 [] 7

abbrev two_logins : PlayerManager ℤ
two_logins = create_player whole_floats one_login 2 [] 8

lobby_code : Unit {0}
unfolding create_player new_manager get_by_id get_by_session update new_player remove_by_id
lobby_code = tt

two_logins-Managed : Managed whole_floats two_logins
unfolding lobby_code
two_logins-Managed = creates 2 [] 8 refl (creates 1 [] 7 refl starts)

abbrev second : Player ℤ
second = new_player whole_floats 2 8 []

get_by_session-owner_example : (second.session ≡ 8) × (get_by_id two_logins second.id ≡ some second)
unfolding lobby_code
get_by_session-owner_example =
    get_by_session-owner whole_floats two_logins 8 second two_logins-Managed refl

-- Session 7 logs in again, as player 3; then player 1 is removed.
abbrev twice : PlayerManager ℤ
twice = create_player whole_floats one_login 3 [] 7

remove_by_id-create_player_example :
    (get_by_session twice 7 ≡ some (new_player whole_floats 3 7 []))
    × (get_by_session (remove_by_id twice 1) 7 ≡ none)
    × (get_by_id (remove_by_id twice 1) 3 ≡ some (new_player whole_floats 3 7 []))
remove_by_id-create_player_example =
    remove_by_id-create_player whole_floats new_manager 7 1 3 [] [] (λ same. absurd (omega arith))

do_calls-IsStat_example :
    IsStat (do_calls new_stat (sets_max_hp (pos 50) (omega arith) ∷ sets_hp (pos 70) ∷ []))
do_calls-IsStat_example =
    do_calls-IsStat (sets_max_hp (pos 50) (omega arith) ∷ sets_hp (pos 70) ∷ [])
