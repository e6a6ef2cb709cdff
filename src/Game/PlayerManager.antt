-- ===== src/Game/PlayerManager.antt =====
-- game/PlayerManager.cpp: the two maps, from ids to players and from sessions to ids.
use mmorpg_server_rl_portfol.Prelude.{ℕ, nat_eq, List, Option, none, some, update, FloatArith}
use mmorpg_server_rl_portfol.Game.Player.{Player, new_player}

pub record PlayerManager (F : Type 0) : Type 0 where
  pub players_by_id : ℕ → Option (Player F)
  pub id_by_session : ℕ → Option ℕ

module _ {F : Type 0} where
  unfoldable pub get_by_id : PlayerManager F → ℕ → Option (Player F)
  get_by_id mgr id = mgr.players_by_id id

  unfoldable pub get_by_session : PlayerManager F → ℕ → Option (Player F)
  get_by_session mgr sess = elim (mgr.id_by_session sess) [
    | none ↦ none
    | some id ↦ mgr.players_by_id id
  ]

  unfoldable pub remove_by_session : PlayerManager F → ℕ → PlayerManager F
  remove_by_session mgr sess = elim (mgr.id_by_session sess) [
    | none ↦ mgr
    | some id ↦ record {
      players_by_id = update mgr.players_by_id id none;
      id_by_session = update mgr.id_by_session sess none;
    }
  ]

  unfoldable pub remove_by_id : PlayerManager F → ℕ → PlayerManager F
  remove_by_id mgr id = elim (mgr.players_by_id id) [
    | none ↦ mgr
    | some p ↦ record {
      players_by_id = update mgr.players_by_id id none;
      id_by_session = update mgr.id_by_session p.session none;
    }
  ]

  unfoldable pub new_manager : PlayerManager F
  new_manager = record { players_by_id = λ id. none; id_by_session = λ sess. none }

module _ (fl : FloatArith) where
  open fl use {F}

  unfoldable pub create_player : PlayerManager F → ℕ → List ℕ → ℕ → PlayerManager F
  unfolding new_player
  create_player mgr id name sess = record {
    players_by_id = update mgr.players_by_id id (some (new_player fl id sess name));
    id_by_session = update mgr.id_by_session sess (some id);
  }
