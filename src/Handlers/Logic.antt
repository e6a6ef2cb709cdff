-- ===== src/Handlers/Logic.antt =====
-- core/handlers: what the game worker does with an envelope, and core/proto/protocol_verify.h. A
-- session is the number of its address; a reply stands for the bytes that flatbuffers builds. Ids of
-- players come from the missing ids.h. The player joins a field by `FieldWorker::add_player`.
use mmorpg_server_rl_portfol.Prelude.{
  ℕ, ℤ, pos, nat_eq, int_eq, ◌==◌, Bool, true, false, not, ◌||◌, List, [], ◌∷◌, is_empty, Option,
  none, some, update, if◌then◌else◌, FloatArith,
}
use mmorpg_server_rl_portfol.Net.Session.{Session, in_field}
use mmorpg_server_rl_portfol.Net.Registry.{SessionManager, bind_player}
use mmorpg_server_rl_portfol.Game.Player.{Player, set_pos}
use mmorpg_server_rl_portfol.Game.PlayerManager.{PlayerManager, create_player, get_by_session}
use mmorpg_server_rl_portfol.Worker.Registry.{FieldManager, create_field}
use mmorpg_server_rl_portfol.Worker.Dispatcher.{Dispatcher, register_handler}

-- `game::Packet`, whose values are those of `game::MsgType`.
abbrev pub packet_ping : ℕ
packet_ping = 1

abbrev pub packet_login : ℕ
packet_login = 2

abbrev pub packet_enter_field : ℕ
packet_enter_field = 3

abbrev pub packet_skill_cmd : ℕ
packet_skill_cmd = 6

-- `Login`: the user id and the token; absent strings are empty.
pub record Login : Type 0 where
  pub user_id : List ℕ
  pub token : List ℕ

pub record SkillCmd : Type 0 where
  pub skill : ℕ
  pub target_id : ℕ

-- An envelope as the accessors `pkt_as` of flatbuffers read it.
pub record Envelope : Type 0 where
  pub pkt_type : ℕ
  pub pkt_as_ping : Option ℕ
  pub pkt_as_login : Option Login
  pub pkt_as_enter_field : Option ℕ
  pub pkt_as_skill_cmd : Option SkillCmd

pub data Error : Type 0 where
  ok invalid_union_type invalid_req invalid_session invalid_player : Error

pub data SkillError : Type 0 where
  invalid_state : SkillError

-- What a handler sends to the session, and what it hands to a field.
pub data Reply : Type 0 where
  login_ack : Bool → ℕ → List ℕ → ℤ → Reply
  enter_field_ack : ℤ → ℕ → Reply
  skill_cmd_ack : ℕ → ℕ → Bool → SkillError → Reply
  joins_field : ℕ → ℕ → Reply
  to_field_worker : ℤ → ℕ → ℕ → Reply

-- What the handlers work on.
pub record Lobby (F : Type 0) : Type 0 where
  pub sessions : ℕ → Session
  pub players : PlayerManager F
  pub registry : SessionManager
  pub fields : FieldManager

-- `VERIFY_FBS_REQ`
unfoldable pub verify_found : {A : Type 0} → Option A → Error × Option A
verify_found none = (invalid_req, none)
verify_found (some req) = (ok, some req)

unfoldable pub verify_fbs_req : {A : Type 0} → ℕ → Envelope → Option A → Error × Option A
unfolding verify_found
verify_fbs_req packet env pkt_as =
    if not (env.pkt_type == packet) then (invalid_union_type, none) else verify_found pkt_as

-- `OnRecv_Ping` only looks at the envelope.
unfoldable pub on_recv_ping : {F : Type 0} → Lobby F → ℕ → Envelope → Lobby F × List Reply
on_recv_ping lobby sess env = (lobby, [])

-- `SendSkillCmdErrorAck`
unfoldable pub send_skill_cmd_error_ack : SkillCmd → SkillError → List Reply
send_skill_cmd_error_ack sk err = skill_cmd_ack sk.skill sk.target_id false err ∷ []

-- `OnRecv_SkillCmd` of a command, by the session's player and field.
unfoldable pub skill_found : Session → Option SkillCmd → List Reply
unfolding send_skill_cmd_error_ack
skill_found s none = []
skill_found s (some sk) =
    if s.field_id == pos 0 || s.player_id == 0
    then send_skill_cmd_error_ack sk invalid_state
    else to_field_worker s.field_id sk.skill sk.target_id ∷ []

module _ {F : Type 0} where
  unfoldable pub put_session : Lobby F → ℕ → Session → Lobby F
  put_session lobby sess s = record lobby { sessions = update lobby.sessions sess s }

  unfoldable pub on_recv_skill_cmd : Lobby F → ℕ → Envelope → Lobby F × List Reply
  unfolding skill_found
  on_recv_skill_cmd lobby sess env = (lobby, skill_found (lobby.sessions sess) env.pkt_as_skill_cmd)

module _ (fl : FloatArith) where
  open fl use {F, lit}

  -- `OnRecv_Login` of a request, with the id that `next_player_id` gives.
  unfoldable pub log_in : ℕ → Lobby F → ℕ → Login → Lobby F × List Reply
  unfolding put_session
  log_in player_id lobby sess req =
      let created = record lobby {
        players = create_player fl lobby.players player_id req.user_id sess;
      } in
      let bound =
        put_session created sess (record (lobby.sessions sess) { player_id = player_id }) in
      if is_empty req.user_id || is_empty req.token then (lobby, []) else (
        record bound { registry = bind_player lobby.registry player_id (some sess) },
        login_ack true player_id req.user_id (pos 1000) ∷ [],
      )

  unfoldable pub login_found : ℕ → Lobby F → ℕ → Option Login → Lobby F × List Reply
  unfolding log_in
  login_found player_id lobby sess none = (lobby, [])
  login_found player_id lobby sess (some req) = log_in player_id lobby sess req

  unfoldable pub on_recv_login : ℕ → Lobby F → ℕ → Envelope → Lobby F × List Reply
  unfolding login_found verify_fbs_req
  on_recv_login player_id lobby sess env =
      login_found player_id lobby sess (verify_fbs_req packet_login env env.pkt_as_login).1

  -- `player->set_field_id` and `set_pos`, on the shared object.
  unfoldable pub place : Lobby F → Player F → ℤ → Lobby F
  unfolding set_pos
  place lobby p field_id =
      let placed = set_pos (record p { field_id = field_id }) (lit 1021 10) (lit 15591 100) in
      record lobby {
        players = record (lobby.players) {
          players_by_id = update lobby.players.players_by_id p.id (some placed);
        };
      }

  -- `OnRecv_EnterField` from the answer of `create_field` on.
  unfoldable pub enter_created :
      Lobby F → ℕ → Player F → ℤ → FieldManager × Option ℕ → Lobby F × List Reply
  unfolding put_session
  enter_created lobby sess p field_id (fields, none) = (record lobby { fields = fields }, [])
  enter_created lobby sess p field_id (fields, some field) =
      let s = record (lobby.sessions sess) { field_id = field_id; state = in_field } in
      (
        put_session (record lobby { fields = fields }) sess s,
        enter_field_ack field_id p.id ∷ joins_field field p.id ∷ [],
      )

  unfoldable pub enter_found : Lobby F → ℕ → ℤ → Option (Player F) → Lobby F × List Reply
  unfolding enter_created place
  enter_found lobby sess field_id none = (lobby, [])
  enter_found lobby sess field_id (some p) =
      enter_created (place lobby p field_id) sess p field_id (create_field lobby.fields field_id)

  -- The request of `VERIFY_FBS_REQ_BY_USER`, whose player is the one of the session.
  unfoldable pub enter_req : Lobby F → ℕ → Option ℕ → Lobby F × List Reply
  unfolding enter_found
  enter_req lobby sess none = (lobby, [])
  enter_req lobby sess (some field_id) =
      enter_found lobby sess (pos field_id) (get_by_session lobby.players sess)

  unfoldable pub on_recv_enter_field : Lobby F → ℕ → Envelope → Lobby F × List Reply
  unfolding enter_req verify_fbs_req
  on_recv_enter_field lobby sess env =
      enter_req lobby sess (verify_fbs_req packet_enter_field env env.pkt_as_enter_field).1

  -- A handler by its number in the table of `GetHandlerRegistry`.
  unfoldable pub handle : ℕ → ℕ → Lobby F → ℕ → Envelope → Lobby F × List Reply
  unfolding on_recv_ping on_recv_login on_recv_enter_field on_recv_skill_cmd
  handle fn player_id lobby sess env =
      if fn == 0
      then on_recv_ping lobby sess env
      else if fn == 1
      then on_recv_login player_id lobby sess env
      else if fn == 2
      then on_recv_enter_field lobby sess env
      else on_recv_skill_cmd lobby sess env

-- `RegisterAllGameHandlers`, over the table in order.
unfoldable pub register_all : List (ℕ × ℕ) → Dispatcher → Dispatcher
register_all [] d = d
register_all ((msg_type, fn) ∷ entries) d = register_all entries (register_handler d msg_type fn)

abbrev pub handler_registry : List (ℕ × ℕ)
handler_registry =
    (packet_ping, 0) ∷ (packet_login, 1) ∷ (packet_enter_field, 2) ∷ (packet_skill_cmd, 3) ∷ []

unfoldable pub register_all_game_handlers : Dispatcher → Dispatcher
unfolding register_all
register_all_game_handlers d = register_all handler_registry d
