-- ===== src/Examples/Hall.antt =====
-- A server with one field, a client that enters it, and one that uses a skill there.
use mmorpg_server_rl_portfol.Prelude.{
  ℕ, ℤ, pos, nat_eq, int_eq, ◌==◌, ◌≡◌, refl, true, false, some, none, List, [], ◌∷◌, Option,
  contains, if◌then◌else◌,
}
use mmorpg_server_rl_portfol.Storage.DirtyHub.{new_hub}
use mmorpg_server_rl_portfol.Net.Session.{new_session}
use mmorpg_server_rl_portfol.Net.Registry.{new_registry}
use mmorpg_server_rl_portfol.Game.Player.{Player}
use mmorpg_server_rl_portfol.Game.PlayerManager.{new_manager}
use mmorpg_server_rl_portfol.Monster.World.{new_world}
use mmorpg_server_rl_portfol.Worker.Loop.{new_worker, start}
use mmorpg_server_rl_portfol.Worker.Registry.{create_field, get_field}
use mmorpg_server_rl_portfol.Aoi.World as Aoi
use mmorpg_server_rl_portfol.Aoi.System.{new_system, set_send_func}
use mmorpg_server_rl_portfol.Field.Types.{Field}
use mmorpg_server_rl_portfol.Field.Worker.{FieldCodec, empty_field, handle_message, use_skill}
use mmorpg_server_rl_portfol.Field.Places.{Agrees}
use mmorpg_server_rl_portfol.Field.Presence.{stands, Visits-Agrees}
use mmorpg_server_rl_portfol.Handlers.Logic.{
  Envelope, enter_field_ack, on_recv_login, packet_skill_cmd,
}
use mmorpg_server_rl_portfol.Handlers.Entry.{login_envelope, enter_envelope, HasEntered}
use mmorpg_server_rl_portfol.Server.{
  FieldThread, Server, Out, replied, thread_at, serve_enter_field, serve_skill_cmd, skill_message,
}
use mmorpg_server_rl_portfol.Server.Joining.{IsIn, IsReady, login_enter-IsIn}
use mmorpg_server_rl_portfol.Server.Messages.{Arrives, serve_skill_cmd-Arrives}
use mmorpg_server_rl_portfol.Examples.Floats.{whole_floats}
use mmorpg_server_rl_portfol.Examples.Gate.{alive, ann}

abbrev meadow : Field ℤ
meadow = record (empty_field whole_floats (pos 7) new_hub (λ id. false) (λ id. false)) {
  objects = λ id. none;
}

abbrev meadow_thread : FieldThread ℤ
meadow_thread = record { worker = start new_worker; field = meadow }

abbrev hall : Server ℤ
hall = record {
  lobby = record {
    sessions = λ sess. record (new_session sess) {
      player_id = if sess == 9 then 72 else 0;
      field_id = if sess == 9 then pos 7 else pos 0;
    };
    players = new_manager;
    registry = new_registry;
    fields = record {
      fields = λ id. if id == pos 7 then some 40 else none;
      has_storage = true;
      fresh = 41;
    };
  };
  threads = λ addr. if addr == 40 then some meadow_thread else none;
}

meadow-IsReady : IsReady whole_floats meadow 71
unfolding empty_field new_system set_send_func Aoi.new_world new_world contains
meadow-IsReady = (
  Visits-Agrees whole_floats (pos 7) new_hub (λ id. false) (λ id. false) (λ id. none) stands,
  λ e listed. absurd (cc),
  (refl, λ t. refl),
  refl,
)

abbrev pair : ℕ → ℕ → List ℕ
pair skill target = skill ∷ target ∷ []

abbrev second_of : List ℕ → Option ℕ
second_of [] = none
second_of (a ∷ []) = none
second_of (a ∷ (b ∷ rest)) = some b

login_enter-IsIn_example :
    let first = on_recv_login whole_floats 71 hall.lobby 8 (login_envelope ann) in
    (s : Server ℤ) × (out : List (Out ℤ)) × (t : FieldThread ℤ) × (p : Player ℤ)
    × (serve_enter_field whole_floats
          (λ i. i)
          new_hub
          (λ id. false)
          alive
          pair
          (record hall { lobby = first.0 })
          8
          (enter_envelope 7)
        ≡ some (s, replied (enter_field_ack (pos 7) 71) ∷ out))
    × HasEntered whole_floats s.lobby 8 71 7
    × (s.threads 40 ≡ some t)
    × ((p.id ≡ 71) × (p.position.x ≡ pos 102) × (p.position.y ≡ pos 155))
    × IsIn whole_floats t.field p
    × Agrees t.field
unfolding create_field thread_at empty_field
login_enter-IsIn_example =
    login_enter-IsIn whole_floats (λ i. i) new_hub (λ id. false) alive pair 71 2 hall 8 7 40 ann
      refl refl refl meadow-IsReady

abbrev strike_request : Envelope
strike_request = record {
  pkt_type = packet_skill_cmd;
  pkt_as_ping = none;
  pkt_as_login = none;
  pkt_as_enter_field = none;
  pkt_as_skill_cmd = some (record { skill = 1; target_id = 1001 });
}

abbrev small_codec : FieldCodec ℤ
small_codec = record { get_field_cmd = λ payload. none; get_skill_cmd = second_of }

serve_skill_cmd-Arrives_example :
    let msg = skill_message pair 9 1 1001 in
    (s : Server ℤ) × (serve_skill_cmd whole_floats
        (λ i. i)
        new_hub
        (λ id. false)
        alive
        pair
        hall
        9
        strike_request
      ≡ some (s, []))
    × Arrives hall 40 meadow_thread msg s
    × ((f : Field ℤ) (answers : ℕ → ℕ)
        → handle_message whole_floats small_codec answers msg f
          ≡ use_skill whole_floats (answers 9) 1001 f)
unfolding get_field new_session
serve_skill_cmd-Arrives_example =
    serve_skill_cmd-Arrives whole_floats small_codec (λ i. i) new_hub (λ id. false) alive pair hall
      9 40 strike_request (record { skill = 1; target_id = 1001 }) meadow_thread refl
      (λ h. absurd (cc)) (λ h. absurd (cc)) refl refl refl
