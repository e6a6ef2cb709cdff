-- ===== src/Handlers/Dispatching.antt =====
-- core/dispatcher.cpp with the table of core/handlers/game_handler_registry.cpp: which handler an
-- envelope reaches.
use mmorpg_server_rl_portfol.Prelude.{
  ℕ, nat_eq, ◌==◌, ◌≡◌, refl, ap, ◌%◌, ◌<◌, Bool, true, false, List, [], Option, none, some, update,
  if◌then◌else◌, arith, FloatArith,
}
use mmorpg_server_rl_portfol.Worker.Dispatcher.{Dispatcher, register_handler, dispatch}
use mmorpg_server_rl_portfol.Handlers.Logic.{
  Envelope, Lobby, Reply, packet_ping, packet_login, packet_enter_field, packet_skill_cmd, handle,
  register_all_game_handlers, on_recv_ping, on_recv_login, on_recv_enter_field, on_recv_skill_cmd,
}

module _ (fl : FloatArith) where
  open fl use {F}

  -- `Dispatcher::dispatch` with the call of the handler; `has_pkt` is whether the envelope has one.
  unfoldable pub dispatch_envelope :
      Dispatcher → Bool → ℕ → Lobby F → ℕ → Envelope → Lobby F × List Reply
  dispatch_envelope d has_pkt player_id lobby sess env = elim (dispatch d has_pkt env.pkt_type) [
    | none ↦ (lobby, [])
    | some fn ↦ handle fl fn player_id lobby sess env
  ]

  dispatch_envelope-at :
      (d : Dispatcher) (has_pkt : Bool) (player_id : ℕ) (lobby : Lobby F) (sess : ℕ)
      (env : Envelope) (o : Option ℕ)
      → dispatch d has_pkt env.pkt_type ≡ o
      → dispatch_envelope d has_pkt player_id lobby sess env
        ≡ (elim o as (λ x. Lobby F × List Reply) [
          | none ↦ (lobby, [])
          | some fn ↦ handle fl fn player_id lobby sess env
        ])
  unfolding dispatch_envelope
  dispatch_envelope-at d has_pkt player_id lobby sess env o at =
      ap
        (λ (q : Option ℕ). elim q as (λ x. Lobby F × List Reply) [
          | none ↦ (lobby, [])
          | some fn ↦ handle fl fn player_id lobby sess env
        ])
        at

  -- The handler of a packet by its type, and a table for the other types.
  unfoldable pub expected_handler : Dispatcher → ℕ → Lobby F → ℕ → Envelope → Lobby F × List Reply
  expected_handler d player_id lobby sess env =
      if env.pkt_type == packet_ping
      then on_recv_ping lobby sess env
      else if env.pkt_type == packet_login
      then on_recv_login fl player_id lobby sess env
      else if env.pkt_type == packet_enter_field
      then on_recv_enter_field fl lobby sess env
      else if env.pkt_type == packet_skill_cmd
      then on_recv_skill_cmd lobby sess env
      else dispatch_envelope d true player_id lobby sess env

  -- With the handlers registered, an envelope with a packet, of a type below 256, goes to the handler
  -- of that type alone, or where it went before if it has none; one without a packet goes nowhere.
  pub dispatch_envelope-registered :
      (d : Dispatcher) (has_pkt : Bool) (player_id : ℕ) (lobby : Lobby F) (sess : ℕ)
      (env : Envelope)
      → env.pkt_type < 256
      → dispatch_envelope (register_all_game_handlers d) has_pkt player_id lobby sess env
        ≡ (if has_pkt then expected_handler d player_id lobby sess env else (lobby, []))
  unfolding register_all_game_handlers register_handler dispatch update dispatch_envelope handle
      expected_handler
  dispatch_envelope-registered d false player_id lobby sess env small = refl
  dispatch_envelope-registered d true player_id lobby sess env small =
      let t : env.pkt_type % 256 ≡ env.pkt_type = omega arith in ground arith
