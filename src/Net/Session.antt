-- ===== src/Net/Session.antt =====
-- net/session.cpp and session.h: reading frames off the stream, routing them by the session's
-- state, and queueing and flushing what is sent. A byte is a number. The uv calls are left out:
-- what `uv_write` is given is the value that `flush_send_queue` returns, and what goes to a worker
-- is a list of deliveries, in order.
use mmorpg_server_rl_portfol.Prelude.{
  ℕ, ℤ, nat_eq, ◌==◌, zero, suc, ◌+◌, ◌-◌, Bool, true, false, not, ◌||◌, List, [], ◌∷◌, ◌++◌,
  length, take, drop, ltb, is_empty, if◌then◌else◌, pos,
}
use mmorpg_server_rl_portfol.Net.Codec.{Frame, Schema}

pub data SessionState : Type 0 where
  connected : SessionState
  logged_in : SessionState
  in_field : SessionState

-- `dispatcher_`, `scratch_` and the uv handles have no place here. `gameWorker_` is whether it is set.
pub record Session : Type 0 where
  pub recv_buf : List ℕ
  pub send_q : List (List ℕ)
  pub closing : Bool
  pub id : ℕ
  pub player_id : ℕ
  pub state : SessionState
  pub field_id : ℤ
  pub game_worker : Bool

-- A message that leaves the session: `gameWorker_->push` or `SendToFieldWorker`.
pub data Delivery : Type 0 where
  to_game_worker : List ℕ → Delivery
  to_field_worker : ℤ → List ℕ → Delivery

-- The constructor; the id comes from `next_session_id`.
unfoldable pub new_session : ℕ → Session
new_session id = record {
  recv_buf = [];
  send_q = [];
  closing = false;
  id = id;
  player_id = 0;
  state = connected;
  field_id = pos 0;
  game_worker = false;
}

-- `game::Packet_SkillCmd`
abbrev pub skill_cmd : ℕ
skill_cmd = 6

module _ (sc : Schema) where
  unfoldable pub is_envelope : List ℕ → Bool
  is_envelope data_ = sc.verify_envelope data_

  unfoldable pub is_skill_envelope : List ℕ → Bool
  is_skill_envelope data_ =
      if not (sc.verify_envelope data_) then false else sc.pkt_type data_ == skill_cmd

  unfoldable pub is_field_cmd : List ℕ → Bool
  is_field_cmd data_ = sc.verify_field_cmd data_

  -- The body of the loop of `on_read` after the payload is found.
  unfoldable pub route_in_field : ℤ → List ℕ → List Delivery
  unfolding is_skill_envelope is_field_cmd
  route_in_field field_id payload =
      if is_skill_envelope payload
      then to_game_worker payload ∷ []
      else if is_field_cmd payload
      then to_field_worker field_id payload ∷ []
      else []

  unfoldable pub route_outside : List ℕ → List Delivery
  unfolding is_envelope
  route_outside payload = if is_envelope payload then to_game_worker payload ∷ [] else []

  unfoldable pub route_by : SessionState → ℤ → List ℕ → List Delivery
  unfolding route_in_field route_outside
  route_by in_field field_id payload = route_in_field field_id payload
  route_by connected field_id payload = route_outside payload
  route_by logged_in field_id payload = route_outside payload

  unfoldable pub route : Session → List ℕ → List Delivery
  unfolding route_by
  route s payload = if s.game_worker then route_by s.state s.field_id payload else []

  unfoldable pub route_all : Session → List (List ℕ) → List Delivery
  unfolding route
  route_all s [] = []
  route_all s (payload ∷ payloads) = route s payload ++ route_all s payloads

module _ (fr : Frame) where
  -- The loop of `on_read` from an offset on: the payloads that it finds, and the final offset.
  -- Every turn moves the offset, so a turn for each byte is enough.
  unfoldable pub read_frames : ℕ → List ℕ → ℕ → List (List ℕ) × ℕ
  read_frames zero recv_buf offset = ([], offset)
  read_frames (suc fuel) recv_buf offset =
      let len = fr.read_len (drop offset recv_buf) in
      let rest = read_frames fuel recv_buf (offset + (fr.k_header + len)) in
      if ltb (length recv_buf - offset) fr.k_header
      then ([], offset)
      else if ltb (length recv_buf - offset - fr.k_header) len
      then ([], offset)
      else (take len (drop (offset + fr.k_header) recv_buf) ∷ rest.0, rest.1)

  module _ (sc : Schema) where
    -- `on_read` with `nread > 0`: the bytes are put behind those that wait, whole frames are
    -- routed, and what they took is erased.
    unfoldable pub receive : Session → List ℕ → Session × List Delivery
    unfolding read_frames
    receive s bytes =
        let buf = s.recv_buf ++ bytes in
        let (payloads, offset) = read_frames (length buf) buf 0 in
        (record s { recv_buf = drop offset buf }, route_all sc s payloads)

    -- `on_read` with `nread == 0` returns, and with `nread > 0` receives.
    unfoldable pub on_read : Session → List ℕ → Session × List Delivery
    unfolding receive
    on_read s [] = (s, [])
    on_read s (b ∷ bytes) = receive s (b ∷ bytes)

    -- One call of `on_read` after another.
    unfoldable pub read_chunks : Session → List (List ℕ) → Session × List Delivery
    unfolding on_read
    read_chunks s [] = (s, [])
    read_chunks s (chunk ∷ chunks) =
        let (s', first) = on_read s chunk in
        let (s'', later) = read_chunks s' chunks in (s'', first ++ later)

  -- `proto::Frame::write` into an empty buffer.
  unfoldable pub write_frame : List ℕ → List ℕ
  write_frame payload = fr.header (length payload) ++ payload

  -- `send_payload`; a null payload is an empty one.
  unfoldable pub send_payload : Session → List ℕ → Session
  unfolding write_frame
  send_payload s payload =
      if s.closing || is_empty payload
      then s
      else record s { send_q = s.send_q ++ write_frame payload ∷ [] }

-- `on_read` with `nread < 0`.
unfoldable pub on_read_error : Session → Session
on_read_error s = record s { closing = true }

-- What goes out of the buffers given to `uv_write`, by whether each call is accepted, where the
-- answers left out accept; the code frees a refused one, and its frame is lost.
unfoldable pub taken : {A : Type 0} → List Bool → List A → List A
taken [] bufs = bufs
taken (accepted ∷ answers) [] = []
taken (true ∷ answers) (buf ∷ bufs) = buf ∷ taken answers bufs
taken (false ∷ answers) (buf ∷ bufs) = taken answers bufs

-- The buffers given to `uv_write`, in order. What it answers changes nothing of the session.
unfoldable pub flush_send_queue : Session → Session × List (List ℕ)
flush_send_queue s = (record s { send_q = [] }, s.send_q)

unfoldable pub on_send_async : Session → Session × List (List ℕ)
unfolding flush_send_queue
on_send_async s = if s.closing then (s, []) else flush_send_queue s

-- What the other threads and the loop do with a session that sends: `send_payload`, and a wake of
-- `send_async_`, which uv may give once for several sends.
pub data SendAction : Type 0 where
  send : List ℕ → SendAction
  wake : SendAction

module _ (fr : Frame) where
  unfoldable pub run_sends : Session → List SendAction → Session × List (List ℕ)
  unfolding send_payload on_send_async
  run_sends s [] = (s, [])
  run_sends s (send payload ∷ actions) = run_sends (send_payload fr s payload) actions
  run_sends s (wake ∷ actions) =
      let (s', written) = on_send_async s in
      let (s'', later) = run_sends s' actions in (s'', written ++ later)
