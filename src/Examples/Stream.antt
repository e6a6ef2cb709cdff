-- ===== src/Examples/Stream.antt =====
-- Sessions over a codec with a header of one byte, the length.
use mmorpg_server_rl_portfol.Prelude.{
  ℕ, ◌≡◌, refl, true, false, List, [], ◌∷◌, ◌++◌, length, arith, ◌≤◌, inr, leb, pos,
}
use mmorpg_server_rl_portfol.Net.Codec.{Frame, IsFrame, Schema}
use mmorpg_server_rl_portfol.Net.Session.{
  Session, to_game_worker, to_field_worker, in_field, route, route_by, route_in_field,
  route_outside, route_all, is_envelope, is_skill_envelope, is_field_cmd, read_frames, receive,
  read_chunks, on_read, send, wake, run_sends, taken, send_payload, on_send_async, on_read_error,
  write_frame, flush_send_queue,
}
use mmorpg_server_rl_portfol.Net.Frames.{none_whole}
use mmorpg_server_rl_portfol.Net.Framing.{read_chunks-joined}
use mmorpg_server_rl_portfol.Net.Sending.{read_chunks-sent}
use mmorpg_server_rl_portfol.Net.Routing.{RoutesWell, route-RoutesWell}

abbrev first_or_zero : List ℕ → ℕ
first_or_zero [] = 0
first_or_zero (b ∷ bs) = b

abbrev byte_frame : Frame
byte_frame = record { k_header = 1; read_len = first_or_zero; header = λ n. n ∷ [] }

first-append : (bs more : List ℕ) → 1 ≤ length bs → first_or_zero (bs ++ more) ≡ first_or_zero bs
first-append [] more h = absurd (omega arith)
first-append (b ∷ bs) more h = refl

byte_frame-IsFrame : IsFrame byte_frame
byte_frame-IsFrame = record {
  k_header_pos = omega arith;
  read_len_local = first-append;
  length-header = λ n. refl;
  read_len-header = λ n h. refl;
}

-- A payload of one byte is a field command; the others are envelopes of the type they start with.
abbrev small_schema : Schema
small_schema = record {
  verify_envelope = λ p. leb 2 (length p);
  pkt_type = first_or_zero;
  verify_field_cmd = λ p. leb (length p) 1;
}

abbrev player : Session
player = record {
  recv_buf = [];
  send_q = [];
  closing = false;
  id = 7;
  player_id = 7;
  state = in_field;
  field_id = pos 1000;
  game_worker = true;
}

stream_code : Unit {0}
unfolding route route_by route_in_field route_outside route_all is_envelope is_skill_envelope
    is_field_cmd read_frames receive read_chunks on_read run_sends taken send_payload on_send_async
    on_read_error write_frame flush_send_queue
stream_code = tt

-- A skill command and a field command, cut in the middle of the first.
two_cut : List (List ℕ)
two_cut = (2 ∷ 6 ∷ []) ∷ (9 ∷ 1 ∷ 5 ∷ 3 ∷ []) ∷ []

read_chunks-joined_example :
    read_chunks byte_frame small_schema player two_cut
    ≡ receive byte_frame small_schema player (2 ∷ 6 ∷ 9 ∷ 1 ∷ 5 ∷ 3 ∷ [])
unfolding two_cut
read_chunks-joined_example =
    read_chunks-joined byte_frame byte_frame-IsFrame small_schema player
      (none_whole (inr (omega arith))) two_cut

-- Both are routed, and the last byte waits.
two_routed :
    (receive byte_frame small_schema player (2 ∷ 6 ∷ 9 ∷ 1 ∷ 5 ∷ 3 ∷ [])).1
    ≡ to_game_worker (6 ∷ 9 ∷ []) ∷ to_field_worker (pos 1000) (5 ∷ []) ∷ []
unfolding stream_code
two_routed = refl

read_chunks-sent_example :
    read_chunks byte_frame small_schema player ((2 ∷ 6 ∷ []) ∷ (9 ∷ 1 ∷ 5 ∷ []) ∷ [])
    ≡ (player, to_game_worker (6 ∷ 9 ∷ []) ∷ to_field_worker (pos 1000) (5 ∷ []) ∷ [])
unfolding stream_code
read_chunks-sent_example =
    read_chunks-sent byte_frame byte_frame-IsFrame small_schema player player
      (send (6 ∷ 9 ∷ []) ∷ wake ∷ send [] ∷ send (5 ∷ []) ∷ [])
      ((2 ∷ 6 ∷ []) ∷ (9 ∷ 1 ∷ 5 ∷ []) ∷ []) (true ∷ true ∷ []) refl refl refl
      (omega arith, (omega arith, tt)) refl

route-RoutesWell_example :
    RoutesWell small_schema player (6 ∷ 9 ∷ []) (to_game_worker (6 ∷ 9 ∷ []) ∷ [])
unfolding stream_code
route-RoutesWell_example = route-RoutesWell small_schema player (6 ∷ 9 ∷ [])
