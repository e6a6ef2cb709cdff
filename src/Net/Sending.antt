-- ===== src/Net/Sending.antt =====
-- What net/session.cpp sends, from the queue to the other end of the stream.
use mmorpg_server_rl_portfol.Prelude.{
  append_nil, append_assoc, drop-drop, ℕ, ◌+◌, ◌≤◌, ◌^◌, ◌<◌, ◌≡◌, ◌∙◌, refl, sym, ap, inr, List,
  [], ◌∷◌, ◌++◌, length, take, drop, map, arith, length-append, length-drop, drop-length_append,
  take-length_append, Bool, true, false, ◌||◌, if◌then◌else◌, is_empty, if_true, if_false,
}
use mathlib.Core.Path.{subst}
use mmorpg_server_rl_portfol.Net.Codec.{Frame, IsFrame, Schema}
use mmorpg_server_rl_portfol.Net.Frames.{Frames, none_whole, whole, joined}
use mmorpg_server_rl_portfol.Net.Session.{
  Session, route_all, read_chunks, write_frame, send_payload, on_send_async, on_read_error,
  SendAction, send, wake, run_sends, taken,
}
use mmorpg_server_rl_portfol.Net.Framing.{read_chunks_lem}

-- The payloads that the sends hand over, less the empty ones.
abbrev pub sent : List SendAction → List (List ℕ)
sent [] = []
sent (wake ∷ actions) = sent actions
sent (send payload ∷ actions) = if is_empty payload then sent actions else payload ∷ sent actions

-- Every length fits the 32-bit field of a header.
abbrev pub AllFit : List (List ℕ) → Type 0
AllFit [] = Unit
AllFit (p ∷ ps) = (length p < 2 ^ 32) × AllFit ps

or_true : (b : Bool) → b || true ≡ true
or_true b = ground arith

or_false : {b : Bool} → b ≡ false → b || false ≡ false
or_false {b = true} h = h
or_false {b = false} h = refl

taken-map :
    {A B : Type 0} (f : A → B) (answers : List Bool) (xs : List A)
    → taken answers (map f xs) ≡ map f (taken answers xs)
unfolding taken
taken-map f [] xs = refl
taken-map f (b ∷ answers) [] = refl
taken-map f (true ∷ answers) (x ∷ xs) = ap (◌∷◌ (f x)) (taken-map f answers xs)
taken-map f (false ∷ answers) (x ∷ xs) = taken-map f answers xs

taken-AllFit : (answers : List Bool) (ps : List (List ℕ)) → AllFit ps → AllFit (taken answers ps)
unfolding taken
taken-AllFit [] ps fit = fit
taken-AllFit (b ∷ answers) [] fit = tt
taken-AllFit (true ∷ answers) (p ∷ ps) (fits, fit) = (fits, taken-AllFit answers ps fit)
taken-AllFit (false ∷ answers) (p ∷ ps) (fits, fit) = taken-AllFit answers ps fit

module _ (fr : Frame) where
  send_payload-queues :
      (s : Session) (b : ℕ) (payload : List ℕ)
      → s.closing ≡ false
      → send_payload fr s (b ∷ payload)
        ≡ record s { send_q = s.send_q ++ write_frame fr (b ∷ payload) ∷ [] }
  unfolding send_payload
  send_payload-queues s b payload opened = if_false s _ (or_false opened)

  send_payload-skips : (s : Session) → send_payload fr s [] ≡ s
  unfolding send_payload
  send_payload-skips s = if_true s _ (or_true s.closing)

  on_send_async-open :
      (s : Session) → s.closing ≡ false → on_send_async s ≡ (record s { send_q = [] }, s.send_q)
  unfolding on_send_async
  on_send_async-open s opened = if_false _ _ opened

  queued : List SendAction → Session → List (List ℕ)
  queued actions s = (run_sends fr s actions).1 ++ (run_sends fr s actions).0.send_q

  -- While the session is open, what is written and what is still queued are the queue at the start
  -- and then a frame for each payload sent and not empty, in the order of the sends.
  pub run_sends-order :
      (s : Session) (actions : List SendAction)
      → s.closing ≡ false
      → (run_sends fr s actions).1 ++ (run_sends fr s actions).0.send_q
        ≡ s.send_q ++ map (write_frame fr) (sent actions)
  unfolding run_sends queued
  run_sends-order s [] opened = sym (append_nil s.send_q)
  run_sends-order s (send [] ∷ actions) opened =
      ap (queued actions) (send_payload-skips s) ∙ run_sends-order s actions opened
  run_sends-order s (send (b ∷ payload) ∷ actions) opened =
      let s' = record s { send_q = s.send_q ++ write_frame fr (b ∷ payload) ∷ [] } in
      ap (queued actions) (send_payload-queues s b payload opened)
      ∙ run_sends-order s' actions opened
      ∙ append_assoc s.send_q (write_frame fr (b ∷ payload) ∷ []) _
  run_sends-order s (wake ∷ actions) opened =
      ap
        (λ (r : Session × List (List ℕ)).
          (r.1 ++ (run_sends fr r.0 actions).1) ++ (run_sends fr r.0 actions).0.send_q)
        (on_send_async-open s opened)
      ∙ append_assoc s.send_q _ _
      ∙ ap (◌++◌ s.send_q) (run_sends-order (record s { send_q = [] }) actions opened)

  run_sends-flushed :
      (s : Session) (actions : List SendAction)
      → s.closing ≡ false
      → (run_sends fr s (actions ++ wake ∷ [])).0.send_q ≡ []
  unfolding run_sends
  run_sends-flushed s [] opened =
      ap (λ (r : Session × List (List ℕ)). r.0.send_q) (on_send_async-open s opened)
  run_sends-flushed s (send [] ∷ actions) opened =
      ap (λ s'. (run_sends fr s' (actions ++ wake ∷ [])).0.send_q) (send_payload-skips s)
      ∙ run_sends-flushed s actions opened
  run_sends-flushed s (send (b ∷ payload) ∷ actions) opened =
      ap (λ s'. (run_sends fr s' (actions ++ wake ∷ [])).0.send_q)
        (send_payload-queues s b payload opened)
      ∙ run_sends-flushed (record s { send_q = s.send_q ++ write_frame fr (b ∷ payload) ∷ [] })
          actions opened
  run_sends-flushed s (wake ∷ actions) opened =
      ap (λ (r : Session × List (List ℕ)). (run_sends fr r.0 (actions ++ wake ∷ [])).0.send_q)
        (on_send_async-open s opened)
      ∙ run_sends-flushed (record s { send_q = [] }) actions opened

  sent-wake : (actions : List SendAction) → sent (actions ++ wake ∷ []) ≡ sent actions
  sent-wake [] = refl
  sent-wake (wake ∷ actions) = sent-wake actions
  sent-wake (send [] ∷ actions) = sent-wake actions
  sent-wake (send (b ∷ payload) ∷ actions) = ap (◌∷◌ (b ∷ payload)) (sent-wake actions)

  -- Once a read fails, nothing is queued or written any more.
  pub run_sends-closed :
      (s : Session) (actions : List SendAction)
      → run_sends fr (on_read_error s) actions ≡ (on_read_error s, [])
  unfolding run_sends send_payload on_send_async on_read_error
  run_sends-closed s [] = refl
  run_sends-closed s (send payload ∷ actions) = run_sends-closed s actions
  run_sends-closed s (wake ∷ actions) = run_sends-closed s actions

  module _ (ok : IsFrame fr) where
    whole_frame :
        (bs p rest r : List ℕ) (ps : List (List ℕ))
        → fr.k_header ≤ length bs
        → fr.read_len bs ≡ length p
        → drop fr.k_header bs ≡ p ++ rest
        → Frames fr rest ps r
        → Frames fr bs (p ∷ ps) r
    whole_frame bs p rest r ps h same split frames =
        let len : length (drop fr.k_header bs) ≡ length p + length rest =
          ap length split ∙ length-append p rest in
        let dropped = length-drop fr.k_header bs in
        subst (λ q. Frames fr bs (q ∷ ps) r)
          (ap (λ n. take n (drop fr.k_header bs)) same
            ∙ ap (take (length p)) split
            ∙ take-length_append p rest)
          (whole h (omega arith) (
            subst (λ xs. Frames fr xs ps r)
              (sym (
                ap (λ n. drop (fr.k_header + n) bs) same
                ∙ sym (drop-drop (length p) fr.k_header bs)
                ∙ ap (drop (length p)) split
                ∙ drop-length_append p rest))
              frames))

    frame-Frames :
        (p rest r : List ℕ) (ps : List (List ℕ))
        → length p < 2 ^ 32
        → Frames fr rest ps r
        → Frames fr (write_frame fr p ++ rest) (p ∷ ps) r
    unfolding write_frame
    frame-Frames p rest r ps fits frames =
        let h = fr.header (length p) in
        let size : length h ≡ fr.k_header = ok.length-header (length p) in
        let apart : (h ++ p) ++ rest ≡ h ++ (p ++ rest) = append_assoc h p rest in
        let all = length-append h (p ++ rest) in
        subst (λ bs. Frames fr bs (p ∷ ps) r) (sym apart)
          (whole_frame (h ++ (p ++ rest)) p rest r ps (omega arith)
            (ok.read_len_local h (p ++ rest) (omega arith) ∙ ok.read_len-header (length p) fits)
            (ap (λ k. drop k (h ++ (p ++ rest))) (sym size) ∙ drop-length_append h (p ++ rest))
            frames)

    -- The frames of payloads hold these payloads and nothing else.
    written-Frames :
        (ps : List (List ℕ)) → AllFit ps → Frames fr (joined (map (write_frame fr) ps)) ps []
    written-Frames [] fit = none_whole (inr ok.k_header_pos)
    written-Frames (p ∷ ps) (fits, fit) = frame-Frames p _ [] ps fits (written-Frames ps fit)

    -- What an open session is told to send, with wakes anywhere and one at the end, another
    -- session that reads the stream in any pieces routes: each payload that is not empty and whose
    -- write is not refused, once, in the order of the sends, and no byte is left. The lengths fit 32
    -- bits, and neither session holds anything at the start.
    pub read_chunks-sent :
        (sc : Schema) (sender receiver : Session) (actions : List SendAction)
        (chunks : List (List ℕ)) (answers : List Bool)
        → sender.closing ≡ false
        → sender.send_q ≡ []
        → receiver.recv_buf ≡ []
        → AllFit (sent actions)
        → joined chunks ≡ joined (taken answers (run_sends fr sender (actions ++ wake ∷ [])).1)
        → read_chunks fr sc receiver chunks
          ≡ (receiver, route_all sc receiver (taken answers (sent actions)))
    read_chunks-sent sc sender receiver actions chunks answers opened no_queue no_bytes fit stream =
        let written : (run_sends fr sender (actions ++ wake ∷ [])).1
            ≡ map (write_frame fr) (sent actions) =
          sym (append_nil _)
          ∙ ap (◌++◌ (run_sends fr sender (actions ++ wake ∷ [])).1)
              (sym (run_sends-flushed sender actions opened))
          ∙ run_sends-order sender (actions ++ wake ∷ []) opened
          ∙ ap (λ q. q ++ map (write_frame fr) (sent (actions ++ wake ∷ []))) no_queue
          ∙ ap (map (write_frame fr)) (sent-wake actions) in
        let arrived = taken answers (sent actions) in
        let out : taken answers (run_sends fr sender (actions ++ wake ∷ [])).1
            ≡ map (write_frame fr) arrived =
          ap (taken answers) written ∙ taken-map (write_frame fr) answers (sent actions) in
        read_chunks_lem fr ok sc receiver chunks [] arrived
          (subst (λ xs. Frames fr xs [] xs) (sym no_bytes) (none_whole (inr ok.k_header_pos)))
          (subst (λ xs. Frames fr xs arrived [])
            (ap joined (sym out) ∙ sym stream ∙ ap (λ xs. xs ++ joined chunks) (sym no_bytes))
            (written-Frames arrived (taken-AllFit answers (sent actions) fit)))
        ∙ ap (λ xs. (record receiver { recv_buf = xs }, route_all sc receiver arrived))
            (sym no_bytes)
