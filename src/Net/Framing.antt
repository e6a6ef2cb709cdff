-- ===== src/Net/Framing.antt =====
-- What net/session.cpp makes of the stream, however the network cuts it.
use mmorpg_server_rl_portfol.Prelude.{
  append_nil, append_assoc, drop-drop, ℕ, zero, suc, ◌+◌, ◌-◌, ◌≤◌, ◌≡◌, ◌∙◌, refl, sym, ap, inl,
  inr, List, [], ◌∷◌, ◌++◌, length, take, drop, arith, length-drop, ltb, Bool, true, false,
  if◌then◌else◌, ltb→lt,
}
use mathlib.Core.Path.{subst}
use mmorpg_server_rl_portfol.Net.Codec.{Frame, IsFrame, Schema}
use mmorpg_server_rl_portfol.Net.Frames.{
  Frames, none_whole, whole, joined, Frames-unique, Frames-append, Frames-rest,
}
use mmorpg_server_rl_portfol.Net.Session.{
  Session, Delivery, read_frames, route, route_all, receive, on_read, read_chunks,
}

leb_of_ltb : (a b : ℕ) → ltb a b ≡ false → b ≤ a
leb_of_ltb a b h = ground arith

-- What holds of each outcome of two tests holds of the chain.
by_tests :
    {A : Type 0} (P : A → Type 0) (b c : Bool) (x y z : A)
    → (b ≡ true → P x)
    → (b ≡ false → c ≡ true → P y)
    → (b ≡ false → c ≡ false → P z)
    → P (if b then x else if c then y else z)
by_tests P true c x y z f g h = f refl
by_tests P false true x y z f g h = g refl refl
by_tests P false false x y z f g h = h refl refl

module _ (fr : Frame) (ok : IsFrame fr) where
  -- With a turn for each byte that is left, the loop of `on_read` finds the frames from its offset.
  read_frames-Frames :
      (fuel : ℕ) (buf : List ℕ) (offset : ℕ)
      → length buf - offset ≤ fuel
      → Frames fr
          (drop offset buf)
          (read_frames fr fuel buf offset).0
          (drop (read_frames fr fuel buf offset).1 buf)
  unfolding read_frames
  read_frames-Frames zero buf offset h =
      let left = length-drop offset buf in
      let pos = ok.k_header_pos in none_whole (inr (omega arith))
  read_frames-Frames (suc fuel) buf offset h =
      let len = fr.read_len (drop offset buf) in
      let rest = read_frames fr fuel buf (offset + (fr.k_header + len)) in
      let left = length-drop offset buf in
      let header = ok.k_header_pos in
      let later = read_frames-Frames fuel buf (offset + (fr.k_header + len)) in
      by_tests (λ (r : List (List ℕ) × ℕ). Frames fr (drop offset buf) r.0 (drop r.1 buf))
        (ltb (length buf - offset) fr.k_header) (ltb (length buf - offset - fr.k_header) len)
        ([], offset) ([], offset) (take len (drop (offset + fr.k_header) buf) ∷ rest.0, rest.1)
        (λ short. let lt = ltb→lt _ _ short in none_whole (inr (omega arith)))
        (λ long short. let lt = ltb→lt _ _ short in none_whole (inl (omega arith)))
        (λ long full.
          let ge = leb_of_ltb _ _ long in
          let room = leb_of_ltb _ _ full in
          subst (λ p. Frames fr (drop offset buf) (take len p ∷ rest.0) (drop rest.1 buf))
            (drop-drop fr.k_header offset buf)
            (whole (omega arith) (omega arith) (
              subst (λ xs. Frames fr xs rest.0 (drop rest.1 buf))
                (sym (drop-drop (fr.k_header + len) offset buf)) (later (omega arith)))))

  module _ (sc : Schema) where
    route_all-append :
        (s : Session) (ps qs : List (List ℕ))
        → route_all sc s (ps ++ qs) ≡ route_all sc s ps ++ route_all sc s qs
    unfolding route_all
    route_all-append s [] qs = refl
    route_all-append s (p ∷ ps) qs =
        ap (◌++◌ (route sc s p)) (route_all-append s ps qs) ∙ sym (append_assoc (route sc s p) _ _)

    -- What waits in the buffer does not change the routes.
    route_all-recv_buf :
        (s : Session) (buf : List ℕ) (ps : List (List ℕ))
        → route_all sc (record s { recv_buf = buf }) ps ≡ route_all sc s ps
    unfolding route_all route
    route_all-recv_buf s buf [] = refl
    route_all-recv_buf s buf (p ∷ ps) = ap (◌++◌ (route sc s p)) (route_all-recv_buf s buf ps)

    -- A call of `on_read` routes the frames that its bytes complete, and keeps the rest.
    receive_lem :
        (s : Session) (bytes r : List ℕ) (ps : List (List ℕ))
        → Frames fr (s.recv_buf ++ bytes) ps r
        → receive fr sc s bytes ≡ (record s { recv_buf = r }, route_all sc s ps)
    unfolding receive
    receive_lem s bytes r ps frames =
        let buf = s.recv_buf ++ bytes in
        let found = read_frames-Frames (length buf) buf 0 (omega arith) in
        let (heads, tail) = Frames-unique found frames in
        λ i. (record s { recv_buf = tail i }, route_all sc s (heads i))

    Frames-exist : (bs : List ℕ) → (ps : List (List ℕ)) × (r : List ℕ) × Frames fr bs ps r
    Frames-exist bs = (_, _, read_frames-Frames (length bs) bs 0 (omega arith))

    nothing_read :
        (s : Session) (r : List ℕ) (ps : List (List ℕ))
        → [] ≡ ps
        → s.recv_buf ≡ r
        → read_chunks fr sc s [] ≡ (record s { recv_buf = r }, route_all sc s ps)
    unfolding read_chunks route_all
    nothing_read s r ps heads tail = λ i. (record s { recv_buf = tail i }, route_all sc s (heads i))

    -- Two calls route what one call on the bytes of both routes.
    read_on :
        (s s' s'' : Session) (c : List ℕ) (cs : List (List ℕ)) (first later : List Delivery)
        → on_read fr sc s c ≡ (s', first)
        → read_chunks fr sc s' cs ≡ (s'', later)
        → read_chunks fr sc s (c ∷ cs) ≡ (s'', first ++ later)
    unfolding read_chunks
    read_on s s' s'' c cs first later h k = λ i. (
      (ap (λ (r : Session × List Delivery). (read_chunks fr sc r.0 cs).0) h
            ∙ ap (λ (r : Session × List Delivery). r.0) k)
          i,
      (ap (λ (r : Session × List Delivery). r.1 ++ (read_chunks fr sc r.0 cs).1) h
            ∙ ap (λ (r : Session × List Delivery). first ++ r.1) k)
          i,
    )

    pub read_chunks_lem :
        (s : Session) (chunks : List (List ℕ)) (r : List ℕ) (ps : List (List ℕ))
        → Frames fr s.recv_buf [] s.recv_buf
        → Frames fr (s.recv_buf ++ joined chunks) ps r
        → read_chunks fr sc s chunks ≡ (record s { recv_buf = r }, route_all sc s ps)
    unfolding on_read
    read_chunks_lem s [] r ps waits frames =
        let (heads, tail) =
          Frames-unique waits (subst (λ xs. Frames fr xs ps r) (append_nil s.recv_buf) frames) in
        nothing_read s r ps heads tail
    read_chunks_lem s ([] ∷ cs) r ps waits frames =
        read_on s s _ [] cs [] _ refl (read_chunks_lem s cs r ps waits frames)
    read_chunks_lem s ((b ∷ bytes) ∷ cs) r ps waits frames =
        let (ps1, r1, f1) = Frames-exist (s.recv_buf ++ (b ∷ bytes)) in
        let (ps2, r2, f2) = Frames-exist (r1 ++ joined cs) in
        let (heads, tail) = Frames-unique (Frames-append ok (joined cs) f1 f2) (
          subst (λ xs. Frames fr xs ps r) (sym (append_assoc s.recv_buf (b ∷ bytes) (joined cs)))
            frames) in
        let s' = record s { recv_buf = r1 } in
        read_on s s' _ (b ∷ bytes) cs _ _ (receive_lem s (b ∷ bytes) r1 ps1 f1)
          (read_chunks_lem s' cs r2 ps2 (Frames-rest f1) f2)
        ∙ λ i. (
          record s { recv_buf = tail i },
          (ap (◌++◌ (route_all sc s ps1)) (route_all-recv_buf s r1 ps2)
                ∙ sym (route_all-append s ps1 ps2)
                ∙ ap (route_all sc s) heads)
              i,
        )

    -- However the network cuts the bytes into reads, a session routes the payloads of the frames
    -- that are whole, in order, each once, and keeps the bytes that follow: what one read of all
    -- the bytes does. At the start it holds no whole frame.
    pub read_chunks-joined :
        (s : Session)
        → Frames fr s.recv_buf [] s.recv_buf
        → (chunks : List (List ℕ)) → read_chunks fr sc s chunks ≡ receive fr sc s (joined chunks)
    read_chunks-joined s waits chunks =
        let (ps, r, frames) = Frames-exist (s.recv_buf ++ joined chunks) in
        read_chunks_lem s chunks r ps waits frames ∙ sym (receive_lem s (joined chunks) r ps frames)
