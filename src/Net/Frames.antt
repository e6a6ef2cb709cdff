-- ===== src/Net/Frames.antt =====
-- A stream as a list of frames: what the loop of `on_read` finds, told without offsets.
use mathlib.Core.Path.{subst}
use mmorpg_server_rl_portfol.Prelude.{
  ℕ, ◌+◌, ◌-◌, ◌≤◌, ◌<◌, ◌≡◌, ◌∙◌, refl, sym, ap, ◌⊎◌, List, [], ◌∷◌, ◌++◌, length, take, drop,
  arith, length-append, length-drop, take-append, drop-append,
}
use mmorpg_server_rl_portfol.Net.Codec.{Frame, IsFrame}

module _ (fr : Frame) where
  -- The bytes start with no whole frame.
  abbrev pub IsPartial : List ℕ → Type 0
  IsPartial bs = length bs < fr.k_header + fr.read_len bs ⊎ length bs < fr.k_header

  -- The bytes are these payloads, each behind its header, and then bytes with no whole frame.
  pub data Frames : List ℕ → List (List ℕ) → List ℕ → Type 0 where
    none_whole : {bs : List ℕ} → IsPartial bs → Frames bs [] bs
    whole :
        {bs rest : List ℕ} {ps : List (List ℕ)}
        → fr.k_header ≤ length bs
        → fr.k_header + fr.read_len bs ≤ length bs
        → Frames (drop (fr.k_header + fr.read_len bs) bs) ps rest
        → Frames bs (take (fr.read_len bs) (drop fr.k_header bs) ∷ ps) rest

-- The bytes of the chunks, in order.
abbrev pub joined : List (List ℕ) → List ℕ
joined [] = []
joined (c ∷ cs) = c ++ joined cs

module _ {fr : Frame} where
  pub Frames-unique :
      {bs r t : List ℕ} {ps qs : List (List ℕ)}
      → Frames fr bs ps r
      → Frames fr bs qs t
      → (ps ≡ qs) × (r ≡ t)
  Frames-unique (none_whole p) (none_whole q) = (refl, refl)
  Frames-unique (none_whole p) (whole h k rest) = absurd (grind arith)
  Frames-unique (whole h k rest) (none_whole q) = absurd (grind arith)
  Frames-unique {bs} (whole h k rest) (whole h' k' rest') =
      let (heads, tails) = Frames-unique rest rest' in
      (ap (◌∷◌ (take (fr.read_len bs) (drop fr.k_header bs))) heads, tails)

  -- The bytes that wait after a stream are partial.
  pub Frames-rest : {bs r : List ℕ} {ps : List (List ℕ)} → Frames fr bs ps r → Frames fr r [] r
  Frames-rest (none_whole p) = none_whole p
  Frames-rest (whole h k rest) = Frames-rest rest

  module _ (ok : IsFrame fr) where
    -- More bytes change nothing of the frames that are whole.
    pub Frames-append :
        {bs r t : List ℕ} {ps qs : List (List ℕ)} (more : List ℕ)
        → Frames fr bs ps r
        → Frames fr (r ++ more) qs t
        → Frames fr (bs ++ more) (ps ++ qs) t
    Frames-append more (none_whole p) q = q
    Frames-append {bs} {t} {qs} more (whole {ps} h k rest) q =
        let longer : length (bs ++ more) ≡ length bs + length more = length-append bs more in
        let same : fr.read_len (bs ++ more) ≡ fr.read_len bs = ok.read_len_local bs more h in
        let inner : length (drop fr.k_header bs) ≡ length bs - fr.k_header =
          length-drop fr.k_header bs in
        subst (λ p. Frames fr (bs ++ more) (p ∷ (ps ++ qs)) t)
          (ap (λ len. take len (drop fr.k_header (bs ++ more))) same
            ∙ ap (take (fr.read_len bs)) (drop-append fr.k_header bs more h)
            ∙ take-append (fr.read_len bs) (drop fr.k_header bs) more (omega arith))
          (whole (omega arith) (omega arith) (
            subst (λ xs. Frames fr xs (ps ++ qs) t)
              (sym (
                ap (λ len. drop (fr.k_header + len) (bs ++ more)) same
                ∙ drop-append (fr.k_header + fr.read_len bs) bs more k))
              (Frames-append more rest q)))
