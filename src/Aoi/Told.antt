-- ===== src/Aoi/Told.antt =====
-- What a sequence of events tells a watcher about a subject: the last event that names both counts.
use mmorpg_server_rl_portfol.Prelude.{
  ℕ, nat_eq, ◌==◌, ◌≡◌, ◌∙◌, refl, Bool, true, false, not, ◌&&◌, List, [], ◌∷◌, ◌++◌, if◌then◌else◌,
  arith, ap, contains, contains-append, contains-insert, insert, IsNodup, update, eq_of_beq, inl,
  inr, Bool-cases,
}
use mmorpg_server_rl_portfol.Aoi.Types.{
  EventType, enter, leave, move, snapshot, AoiEvent, Sent, coord_eq,
}
use mmorpg_server_rl_portfol.Aoi.World.{send_to, send_difference}
use mmorpg_server_rl_portfol.Aoi.System.{erase_first, record_watcher, record_events}

-- After such an event the watcher has the subject in sight.
abbrev pub shown : EventType → Bool
shown leave = false
shown _ = true

module _ (a w : ℕ) where
  contains-erase_first :
      (xs : List ℕ) → IsNodup xs → contains w (erase_first a xs) ≡ (not (w == a) && contains w xs)
  unfolding erase_first contains
  contains-erase_first [] h = ground arith
  contains-erase_first (x ∷ xs) h = ground (arith, contains-erase_first xs h.1, h.0)

erase_first-IsNodup : (a : ℕ) (xs : List ℕ) → IsNodup xs → IsNodup (erase_first a xs)
unfolding erase_first contains
erase_first-IsNodup a [] h = tt
erase_first-IsNodup a (x ∷ xs) h =
    ground (arith, erase_first-IsNodup a xs h.1, contains-erase_first a x xs h.1)

append-IsNodup : (a : ℕ) (xs : List ℕ) → contains a xs ≡ false → IsNodup xs → IsNodup (xs ++ a ∷ [])
unfolding contains
append-IsNodup a [] h n = (refl, tt)
append-IsNodup a (x ∷ xs) h n =
    ground
      (arith, append-IsNodup a xs, contains-append x xs (a ∷ []), contains-append a xs (x ∷ []))

insert-IsNodup : (a : ℕ) (xs : List ℕ) → IsNodup xs → IsNodup (insert a xs)
unfolding insert
insert-IsNodup a xs n = ground (arith, append-IsNodup a xs)

pub record_watcher-IsNodup :
    (t : EventType) (a : ℕ) (xs : List ℕ) → IsNodup xs → IsNodup (record_watcher t a xs)
unfolding record_watcher
record_watcher-IsNodup leave a xs n = erase_first-IsNodup a xs n
record_watcher-IsNodup enter a xs n = insert-IsNodup a xs n
record_watcher-IsNodup move a xs n = insert-IsNodup a xs n
record_watcher-IsNodup snapshot a xs n = insert-IsNodup a xs n

contains-record_watcher :
    (t : EventType) (a w : ℕ) (xs : List ℕ)
    → IsNodup xs
    → contains w (record_watcher t a xs) ≡ (if w == a then shown t else contains w xs)
unfolding record_watcher
contains-record_watcher leave a w xs n = ground (arith, contains-erase_first a w xs n)
contains-record_watcher enter a w xs n = ground (arith, contains-insert w a xs)
contains-record_watcher move a w xs n = ground (arith, contains-insert w a xs)
contains-record_watcher snapshot a w xs n = ground (arith, contains-insert w a xs)

abbrev pub AllNodup : (ℕ → List ℕ) → Type 0
AllNodup ws = (s : ℕ) → IsNodup (ws s)

module _ {F : Type 0} where
  -- `b` is what held before; the watcher is `w` and the subject `s`.
  unfoldable pub told : ℕ → ℕ → Bool → List (Sent F) → Bool
  told w s b [] = b
  told w s b ((x, ev) ∷ sent) =
      told w s (if w == x && s == ev.subject_id then shown ev.type else b) sent

  pub told-append :
      (w s : ℕ) (xs ys : List (Sent F)) (b : Bool)
      → told w s b (xs ++ ys) ≡ told w s (told w s b xs) ys
  unfolding told
  told-append w s [] ys b = refl
  told-append w s ((x, ev) ∷ xs) ys b = told-append w s xs ys _

  pub record_events-AllNodup :
      (ws : ℕ → List ℕ) (sent : List (Sent F)) → AllNodup ws → AllNodup (record_events ws sent)
  unfolding record_events update
  record_events-AllNodup ws [] n = n
  record_events-AllNodup ws ((x, ev) ∷ sent) n =
      record_events-AllNodup (update ws ev.subject_id (record_watcher ev.type x (ws ev.subject_id)))
        sent
        λ s. elim (Bool-cases (s == ev.subject_id)) [
          | inl same ↦ rw same (record_watcher-IsNodup ev.type x _ (n ev.subject_id))
          | inr other ↦ rw other (n s)
        ]

  abbrev recorded : (ℕ → List ℕ) → ℕ → AoiEvent F → ℕ → List ℕ
  recorded ws x ev = update ws ev.subject_id (record_watcher ev.type x (ws ev.subject_id))

  contains-recorded :
      (w s : ℕ) (ws : ℕ → List ℕ) (x : ℕ) (ev : AoiEvent F)
      → AllNodup ws
      → contains w (recorded ws x ev s)
        ≡ (if w == x && s == ev.subject_id then shown ev.type else contains w (ws s))
  unfolding update
  contains-recorded w s ws x ev n = elim (Bool-cases (s == ev.subject_id)) [
    | inl same ↦ rw same (
        contains-record_watcher ev.type x w (ws ev.subject_id) (n ev.subject_id)
        ∙ ground (arith, eq_of_beq s ev.subject_id same))
    | inr other ↦ rw other (ground arith)
  ]

  -- The lists hold exactly what the events told.
  pub contains-record_events :
      (w s : ℕ) (ws : ℕ → List ℕ) (sent : List (Sent F))
      → AllNodup ws
      → contains w (record_events ws sent s) ≡ told w s (contains w (ws s)) sent
  unfolding record_events told
  contains-record_events w s ws [] n = refl
  contains-record_events w s ws ((x, ev) ∷ sent) n =
      contains-record_events w s (recorded ws x ev) sent
        (record_events-AllNodup ws ((x, ev) ∷ []) n)
      ∙ ap (λ b. told w s b sent) (contains-recorded w s ws x ev n)

module _ {F : Type 0} (w s : ℕ) where
  pub told-send_to :
      (excluded : ℕ) (ev : AoiEvent F) (ws : List ℕ) (b : Bool)
      → told w s b (send_to excluded ev ws) ≡ (
          if s == ev.subject_id && (contains w ws && not (not (excluded == 0) && w == excluded))
          then shown ev.type
          else b)
  unfolding send_to told contains
  told-send_to excluded ev [] b = ground arith
  told-send_to excluded ev (x ∷ ws) b = ground (
    arith,
    told-send_to excluded ev ws b,
    told-send_to excluded ev ws (if w == x && s == ev.subject_id then shown ev.type else b),
  )

  pub told-send_difference :
      (id : ℕ) (ev : AoiEvent F) (others ws : List ℕ) (b : Bool)
      → told w s b (send_difference id ev others ws) ≡ (
          if s == ev.subject_id && (contains w ws && (not (contains w others) && not (w == id)))
          then shown ev.type
          else b)
  unfolding send_difference told contains
  told-send_difference id ev others [] b = ground arith
  told-send_difference id ev others (x ∷ ws) b = ground (
    arith,
    eq_of_beq w x,
    told-send_difference id ev others ws b,
    told-send_difference id ev others ws
        (if w == x && s == ev.subject_id then shown ev.type else b),
  )
