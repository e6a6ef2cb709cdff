-- ===== src/Aoi/Crossing.antt =====
-- What the events of `move_entity` tell about the entity that moves.
use mmorpg_server_rl_portfol.Prelude.{
  ℕ, nat_eq, ◌==◌, ◌≡◌, ◌∙◌, refl, Bool, true, false, not, ◌&&◌, List, [], ◌∷◌, ◌++◌, if◌then◌else◌,
  arith, inl, inr, Bool-cases,
}
use mmorpg_server_rl_portfol.Aoi.Types.{
  AoiSectorCoord, coord_eq, enter, leave, move, Entity, AoiWorld, Sent,
}
use mmorpg_server_rl_portfol.Aoi.Sectors.{watchers_of}
use mmorpg_server_rl_portfol.Aoi.World.{
  broadcast_to_sector_watchers, move_events, send_difference, event_of,
}
use mmorpg_server_rl_portfol.Aoi.Grid.{watching}
use mmorpg_server_rl_portfol.Aoi.Told.{told, told-append, told-send_difference}
use mmorpg_server_rl_portfol.Aoi.Visibility.{told-broadcast}

abbrev pub crossing : Bool → Bool → Bool → Bool → Bool
crossing changed old new b =
    if changed then (if new && not old then true else if old && not new then false else b) else b

moved_word :
    (subject new nonzero c b : Bool)
    → (if subject && (new && not (nonzero && false)) then true else if subject then c else b)
      ≡ (if subject then if new then true else c else b)
moved_word true true true c b = refl
moved_word _ _ _ _ _ = ground arith

crossed_word :
    (subject old new b : Bool)
    → (if subject && (new && (not old && true))
        then true
        else if subject && (old && (not new && true))
        then false
        else b)
      ≡ (if subject then crossing true old new b else b)
crossed_word true true true b = refl
crossed_word _ _ _ _ = ground arith

module _ {F : Type 0} (g : AoiWorld F) (e : Entity F) (old_sector : AoiSectorCoord)
    (changed : Bool) where
  abbrev leaving : List (Sent F)
  leaving =
      send_difference e.id (event_of leave e) (watchers_of (g.sectors e.sector))
        (watchers_of (g.sectors old_sector))

  abbrev entering : List (Sent F)
  entering =
      send_difference e.id (event_of enter e) (watchers_of (g.sectors old_sector))
        (watchers_of (g.sectors e.sector))

  abbrev crossing_events : List (Sent F)
  crossing_events = if changed then leaving ++ entering else []

  abbrev moving : List (Sent F)
  moving = broadcast_to_sector_watchers g.send_cb g.sectors e.sector (event_of move e) e.id

  abbrev own : List (Sent F)
  own = if e.is_player then (e.id, event_of move e) ∷ [] else []

  told-own : (w t : ℕ) (b : Bool) → (w == e.id) ≡ false → told w t b own ≡ b
  unfolding told
  told-own w t b other = ground arith

  told-crossing_events :
      (w t : ℕ) (b : Bool)
      → (w == e.id) ≡ false
      → told w t b crossing_events ≡ (
          if t == e.id
          then crossing changed (watching g.sectors w old_sector) (watching g.sectors w e.sector) b
          else b)
  unfolding told watching
  told-crossing_events w t b other = elim (Bool-cases changed) [
    | inl c ↦ rw c (
        told-append w t leaving entering b
        ∙ rw
            (
              told-send_difference w t e.id (event_of enter e) (watchers_of (g.sectors old_sector))
                  (watchers_of (g.sectors e.sector)) (told w t b leaving),
              told-send_difference w t e.id (event_of leave e) (watchers_of (g.sectors e.sector))
                  (watchers_of (g.sectors old_sector)) b,
              other,
            )
            (crossed_word (t == e.id) (watching g.sectors w old_sector)
              (watching g.sectors w e.sector) b))
    | inr c ↦ rw c (ground arith)
  ]

  -- What is told about the entity that moves, by the watchers of its two sectors.
  pub told-move_events :
      (w t : ℕ) (b : Bool)
      → g.send_cb ≡ true
      → (w == e.id) ≡ false
      → told w t b (move_events g e old_sector changed) ≡ (
          if t == e.id
          then if watching g.sectors w e.sector
            then true
            else crossing changed
                (watching g.sectors w old_sector)
                (watching g.sectors w e.sector)
                b
          else b)
  unfolding move_events
  told-move_events w t b cb other =
      told-append w t crossing_events (moving ++ own) b
      ∙ told-append w t moving own (told w t b crossing_events)
      ∙ told-own w t _ other
      ∙ told-broadcast w t g.sectors e.sector (event_of move e) e.id _ g.send_cb cb
      ∙ rw (told-crossing_events w t b other, other)
          (moved_word (t == e.id) (watching g.sectors w e.sector) (not (e.id == 0))
            (crossing changed (watching g.sectors w old_sector) (watching g.sectors w e.sector) b)
            b)

  pub told-move_events_other :
      (w t : ℕ) (b : Bool)
      → g.send_cb ≡ true
      → (t == e.id) ≡ false
      → told w t b (move_events g e old_sector changed) ≡ b
  unfolding move_events
  told-move_events_other w t b cb other =
      told-append w t crossing_events (moving ++ own) b
      ∙ told-append w t moving own (told w t b crossing_events)
      ∙ own_other (told w t (told w t b crossing_events) moving)
      ∙ told-broadcast w t g.sectors e.sector (event_of move e) e.id _ g.send_cb cb
      ∙ rw other (crossing_other)
    where
      own_other : (c : Bool) → told w t c own ≡ c
      own_other c = unfold told in ground arith

      crossing_other : told w t b crossing_events ≡ b
      crossing_other = elim (Bool-cases changed) [
        | inl c ↦ rw c (
            told-append w t leaving entering b
            ∙ rw (
              told-send_difference w t e.id (event_of enter e) (watchers_of (g.sectors old_sector))
                  (watchers_of (g.sectors e.sector)) (told w t b leaving),
              told-send_difference w t e.id (event_of leave e) (watchers_of (g.sectors e.sector))
                  (watchers_of (g.sectors old_sector)) b,
              other,
            ))
        | inr c ↦ rw c (unfold told in refl)
      ]
