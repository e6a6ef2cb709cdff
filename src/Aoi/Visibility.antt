-- ===== src/Aoi/Visibility.antt =====
-- Who is recorded as a watcher of whom, against who sees whom by the positions alone.
use mmorpg_server_rl_portfol.Prelude.{
  ℕ, ℤ, nat_eq, ◌==◌, ◌≡◌, ◌∙◌, refl, Bool, true, false, not, ◌&&◌, Option, none, some,
  if◌then◌else◌, arith, contains, contains-filter, inl, inr, Option-cases,
}
use mmorpg_server_rl_portfol.Aoi.Types.{
  AoiSectorCoord, coord_eq, AoiEvent, Entity, AoiWorld, SectorMap,
}
use mmorpg_server_rl_portfol.Aoi.World.{
  broadcast_to_sector_watchers, rebuild_player_subscriptions, unwatch_sectors, watch_sectors,
}
use mmorpg_server_rl_portfol.Aoi.System.{FieldAoiSystem}
use mmorpg_server_rl_portfol.Aoi.Grid.{standing, watching, standing-unwatch_sectors}
use mmorpg_server_rl_portfol.Aoi.Rebuild.{new_set, to_remove, to_add}
use mmorpg_server_rl_portfol.Aoi.Invariant.{located, views, IsConsistent}
use mmorpg_server_rl_portfol.Aoi.Told.{told, told-append, told-send_to, shown, AllNodup}
use mmorpg_server_rl_portfol.Aoi.Sightings.{
  covers, away, is_present, Keyed, told-unwatch_sectors, told-watch_sectors,
}

module _ {F : Type 0} where
  -- The first entity is a player whose view covers the sector of the second.
  abbrev pub sees : ℤ → Option (Entity F) → Option (Entity F) → Bool
  sees r o none = false
  sees r o (some x) = views r o x.sector

  -- The lists of watchers are exact: for an entity `w` of the field and any other id, the list of
  -- that id holds `w` if and only if `w` sees it.
  pub record IsExact (s : FieldAoiSystem F) : Type 0 where
    pub consistent : IsConsistent s.aoi
    pub send_cb : s.aoi.send_cb ≡ true
    pub nodup : AllNodup s.watchers
    pub exact :
        (w t : ℕ)
        → is_present (s.aoi.entities w) ≡ true
        → (w == t) ≡ false
        → contains w (s.watchers t) ≡ sees s.aoi.view_radius (s.aoi.entities w) (s.aoi.entities t)

  pub told-broadcast :
      (w t : ℕ) (m : SectorMap) (c : AoiSectorCoord) (ev : AoiEvent F) (excluded : ℕ) (b : Bool)
      (cb : Bool)
      → cb ≡ true
      → told w t b (broadcast_to_sector_watchers cb m c ev excluded) ≡ (
          if t == ev.subject_id && (watching m w c && not (not (excluded == 0) && w == excluded))
          then shown ev.type
          else b)
  unfolding broadcast_to_sector_watchers watching told contains
  told-broadcast w t m c ev excluded b cb on = elim (Option-cases (m c)) [
    | inl e ↦ rw (on, e) (ground arith)
    | inr (s, e) ↦ rw (on, e) (told-send_to w t excluded ev s.watchers b)
  ]

rebuilt_word :
    (mine old new b : Bool)
    → (mine ≡ true → b ≡ old)
    → (if mine && (not old && new)
        then true
        else if mine && ((not new && old) && not new)
        then false
        else b)
      ≡ (if mine then new else b)
rebuilt_word true true new b h = ground (arith, h refl)
rebuilt_word true false new b h = ground (arith, h refl)
rebuilt_word false old new b h = refl

module _ {F : Type 0} (g : AoiWorld F) (e : Entity F) (w t : ℕ) (b : Bool) where
  rebuilt_covers :
      (o : Option (Entity F))
      → (w == e.id && not (t == e.id) ≡ true → b ≡ covers e.subscribed o)
      → (if w == e.id && not (t == e.id) && covers (to_add g e) o
          then true
          else if w == e.id && not (t == e.id) && (covers (to_remove g e) o && away (new_set g e) o)
          then false
          else b)
        ≡ (if w == e.id && not (t == e.id) then covers (new_set g e) o else b)
  rebuilt_covers none h = ground arith
  rebuilt_covers (some o) h =
      rw
        (
          contains-filter o.sector (λ sc. not (contains sc e.subscribed)) (new_set g e),
          contains-filter o.sector (λ sc. not (contains sc (new_set g e))) e.subscribed,
        )
        (rebuilt_word (w == e.id && not (t == e.id)) (contains o.sector e.subscribed)
          (contains o.sector (new_set g e)) b h)

  -- A rebuild tells the player which entities its new view covers, and tells nobody else anything.
  pub told-rebuilt :
      g.send_cb ≡ true
      → Keyed g.entities
      → ((c : AoiSectorCoord) → standing g.sectors t c ≡ located (g.entities t) c)
      → (w == e.id && not (t == e.id) ≡ true → b ≡ covers e.subscribed (g.entities t))
      → told w t b (rebuild_player_subscriptions g e).1
        ≡ (if w == e.id && not (t == e.id) then covers (new_set g e) (g.entities t) else b)
  unfolding rebuild_player_subscriptions
  told-rebuilt cb keyed at before = rw cb (
      told-append w t
        (unwatch_sectors g.entities true (new_set g e) e.id (to_remove g e) g.sectors).1
        (watch_sectors g.entities true e.id (to_add g e)
          (unwatch_sectors g.entities true (new_set g e) e.id (to_remove g e) g.sectors).0).1
        b
      ∙ told-watch_sectors g.entities e.id w t keyed (to_add g e)
          (unwatch_sectors g.entities true (new_set g e) e.id (to_remove g e) g.sectors).0
          (told w t b
            (unwatch_sectors g.entities true (new_set g e) e.id (to_remove g e) g.sectors).1)
          (λ c.
            standing-unwatch_sectors g.entities true (new_set g e) e.id t (to_remove g e) g.sectors
              c
            ∙ at c)
      ∙ rw (told-unwatch_sectors g.entities e.id w t (new_set g e) (to_remove g e) g.sectors b at)
          (rebuilt_covers (g.entities t) before))
