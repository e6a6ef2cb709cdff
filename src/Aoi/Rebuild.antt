-- ===== src/Aoi/Rebuild.antt =====
-- What `rebuild_player_subscriptions` leaves behind.
use mmorpg_server_rl_portfol.Prelude.{
  ℕ, nat_eq, ◌==◌, ◌≡◌, ◌∙◌, refl, Bool, true, false, not, ◌&&◌, ◌||◌, List, [], some,
  if◌then◌else◌, arith, contains, contains-filter, contains-set_of_list, set_of_list, filter,
  update, eq_of_beq, inl, inr, Bool-cases,
}
use mmorpg_server_rl_portfol.Aoi.Types.{AoiSectorCoord, coord_eq, Entity, AoiWorld}
use mmorpg_server_rl_portfol.Aoi.Sectors.{collect_view_sectors}
use mmorpg_server_rl_portfol.Aoi.World.{rebuild_player_subscriptions, unwatch_sectors}
use mmorpg_server_rl_portfol.Aoi.View.{in_view, contains-collect_view_sectors}
use mmorpg_server_rl_portfol.Aoi.Grid.{
  standing, watching, standing-unwatch_sectors, watching-unwatch_sectors, standing-watch_sectors,
  watching-watch_sectors,
}

module _ {F : Type 0} (w : AoiWorld F) (e : Entity F) where
  abbrev pub new_set : List AoiSectorCoord
  new_set = set_of_list [] (collect_view_sectors w.view_radius e.sector)

  abbrev pub to_remove : List AoiSectorCoord
  to_remove = filter (λ sc. not (contains sc new_set)) e.subscribed

  abbrev pub to_add : List AoiSectorCoord
  to_add = filter (λ sc. not (contains sc e.subscribed)) new_set

  pub contains-new_set :
      (c : AoiSectorCoord) → contains c new_set ≡ in_view w.view_radius e.sector c
  unfolding contains
  contains-new_set c =
      contains-set_of_list c [] (collect_view_sectors w.view_radius e.sector)
      ∙ contains-collect_view_sectors w.view_radius e.sector c

  abbrev pub rebuilt : AoiWorld F
  rebuilt = (rebuild_player_subscriptions w e).0

  pub entities-rebuilt :
      (a : ℕ)
      → rebuilt.entities a
        ≡ (if a == e.id then some (record e { subscribed = new_set }) else w.entities a)
  unfolding rebuild_player_subscriptions update
  entities-rebuilt a = refl

  pub radius-rebuilt : rebuilt.view_radius ≡ w.view_radius
  unfolding rebuild_player_subscriptions
  radius-rebuilt = refl

  pub send_cb-rebuilt : rebuilt.send_cb ≡ w.send_cb
  unfolding rebuild_player_subscriptions
  send_cb-rebuilt = refl

  pub standing-rebuilt :
      (a : ℕ) (c : AoiSectorCoord) → standing rebuilt.sectors a c ≡ standing w.sectors a c
  unfolding rebuild_player_subscriptions
  standing-rebuilt a c =
      standing-watch_sectors w.entities w.send_cb new_set e.id a to_add
        (unwatch_sectors w.entities w.send_cb new_set e.id to_remove w.sectors).0 c
      ∙ standing-unwatch_sectors w.entities w.send_cb new_set e.id a to_remove w.sectors c

  pub watching-rebuilt_lem :
      (a : ℕ) (c : AoiSectorCoord)
      → watching rebuilt.sectors a c ≡ (
          watching w.sectors a c
            && not (a == e.id && (not (contains c new_set) && contains c e.subscribed))
          || a == e.id && (not (contains c e.subscribed) && contains c new_set))
  unfolding rebuild_player_subscriptions
  watching-rebuilt_lem a c =
      watching-watch_sectors w.entities w.send_cb new_set e.id a to_add
        (unwatch_sectors w.entities w.send_cb new_set e.id to_remove w.sectors).0 c
      ∙ rw (
        watching-unwatch_sectors w.entities w.send_cb new_set e.id a to_remove w.sectors c,
        contains-filter c (λ sc. not (contains sc new_set)) e.subscribed,
        contains-filter c (λ sc. not (contains sc e.subscribed)) new_set,
      )

  -- The player watches the sectors of its view, and nobody else's watching changes.
  pub watching-rebuilt :
      ((c : AoiSectorCoord) → watching w.sectors e.id c ≡ contains c e.subscribed)
      → (a : ℕ) (c : AoiSectorCoord)
      → watching rebuilt.sectors a c
        ≡ (if a == e.id then in_view w.view_radius e.sector c else watching w.sectors a c)
  watching-rebuilt h a c =
      watching-rebuilt_lem a c
      ∙ rw (← contains-new_set c) (elim (Bool-cases (a == e.id)) [
        | inl same ↦
            rw (same, eq_of_beq a e.id same, h c)
              (merged (contains c e.subscribed) (contains c new_set))
        | inr other ↦ rw other (unchanged (watching w.sectors a c))
      ])
    where
      merged : (old new : Bool) → (old && not (not new && old) || not old && new) ≡ new
      merged true true = refl
      merged _ _ = ground arith

      unchanged : (b : Bool) → (b && true || false) ≡ b
      unchanged true = refl
      unchanged _ = refl
