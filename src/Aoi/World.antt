-- ===== src/Aoi/World.antt =====
-- field/AoiWorld.cpp: the sector grid, who stands where, and who watches which sector.
use mmorpg_server_rl_portfol.Prelude.{
  ℕ, ℤ, nat_eq, pos, ltb_ℤ, ◌==◌, Bool, false, not, ◌&&◌, List, [], ◌∷◌, ◌++◌, none, some,
  if◌then◌else◌, contains, insert, erase, set_of_list, filter, update, FloatArith,
}
use mmorpg_server_rl_portfol.Aoi.Types.{
  AoiVec2, AoiSectorCoord, coord_eq, enter, leave, move, snapshot, EventType, AoiEvent, Entity,
  Sector, SectorMap, EntityMap, AoiWorld, Sent,
}
use mmorpg_server_rl_portfol.Aoi.Sectors.{
  get_or_create_sector, enter_sector, leave_sector, collect_view_sectors, unsubscribe, watchers_of,
}

module _ {F : Type 0} where
  -- An event about `e` of the given type.
  abbrev pub event_of : EventType → Entity F → AoiEvent F
  event_of t e = record { type = t; subject_id = e.id; position = e.pos }

  unfoldable pub send_to : ℕ → AoiEvent F → List ℕ → List (Sent F)
  send_to excluded ev [] = []
  send_to excluded ev (w ∷ ws) =
      let rest = send_to excluded ev ws in
      if not (excluded == 0) && w == excluded then rest else (w, ev) ∷ rest

  unfoldable pub broadcast_to_sector_watchers :
      Bool → SectorMap → AoiSectorCoord → AoiEvent F → ℕ → List (Sent F)
  broadcast_to_sector_watchers cb m c ev excluded =
      if not cb then [] else elim (m c) [ none ↦ [] | some s ↦ send_to excluded ev s.watchers ]

  -- The events for the entities of a sector that goes out of the view `new_set` of player `me`.
  unfoldable pub leave_events : EntityMap F → List AoiSectorCoord → ℕ → List ℕ → List (Sent F)
  leave_events es new_set me [] = []
  leave_events es new_set me (other_id ∷ ids) =
      let rest = leave_events es new_set me ids in
      if other_id == me then rest else elim (es other_id) [
        | none ↦ rest
        | some other ↦
            if contains other.sector new_set
            then rest
            else (me, record { type = leave; subject_id = other_id; position = other.pos }) ∷ rest
      ]

  -- The loop over `toRemove`.
  unfoldable pub unwatch_sectors :
      EntityMap F
      → Bool
      → List AoiSectorCoord
      → ℕ
      → List AoiSectorCoord
      → SectorMap
      → SectorMap × List (Sent F)
  unwatch_sectors es cb new_set me [] m = (m, [])
  unwatch_sectors es cb new_set me (sc ∷ scs) m = elim (m sc) [
    | none ↦ unwatch_sectors es cb new_set me scs m
    | some s ↦
        let sent = if cb then leave_events es new_set me s.entities else [] in
        let left : Sector = record s { watchers = erase me s.watchers } in
        let (m', later) = unwatch_sectors es cb new_set me scs (update m sc (some left)) in
        (m', sent ++ later)
  ]

  -- The events for the entities of a sector that comes into the view of player `me`.
  unfoldable pub snapshot_events : EntityMap F → ℕ → List ℕ → List (Sent F)
  snapshot_events es me [] = []
  snapshot_events es me (other_id ∷ ids) =
      let rest = snapshot_events es me ids in
      if other_id == me
      then rest
      else elim (es other_id) [ none ↦ rest | some other ↦ (me, event_of snapshot other) ∷ rest ]

  -- The loop over `toAdd`.
  unfoldable pub watch_sectors :
      EntityMap F → Bool → ℕ → List AoiSectorCoord → SectorMap → SectorMap × List (Sent F)
  watch_sectors es cb me [] m = (m, [])
  watch_sectors es cb me (sc ∷ scs) m =
      let (s, m₁) = get_or_create_sector m sc in
      let joined : Sector = record s { watchers = insert me s.watchers } in
      let sent = if cb then snapshot_events es me s.entities else [] in
      let (m₂, later) = watch_sectors es cb me scs (update m₁ sc (some joined)) in
      (m₂, sent ++ later)

  -- `rebuild_player_subscriptions`: the entity is a reference into the map, so it is written back.
  unfoldable pub rebuild_player_subscriptions : AoiWorld F → Entity F → AoiWorld F × List (Sent F)
  rebuild_player_subscriptions w e =
      let new_set = set_of_list [] (collect_view_sectors w.view_radius e.sector) in
      let to_remove = filter (λ sc. not (contains sc new_set)) e.subscribed in
      let to_add = filter (λ sc. not (contains sc e.subscribed)) new_set in
      let (m₁, left) = unwatch_sectors w.entities w.send_cb new_set e.id to_remove w.sectors in
      let (m₂, seen) = watch_sectors w.entities w.send_cb e.id to_add m₁ in
      (
        record w {
          sectors = m₂;
          entities = update w.entities e.id (some (record e { subscribed = new_set }));
        },
        left ++ seen,
      )

  unfoldable pub remove_entity : AoiWorld F → ℕ → AoiWorld F × List (Sent F)
  remove_entity w id = elim (w.entities id) [
    | none ↦ (w, [])
    | some e ↦
        let gone : AoiEvent F = record { type = leave; subject_id = id; position = e.pos } in
        let sent = broadcast_to_sector_watchers w.send_cb w.sectors e.sector gone id in
        let m₁ = leave_sector w.sectors id e.sector in
        let m₂ = if e.is_player then unsubscribe e.id e.subscribed m₁ else m₁ in
        (record w { sectors = m₂; entities = update w.entities id none }, sent)
  ]

  -- The watchers of one sector, but for `id` and those of the other sector.
  unfoldable pub send_difference : ℕ → AoiEvent F → List ℕ → List ℕ → List (Sent F)
  send_difference id ev others [] = []
  send_difference id ev others (w ∷ ws) =
      let rest = send_difference id ev others ws in
      if contains w others then rest else if w == id then rest else (w, ev) ∷ rest

  unfoldable pub update_player_aoi : AoiWorld F → ℕ → AoiWorld F × List (Sent F)
  update_player_aoi w id = elim (w.entities id) [
    | none ↦ (w, [])
    | some e ↦ if e.is_player then rebuild_player_subscriptions w e else (w, [])
  ]

  -- The calls that `move_entity` makes about the entity `e` once it stands in its new sector.
  unfoldable pub move_events : AoiWorld F → Entity F → AoiSectorCoord → Bool → List (Sent F)
  move_events w e old_sector sector_changed =
      let old_w = watchers_of (w.sectors old_sector) in
      let new_w = watchers_of (w.sectors e.sector) in
      let crossed =
        if sector_changed
        then send_difference e.id (event_of leave e) new_w old_w
          ++ send_difference e.id (event_of enter e) old_w new_w
        else [] in
      let moved =
        broadcast_to_sector_watchers w.send_cb w.sectors e.sector (event_of move e) e.id in
      let own : List (Sent F) = if e.is_player then (e.id, event_of move e) ∷ [] else [] in
      crossed ++ (moved ++ own)

module _ (fl : FloatArith) where
  open fl use {F, lit, flt, fdiv, floor_int}

  -- The constructor.
  unfoldable pub new_world : F → ℤ → AoiWorld F
  new_world sector_size view_radius = record {
    entities = λ id. none;
    sectors = λ c. none;
    sector_size = if flt (lit 0 1) sector_size then sector_size else lit 1 1;
    view_radius = if ltb_ℤ (pos 0) view_radius then view_radius else pos 1;
    send_cb = false;
  }

  unfoldable pub world_to_sector : F → AoiVec2 F → AoiSectorCoord
  world_to_sector sector_size p =
      let sx = floor_int (fdiv p.x sector_size) in
      let sy = floor_int (fdiv p.y sector_size) in
      record {
        x = if ltb_ℤ sx (pos 0) then pos 0 else sx;
        y = if ltb_ℤ sy (pos 0) then pos 0 else sy;
      }

  unfoldable pub add_entity : AoiWorld F → ℕ → Bool → AoiVec2 F → AoiWorld F × List (Sent F)
  add_entity w id is_player p =
      let e : Entity F = record {
        id = id;
        is_player = is_player;
        pos = p;
        sector = world_to_sector w.sector_size p;
        subscribed = [];
      } in
      let w₁ : AoiWorld F = record w {
        entities = update w.entities id (some e);
        sectors = enter_sector w.sectors id e.sector;
      } in
      let (w₂, seen) = if is_player then rebuild_player_subscriptions w₁ e else (w₁, []) in
      let sent =
        broadcast_to_sector_watchers w₂.send_cb w₂.sectors e.sector (event_of enter e) id in
      (w₂, seen ++ sent)

  unfoldable pub move_entity : AoiWorld F → ℕ → AoiVec2 F → AoiWorld F × List (Sent F)
  move_entity w id new_pos = elim (w.entities id) [
    | none ↦ (w, [])
    | some old ↦
        let e : Entity F = record old {
          pos = new_pos;
          sector = world_to_sector w.sector_size new_pos;
        } in
        let sector_changed = not (e.sector == old.sector) in
        let m =
          if sector_changed
          then enter_sector (leave_sector w.sectors id old.sector) id e.sector
          else w.sectors in
        let w₁ : AoiWorld F = record w { entities = update w.entities id (some e); sectors = m } in
        let (w₂, seen) = if e.is_player then rebuild_player_subscriptions w₁ e else (w₁, []) in
        let sent = if not w.send_cb then [] else move_events w₂ e old.sector sector_changed in
        (w₂, seen ++ sent)
  ]
