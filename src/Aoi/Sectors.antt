-- ===== src/Aoi/Sectors.antt =====
-- field/AoiWorld.cpp: the sectors of the grid, and the square of sectors that a player views.
use mmorpg_server_rl_portfol.Prelude.{
  ℕ, ℤ, nat_eq, pos, ◌+ℤ◌, ◌-ℤ◌, ltb_ℤ, pos_part, zero, suc, ◌||◌, List, [], ◌∷◌, ◌++◌, Option,
  none, some, if◌then◌else◌, insert, erase, update,
}
use mmorpg_server_rl_portfol.Aoi.Types.{AoiSectorCoord, coord_eq, Sector, SectorMap}

-- `get_or_create_sector`: the sector found, or a new one, which the map then holds.
unfoldable pub get_or_create_sector : SectorMap → AoiSectorCoord → Sector × SectorMap
get_or_create_sector m c = elim (m c) [
  | some s ↦ (s, m)
  | none ↦ let s : Sector = record { entities = []; watchers = [] } in (s, update m c (some s))
]

unfoldable pub enter_sector : SectorMap → ℕ → AoiSectorCoord → SectorMap
unfolding get_or_create_sector
enter_sector m id c =
    let (s, m') = get_or_create_sector m c in
    update m' c (some (record s { entities = insert id s.entities }))

unfoldable pub leave_sector : SectorMap → ℕ → AoiSectorCoord → SectorMap
leave_sector m id c = elim (m c) [
  | none ↦ m
  | some s ↦ update m c (some (record s { entities = erase id s.entities }))
]

-- `for (int i = lo; i <= hi; ++i)`
unfoldable pub ints_from : ℤ → ℕ → List ℤ
ints_from lo zero = []
ints_from lo (suc n) = lo ∷ ints_from (lo +ℤ pos 1) n

unfoldable pub for_range : ℤ → ℤ → List ℤ
unfolding ints_from
for_range lo hi = ints_from lo (pos_part (hi -ℤ lo +ℤ pos 1))

-- The inner loop of `collect_view_sectors`, over dx.
unfoldable pub view_row : AoiSectorCoord → ℤ → List ℤ → List AoiSectorCoord
view_row s dy [] = []
view_row s dy (dx ∷ dxs) =
    let rest = view_row s dy dxs in
    let sc : AoiSectorCoord = record { x = s.x +ℤ dx; y = s.y +ℤ dy } in
    if ltb_ℤ sc.x (pos 0) || ltb_ℤ sc.y (pos 0) then rest else sc ∷ rest

unfoldable pub view_rows : AoiSectorCoord → List ℤ → List ℤ → List AoiSectorCoord
unfolding view_row
view_rows s dxs [] = []
view_rows s dxs (dy ∷ dys) = view_row s dy dxs ++ view_rows s dxs dys

unfoldable pub collect_view_sectors : ℤ → AoiSectorCoord → List AoiSectorCoord
unfolding for_range view_rows
collect_view_sectors radius s =
    let span = for_range (pos 0 -ℤ radius) radius in view_rows s span span

-- The loop of `remove_entity` over the sectors that the player subscribes to.
unfoldable pub unsubscribe : ℕ → List AoiSectorCoord → SectorMap → SectorMap
unsubscribe me [] m = m
unsubscribe me (sc ∷ scs) m = elim (m sc) [
  | none ↦ unsubscribe me scs m
  | some s ↦ unsubscribe me scs (update m sc (some (record s { watchers = erase me s.watchers })))
]

abbrev pub entities_of : Option Sector → List ℕ
entities_of none = []
entities_of (some s) = s.entities

abbrev pub watchers_of : Option Sector → List ℕ
watchers_of none = []
watchers_of (some s) = s.watchers
