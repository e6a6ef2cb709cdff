-- ===== src/Aoi/View.antt =====
-- The square of sectors that a player views, described without the loops of `collect_view_sectors`.
use mmorpg_server_rl_portfol.Prelude.{
  ℕ, ℤ, pos, ◌+ℤ◌, ◌-ℤ◌, leb_ℤ, ltb_ℤ, pos_part, int_eq, int_beq, ◌==◌, zero, suc, ◌≡◌, ◌∙◌, refl,
  Bool, true, false, ◌&&◌, ◌||◌, not, List, [], ◌∷◌, arith, contains, contains-append, +ℤ_parts,
  -ℤ_parts, if◌then◌else◌, inl, inr, Bool-cases,
}
use mmorpg_server_rl_portfol.Aoi.Types.{AoiSectorCoord, coord_eq}
use mmorpg_server_rl_portfol.Aoi.Sectors.{
  ints_from, for_range, view_row, view_rows, collect_view_sectors,
}

-- `c` is a sector of the map (no coordinate is negative) at most `radius` away from `s` on each axis.
abbrev pub in_view : ℤ → AoiSectorCoord → AoiSectorCoord → Bool
in_view radius s c =
    (leb_ℤ (pos 0) c.x && leb_ℤ (pos 0) c.y)
    && ((leb_ℤ (s.x -ℤ radius) c.x && leb_ℤ c.x (s.x +ℤ radius))
        && (leb_ℤ (s.y -ℤ radius) c.y && leb_ℤ c.y (s.y +ℤ radius)))

contains-ints_from :
    (d lo : ℤ) (n : ℕ) → contains d (ints_from lo n) ≡ (leb_ℤ lo d && ltb_ℤ d (lo +ℤ pos n))
unfolding ints_from contains
contains-ints_from d lo zero = ground (arith, +ℤ_parts lo (pos 0))
contains-ints_from d lo (suc n) = ground (
  arith,
  contains-ints_from d (lo +ℤ pos 1) n,
  +ℤ_parts lo (pos 1),
  +ℤ_parts lo (pos (suc n)),
  +ℤ_parts (lo +ℤ pos 1) (pos n),
)

contains-for_range : (d lo hi : ℤ) → contains d (for_range lo hi) ≡ (leb_ℤ lo d && leb_ℤ d hi)
unfolding for_range
contains-for_range d lo hi = ground (
  arith,
  contains-ints_from d lo (pos_part (hi -ℤ lo +ℤ pos 1)),
  +ℤ_parts (hi -ℤ lo) (pos 1),
  -ℤ_parts hi lo,
  +ℤ_parts lo (pos (pos_part (hi -ℤ lo +ℤ pos 1))),
)

beq_shift : (a b d : ℤ) → int_beq (a -ℤ b) d ≡ int_beq a (b +ℤ d)
unfolding ◌+ℤ◌ ◌-ℤ◌
beq_shift a b d = ground arith

sub_bounds :
    (a b r : ℤ)
    → (leb_ℤ (pos 0 -ℤ r) (a -ℤ b) && leb_ℤ (a -ℤ b) r) ≡ (leb_ℤ (b -ℤ r) a && leb_ℤ a (b +ℤ r))
sub_bounds a b r = ground (arith, -ℤ_parts (pos 0) r, -ℤ_parts a b, -ℤ_parts b r, +ℤ_parts b r)

abbrev off_map : AoiSectorCoord → Bool
off_map c = ltb_ℤ c.x (pos 0) || ltb_ℤ c.y (pos 0)

contains_cell :
    (c sc : AoiSectorCoord) (rest : List AoiSectorCoord)
    → contains c (if off_map sc then rest else sc ∷ rest)
      ≡ (not (off_map sc) && c == sc || contains c rest)
unfolding contains
contains_cell c sc rest = elim (Bool-cases (off_map sc)) [ inl e ↦ rw e | inr e ↦ rw e ]

on_map_cell :
    (c sc : AoiSectorCoord)
    → (not (off_map sc) && c == sc)
      ≡ ((leb_ℤ (pos 0) c.x && leb_ℤ (pos 0) c.y) && (int_beq c.x sc.x && int_beq c.y sc.y))
on_map_cell c sc = ground arith

regroup_row :
    (on ex ey m : Bool) → (on && (ex && ey) || on && (ey && m)) ≡ (on && (ey && (ex || m)))
regroup_row true true true m = refl
regroup_row true true false m = ground arith
regroup_row _ _ _ _ = ground arith

contains-view_row :
    (c s : AoiSectorCoord) (dy : ℤ) (dxs : List ℤ)
    → contains c (view_row s dy dxs) ≡ (
        (leb_ℤ (pos 0) c.x && leb_ℤ (pos 0) c.y)
        && ((c.y -ℤ s.y) == dy && contains (c.x -ℤ s.x) dxs))
unfolding view_row contains
contains-view_row c s dy [] = ground arith
contains-view_row c s dy (dx ∷ dxs) =
    let sc : AoiSectorCoord = record { x = s.x +ℤ dx; y = s.y +ℤ dy } in
    contains_cell c sc (view_row s dy dxs)
    ∙ (rw
        (on_map_cell c sc, contains-view_row c s dy dxs, beq_shift c.x s.x dx, beq_shift c.y s.y dy)
        (regroup_row (leb_ℤ (pos 0) c.x && leb_ℤ (pos 0) c.y) (int_beq c.x (s.x +ℤ dx))
          (int_beq c.y (s.y +ℤ dy)) (contains (c.x -ℤ s.x) dxs)))

contains-view_rows :
    (c s : AoiSectorCoord) (dxs dys : List ℤ)
    → contains c (view_rows s dxs dys) ≡ (
        (leb_ℤ (pos 0) c.x && leb_ℤ (pos 0) c.y)
        && (contains (c.x -ℤ s.x) dxs && contains (c.y -ℤ s.y) dys))
unfolding view_rows contains
contains-view_rows c s dxs [] = ground arith
contains-view_rows c s dxs (dy ∷ dys) = ground (
  arith,
  contains-view_rows c s dxs dys,
  contains-view_row c s dy dxs,
  contains-append c (view_row s dy dxs) (view_rows s dxs dys),
)

-- The sectors that the loops collect are those of the square that lie on the map.
pub contains-collect_view_sectors :
    (radius : ℤ) (s c : AoiSectorCoord)
    → contains c (collect_view_sectors radius s) ≡ in_view radius s c
unfolding collect_view_sectors
contains-collect_view_sectors radius s c = ground (
  arith,
  contains-view_rows c s (for_range (pos 0 -ℤ radius) radius) (for_range (pos 0 -ℤ radius) radius),
  contains-for_range (c.x -ℤ s.x) (pos 0 -ℤ radius) radius,
  contains-for_range (c.y -ℤ s.y) (pos 0 -ℤ radius) radius,
  sub_bounds c.x s.x radius,
  sub_bounds c.y s.y radius,
)
