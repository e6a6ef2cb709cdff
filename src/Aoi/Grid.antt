-- ===== src/Aoi/Grid.antt =====
-- What the operations on sectors and the loops over them do to who stands and who watches where.
use mmorpg_server_rl_portfol.Prelude.{
  ℕ, nat_eq, ◌==◌, ◌≡◌, ◌∙◌, refl, Bool, true, false, not, ◌&&◌, ◌||◌, List, [], ◌∷◌, none, some,
  if◌then◌else◌, arith, contains, contains-insert, contains-erase, insert, erase, update, eq_of_beq,
  Option-cases, inl, inr, Bool-cases,
}
use mmorpg_server_rl_portfol.Aoi.Types.{AoiSectorCoord, coord_eq, Sector, SectorMap, EntityMap}
use mmorpg_server_rl_portfol.Aoi.Sectors.{
  get_or_create_sector, enter_sector, leave_sector, unsubscribe, watchers_of, entities_of,
}
use mmorpg_server_rl_portfol.Aoi.World.{unwatch_sectors, watch_sectors}

-- Entity `a` is in the set of sector `c`.
unfoldable pub standing : SectorMap → ℕ → AoiSectorCoord → Bool
standing m a c = contains a (entities_of (m c))

-- Player `a` is among the watchers of sector `c`.
unfoldable pub watching : SectorMap → ℕ → AoiSectorCoord → Bool
watching m a c = contains a (watchers_of (m c))

module _ (m : SectorMap) (c d : AoiSectorCoord) where
  pub entities_of-update :
      (s : Sector)
      → entities_of (update m c (some s) d) ≡ (if d == c then s.entities else entities_of (m d))
  unfolding update
  entities_of-update s = elim (Bool-cases (d == c)) [ inl e ↦ rw e | inr e ↦ rw e ]

  pub watchers_of-update :
      (s : Sector)
      → watchers_of (update m c (some s) d) ≡ (if d == c then s.watchers else watchers_of (m d))
  unfolding update
  watchers_of-update s = elim (Bool-cases (d == c)) [ inl e ↦ rw e | inr e ↦ rw e ]

module _ (m : SectorMap) (id a : ℕ) (c d : AoiSectorCoord) where
  pub standing-enter_sector :
      standing (enter_sector m id c) a d ≡ (d == c && a == id || standing m a d)
  unfolding standing enter_sector update contains
  standing-enter_sector =
      ground
        (arith, eq_of_beq d c, contains-insert a id [], contains-insert a id (entities_of (m c)))

  pub watching-enter_sector : watching (enter_sector m id c) a d ≡ watching m a d
  unfolding watching enter_sector update contains
  watching-enter_sector = ground (arith, eq_of_beq d c)

  pub standing-leave_sector :
      standing (leave_sector m id c) a d ≡ (standing m a d && not (d == c && a == id))
  unfolding standing leave_sector update contains
  standing-leave_sector = ground (arith, eq_of_beq d c, contains-erase a id (entities_of (m c)))

  pub watching-leave_sector : watching (leave_sector m id c) a d ≡ watching m a d
  unfolding watching leave_sector update contains
  watching-leave_sector = ground (arith, eq_of_beq d c)

-- A sector found under `c`, written back with other watchers.
module _ (m : SectorMap) (c d : AoiSectorCoord) (s : Sector) (ws : List ℕ) (a : ℕ) where
  abbrev rewatched : SectorMap
  rewatched = update m c (some (record s { watchers = ws }))

  pub standing-rewatched : s.entities ≡ entities_of (m c) → standing rewatched a d ≡ standing m a d
  unfolding standing update
  standing-rewatched h = ground (arith, eq_of_beq d c)

  watching-rewatched : watching rewatched a d ≡ (if d == c then contains a ws else watching m a d)
  unfolding watching update
  watching-rewatched = ground (arith, eq_of_beq d c)

module _ (m : SectorMap) (a : ℕ) (c : AoiSectorCoord) where
  pub standing-none : m c ≡ none → standing m a c ≡ false
  unfolding standing contains
  standing-none h = rw h

  pub standing_found : contains a (get_or_create_sector m c).0.entities ≡ standing m a c
  unfolding standing get_or_create_sector contains
  standing_found = ground arith

  pub standing-some : (s : Sector) → m c ≡ some s → standing m a c ≡ contains a s.entities
  unfolding standing
  standing-some s h = rw h

  watching-none : m c ≡ none → watching m a c ≡ false
  unfolding watching contains
  watching-none h = rw h

  watching-some : (s : Sector) → m c ≡ some s → watching m a c ≡ contains a s.watchers
  unfolding watching
  watching-some s h = rw h

-- One round of the loops that take `me` out of the watchers of `c`.
module _ (me a : ℕ) (m : SectorMap) (c d : AoiSectorCoord) (s : Sector) where
  abbrev pub unwatched : SectorMap
  unwatched = update m c (some (record s { watchers = erase me s.watchers }))

  watching-unwatched :
      m c ≡ some s → watching unwatched a d ≡ (watching m a d && not (a == me && d == c))
  watching-unwatched h = ground (
    arith,
    watching-rewatched m c d s (erase me s.watchers) a,
    contains-erase a me s.watchers,
    watching-some m a c s h,
    eq_of_beq d c,
  )

unwatch_later : (w t q h : Bool) → (w && not (t && q)) && not (t && h) ≡ w && not (t && (q || h))
unwatch_later true t q h = ground arith
unwatch_later _ _ _ _ = ground arith

unwatch_absent :
    (w t q h : Bool) → (q ≡ true → w ≡ false) → w && not (t && h) ≡ w && not (t && (q || h))
unwatch_absent true t q h e = ground arith
unwatch_absent false t q h e = ground arith

-- One round of the loop that adds `me` to the watchers of `c`.
module _ (me : ℕ) (m : SectorMap) (c d : AoiSectorCoord) (a : ℕ) where
  abbrev pub joined : SectorMap
  joined =
      let (s, m₁) = get_or_create_sector m c in
      update m₁ c (some (record s { watchers = insert me s.watchers }))

  pub standing-joined : standing joined a d ≡ standing m a d
  unfolding get_or_create_sector standing update contains
  standing-joined = ground (arith, eq_of_beq d c)

  watching-joined : watching joined a d ≡ (watching m a d || a == me && d == c)
  unfolding get_or_create_sector watching update contains
  watching-joined =
      ground
        (arith, eq_of_beq d c, contains-insert a me [], contains-insert a me (watchers_of (m c)))

watch_later : (w t q h : Bool) → (w || t && q || t && h) ≡ (w || t && (q || h))
watch_later true t q h = refl
watch_later false true q h = ground arith
watch_later _ _ _ _ = ground arith

module _ {F : Type 0} (es : EntityMap F) (cb : Bool) (new_set : List AoiSectorCoord)
    (me a : ℕ) where
  pub standing-unwatch_sectors :
      (scs : List AoiSectorCoord) (m : SectorMap) (d : AoiSectorCoord)
      → standing (unwatch_sectors es cb new_set me scs m).0 a d ≡ standing m a d
  unfolding unwatch_sectors
  standing-unwatch_sectors [] m d = refl
  standing-unwatch_sectors (sc ∷ scs) m d = elim (Option-cases (m sc)) [
    | inl e ↦ rw (e, unwatch_sectors) (standing-unwatch_sectors scs m d)
    | inr (s, e) ↦
        rw (e, unwatch_sectors)
          (standing-unwatch_sectors scs (rewatched m sc d s (erase me s.watchers) a) d
            ∙ standing-rewatched m sc d s (erase me s.watchers) a (rw e))
  ]

  pub watching-unwatch_sectors :
      (scs : List AoiSectorCoord) (m : SectorMap) (d : AoiSectorCoord)
      → watching (unwatch_sectors es cb new_set me scs m).0 a d
        ≡ (watching m a d && not (a == me && contains d scs))
  unfolding unwatch_sectors contains
  watching-unwatch_sectors [] m d = ground arith
  watching-unwatch_sectors (sc ∷ scs) m d = elim (Option-cases (m sc)) [
    | inl e ↦
        rw (e, unwatch_sectors)
          (watching-unwatch_sectors scs m d
            ∙ unwatch_absent (watching m a d) (a == me) (d == sc) (contains d scs)
                (λ q. ground (arith, eq_of_beq d sc, watching-none m a sc e)))
    | inr (s, e) ↦
        rw (e, unwatch_sectors)
          (watching-unwatch_sectors scs (unwatched me a m sc d s) d
            ∙ rw (watching-unwatched me a m sc d s e)
                (unwatch_later (watching m a d) (a == me) (d == sc) (contains d scs)))
  ]

  pub standing-watch_sectors :
      (scs : List AoiSectorCoord) (m : SectorMap) (d : AoiSectorCoord)
      → standing (watch_sectors es cb me scs m).0 a d ≡ standing m a d
  unfolding watch_sectors
  standing-watch_sectors [] m d = refl
  standing-watch_sectors (sc ∷ scs) m d =
      standing-watch_sectors scs (joined me m sc d a) d ∙ standing-joined me m sc d a

  pub watching-watch_sectors :
      (scs : List AoiSectorCoord) (m : SectorMap) (d : AoiSectorCoord)
      → watching (watch_sectors es cb me scs m).0 a d
        ≡ (watching m a d || a == me && contains d scs)
  unfolding watch_sectors contains
  watching-watch_sectors [] m d = ground arith
  watching-watch_sectors (sc ∷ scs) m d =
      watching-watch_sectors scs (joined me m sc d a) d
      ∙ rw (watching-joined me m sc d a)
          (watch_later (watching m a d) (a == me) (d == sc) (contains d scs))

module _ (me a : ℕ) where
  pub standing-unsubscribe :
      (scs : List AoiSectorCoord) (m : SectorMap) (d : AoiSectorCoord)
      → standing (unsubscribe me scs m) a d ≡ standing m a d
  unfolding unsubscribe
  standing-unsubscribe [] m d = refl
  standing-unsubscribe (sc ∷ scs) m d = elim (Option-cases (m sc)) [
    | inl e ↦ rw (e, unsubscribe) (standing-unsubscribe scs m d)
    | inr (s, e) ↦
        rw (e, unsubscribe)
          (standing-unsubscribe scs (unwatched me a m sc d s) d
            ∙ standing-rewatched m sc d s (erase me s.watchers) a (rw e))
  ]

  pub watching-unsubscribe :
      (scs : List AoiSectorCoord) (m : SectorMap) (d : AoiSectorCoord)
      → watching (unsubscribe me scs m) a d ≡ (watching m a d && not (a == me && contains d scs))
  unfolding unsubscribe contains
  watching-unsubscribe [] m d = ground arith
  watching-unsubscribe (sc ∷ scs) m d = elim (Option-cases (m sc)) [
    | inl e ↦
        rw (e, unsubscribe)
          (watching-unsubscribe scs m d
            ∙ unwatch_absent (watching m a d) (a == me) (d == sc) (contains d scs)
                (λ q. ground (arith, eq_of_beq d sc, watching-none m a sc e)))
    | inr (s, e) ↦
        rw (e, unsubscribe)
          (watching-unsubscribe scs (unwatched me a m sc d s) d
            ∙ rw (watching-unwatched me a m sc d s e)
                (unwatch_later (watching m a d) (a == me) (d == sc) (contains d scs)))
  ]
