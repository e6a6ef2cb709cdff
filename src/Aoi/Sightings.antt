-- ===== src/Aoi/Sightings.antt =====
-- What a rebuild of a player's subscriptions tells the player.
use mmorpg_server_rl_portfol.Prelude.{
  ℕ, nat_eq, ◌==◌, ◌≡◌, ◌∙◌, refl, Bool, true, false, not, ◌&&◌, ◌||◌, List, [], ◌∷◌, Option, none,
  some, if◌then◌else◌, arith, contains, erase, eq_of_beq, beq_symm, inl, inr, Bool-cases,
  Option-cases,
}
use mmorpg_server_rl_portfol.Aoi.Types.{AoiSectorCoord, Entity, EntityMap, coord_eq, SectorMap}
use mmorpg_server_rl_portfol.Aoi.Sectors.{get_or_create_sector}
use mmorpg_server_rl_portfol.Aoi.World.{
  leave_events, snapshot_events, unwatch_sectors, watch_sectors,
}
use mmorpg_server_rl_portfol.Aoi.Grid.{
  standing, standing-none, standing-some, standing_found, standing-rewatched, standing-joined,
  unwatched, joined,
}
use mmorpg_server_rl_portfol.Aoi.Invariant.{located}
use mmorpg_server_rl_portfol.Aoi.Told.{told, told-append}

module _ {F : Type 0} where
  -- The entity stands in one of the sectors.
  abbrev pub covers : List AoiSectorCoord → Option (Entity F) → Bool
  covers cs none = false
  covers cs (some o) = contains o.sector cs

  -- The entity stands outside the view.
  abbrev pub away : List AoiSectorCoord → Option (Entity F) → Bool
  away cs none = false
  away cs (some o) = not (contains o.sector cs)

  abbrev pub is_present : Option (Entity F) → Bool
  is_present none = false
  is_present (some o) = true

  -- The records of a map carry their keys.
  abbrev pub Keyed : EntityMap F → Type 0
  Keyed es = (x : ℕ) (o : Entity F) → es x ≡ some o → o.id ≡ x

module _ {F : Type 0} (es : EntityMap F) (me w s : ℕ) where
  told-leave_events :
      (new_set : List AoiSectorCoord) (ids : List ℕ) (b : Bool)
      → told w s b (leave_events es new_set me ids)
        ≡ (if w == me && not (s == me) && (contains s ids && away new_set (es s)) then false else b)
  unfolding leave_events told contains
  told-leave_events new_set [] b = ground arith
  told-leave_events new_set (x ∷ ids) b = ground (
    arith,
    eq_of_beq s x,
    told-leave_events new_set ids b,
    told-leave_events new_set ids (if w == me && s == x then false else b),
  )

  told-snapshot_events :
      Keyed es
      → (ids : List ℕ) (b : Bool)
      → told w s b (snapshot_events es me ids)
        ≡ (if w == me && not (s == me) && (contains s ids && is_present (es s)) then true else b)
  unfolding snapshot_events told contains
  told-snapshot_events keyed [] b = ground arith
  told-snapshot_events keyed (x ∷ ids) b = elim (Option-cases (es x)) [
    | inl e ↦
        rw (e, snapshot_events) (ground (arith, eq_of_beq s x, told-snapshot_events keyed ids b))
    | inr (o, e) ↦
        rw (e, snapshot_events)
          (ground (
            arith,
            eq_of_beq s x,
            keyed x o e,
            told-snapshot_events keyed ids b,
            told-snapshot_events keyed ids (if w == me && s == o.id then true else b),
          ))
  ]

module _ {F : Type 0} where
  covers-cons :
      (sc : AoiSectorCoord) (scs : List AoiSectorCoord) (o : Option (Entity F))
      → covers (sc ∷ scs) o ≡ (located o sc || covers scs o)
  unfolding contains
  covers-cons sc scs none = refl
  covers-cons sc scs (some o) = rw (beq_symm o.sector sc)

  pub covers-nil : (o : Option (Entity F)) → covers [] o ≡ false
  unfolding contains
  covers-nil none = refl
  covers-nil (some o) = refl

leave_round :
    (mine here later out b : Bool)
    → (if mine && (later && out) then false else if mine && (here && out) then false else b)
      ≡ (if mine && ((here || later) && out) then false else b)
leave_round true here later out b = ground arith
leave_round _ _ _ _ _ = refl

watch_round :
    {F : Type 0} (mine : Bool) (sc : AoiSectorCoord) (later : Bool) (o : Option (Entity F))
    (b : Bool)
    → (if mine && later then true else if mine && (located o sc && is_present o) then true else b)
      ≡ (if mine && (located o sc || later) then true else b)
watch_round true sc later none b = refl
watch_round true sc later (some o) b = elim (Bool-cases (sc == o.sector)) [
  | inl e ↦ rw e (ground arith)
  | inr e ↦ rw e (ground arith)
]
watch_round _ _ _ _ _ = refl

module _ {F : Type 0} (es : EntityMap F) (me w s : ℕ) where
  abbrev StandsAsMapped : SectorMap → Type 0
  StandsAsMapped m = (c : AoiSectorCoord) → standing m s c ≡ located (es s) c

  pub told-unwatch_sectors :
      (new_set scs : List AoiSectorCoord) (m : SectorMap) (b : Bool)
      → StandsAsMapped m
      → told w s b (unwatch_sectors es true new_set me scs m).1 ≡ (
          if w == me && not (s == me) && (covers scs (es s) && away new_set (es s))
          then false
          else b)
  unfolding unwatch_sectors told
  told-unwatch_sectors new_set [] m b at = rw (covers-nil (es s)) (ground arith)
  told-unwatch_sectors new_set (sc ∷ scs) m b at =
      rw (covers-cons sc scs (es s)) (elim (Option-cases (m sc)) [
        | inl e ↦
            rw (e, unwatch_sectors, ← at sc, standing-none m s sc e)
              (told-unwatch_sectors new_set scs m b at)
        | inr (x, e) ↦
            rw (e, unwatch_sectors)
              (told-append w s (leave_events es new_set me x.entities)
                  (unwatch_sectors es true new_set me scs (unwatched me s m sc sc x)).1 b
                ∙ told-unwatch_sectors new_set scs (unwatched me s m sc sc x)
                    (told w s b (leave_events es new_set me x.entities))
                    (λ c. standing-rewatched m sc c x (erase me x.watchers) s (rw e) ∙ at c)
                ∙ rw
                    (
                      told-leave_events es me w s new_set x.entities b,
                      ← at sc,
                      standing-some m s sc x e,
                    )
                    (leave_round (w == me && not (s == me)) (contains s x.entities)
                      (covers scs (es s)) (away new_set (es s)) b))
      ])

  pub told-watch_sectors :
      Keyed es
      → (scs : List AoiSectorCoord) (m : SectorMap) (b : Bool) → StandsAsMapped m
      → told w s b (watch_sectors es true me scs m).1
        ≡ (if w == me && not (s == me) && covers scs (es s) then true else b)
  unfolding watch_sectors told
  told-watch_sectors keyed [] m b at = rw (covers-nil (es s)) (ground arith)
  told-watch_sectors keyed (sc ∷ scs) m b at = rw (covers-cons sc scs (es s)) (
      told-append w s (snapshot_events es me (get_or_create_sector m sc).0.entities)
        (watch_sectors es true me scs (joined me m sc sc s)).1 b
      ∙ told-watch_sectors keyed scs (joined me m sc sc s)
          (told w s b (snapshot_events es me (get_or_create_sector m sc).0.entities))
          (λ c. standing-joined me m sc c s ∙ at c)
      ∙ rw
          (
            told-snapshot_events es me w s keyed (get_or_create_sector m sc).0.entities b,
            standing_found m s sc,
            at sc,
          )
          (watch_round (w == me && not (s == me)) sc (covers scs (es s)) (es s) b))
