-- ===== src/Aoi/Moves.antt =====
-- `move_entity` and `update_player_aoi` on the abstract view.
use mmorpg_server_rl_portfol.Prelude.{
  ℕ, nat_eq, ◌==◌, ◌≡◌, ◌∙◌, refl, Bool, true, false, not, ◌&&◌, ◌||◌, List, [], some,
  if◌then◌else◌, arith, contains, update, eq_of_beq, inl, inr, Bool-cases, FloatArith,
}
use mmorpg_server_rl_portfol.Aoi.Types.{
  AoiVec2, AoiSectorCoord, coord_eq, Entity, AoiWorld, SectorMap,
}
use mmorpg_server_rl_portfol.Aoi.Sectors.{enter_sector, leave_sector}
use mmorpg_server_rl_portfol.Aoi.World.{move_entity, world_to_sector, rebuild_player_subscriptions}
use mmorpg_server_rl_portfol.Aoi.Grid.{
  standing, watching, standing-enter_sector, watching-enter_sector, standing-leave_sector,
  watching-leave_sector,
}
use mmorpg_server_rl_portfol.Aoi.Invariant.{IsOwned-some, IsConsistent, Settles}
use mmorpg_server_rl_portfol.Aoi.Rebuild.{new_set}
use mmorpg_server_rl_portfol.Aoi.Preserve.{rebuilt-Settles, standing_here, watching_here}

module _ {F : Type 0} (w : AoiWorld F) (id : ℕ) (v : IsConsistent w) where
  module _ (old : Entity F) (here : w.entities id ≡ some old) (c : AoiSectorCoord) where
    -- The sets of sectors after the entity has left its sector for `c`, if that is another.
    abbrev pub crossed : SectorMap
    crossed =
        if not (c == old.sector)
        then enter_sector (leave_sector w.sectors id old.sector) id c
        else w.sectors

    pub crossed-standing :
        (a : ℕ) (d : AoiSectorCoord)
        → standing crossed a d ≡ (if a == id then d == c else standing w.sectors a d)
    crossed-standing a d = elim (Bool-cases (c == old.sector)) [
      | inl stays ↦ rw stays (
          ground
            (arith, eq_of_beq c old.sector stays, eq_of_beq a id, standing_here w id v old here d))
      | inr goes ↦ rw goes (
          standing-enter_sector (leave_sector w.sectors id old.sector) id a c d
          ∙ rw (standing-leave_sector w.sectors id a old.sector d) (elim (Bool-cases (a == id)) [
            | inl same ↦
                rw (same, eq_of_beq a id same, standing_here w id v old here d)
                  (only_new (d == c) (d == old.sector))
            | inr other ↦ rw other (kept (d == c) (d == old.sector) (standing w.sectors a d))
          ]))
    ]
      where
        only_new : (n o : Bool) → (n && true || o && not (o && true)) ≡ n
        only_new true o = refl
        only_new false o = ground arith

        kept : (n o b : Bool) → (n && false || b && not (o && false)) ≡ b
        kept true o b = ground arith
        kept _ o b = ground arith

    pub crossed-watching :
        (a : ℕ) (d : AoiSectorCoord) → watching crossed a d ≡ watching w.sectors a d
    crossed-watching a d = elim (Bool-cases (c == old.sector)) [
      | inl stays ↦ rw stays
      | inr goes ↦ rw goes (
          watching-enter_sector (leave_sector w.sectors id old.sector) id a c d
          ∙ watching-leave_sector w.sectors id a old.sector d)
    ]

module _ (fl : FloatArith) where
  open fl use {F}

  module _ (w : AoiWorld F) (id : ℕ) (v : IsConsistent w) (p : AoiVec2 F) where
    module _ (old : Entity F) (here : w.entities id ≡ some old) where
      -- The entity in its new place, before its subscriptions follow.
      abbrev pub moved : Entity F
      moved = record old { pos = p; sector = world_to_sector fl w.sector_size p }

      -- The world in which it stands there.
      abbrev pub moved_world : AoiWorld F
      moved_world = record w {
        entities = update w.entities id (some moved);
        sectors = crossed w id v old here moved.sector;
      }

      unseen : old.is_player ≡ false → (c : AoiSectorCoord) → contains c old.subscribed ≡ false
      unseen idle c = (v.owned id old here).1 c ∙ rw idle

      watching_moved :
          (a : ℕ) (d : AoiSectorCoord)
          → watching (crossed w id v old here moved.sector) a d
            ≡ (if a == id then contains d old.subscribed else watching w.sectors a d)
      watching_moved a d =
          crossed-watching w id v old here moved.sector a d ∙ elim (Bool-cases (a == id)) [
            | inl same ↦ rw (same, eq_of_beq a id same) (watching_here w id v old here d)
            | inr other ↦ rw other
          ]

      -- The subscriptions of the entity once it has moved.
      abbrev pub subscribed_after : Bool → List AoiSectorCoord
      subscribed_after is_player = if is_player then new_set moved_world moved else old.subscribed

      pub arrived-Settles :
          (is_player : Bool)
          → old.is_player ≡ is_player
          → Settles w
              (if is_player
                then rebuild_player_subscriptions moved_world moved
                else (moved_world, [])).0
              id
              (some (record moved { subscribed = subscribed_after is_player }))
      unfolding update
      arrived-Settles true player =
          rebuilt-Settles w id moved moved_world (v.owned id old here).0 player refl refl
            (λ a. refl) (crossed-standing w id v old here moved.sector) watching_moved
      arrived-Settles false idle = record {
        radius = refl;
        send_cb = refl;
        maps = λ a. refl;
        stands = crossed-standing w id v old here moved.sector;
        watches = λ a c. watching_moved a c ∙ rw (unseen idle c, idle);
        owned =
            IsOwned-some w.view_radius id moved (v.owned id old here).0
              (λ c. unseen idle c ∙ rw idle);
      }

      pub move_entity-Settles :
          Settles w
            (move_entity fl w id p).0
            id
            (some (record moved { subscribed = subscribed_after old.is_player }))
      unfolding move_entity
      move_entity-Settles = rw (here, move_entity) (arrived-Settles old.is_player refl)
