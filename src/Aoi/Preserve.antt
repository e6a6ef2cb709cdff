-- ===== src/Aoi/Preserve.antt =====
-- Each operation of the grid replaces one entity of the abstract view and leaves the others alone.
use mmorpg_server_rl_portfol.Prelude.{
  ℕ, nat_eq, ◌==◌, ◌≡◌, ◌∙◌, refl, sym, Bool, true, false, List, [], none, some, if◌then◌else◌,
  arith, contains, update, eq_of_beq, beq_refl, inl, inr, Bool-cases, FloatArith,
}
use mmorpg_server_rl_portfol.Aoi.Types.{AoiVec2, AoiSectorCoord, coord_eq, Entity, AoiWorld}
use mmorpg_server_rl_portfol.Aoi.Sectors.{enter_sector, leave_sector, unsubscribe}
use mmorpg_server_rl_portfol.Aoi.World.{add_entity, remove_entity, world_to_sector}
use mmorpg_server_rl_portfol.Aoi.Grid.{
  standing, watching, standing-enter_sector, watching-enter_sector, standing-leave_sector,
  watching-leave_sector, standing-unsubscribe, watching-unsubscribe,
}
use mmorpg_server_rl_portfol.Aoi.Rebuild.{
  rebuilt, new_set, contains-new_set, entities-rebuilt, radius-rebuilt, send_cb-rebuilt,
  standing-rebuilt, watching-rebuilt,
}
use mmorpg_server_rl_portfol.Aoi.Invariant.{IsOwned-some, IsConsistent, Settles}

module _ {F : Type 0} (w : AoiWorld F) (id : ℕ) (e : Entity F) where
  -- A world in which entity `id` stands as `e` says and watches what `e` has subscribed to settles,
  -- by a rebuild, on `e` with its view.
  pub rebuilt-Settles :
      (v : AoiWorld F)
      → e.id ≡ id
      → e.is_player ≡ true
      → v.view_radius ≡ w.view_radius
      → v.send_cb ≡ w.send_cb
      → ((a : ℕ) → v.entities a ≡ (if a == id then some e else w.entities a))
      → ((a : ℕ) (c : AoiSectorCoord)
          → standing v.sectors a c ≡ (if a == id then c == e.sector else standing w.sectors a c))
      → ((a : ℕ) (c : AoiSectorCoord)
          → watching v.sectors a c
            ≡ (if a == id then contains c e.subscribed else watching w.sectors a c))
      → Settles w (rebuilt v e) id (some (record e { subscribed = new_set v e }))
  rebuilt-Settles v named player r cb maps stands watches = record {
    radius = radius-rebuilt v e ∙ r;
    send_cb = send_cb-rebuilt v e ∙ cb;
    maps = λ a. entities-rebuilt v e a ∙ elim (Bool-cases (a == id)) [
      | inl same ↦ rw (named, same)
      | inr other ↦ rw (named, other, maps a, other)
    ];
    stands = λ a c. standing-rebuilt v e a c ∙ stands a c;
    watches = λ a c.
        watching-rebuilt v e (λ d. watches e.id d ∙ rw (named, beq_refl id)) a c
        ∙ elim (Bool-cases (a == id)) [
          | inl same ↦ rw (named, same, player, r)
          | inr other ↦ rw (named, other, watches a c, other)
        ];
    owned =
        IsOwned-some w.view_radius id (record e { subscribed = new_set v e }) named
          (λ c. contains-new_set v e c ∙ rw (r, player));
  }

module _ {F : Type 0} (w : AoiWorld F) (id : ℕ) (v : IsConsistent w) where
  module _ (e : Entity F) (here : w.entities id ≡ some e) where
    pub standing_here : (c : AoiSectorCoord) → standing w.sectors id c ≡ (c == e.sector)
    standing_here c = v.stands id c ∙ rw here

    pub watching_here : (c : AoiSectorCoord) → watching w.sectors id c ≡ contains c e.subscribed
    watching_here c = v.watches id c ∙ rw here (sym ((v.owned id e here).1 c))

    left_standing :
        (a : ℕ) (c : AoiSectorCoord)
        → standing (leave_sector w.sectors id e.sector) a c
          ≡ (if a == id then false else standing w.sectors a c)
    left_standing a c =
        standing-leave_sector w.sectors id a e.sector c
        ∙ ground (arith, standing_here c, eq_of_beq a id)

    left_watching :
        (a : ℕ) (c : AoiSectorCoord)
        → watching
            (if e.is_player
              then unsubscribe e.id e.subscribed (leave_sector w.sectors id e.sector)
              else leave_sector w.sectors id e.sector)
            a
            c
          ≡ (if a == id then false else watching w.sectors a c)
    left_watching a c = elim (Bool-cases e.is_player) [
      | inl player ↦ rw player (
          watching-unsubscribe e.id a e.subscribed (leave_sector w.sectors id e.sector) c
          ∙ rw (watching-leave_sector w.sectors id a e.sector c, (v.owned id e here).0)
              (ground (arith, watching_here c, eq_of_beq a id)))
      | inr idle ↦ rw idle (
          watching-leave_sector w.sectors id a e.sector c
          ∙ ground (arith, watching_here c, eq_of_beq a id, (v.owned id e here).1 c))
    ]

    pub remove_entity-Settles : Settles w (remove_entity w id).0 id none
    unfolding remove_entity update
    remove_entity-Settles =
        rw (here, remove_entity)
          (record {
            radius = refl;
            send_cb = refl;
            maps = λ a. refl;
            stands = λ a c. elim (Bool-cases e.is_player) [
              | inl player ↦ rw player (
                  standing-unsubscribe e.id a e.subscribed (leave_sector w.sectors id e.sector) c
                  ∙ left_standing a c)
              | inr idle ↦ rw idle (left_standing a c)
            ];
            watches = left_watching;
            owned = λ x same. cc;
          })

module _ (fl : FloatArith) where
  open fl use {F}

  module _ (w : AoiWorld F) (id : ℕ) (v : IsConsistent w) (p : AoiVec2 F) where
    -- The entity that `add_entity` makes, before it has subscriptions.
    abbrev pub fresh : Bool → Entity F
    fresh is_player = record {
      id = id;
      is_player = is_player;
      pos = p;
      sector = world_to_sector fl w.sector_size p;
      subscribed = [];
    }

    module _ (absent : w.entities id ≡ none) where
      pub entered_standing :
          (is_player : Bool) (a : ℕ) (c : AoiSectorCoord)
          → standing (enter_sector w.sectors id (fresh is_player).sector) a c
            ≡ (if a == id then c == (fresh is_player).sector else standing w.sectors a c)
      entered_standing is_player a c =
          standing-enter_sector w.sectors id a (fresh is_player).sector c
          ∙ elim (Bool-cases (a == id)) [
            | inl same ↦ rw (same, eq_of_beq a id same, v.stands id c, absent) (ground arith)
            | inr other ↦ rw other (ground arith)
          ]

      entered_watching :
          (is_player : Bool) (a : ℕ) (c : AoiSectorCoord)
          → watching (enter_sector w.sectors id (fresh is_player).sector) a c
            ≡ (if a == id then false else watching w.sectors a c)
      entered_watching is_player a c =
          watching-enter_sector w.sectors id a (fresh is_player).sector c
          ∙ elim (Bool-cases (a == id)) [
            | inl same ↦ rw (same, eq_of_beq a id same, v.watches id c, absent)
            | inr other ↦ rw other
          ]

      pub add_entity-Settles :
          (is_player : Bool)
          → (subs : List AoiSectorCoord) × Settles w
              (add_entity fl w id is_player p).0
              id
              (some (record (fresh is_player) { subscribed = subs }))
      unfolding add_entity update contains
      add_entity-Settles true = (
        _,
        rebuilt-Settles w id (fresh true) _ refl refl refl refl (λ a. refl) (entered_standing true)
            (entered_watching true),
      )
      add_entity-Settles false = (
        [],
        record {
          radius = refl;
          send_cb = refl;
          maps = λ a. refl;
          stands = entered_standing false;
          watches = entered_watching false;
          owned = IsOwned-some w.view_radius id (fresh false) refl (λ c. refl);
        },
      )
