-- ===== src/Aoi/Invariant.antt =====
-- The grid against its abstract view, a map from ids to the entity, its sector and its kind:
-- who stands in a sector, and which players watch it, are functions of that map.
use mathlib.Core.Path.{subst}
use mmorpg_server_rl_portfol.Prelude.{
  ℕ, ℤ, nat_eq, ◌==◌, ◌≡◌, ◌∙◌, Bool, false, ◌&&◌, Option, none, some, if◌then◌else◌, contains,
  eq_of_beq, inl, inr, Bool-cases,
}
use mmorpg_server_rl_portfol.Aoi.Types.{AoiSectorCoord, coord_eq, Entity, AoiWorld}
use mmorpg_server_rl_portfol.Aoi.View.{in_view}
use mmorpg_server_rl_portfol.Aoi.Grid.{standing, watching}

module _ {F : Type 0} where
  -- The entity under an id stands in sector `c`.
  abbrev pub located : Option (Entity F) → AoiSectorCoord → Bool
  located none c = false
  located (some e) c = c == e.sector

  -- The entity under an id is a player whose view covers sector `c`.
  abbrev pub views : ℤ → Option (Entity F) → AoiSectorCoord → Bool
  views r none c = false
  views r (some e) c = e.is_player && in_view r e.sector c

  -- What is stored in the record of an entity agrees with the id and with the view.
  abbrev pub IsOwned : ℤ → ℕ → Option (Entity F) → Type 0
  IsOwned r id o =
      (e : Entity F)
      → o ≡ some e
      → (e.id ≡ id)
        × ((c : AoiSectorCoord) → contains c e.subscribed ≡ (e.is_player && in_view r e.sector c))

  pub IsOwned-some :
      (r : ℤ) (id : ℕ) (e : Entity F)
      → e.id ≡ id
      → ((c : AoiSectorCoord) → contains c e.subscribed ≡ (e.is_player && in_view r e.sector c))
      → IsOwned r id (some e)
  IsOwned-some r id e named shown x same =
      let entity_eq : e ≡ x = cc in
      subst
        (λ y.
          (y.id ≡ id)
          × ((c : AoiSectorCoord)
              → contains c y.subscribed ≡ (y.is_player && in_view r y.sector c)))
        entity_eq (named, shown)

  pub record IsConsistent (w : AoiWorld F) : Type 0 where
    pub stands : (id : ℕ) (c : AoiSectorCoord) → standing w.sectors id c ≡ located (w.entities id) c
    pub watches :
        (id : ℕ) (c : AoiSectorCoord)
        → watching w.sectors id c ≡ views w.view_radius (w.entities id) c
    pub owned : (id : ℕ) → IsOwned w.view_radius id (w.entities id)

  -- `w'` is `w` with the entity `id` replaced by `o`, its standing and its watching included, and
  -- nothing else changed.
  pub record Settles (w w' : AoiWorld F) (id : ℕ) (o : Option (Entity F)) : Type 0 where
    pub radius : w'.view_radius ≡ w.view_radius
    pub send_cb : w'.send_cb ≡ w.send_cb
    pub maps : (a : ℕ) → w'.entities a ≡ (if a == id then o else w.entities a)
    pub stands :
        (a : ℕ) (c : AoiSectorCoord)
        → standing w'.sectors a c ≡ (if a == id then located o c else standing w.sectors a c)
    pub watches :
        (a : ℕ) (c : AoiSectorCoord)
        → watching w'.sectors a c
          ≡ (if a == id then views w.view_radius o c else watching w.sectors a c)
    pub owned : IsOwned w.view_radius id o

  pub Settles-IsConsistent :
      (w w' : AoiWorld F) (id : ℕ) (o : Option (Entity F))
      → IsConsistent w
      → Settles w w' id o
      → IsConsistent w'
  Settles-IsConsistent w w' id o v s = record {
    stands = λ a c. elim (Bool-cases (a == id)) [
      | inl same ↦ s.stands a c ∙ rw (same, s.maps a, same)
      | inr other ↦ s.stands a c ∙ rw (other, s.maps a, other) (v.stands a c)
    ];
    watches = λ a c. elim (Bool-cases (a == id)) [
      | inl same ↦ s.watches a c ∙ rw (same, s.maps a, same, s.radius)
      | inr other ↦ s.watches a c ∙ rw (other, s.maps a, other, s.radius) (v.watches a c)
    ];
    owned = λ a. elim (Bool-cases (a == id)) [
      | inl same ↦ rw (s.maps a, same, s.radius, eq_of_beq a id same) s.owned
      | inr other ↦ rw (s.maps a, other, s.radius) (v.owned a)
    ];
  }
