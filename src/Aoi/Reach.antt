-- ===== src/Aoi/Reach.antt =====
-- A field's grid over its life: entities join, move and leave, in any order.
use mmorpg_server_rl_portfol.Prelude.{
  ℕ, ℤ, nat_eq, ◌==◌, ◌≡◌, ◌∙◌, refl, sym, Bool, true, false, not, ◌&&◌, none, some, if◌then◌else◌,
  arith, contains, update, eq_of_beq, beq_refl, beq_symm, beq_ne, ◌≢◌, inl, inr, Bool-cases,
  Option-cases, FloatArith,
}
use mmorpg_server_rl_portfol.Aoi.Types.{leave, Entity}
use mmorpg_server_rl_portfol.Aoi.World
use mmorpg_server_rl_portfol.Aoi.World.{broadcast_to_sector_watchers}
use mmorpg_server_rl_portfol.Aoi.System.{
  FieldAoiSystem, new_system, set_send_func, add_entity, move_entity, remove_entity, deliver,
  each_watcher, record_events,
}
use mmorpg_server_rl_portfol.Aoi.Grid.{standing, watching}
use mmorpg_server_rl_portfol.Aoi.Preserve.{remove_entity-Settles}
use mmorpg_server_rl_portfol.Aoi.Told.{told, contains-record_events}
use mmorpg_server_rl_portfol.Aoi.Sightings.{is_present}
use mmorpg_server_rl_portfol.Aoi.Visibility.{sees, IsExact, told-broadcast}
use mmorpg_server_rl_portfol.Aoi.Exact.{Tells, deliver-IsExact, add_entity-IsExact}
use mmorpg_server_rl_portfol.Aoi.ExactMoves.{move_entity-IsExact, move_entity_absent}

gone_word :
    (subject seen nonzero b : Bool)
    → subject ≡ true
    → b ≡ seen
    → (if subject && (seen && not (nonzero && false)) then false else b) ≡ false
gone_word true true nonzero b h k = ground arith
gone_word true false nonzero b h k = k
gone_word false seen nonzero b h k = cc

module _ {F : Type 0} (s : FieldAoiSystem F) (id : ℕ) (v : IsExact s) where
  module _ (e : Entity F) (here : s.aoi.entities id ≡ some e) where
    told_removed :
        (w t : ℕ) (b : Bool)
        → told w t b (World.remove_entity s.aoi id).1 ≡ (
            if t == id && (watching s.aoi.sectors w e.sector && not (not (id == 0) && w == id))
            then false
            else b)
    unfolding World.remove_entity
    told_removed w t b =
        rw (here, World.remove_entity)
          (told-broadcast w t s.aoi.sectors e.sector
            (record { type = leave; subject_id = id; position = e.pos }) id b s.aoi.send_cb
            v.send_cb)

    remove_entity-Tells : Tells s id none (World.remove_entity s.aoi id).1
    remove_entity-Tells = record {
      others = λ w t b w_other t_other. told_removed w t b ∙ rw t_other;
      as_watcher = λ t t_other present. cc;
      as_subject = λ w w_other present.
          told_removed w id (contains w (s.watchers id))
          ∙ rw w_other (
              gone_word (id == id) (watching s.aoi.sectors w e.sector) (not (id == 0))
                (contains w (s.watchers id)) (beq_refl id)
                (v.exact w id present w_other ∙ rw here (sym (v.consistent.watches w e.sector))));
    }

    delivered-IsExact : IsExact (deliver s (World.remove_entity s.aoi id)).0
    delivered-IsExact =
        deliver-IsExact s id none (World.remove_entity s.aoi id) v
          (remove_entity-Settles s.aoi id v.consistent e here) remove_entity-Tells

    removed_here : (World.remove_entity s.aoi id).0.entities id ≡ none
    removed_here = (remove_entity-Settles s.aoi id v.consistent e here).maps id ∙ rw (beq_refl id)

    -- An entity that leaves the field leaves the lists exact for those who stay.
    remove_present-IsExact : IsExact (remove_entity s id).0
    unfolding remove_entity deliver update contains
    remove_present-IsExact = record {
      consistent = delivered-IsExact.consistent;
      send_cb = delivered-IsExact.send_cb;
      nodup = λ t. elim (Bool-cases (t == id)) [
        | inl same ↦ rw same tt
        | inr other ↦ rw other (delivered-IsExact.nodup t)
      ];
      exact = λ w t present apart. elim (Bool-cases (t == id)) [
        | inl same ↦ rw (same, eq_of_beq t id same, removed_here)
        | inr other ↦ rw other (delivered-IsExact.exact w t present apart)
      ];
    }

    -- But the one who left stays in the lists of the others: nothing takes it out.
    pub remove_entity_stale :
        (t : ℕ)
        → (id == t) ≡ false
        → let s' = (remove_entity s id).0 in
          (s'.aoi.entities id ≡ none)
          × (contains id (each_watcher s' t)
              ≡ sees s.aoi.view_radius (s.aoi.entities id) (s.aoi.entities t))
    unfolding remove_entity deliver update each_watcher
    remove_entity_stale t apart = (
      removed_here,
      rw (beq_symm t id ∙ apart) (
          contains-record_events id t s.watchers (World.remove_entity s.aoi id).1 v.nodup
          ∙ told_removed id t (contains id (s.watchers t))
          ∙ rw (beq_symm t id ∙ apart) (v.exact id t (rw here) apart)),
    )

  remove_absent-IsExact : s.aoi.entities id ≡ none → IsExact (remove_entity s id).0
  unfolding remove_entity deliver update contains World.remove_entity record_events
  remove_absent-IsExact absent =
      rw (absent, World.remove_entity)
        (record {
          consistent = v.consistent;
          send_cb = v.send_cb;
          nodup = λ t. elim (Bool-cases (t == id)) [
            | inl same ↦ rw same tt
            | inr other ↦ rw other (v.nodup t)
          ];
          exact = λ w t present apart. elim (Bool-cases (t == id)) [
            | inl same ↦ rw (same, eq_of_beq t id same, absent)
            | inr other ↦ rw other (v.exact w t present apart)
          ];
        })

  -- Whether the entity is in the field or not, a removal leaves the lists exact for those who stay.
  pub remove_entity-IsExact : IsExact (remove_entity s id).0
  remove_entity-IsExact = elim (Option-cases (s.aoi.entities id)) [
    | inl absent ↦ remove_absent-IsExact absent
    | inr (e, here) ↦ remove_present-IsExact e here
  ]

module _ (fl : FloatArith) where
  open fl use {F}

  -- What a field does to its grid. An id joins once: none that the lists still hold joins again.
  pub data Step (s : FieldAoiSystem F) : FieldAoiSystem F → Type 0 where
    joins :
        (id : ℕ) (is_player : Bool) (x y : F)
        → s.aoi.entities id ≡ none
        → ((t : ℕ) → contains id (s.watchers t) ≡ false)
        → Step s (add_entity fl s id is_player x y).0
    moves : (id : ℕ) (x y : F) → Step s (move_entity fl s id x y).0
    leaves : (id : ℕ) → Step s (remove_entity s id).0

  pub data Reach (s : FieldAoiSystem F) : FieldAoiSystem F → Type 0 where
    here : Reach s s
    next : {t u : FieldAoiSystem F} → Reach s t → Step t u → Reach s u

  pub moves-IsExact :
      (s : FieldAoiSystem F) (id : ℕ) (x y : F) → IsExact s → IsExact (move_entity fl s id x y).0
  moves-IsExact s id x y v = elim (Option-cases (s.aoi.entities id)) [
    | inl absent ↦ still absent
    | inr (old, found) ↦ move_entity-IsExact fl s id v x y old found
  ]
    where
      still : s.aoi.entities id ≡ none → IsExact (move_entity fl s id x y).0
      still absent =
          unfold move_entity deliver record_events in rw (move_entity_absent fl s id x y absent) v

  -- Each step keeps the lists of watchers exact.
  pub Step-IsExact : {s t : FieldAoiSystem F} → Step s t → IsExact s → IsExact t
  Step-IsExact {s} (joins id is_player x y absent unknown) v =
      add_entity-IsExact fl s id v x y absent unknown is_player
  Step-IsExact {s} (moves id x y) v = moves-IsExact s id x y v
  Step-IsExact {s} (leaves id) v = remove_entity-IsExact s id v

  pub Reach-keeps_IsExact : {s t : FieldAoiSystem F} → IsExact s → Reach s t → IsExact t
  Reach-keeps_IsExact v here = v
  Reach-keeps_IsExact v (next r st) = Step-IsExact st (Reach-keeps_IsExact v r)

  -- The grid of a new field, with its callback installed.
  unfoldable pub start : ℤ → F → ℤ → FieldAoiSystem F
  start field_id sector_size view_radius =
      set_send_func (new_system fl field_id sector_size view_radius)

  pub start-IsExact :
      (field_id : ℤ) (sector_size : F) (view_radius : ℤ)
      → IsExact (start field_id sector_size view_radius)
  unfolding start set_send_func new_system World.new_world standing watching contains
  start-IsExact field_id sector_size view_radius = record {
    consistent = record { stands = λ id c. refl; watches = λ id c. refl; owned = λ id e same. cc };
    send_cb = refl;
    nodup = λ t. tt;
    exact = λ w t present apart. cc;
  }

  -- In every field that moves, departures and arrivals of ids that are neither in it nor in any list
  -- reach from a new one, for an entity `w` that is in the field and another id `t`: the callback's list
  -- of watchers of `t` holds `w` exactly if `w` is a player and `t` stands in a sector of the square
  -- around the sector of `w`.
  pub Reach-IsExact :
      (field_id : ℤ) (sector_size : F) (view_radius : ℤ) {s : FieldAoiSystem F}
      → Reach (start field_id sector_size view_radius) s
      → (w t : ℕ) → is_present (s.aoi.entities w) ≡ true
      → w ≢ t
      → contains w (each_watcher s t) ≡ sees s.aoi.view_radius (s.aoi.entities w) (s.aoi.entities t)
  unfolding each_watcher
  Reach-IsExact field_id sector_size view_radius r w t present apart =
      (Reach-keeps_IsExact (start-IsExact field_id sector_size view_radius) r).exact w t present
        (beq_ne w t apart)
