-- ===== src/Aoi/Exact.antt =====
-- The lists of watchers stay exact when entities enter and leave the field.
use mmorpg_server_rl_portfol.Prelude.{
  ℕ, ℤ, nat_eq, ◌==◌, ◌≡◌, ◌∙◌, refl, sym, Bool, true, false, not, ◌&&◌, List, Option, none, some,
  if◌then◌else◌, arith, contains, update, eq_of_beq, beq_refl, inl, inr, Bool-cases, FloatArith,
}
use mmorpg_server_rl_portfol.Aoi.Types.{
  AoiVec2, AoiSectorCoord, coord_eq, enter, Entity, EntityMap, AoiWorld, Sent,
}
use mmorpg_server_rl_portfol.Aoi.Sectors.{enter_sector}
use mmorpg_server_rl_portfol.Aoi.World
use mmorpg_server_rl_portfol.Aoi.World.{broadcast_to_sector_watchers, rebuild_player_subscriptions}
use mmorpg_server_rl_portfol.Aoi.System.{FieldAoiSystem, add_entity, deliver}
use mmorpg_server_rl_portfol.Aoi.Grid.{standing, watching}
use mmorpg_server_rl_portfol.Aoi.Rebuild.{rebuilt, send_cb-rebuilt, new_set, contains-new_set}
use mmorpg_server_rl_portfol.Aoi.Invariant.{
  located, views, IsConsistent, Settles, Settles-IsConsistent,
}
use mmorpg_server_rl_portfol.Aoi.Preserve.{entered_standing, fresh, add_entity-Settles}
use mmorpg_server_rl_portfol.Aoi.Told.{
  told, told-append, record_events-AllNodup, contains-record_events,
}
use mmorpg_server_rl_portfol.Aoi.Sightings.{covers-nil, covers, is_present, Keyed}
use mmorpg_server_rl_portfol.Aoi.Visibility.{sees, IsExact, told-broadcast, told-rebuilt}

module _ {F : Type 0} where
  -- An operation that settles on `o` keeps the lists exact if its events tell the right things
  -- about the pairs that involve `id`, and nothing about the other pairs.
  pub record Tells (s : FieldAoiSystem F) (id : ℕ) (o : Option (Entity F)) (sent : List (Sent F))
      : Type 0 where
    pub others : (w t : ℕ) (b : Bool) → (w == id) ≡ false → (t == id) ≡ false → told w t b sent ≡ b
    pub as_watcher :
        (t : ℕ)
        → (t == id) ≡ false
        → is_present o ≡ true
        → told id t (contains id (s.watchers t)) sent ≡ sees s.aoi.view_radius o (s.aoi.entities t)
    pub as_subject :
        (w : ℕ)
        → (w == id) ≡ false
        → is_present (s.aoi.entities w) ≡ true
        → told w id (contains w (s.watchers id)) sent ≡ sees s.aoi.view_radius (s.aoi.entities w) o

  pub deliver-IsExact :
      (s : FieldAoiSystem F) (id : ℕ) (o : Option (Entity F)) (r : AoiWorld F × List (Sent F))
      → IsExact s
      → Settles s.aoi r.0 id o
      → Tells s id o r.1
      → IsExact (deliver s r).0
  unfolding deliver
  deliver-IsExact s id o (g, sent) v settled tells = record {
    consistent = Settles-IsConsistent s.aoi g id o v.consistent settled;
    send_cb = settled.send_cb ∙ v.send_cb;
    nodup = record_events-AllNodup s.watchers sent v.nodup;
    exact = λ w t here apart.
        contains-record_events w t s.watchers sent v.nodup
        ∙ rw (settled.radius, settled.maps t, settled.maps w)
            (by_case w t apart (rw (settled.maps w) at here));
  }
    where
      by_case :
          (w t : ℕ)
          → (w == t) ≡ false
          → is_present (if w == id then o else s.aoi.entities w) ≡ true
          → told w t (contains w (s.watchers t)) sent
            ≡ sees s.aoi.view_radius
                (if w == id then o else s.aoi.entities w)
                (if t == id then o else s.aoi.entities t)
      by_case w t apart here = elim (Bool-cases (w == id)) [
        | inl same ↦
            let t_other : (t == id) ≡ false = ground (arith, eq_of_beq w id same) in
            rw (same, t_other, eq_of_beq w id same) (tells.as_watcher t t_other (rw same at here))
        | inr other ↦ elim (Bool-cases (t == id)) [
          | inl subject ↦
              rw (other, subject, eq_of_beq t id subject)
                (tells.as_subject w other (rw other at here))
          | inr t_other ↦
              rw (other, t_other)
                (tells.others w t (contains w (s.watchers t)) other t_other
                  ∙ v.exact w t (rw other at here) apart)
        ]
      ]

  pub is_Keyed : (g : AoiWorld F) → IsConsistent g → Keyed g.entities
  is_Keyed g v x o e = (v.owned x o e).0

  pub Keyed-update :
      (es : EntityMap F) (id : ℕ) (e : Entity F)
      → Keyed es
      → e.id ≡ id
      → Keyed (update es id (some e))
  unfolding update
  Keyed-update es id e keyed named x o h = elim (Bool-cases (x == id)) [
    | inl same ↦
        let entity_eq : some e ≡ some o = rw same at h in ground (arith, eq_of_beq x id same)
    | inr other ↦ keyed x o (rw other at h)
  ]

  -- What a player sees is what the set of its view covers.
  pub covers-new_set :
      (g : AoiWorld F) (e : Entity F)
      → e.is_player ≡ true
      → (o : Option (Entity F)) → covers (new_set g e) o ≡ sees g.view_radius (some e) o
  covers-new_set g e player none = refl
  covers-new_set g e player (some o) = contains-new_set g e o.sector ∙ rw player

heard :
    (seen nonzero player covered : Bool)
    → (if seen && not (nonzero && false) then true else if player && false then covered else false)
      ≡ seen
heard true true player covered = refl
heard _ _ _ _ = ground arith

module _ {F : Type 0} where
  -- Only a player sees anything.
  pub idle_sees :
      (r : ℤ) (e : Entity F)
      → e.is_player ≡ false
      → (o : Option (Entity F)) → sees r (some e) o ≡ false
  idle_sees r e idle none = refl
  idle_sees r e idle (some o) = rw idle

module _ (fl : FloatArith) where
  open fl use {F}

  module _ (s : FieldAoiSystem F) (id : ℕ) (v : IsExact s) (x y : F)
      (absent : s.aoi.entities id ≡ none)
      (unknown : (t : ℕ) → contains id (s.watchers t) ≡ false) where
    abbrev here : AoiVec2 F
    here = record { x = x; y = y }

    -- The grid once the entity stands in its sector, before it has subscriptions.
    abbrev entered : Bool → AoiWorld F
    entered is_player = record (s.aoi) {
      entities = update s.aoi.entities id (some (fresh fl s.aoi id v.consistent here is_player));
      sectors =
          enter_sector s.aoi.sectors id (fresh fl s.aoi id v.consistent here is_player).sector;
    }

    abbrev added : Bool → Entity F
    added is_player = fresh fl s.aoi id v.consistent here is_player

    entered_at :
        (t : ℕ) (c : AoiSectorCoord)
        → standing (entered true).sectors t c ≡ located ((entered true).entities t) c
    unfolding update
    entered_at t c =
        entered_standing fl s.aoi id v.consistent here absent true t c
        ∙ elim (Bool-cases (t == id)) [
          | inl same ↦ rw same
          | inr other ↦ rw other (v.consistent.stands t c)
        ]

    -- The events of the rebuild, and then those for the watchers of the sector that was entered.
    told-added :
        (is_player : Bool) (w t : ℕ) (b : Bool)
        → (w == id && not (t == id) ≡ true → b ≡ false)
        → told w t b (World.add_entity fl s.aoi id is_player here).1 ≡ (
            if t == id
              && (watching
                    (World.add_entity fl s.aoi id is_player here).0.sectors
                    w
                    (added is_player).sector
                  && not (not (id == 0) && w == id))
            then true
            else if is_player && (w == id && not (t == id))
            then covers (new_set (entered true) (added true)) ((entered true).entities t)
            else b)
    unfolding World.add_entity
    told-added true w t b before =
        told-append w t (rebuild_player_subscriptions (entered true) (added true)).1
          (broadcast_to_sector_watchers (rebuilt (entered true) (added true)).send_cb
            (rebuilt (entered true) (added true)).sectors (added true).sector
            (World.event_of enter (added true)) id)
          b
        ∙ told-broadcast w t (rebuilt (entered true) (added true)).sectors (added true).sector
            (World.event_of enter (added true)) id
            (told w t b (rebuild_player_subscriptions (entered true) (added true)).1)
            (rebuilt (entered true) (added true)).send_cb
            (send_cb-rebuilt (entered true) (added true) ∙ v.send_cb)
        ∙ rw (
            told-rebuilt (entered true) (added true) w t b v.send_cb
              (Keyed-update s.aoi.entities id (added true) (is_Keyed s.aoi v.consistent) refl)
              (entered_at t) (λ q. before q ∙ sym (covers-nil ((entered true).entities t))))
    told-added false w t b before =
        told-broadcast w t (entered false).sectors (added false).sector
          (World.event_of enter (added false)) id b s.aoi.send_cb v.send_cb

    watched :
        (is_player : Bool) (subs : List AoiSectorCoord) (t : ℕ)
        → (t == id) ≡ false
        → (if is_player && true
            then covers (new_set (entered true) (added true)) ((entered true).entities t)
            else false)
          ≡ sees s.aoi.view_radius
              (some (record (added is_player) { subscribed = subs }))
              (s.aoi.entities t)
    unfolding update
    watched true subs t other =
        rw other (covers-new_set (entered true) (added true) refl (s.aoi.entities t))
    watched false subs t other = sym (
        idle_sees s.aoi.view_radius (record (added false) { subscribed = subs }) refl
          (s.aoi.entities t))

    add_entity-Tells :
        (is_player : Bool) (subs : List AoiSectorCoord)
        → Settles s.aoi
            (World.add_entity fl s.aoi id is_player here).0
            id
            (some (record (added is_player) { subscribed = subs }))
        → Tells s id
            (some (record (added is_player) { subscribed = subs }))
            (World.add_entity fl s.aoi id is_player here).1
    add_entity-Tells is_player subs settled = record {
      others = λ w t b w_other t_other.
          told-added is_player w t b (λ q. ground arith) ∙ rw (t_other, w_other) (ground arith);
      as_watcher = λ t t_other present.
          told-added is_player id t (contains id (s.watchers t)) (λ q. unknown t)
          ∙ rw (t_other, beq_refl id, unknown t) (watched is_player subs t t_other);
      as_subject = λ w w_other present.
          told-added is_player w id (contains w (s.watchers id)) (λ q. ground arith)
          ∙ rw
              (
                beq_refl id,
                w_other,
                settled.watches w (added is_player).sector,
                w_other,
                v.consistent.watches w (added is_player).sector,
                v.exact w id present w_other,
                absent,
              )
              (heard (views s.aoi.view_radius (s.aoi.entities w) (added is_player).sector)
                (not (id == 0)) is_player
                (covers (new_set (entered true) (added true)) ((entered true).entities id)));
    }

    -- An entity that joins the field, under an id that no list of watchers holds, leaves every list
    -- exact: it is told of all that it sees, and those who see it are told of it.
    pub add_entity-IsExact : (is_player : Bool) → IsExact (add_entity fl s id is_player x y).0
    unfolding add_entity
    add_entity-IsExact is_player =
        let (subs, settled) = add_entity-Settles fl s.aoi id v.consistent here absent is_player in
        deliver-IsExact s id _ _ v settled (add_entity-Tells is_player subs settled)
