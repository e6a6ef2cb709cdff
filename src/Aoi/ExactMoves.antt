-- ===== src/Aoi/ExactMoves.antt =====
-- The lists of watchers stay exact when entities move and leave the field.
use mmorpg_server_rl_portfol.Prelude.{
  ℕ, nat_eq, ◌==◌, ◌≡◌, ◌∙◌, refl, sym, ap, Bool, true, false, not, ◌&&◌, List, [], ◌++◌, Option,
  none, some, if◌then◌else◌, arith, contains, update, eq_of_beq, beq_refl, beq_symm, inl, inr,
  Bool-cases, FloatArith,
}
use mmorpg_server_rl_portfol.Aoi.Types.{AoiVec2, AoiSectorCoord, coord_eq, Entity, AoiWorld, Sent}
use mmorpg_server_rl_portfol.Aoi.World
use mmorpg_server_rl_portfol.Aoi.World.{
  broadcast_to_sector_watchers, rebuild_player_subscriptions, move_events, send_difference,
  event_of,
}
use mmorpg_server_rl_portfol.Aoi.System.{FieldAoiSystem, move_entity}
use mmorpg_server_rl_portfol.Aoi.Grid.{standing, watching}
use mmorpg_server_rl_portfol.Aoi.Rebuild.{send_cb-rebuilt, new_set}
use mmorpg_server_rl_portfol.Aoi.Invariant.{located, views}
use mmorpg_server_rl_portfol.Aoi.Moves.{
  crossed-standing, moved, moved_world, subscribed_after, arrived-Settles, move_entity-Settles,
}
use mmorpg_server_rl_portfol.Aoi.Told.{told, told-append}
use mmorpg_server_rl_portfol.Aoi.Sightings.{covers}
use mmorpg_server_rl_portfol.Aoi.Visibility.{sees, IsExact, told-rebuilt}
use mmorpg_server_rl_portfol.Aoi.Crossing.{crossing, told-move_events, told-move_events_other}
use mmorpg_server_rl_portfol.Aoi.Exact.{
  Tells, deliver-IsExact, is_Keyed, Keyed-update, covers-new_set, idle_sees,
}

settled_word :
    (changed old new : Bool)
    → (changed ≡ false → old ≡ new)
    → (if new then true else crossing changed old new old) ≡ new
settled_word true true new h = ground arith
settled_word true false new h = ground arith
settled_word false old new h = ground (arith, h refl)

subject_word :
    (subject changed : Bool) {new old before seen_new seen_old : Bool}
    → subject ≡ true
    → new ≡ seen_new
    → old ≡ seen_old
    → before ≡ seen_old
    → (changed ≡ false → seen_old ≡ seen_new)
    → (if subject then if new then true else crossing changed old new before else before) ≡ seen_new
subject_word subject changed {seen_new = seen_new} {seen_old = seen_old} hs hn ho hb stays =
    rw (hs, hn, ho, hb) (settled_word changed seen_old seen_new stays)

sent_if : {A : Type 0} (cb : Bool) → cb ≡ true → (xs : List A) → (if not cb then [] else xs) ≡ xs
sent_if cb on xs = rw on

module _ (fl : FloatArith) where
  open fl use {F}

  module _ (s : FieldAoiSystem F) (id : ℕ) (v : IsExact s) (x y : F) (old : Entity F)
      (here : s.aoi.entities id ≡ some old) where
    abbrev there : AoiVec2 F
    there = record { x = x; y = y }

    abbrev traveller : Entity F
    traveller = moved fl s.aoi id v.consistent there old here

    abbrev departed : AoiWorld F
    departed = moved_world fl s.aoi id v.consistent there old here

    abbrev arrived : Bool → AoiWorld F × List (Sent F)
    arrived is_player =
        if is_player then rebuild_player_subscriptions departed traveller else (departed, [])

    named : old.id ≡ id
    named = (v.consistent.owned id old here).0

    departed_at :
        (t : ℕ) (c : AoiSectorCoord)
        → standing departed.sectors t c ≡ located (departed.entities t) c
    unfolding update
    departed_at t c =
        crossed-standing s.aoi id v.consistent old here traveller.sector t c
        ∙ elim (Bool-cases (t == id)) [
          | inl same ↦ rw same
          | inr other ↦ rw other (v.consistent.stands t c)
        ]

    -- What the player saw is what it had subscribed to.
    covers-subscribed :
        (o : Option (Entity F)) → sees s.aoi.view_radius (some old) o ≡ covers old.subscribed o
    covers-subscribed none = refl
    covers-subscribed (some o) = sym ((v.consistent.owned id old here).1 o.sector)

    told-arrived :
        (is_player : Bool) (w t : ℕ) (b : Bool)
        → (w == old.id && not (t == old.id) ≡ true
            → b ≡ covers old.subscribed (departed.entities t))
        → told w t b (arrived is_player).1 ≡ (
            if is_player && (w == old.id && not (t == old.id))
            then covers (new_set departed traveller) (departed.entities t)
            else b)
    unfolding told
    told-arrived true w t b before =
        told-rebuilt departed traveller w t b v.send_cb
          (Keyed-update s.aoi.entities id traveller (is_Keyed s.aoi v.consistent) named)
          (departed_at t) before
    told-arrived false w t b before = refl

    told_moved :
        (w t : ℕ) (b : Bool)
        → told w t b (World.move_entity fl s.aoi id there).1
          ≡ told w t (told w t b (arrived old.is_player).1) (
              move_events
                (arrived old.is_player).0
                traveller
                old.sector
                (not (traveller.sector == old.sector)))
    unfolding World.move_entity
    told_moved w t b =
        rw (here, World.move_entity)
          (ap (λ sent. told w t b ((arrived old.is_player).1 ++ sent))
              (sent_if s.aoi.send_cb v.send_cb (
                move_events (arrived old.is_player).0 traveller old.sector
                  (not (traveller.sector == old.sector))))
            ∙ told-append w t (arrived old.is_player).1
                (move_events (arrived old.is_player).0 traveller old.sector
                  (not (traveller.sector == old.sector)))
                b)

    abbrev after : Entity F
    after = record traveller {
      subscribed = subscribed_after fl s.aoi id v.consistent there old here old.is_player;
    }

    sees-after :
        (o : Option (Entity F))
        → sees s.aoi.view_radius (some traveller) o ≡ sees s.aoi.view_radius (some after) o
    sees-after none = refl
    sees-after (some o) = refl

    unmoved : (t : ℕ) → (t == id) ≡ false → departed.entities t ≡ s.aoi.entities t
    unfolding update
    unmoved t other = rw other

    knew :
        (t : ℕ)
        → (t == id) ≡ false
        → contains id (s.watchers t) ≡ sees s.aoi.view_radius (some old) (s.aoi.entities t)
    knew t other = v.exact id t (rw here) (beq_symm id t ∙ other) ∙ rw here

    mine : (t : ℕ) → (t == id) ≡ false → (id == old.id && not (t == old.id)) ≡ true
    mine t other = rw (named, beq_refl id, other)

    not_mine : (w t : ℕ) → (w == id) ≡ false → (w == old.id && not (t == old.id)) ≡ false
    not_mine w t other = rw (named, other)

    -- The rebuild tells the others nothing.
    arrived_silent :
        (is_player : Bool) (w t : ℕ) (b : Bool)
        → (w == id) ≡ false
        → told w t b (arrived is_player).1 ≡ b
    arrived_silent is_player w t b other =
        told-arrived is_player w t b (rw (not_mine w t other) (λ q. cc))
        ∙ rw (not_mine w t other) (ground arith)

    watched :
        (is_player : Bool) (t : ℕ)
        → old.is_player ≡ is_player
        → (t == id) ≡ false
        → (if is_player && (id == old.id && not (t == old.id))
            then covers (new_set departed traveller) (departed.entities t)
            else contains id (s.watchers t))
          ≡ sees s.aoi.view_radius (some after) (s.aoi.entities t)
    watched true t player other = rw (mine t other) (
        ap (covers (new_set departed traveller)) (unmoved t other)
        ∙ covers-new_set departed traveller player (s.aoi.entities t)
        ∙ sees-after (s.aoi.entities t))
    watched false t idle other =
        knew t other
        ∙ idle_sees s.aoi.view_radius old idle (s.aoi.entities t)
        ∙ sym (idle_sees s.aoi.view_radius after idle (s.aoi.entities t))

    arrived_cb : (is_player : Bool) → (arrived is_player).0.send_cb ≡ true
    arrived_cb true = send_cb-rebuilt departed traveller ∙ v.send_cb
    arrived_cb false = v.send_cb

    watching-arrived :
        (w : ℕ) (c : AoiSectorCoord)
        → (w == id) ≡ false
        → watching (arrived old.is_player).0.sectors w c
          ≡ views s.aoi.view_radius (s.aoi.entities w) c
    watching-arrived w c other =
        (arrived-Settles fl s.aoi id v.consistent there old here old.is_player refl).watches w c
        ∙ rw other (v.consistent.watches w c)

    same_sector :
        (w : ℕ)
        → not (traveller.sector == old.sector) ≡ false
        → views s.aoi.view_radius (s.aoi.entities w) old.sector
          ≡ views s.aoi.view_radius (s.aoi.entities w) traveller.sector
    same_sector w stays =
        ap (views s.aoi.view_radius (s.aoi.entities w))
          (sym (eq_of_beq traveller.sector old.sector (ground arith)))

    move_entity-Tells : Tells s id (some after) (World.move_entity fl s.aoi id there).1
    move_entity-Tells = record {
      others = λ w t b w_other t_other.
          told_moved w t b
          ∙ told-move_events_other (arrived old.is_player).0 traveller old.sector _ w t _
              (arrived_cb old.is_player) (rw named t_other)
          ∙ arrived_silent old.is_player w t b w_other;
      as_watcher = λ t t_other present.
          told_moved id t _
          ∙ told-move_events_other (arrived old.is_player).0 traveller old.sector _ id t _
              (arrived_cb old.is_player) (rw named t_other)
          ∙ told-arrived old.is_player id t _
              (λ q. knew t t_other ∙ covers-subscribed (s.aoi.entities t) ∙ rw (unmoved t t_other))
          ∙ watched old.is_player t refl t_other;
      as_subject = λ w w_other present.
          told_moved w id _
          ∙ told-move_events (arrived old.is_player).0 traveller old.sector _ w id _
              (arrived_cb old.is_player) (rw named w_other)
          ∙ subject_word (id == old.id) (not (traveller.sector == old.sector))
              (rw named (beq_refl id)) (watching-arrived w traveller.sector w_other)
              (watching-arrived w old.sector w_other)
              (arrived_silent old.is_player w id (contains w (s.watchers id)) w_other
                ∙ v.exact w id present w_other
                ∙ ap (sees s.aoi.view_radius (s.aoi.entities w)) here)
              (same_sector w);
    }

    -- An entity that moves, within a sector or across sectors, leaves every list exact.
    pub move_entity-IsExact : IsExact (move_entity fl s id x y).0
    unfolding move_entity
    move_entity-IsExact =
        deliver-IsExact s id (some after) (World.move_entity fl s.aoi id there) v
          (move_entity-Settles fl s.aoi id v.consistent there old here) move_entity-Tells

  -- A move of an id that is not in the field changes nothing and calls nobody.
  pub move_entity_absent :
      (s : FieldAoiSystem F) (id : ℕ) (x y : F)
      → s.aoi.entities id ≡ none
      → World.move_entity fl s.aoi id (record { x = x; y = y }) ≡ (s.aoi, [])
  unfolding World.move_entity
  move_entity_absent s id x y h = rw (h, World.move_entity)
