-- ===== src/Aoi/System.antt =====
-- field/FieldAoiSystem.cpp: the lists of who watches an entity, kept from the events of the grid,
-- and the filter before the field's send function. An absent entry of `watchers_` is the empty list.
use mmorpg_server_rl_portfol.Prelude.{
  ℕ, nat_eq, ◌==◌, Bool, true, false, ◌&&◌, List, [], ◌∷◌, if◌then◌else◌, insert, update,
  FloatArith, ℤ,
}
use mmorpg_server_rl_portfol.Aoi.Types.{EventType, enter, leave, move, snapshot, AoiWorld, Sent}
use mmorpg_server_rl_portfol.Aoi.World

pub record FieldAoiSystem (F : Type 0) : Type 0 where
  pub field_id : ℤ
  pub aoi : AoiWorld F
  pub has_send_func : Bool
  pub watchers : ℕ → List ℕ
  pub initialized : Bool

-- `vec.erase(std::find(..))`: the first entry that is equal goes.
unfoldable pub erase_first : ℕ → List ℕ → List ℕ
erase_first a [] = []
erase_first a (x ∷ xs) = if a == x then xs else x ∷ erase_first a xs

-- The `switch` on the type of the event, over the entry of the subject.
unfoldable pub record_watcher : EventType → ℕ → List ℕ → List ℕ
unfolding erase_first
record_watcher snapshot w vec = insert w vec
record_watcher enter w vec = insert w vec
record_watcher move w vec = insert w vec
record_watcher leave w vec = erase_first w vec

module _ {F : Type 0} where
  -- The callback that `setup_aoi_callback` installs, run on the calls in order: what is recorded.
  unfoldable pub record_events : (ℕ → List ℕ) → List (Sent F) → ℕ → List ℕ
  unfolding record_watcher
  record_events ws [] = ws
  record_events ws ((w, ev) ∷ sent) =
      record_events (update ws ev.subject_id (record_watcher ev.type w (ws ev.subject_id))) sent

  -- The calls that go on to `sendFunc_`.
  unfoldable pub forwarded : FieldAoiSystem F → List (Sent F) → List (Sent F)
  forwarded s sent = if s.initialized && s.has_send_func then sent else []

  unfoldable pub set_send_func : FieldAoiSystem F → FieldAoiSystem F
  set_send_func s = record s { has_send_func = true; aoi = record (s.aoi) { send_cb = true } }

  unfoldable pub set_initialized : FieldAoiSystem F → Bool → FieldAoiSystem F
  set_initialized s v = record s { initialized = v }

  -- An operation of the grid, with its calls put through the callback.
  unfoldable pub deliver :
      FieldAoiSystem F → AoiWorld F × List (Sent F) → FieldAoiSystem F × List (Sent F)
  unfolding record_events forwarded
  deliver s (w, sent) =
      (record s { aoi = w; watchers = record_events s.watchers sent }, forwarded s sent)

  unfoldable pub remove_entity : FieldAoiSystem F → ℕ → FieldAoiSystem F × List (Sent F)
  unfolding deliver
  remove_entity s id =
      let (s', sent) = deliver s (World.remove_entity s.aoi id) in
      (record s' { watchers = update s'.watchers id [] }, sent)

  -- `for_each_watcher` calls its argument on these, in order.
  unfoldable pub each_watcher : FieldAoiSystem F → ℕ → List ℕ
  each_watcher s subject = s.watchers subject

module _ (fl : FloatArith) where
  open fl use {F}

  -- The constructor.
  unfoldable pub new_system : ℤ → F → ℤ → FieldAoiSystem F
  new_system field_id sector_size view_radius = record {
    field_id = field_id;
    aoi = World.new_world fl sector_size view_radius;
    has_send_func = false;
    watchers = λ id. [];
    initialized = false;
  }

  unfoldable pub add_entity : FieldAoiSystem F → ℕ → Bool → F → F → FieldAoiSystem F × List (Sent F)
  unfolding deliver
  add_entity s id is_player x y =
      deliver s (World.add_entity fl s.aoi id is_player (record { x = x; y = y }))

  unfoldable pub move_entity : FieldAoiSystem F → ℕ → F → F → FieldAoiSystem F × List (Sent F)
  unfolding deliver
  move_entity s id x y = deliver s (World.move_entity fl s.aoi id (record { x = x; y = y }))
