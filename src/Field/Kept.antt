-- ===== src/Field/Kept.antt =====
-- What the operations of worker/fieldWorker.cpp keep: who is told something, whose points change and
-- how far, and that the storage hears of it.
pub mod Walks
pub mod Fights
pub mod Ticks
pub mod Entries
use mathlib.Core.Path.{subst}
use mmorpg_server_rl_portfol.Prelude.{
  ℕ, nat_eq, ◌==◌, ◌≡◌, ◌∙◌, refl, sym, ap, ◌⊎◌, inl, inr, Bool, Bool-cases, true, false, ◌||◌,
  List, [], ◌∷◌, ◌++◌, Option, none, some, if◌then◌else◌, if_true, if_false, update, eq_of_beq,
  arith, by_test,
}
use mmorpg_server_rl_portfol.Game.Player.{Player, PlayerStat}
use mmorpg_server_rl_portfol.Game.Stats.{IsStat}
use mmorpg_server_rl_portfol.Aoi.Types.{Sent}
use mmorpg_server_rl_portfol.Aoi.System.{FieldAoiSystem}
use mmorpg_server_rl_portfol.Storage.DirtyHub.{mark_dirty}
use mmorpg_server_rl_portfol.Storage.Stealing.{is_dirty, is_dirty-mark_dirty}
use mmorpg_server_rl_portfol.Field.Types.{
  Field, Run, Effect, sends, writes, Packet, UserSnapshot, ◌then◌, done, find_player, put_player,
}
use mmorpg_server_rl_portfol.Field.Sending.{
  send_to, send_events, send_event, in_grid, send_each, send_field_enter, write_player_rt_enqueue,
}

-- Hit points and skill points between 0 and their maxima.
abbrev pub IsSound : Option PlayerStat → Type 0
IsSound o = (st : PlayerStat) → o ≡ some st → IsStat st

module _ {F : Type 0} where
  abbrev pub stat_of : Option (Player F) → Option PlayerStat
  stat_of none = none
  stat_of (some p) = some p.stat

  -- The points of the player object under an id.
  abbrev pub points : Field F → ℕ → Option PlayerStat
  points f id = stat_of (f.objects id)

  -- Only players with a session are sent something.
  pub data IsHeard (online : ℕ → Bool) : List (Effect F) → Type 0 where
    silent : IsHeard online []
    heard_by :
        {id : ℕ} {packet : Packet F} {out : List (Effect F)}
        → online id ≡ true
        → IsHeard online out
        → IsHeard online (sends id packet ∷ out)
    stored :
        {snapshot : UserSnapshot F} {out : List (Effect F)}
        → IsHeard online out
        → IsHeard online (writes snapshot ∷ out)

  pub record Keeps (f : Field F) (r : Run F) : Type 0 where
    pub session : r.0.has_session ≡ f.has_session
    pub heard : IsHeard f.has_session r.1
    pub changed : (id : ℕ) → (points r.0 id ≡ points f id) ⊎ (is_dirty r.0.dirty_hub id ≡ true)
    pub waiting : (id : ℕ) → is_dirty f.dirty_hub id ≡ true → is_dirty r.0.dirty_hub id ≡ true
    pub sound : (id : ℕ) → IsSound (points f id) → IsSound (points r.0 id)

  pub IsHeard-append :
      (online : ℕ → Bool) (xs ys : List (Effect F))
      → IsHeard online xs
      → IsHeard online ys
      → IsHeard online (xs ++ ys)
  IsHeard-append online _ ys silent k = k
  IsHeard-append online _ ys (heard_by h hs) k = heard_by h (IsHeard-append online _ ys hs k)
  IsHeard-append online _ ys (stored hs) k = stored (IsHeard-append online _ ys hs k)

  pub Keeps-done : (f : Field F) → Keeps f (done f)
  Keeps-done f = record {
    session = refl;
    heard = silent;
    changed = λ id. inl refl;
    waiting = λ id h. h;
    sound = λ id h. h;
  }

  -- One operation after another.
  pub Keeps-step :
      (f g h : Field F) (out later : List (Effect F))
      → Keeps f (g, out)
      → Keeps g (h, later)
      → Keeps f (h, out ++ later)
  Keeps-step f g h out later a b = record {
    session = b.session ∙ a.session;
    heard =
        IsHeard-append f.has_session out later a.heard
          (subst (λ o. IsHeard o later) a.session b.heard);
    changed = λ id. elim (b.changed id) [
      | inr marked ↦ inr marked
      | inl same ↦ elim (a.changed id) [
        | inl before ↦ inl (same ∙ before)
        | inr marked ↦ inr (b.waiting id marked)
      ]
    ];
    waiting = λ id marked. b.waiting id (a.waiting id marked);
    sound = λ id ok. b.sound id (a.sound id ok);
  }

  -- What is sent besides.
  pub Keeps-tell :
      (f g : Field F) (out more : List (Effect F))
      → Keeps f (g, out)
      → IsHeard g.has_session more
      → Keeps f (g, out ++ more)
  Keeps-tell f g out more a h = Keeps-step f g g out more a (record {
    session = refl;
    heard = h;
    changed = λ id. inl refl;
    waiting = λ id k. k;
    sound = λ id k. k;
  })

  -- An operation on other members.
  pub Keeps-same :
      (f g : Field F) (out : List (Effect F))
      → g.objects ≡ f.objects
      → g.dirty_hub ≡ f.dirty_hub
      → g.has_session ≡ f.has_session
      → IsHeard f.has_session out
      → Keeps f (g, out)
  Keeps-same f g out objects hub session heard =
      let same = λ (id : ℕ). ap (λ (o : ℕ → Option (Player F)). stat_of (o id)) objects in
      record {
        session = session;
        heard = heard;
        changed = λ id. inl (same id);
        waiting = λ id h. ap (λ d. is_dirty d id) hub ∙ h;
        sound = λ id h. subst IsSound (sym (same id)) h;
      }

  -- A new value of an object with the same points.
  pub Keeps-put :
      (f : Field F) (key : ℕ) (p q : Player F)
      → f.objects key ≡ some p
      → q.stat ≡ p.stat
      → Keeps f (done (put_player f key q))
  unfolding update
  Keeps-put f key p q at stat =
      let same : (id : ℕ) → points (put_player f key q) id ≡ points f id = λ id.
        elim (Bool-cases (id == key)) [
          | inl here ↦
              ap stat_of (if_true (some q) (f.objects id) here)
              ∙ ap some stat
              ∙ sym (ap stat_of (ap f.objects (eq_of_beq id key here) ∙ at))
          | inr there ↦ ap stat_of (if_false (some q) (f.objects id) there)
        ] in
      record {
        session = refl;
        heard = silent;
        changed = λ id. inl (same id);
        waiting = λ id h. h;
        sound = λ id h. subst IsSound (sym (same id)) h;
      }

  pub Keeps-mark :
      (f : Field F) (uid : ℕ) → Keeps f (done (record f { dirty_hub = mark_dirty f.dirty_hub uid }))
  Keeps-mark f uid = record {
    session = refl;
    heard = silent;
    changed = λ id. inl refl;
    waiting = λ id h. is_dirty-mark_dirty f.dirty_hub uid id ∙ ground (arith, h);
    sound = λ id h. h;
  }

  pub IsHeard-send_to :
      (f : Field F) (id : ℕ) (packet : Packet F) → IsHeard f.has_session (send_to f id packet)
  unfolding send_to
  IsHeard-send_to f id packet = elim (Bool-cases (f.has_session id)) [
    | inl online ↦ subst (IsHeard f.has_session) (sym (if_true _ _ online)) (heard_by online silent)
    | inr offline ↦ subst (IsHeard f.has_session) (sym (if_false _ _ offline)) silent
  ]

  pub IsHeard-send_events :
      (f : Field F) (calls : List (Sent F)) → IsHeard f.has_session (send_events f calls)
  unfolding send_events send_event
  IsHeard-send_events f [] = silent
  IsHeard-send_events f ((watcher, ev) ∷ calls) =
      IsHeard-append f.has_session _ (send_events f calls) (IsHeard-send_to f watcher _)
        (IsHeard-send_events f calls)

  pub IsHeard-send_each :
      (f : Field F) (ws : List ℕ) (packet : Packet F)
      → IsHeard f.has_session (send_each f ws packet)
  unfolding send_each
  IsHeard-send_each f [] packet = silent
  IsHeard-send_each f (w ∷ ws) packet =
      IsHeard-append f.has_session _ (send_each f ws packet) (IsHeard-send_to f w packet)
        (IsHeard-send_each f ws packet)

  pub IsHeard-write :
      (f : Field F) (uid : ℕ) (p : Player F)
      → IsHeard f.has_session (write_player_rt_enqueue f uid p)
  unfolding write_player_rt_enqueue
  IsHeard-write f uid p =
      by_test (IsHeard f.has_session) f.has_redis_rt_writer _ _ (stored silent) silent

  pub Keeps-in_grid :
      (f : Field F) (op : FieldAoiSystem F → FieldAoiSystem F × List (Sent F))
      → Keeps f (in_grid f op)
  unfolding in_grid
  Keeps-in_grid f op = Keeps-same f _ _ refl refl refl (IsHeard-send_events f (op f.aoi_system).1)
