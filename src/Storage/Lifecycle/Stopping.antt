-- ===== src/Storage/Lifecycle/Stopping.antt =====
-- What the stop of storage/StorageSystem.cpp leaves.
use mmorpg_server_rl_portfol.Prelude.{
  ℕ, ◌≡◌, ◌∙◌, refl, sym, ap, Bool, true, false, not, ◌&&◌, by_test, List, [], ◌∷◌, Option, none,
  some, is_empty, if_true, if_false, arith,
}
use mathlib.Core.Path.{subst}
use mmorpg_server_rl_portfol.Storage.DirtyHub.{DirtyHub}
use mmorpg_server_rl_portfol.Storage.DbWorker.{DbJob, DbWorker, stop_worker, run}
use mmorpg_server_rl_portfol.Storage.Queue.{handle_all, run-stopped}
use mmorpg_server_rl_portfol.Storage.System.{
  Backend, Impl, close_redis, close_mysql, disconnect_db, connect_mysql, connect_redis, connect_db,
  ensure_connected, flush_rt_writes, take_rt, subtract_rt, write_rt, upsert, fetched, write_back,
  handle_db_job, on_timer,
}
use mmorpg_server_rl_portfol.Storage.Lifecycle.{join_db, stop_impl}

module _ (b : Backend) where
  open b use {Outside, Snapshot}

  -- What no work on the connections changes.
  abbrev frame : Impl Outside Snapshot → DirtyHub × (DbWorker × Bool)
  frame s = (s.dirty, (s.db, s.started))

  frame-close_redis : (s : Impl Outside Snapshot) → frame (close_redis b s) ≡ frame s
  unfolding close_redis
  frame-close_redis s = ground arith

  frame-close_mysql : (s : Impl Outside Snapshot) → frame (close_mysql b s) ≡ frame s
  unfolding close_mysql
  frame-close_mysql s = ground arith

  frame-disconnect_db : (s : Impl Outside Snapshot) → frame (disconnect_db b s) ≡ frame s
  unfolding disconnect_db
  frame-disconnect_db s = frame-close_mysql (close_redis b s) ∙ frame-close_redis s

  Framed : Impl Outside Snapshot → Impl Outside Snapshot → Type 0
  Framed s t = frame t ≡ frame s

  frame-connect_mysql : (s : Impl Outside Snapshot) → Framed s (connect_mysql b s)
  unfolding connect_mysql Framed
  frame-connect_mysql s =
      by_test (Framed s) (not (b.mysql_init s.outside).1) _ _ (frame-disconnect_db _) (
        by_test (Framed s) (not (b.mysql_real_connect (b.mysql_init s.outside).0).1) _ _
          (frame-disconnect_db _) refl)

  frame-connect_redis :
      (s : Impl Outside Snapshot) (answer : Option Bool) → Framed s (connect_redis b s answer)
  unfolding connect_redis Framed
  frame-connect_redis s none = refl
  frame-connect_redis s (some true) = refl
  frame-connect_redis s (some false) = frame-connect_mysql (record s { redis_ctx = true })

  frame-connect_db : (s : Impl Outside Snapshot) → Framed s (connect_db b s)
  unfolding connect_db Framed
  frame-connect_db s =
      by_test (Framed s) (s.redis_ctx && s.mysql) _ _ refl
        (frame-connect_redis (record s { outside = (b.redis_connect s.outside).0 }) _)

  frame-ensure_connected : (s : Impl Outside Snapshot) → Framed s (ensure_connected b s).0
  unfolding ensure_connected Framed
  frame-ensure_connected s =
      by_test (λ (r : Impl Outside Snapshot × Bool). Framed s r.0) (s.redis_ctx && s.mysql) _ _ refl
        (frame-connect_db (disconnect_db b s) ∙ frame-disconnect_db s)

  frame-flush_rt_writes : (s : Impl Outside Snapshot) → Framed s (flush_rt_writes b s)
  unfolding flush_rt_writes write_rt subtract_rt take_rt Framed
  frame-flush_rt_writes s = by_test (Framed s) (is_empty s.rt_q) _ _ refl (
      by_test (Framed s) (not s.redis_ctx) _ _ refl
        (by_test (Framed s) (not _) _ _ (frame-disconnect_db _) refl))

  frame-fetched :
      (s : Impl Outside Snapshot) (answer : Option (List Snapshot)) → Framed s (fetched b s answer)
  unfolding fetched upsert Framed
  frame-fetched s none = frame-disconnect_db s
  frame-fetched s (some snap) =
      by_test (Framed s) (is_empty snap) _ _ refl
        (by_test (Framed s) (not _) _ _ (frame-disconnect_db _) refl)

  frame-write_back : (s : Impl Outside Snapshot) (uids : List ℕ) → Framed s (write_back b s uids)
  unfolding write_back Framed
  frame-write_back s uids =
      by_test (Framed s) (is_empty uids) _ _ refl
        (frame-fetched (record s { outside = (b.fetch_users s.outside uids).0 }) _)

  frame-handle_db_job : (s : Impl Outside Snapshot) (job : DbJob) → Framed s (handle_db_job b s job)
  unfolding handle_db_job Framed
  frame-handle_db_job s job =
      let first = (ensure_connected b s).0 in
      let flushed = flush_rt_writes b first in
      let second = (ensure_connected b flushed).0 in
      let up = frame-ensure_connected s in
      let still = frame-ensure_connected flushed ∙ (frame-flush_rt_writes first ∙ up) in
      by_test (Framed s) (not (ensure_connected b s).1) first _ up (
        by_test (Framed s) (not (ensure_connected b flushed).1) second
          (write_back b second job.uids) still (frame-write_back second job.uids ∙ still))

  frame-handle_all :
      (jobs : List DbJob) (s : Impl Outside Snapshot)
      → Framed s (handle_all (handle_db_job b) s jobs)
  unfolding Framed
  frame-handle_all [] s = refl
  frame-handle_all (job ∷ jobs) s =
      frame-handle_all jobs (handle_db_job b s job) ∙ frame-handle_db_job s job

  -- The state in which the thread goes on, and what it has done before its last hook.
  abbrev pub stopping : Impl Outside Snapshot → Impl Outside Snapshot
  stopping s = record s {
    started = false;
    db = record { running = false; q = s.db.q; max_queue = s.db.max_queue };
  }

  abbrev pub worked_off : Impl Outside Snapshot → Impl Outside Snapshot
  worked_off s = handle_all (handle_db_job b) (stopping s) s.db.q

  joined : Impl Outside Snapshot → Impl Outside Snapshot
  joined s = record (disconnect_db b (worked_off s)) {
    db = record { running = false; q = []; max_queue = s.db.max_queue };
  }

  join_db-stopping : (s : Impl Outside Snapshot) → join_db b (stopping s) ≡ joined s
  unfolding join_db run joined stop_worker
  join_db-stopping s =
      ap (λ (r : DbWorker × (Impl Outside Snapshot × Bool)). record (r.1.0) { db = r.0 })
        (run-stopped (handle_db_job b) (λ t. t) (disconnect_db b) s.db (stopping s))

  close_redis-closed : (s : Impl Outside Snapshot) → s.redis_ctx ≡ false → close_redis b s ≡ s
  unfolding close_redis
  close_redis-closed s off = if_false _ s off

  close_mysql-closed : (s : Impl Outside Snapshot) → s.mysql ≡ false → close_mysql b s ≡ s
  unfolding close_mysql
  close_mysql-closed s off = if_false _ s off

  disconnect_db-closed :
      (s : Impl Outside Snapshot)
      → ((disconnect_db b s).redis_ctx ≡ false) × ((disconnect_db b s).mysql ≡ false)
  unfolding disconnect_db close_redis close_mysql
  disconnect_db-closed s = ground arith

  stop_impl-joined : (s : Impl Outside Snapshot) → s.started ≡ true → stop_impl b s ≡ joined s
  unfolding stop_impl stop_worker joined
  stop_impl-joined s on =
      let off : not s.started ≡ false = ground arith in
      let (no_redis, no_mysql) = disconnect_db-closed (worked_off s) in
      if_false s _ off
      ∙ ap (λ t. close_mysql b (close_redis b t)) (join_db-stopping s)
      ∙ ap (close_mysql b) (close_redis-closed (joined s) no_redis)
      ∙ close_mysql-closed (joined s) no_mysql

  -- A storage that was started and is stopped has handed every queued job to the handler, in order,
  -- then closed both connections, and its queue is empty. The users that were only marked stay marked,
  -- and no later tick of the timer passes them on.
  pub stop_impl-IsStopped :
      (s : Impl Outside Snapshot)
      → s.started ≡ true
      → let t = stop_impl b s in
        (t.outside ≡ (disconnect_db b (worked_off s)).outside)
        × (t.db.q ≡ [])
        × (t.redis_ctx ≡ false)
        × (t.mysql ≡ false)
        × (t.dirty ≡ s.dirty)
        × (on_timer t ≡ t)
  unfolding joined on_timer Framed
  stop_impl-IsStopped s on =
      let (no_redis, no_mysql) = disconnect_db-closed (worked_off s) in
      let same = frame-disconnect_db (worked_off s) ∙ frame-handle_all s.db.q (stopping s) in
      subst
        (λ (t : Impl Outside Snapshot).
          (t.outside ≡ (disconnect_db b (worked_off s)).outside)
          × (t.db.q ≡ [])
          × (t.redis_ctx ≡ false)
          × (t.mysql ≡ false)
          × (t.dirty ≡ s.dirty)
          × (on_timer t ≡ t))
        (sym (stop_impl-joined s on))
        (
          refl,
          refl,
          no_redis,
          no_mysql,
          ap (λ (f : DirtyHub × (DbWorker × Bool)). f.0) same,
          if_true _ _ (ap (λ (f : DirtyHub × (DbWorker × Bool)). not f.1.1) same),
        )
