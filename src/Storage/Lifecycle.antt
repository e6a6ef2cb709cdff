-- ===== src/Storage/Lifecycle.antt =====
-- The start and the stop of storage/StorageSystem.cpp and storage/FlushWorkerUv.cpp. The answers of `uv_timer_init` and
-- `uv_timer_start` are arguments, true for 0; the timer itself is left out.
pub mod Stopping
use mmorpg_server_rl_portfol.Prelude.{
  ℕ, suc, Bool, true, false, not, length, ◌&&◌, Option, none, some, if◌then◌else◌,
}
use mmorpg_server_rl_portfol.Storage.DbWorker.{start_worker, stop_worker, run_loop}
use mmorpg_server_rl_portfol.Storage.System.{
  Backend, Impl, FlushWorkerUv, new_impl, close_redis, close_mysql, disconnect_db, handle_db_job,
  enqueue_rt_write,
}

-- `FlushWorkerUv::start` and `stop`.
unfoldable pub start_flush : Bool → Bool → FlushWorkerUv → FlushWorkerUv × Bool
start_flush inited started self =
    if inited && started then (record self { running = true }, true) else (self, false)

unfoldable pub stop_flush : FlushWorkerUv → FlushWorkerUv
stop_flush self = record self { running = false }

module _ (b : Backend) where
  open b use {Outside, Snapshot}

  unfoldable pub start_impl : Bool → Bool → Impl Outside Snapshot → Impl Outside Snapshot × Bool
  unfolding start_worker
  start_impl inited started self =
      let self' = record self { started = true; db = start_worker self.db } in
      if self.started then (self, true) else if not inited then (self', false) else (self', started)

  -- `db.join()`: the thread of the worker, between two turns of `run`, goes on to its end; a turn for
  -- each job that is queued and one to leave are enough.
  unfoldable pub join_db : Impl Outside Snapshot → Impl Outside Snapshot
  unfolding run_loop
  join_db self =
      let (db, (self', left)) =
        run_loop (handle_db_job b) (disconnect_db b) (suc (length self.db.q)) self.db self in
      record self' { db = db }

  unfoldable pub stop_impl : Impl Outside Snapshot → Impl Outside Snapshot
  unfolding join_db stop_worker
  stop_impl self =
      let stopped = record self { started = false; db = stop_worker self.db } in
      let closed = close_mysql b (close_redis b (join_db stopped)) in
      if not self.started then self else closed

  -- The methods of `StorageSystem`, which may have no `impl_`.
  unfoldable pub create : ℕ → Outside → Option (Impl Outside Snapshot)
  create max_batch_uids outside = some (new_impl b max_batch_uids outside)

  unfoldable pub start_storage :
      Bool → Bool → Option (Impl Outside Snapshot) → Option (Impl Outside Snapshot)
  unfolding start_impl
  start_storage inited started none = none
  start_storage inited started (some self) = some (start_impl inited started self).0

  unfoldable pub stop_storage : Option (Impl Outside Snapshot) → Option (Impl Outside Snapshot)
  unfolding stop_impl
  stop_storage none = none
  stop_storage (some self) = some (stop_impl self)

  unfoldable pub enqueue_storage :
      Option (Impl Outside Snapshot) → Snapshot → Option (Impl Outside Snapshot)
  enqueue_storage none s = none
  enqueue_storage (some self) s = some (enqueue_rt_write b self s)
