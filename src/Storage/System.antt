-- ===== src/Storage/System.antt =====
-- storage/StorageSystem.cpp and FlushWorkerUv.cpp. Redis and MySQL are third parties: what their
-- clients answer is a parameter. A handle is whether it is open.
use mmorpg_server_rl_portfol.Prelude.{
  ℕ, zero, suc, ◌+◌, ◌-◌, ◌%◌, ◌^◌, Bool, true, false, not, ◌&&◌, List, [], ◌∷◌, ◌++◌, length, take,
  drop, ltb, is_empty, if◌then◌else◌, Option, none, some,
}
use mmorpg_server_rl_portfol.Storage.DirtyHub.{DirtyHub, new_hub, mark_dirty, steal_all}
use mmorpg_server_rl_portfol.Storage.DbWorker.{DbJob, job_of, DbWorker, new_worker, try_push}

-- What the clients of Redis and MySQL answer, over a state of the outside: connections, the fetch of
-- snapshots, the batch upsert and the write of real-time fields. A snapshot is a type of its own.
pub record Backend : Type 1 where
  pub Outside : Type 0
  pub Snapshot : Type 0
  -- none: no context; some err: a context with its error flag
  pub redis_connect : Outside → Outside × Option Bool
  pub mysql_init : Outside → Outside × Bool
  pub mysql_real_connect : Outside → Outside × Bool
  pub redis_free : Outside → Outside
  pub mysql_close : Outside → Outside
  pub fetch_users : Outside → List ℕ → Outside × Option (List Snapshot)
  pub upsert_batch : Outside → List Snapshot → Outside × Bool
  pub write_users_rt : Outside → List Snapshot → Outside × Bool

-- `StorageSystem::Impl`: `loop`, `timer`, the mutex and the reused buffers are left out, and of the
-- configuration only `storage.max_batch_uids` stays.
pub record Impl (Outside Snapshot : Type 0) : Type 0 where
  pub started : Bool
  pub max_batch_uids : ℕ
  pub dirty : DirtyHub
  pub db : DbWorker
  pub redis_ctx : Bool
  pub mysql : Bool
  pub rt_q : List Snapshot
  pub rt_pending : ℕ
  pub outside : Outside

-- `for (k = i; k < end; ++k) dirty.mark_dirty(uids[k])`
unfoldable pub mark_all : DirtyHub → List ℕ → DirtyHub
mark_all hub [] = hub
mark_all hub (uid ∷ uids) = mark_all (mark_dirty hub uid) uids

-- `std::max<std::size_t>(1, max_batch_uids)`
unfoldable pub batch_size : ℕ → ℕ
batch_size zero = 1
batch_size (suc n) = suc n

-- One batch: a job for the worker, or its uids marked again when the queue is full.
unfoldable pub push_batch : DirtyHub → DbWorker → List ℕ → DirtyHub × DbWorker
unfolding mark_all
push_batch dirty db uids =
    let (db', ok) = try_push db (job_of uids) in (if ok then dirty else mark_all dirty uids, db')

-- The loop over the uids from an index on. A turn moves the index by at least one, so a turn for
-- each uid is enough.
unfoldable pub push_batches : ℕ → ℕ → List ℕ → ℕ → DirtyHub → DbWorker → DirtyHub × DbWorker
push_batches zero max_batch uids i dirty db = (dirty, db)
push_batches (suc fuel) max_batch uids i dirty db =
    let end = if ltb (length uids) (i + max_batch) then length uids else i + max_batch in
    let (dirty', db') = push_batch dirty db (take (end - i) (drop i uids)) in
    let rest = push_batches fuel max_batch uids (i + max_batch) dirty' db' in
    if ltb i (length uids) then rest else (dirty, db)

module _ {O S : Type 0} where
  -- `on_timer` once the uids are stolen.
  unfoldable pub flush_uids : Impl O S → List ℕ → Impl O S
  flush_uids self [] =
      if ltb 0 self.rt_pending then record self { db = (try_push self.db (job_of [])).0 } else self
  flush_uids self (uid ∷ uids) =
      let all = uid ∷ uids in
      let (dirty, db) =
        push_batches (length all) (batch_size self.max_batch_uids) all 0 self.dirty self.db in
      record self { dirty = dirty; db = db }

  unfoldable pub on_timer : Impl O S → Impl O S
  unfolding flush_uids
  on_timer self =
      let (dirty, uids) = steal_all self.dirty in
      let flushed = flush_uids (record self { dirty = dirty }) uids in
      if not self.started then self else flushed

-- `FlushWorkerUv`: `running_`, and the `on_timer` of the same set and worker.
pub record FlushWorkerUv : Type 0 where
  pub running : Bool
  pub hub : DirtyHub
  pub db : DbWorker

unfoldable pub flush_worker_on_timer : FlushWorkerUv → FlushWorkerUv
flush_worker_on_timer self =
    let (hub, uids) = steal_all self.hub in
    let stolen = record self { hub = hub } in
    let pushed = record stolen { db = (try_push self.db (job_of uids)).0 } in
    if not self.running then self else if is_empty uids then stolen else pushed

module _ (b : Backend) where
  open b use {Outside, Snapshot}

  -- The constructor.
  unfoldable pub new_impl : ℕ → Outside → Impl Outside Snapshot
  new_impl max_batch_uids outside = record {
    started = false;
    max_batch_uids = max_batch_uids;
    dirty = new_hub;
    db = new_worker;
    redis_ctx = false;
    mysql = false;
    rt_q = [];
    rt_pending = 0;
    outside = outside;
  }

  unfoldable pub close_redis : Impl Outside Snapshot → Impl Outside Snapshot
  close_redis self =
      if self.redis_ctx
      then record self { redis_ctx = false; outside = b.redis_free self.outside }
      else self

  unfoldable pub close_mysql : Impl Outside Snapshot → Impl Outside Snapshot
  close_mysql self =
      if self.mysql
      then record self { mysql = false; outside = b.mysql_close self.outside }
      else self

  unfoldable pub disconnect_db : Impl Outside Snapshot → Impl Outside Snapshot
  disconnect_db self = close_mysql (close_redis self)

  -- `connect_db` once Redis answered: a failed `mysql_init` or `mysql_real_connect` closes both.
  unfoldable pub connect_mysql : Impl Outside Snapshot → Impl Outside Snapshot
  connect_mysql self =
      let (outside, made) = b.mysql_init self.outside in
      let self' = record self { mysql = made; outside = outside } in
      let (outside', connected) = b.mysql_real_connect outside in
      let self'' = record self' { outside = outside' } in
      if not made
      then disconnect_db self'
      else if not connected
      then disconnect_db self''
      else self''

  -- `connect_db` by the answer of `redisConnectWithTimeout`.
  unfoldable pub connect_redis : Impl Outside Snapshot → Option Bool → Impl Outside Snapshot
  connect_redis self none = record self { redis_ctx = false }
  connect_redis self (some true) = record self {
    redis_ctx = false;
    outside = b.redis_free self.outside;
  }
  connect_redis self (some false) = connect_mysql (record self { redis_ctx = true })

  unfoldable pub connect_db : Impl Outside Snapshot → Impl Outside Snapshot
  connect_db self =
      let (outside, answer) = b.redis_connect self.outside in
      let self' = connect_redis (record self { outside = outside }) answer in
      if self.redis_ctx && self.mysql then self else self'

  unfoldable pub ensure_connected : Impl Outside Snapshot → Impl Outside Snapshot × Bool
  ensure_connected self =
      let self' = connect_db (disconnect_db self) in
      if self.redis_ctx && self.mysql then (self, true) else (self', self'.redis_ctx && self'.mysql)

  -- `flush_rt_writes` under the lock: what it takes over, and the queue left empty.
  unfoldable pub take_rt : Impl Outside Snapshot → Impl Outside Snapshot × List Snapshot
  take_rt self = (record self { rt_q = [] }, self.rt_q)

  -- `rt_pending_.fetch_sub` and `fetch_add`, of 32 bits.
  unfoldable pub subtract_rt : Impl Outside Snapshot → ℕ → Impl Outside Snapshot
  subtract_rt self n = record self {
    rt_pending = (self.rt_pending + (2 ^ 32 - n % 2 ^ 32)) % 2 ^ 32;
  }

  unfoldable pub write_rt : Impl Outside Snapshot → List Snapshot → Impl Outside Snapshot
  write_rt self rt_local =
      let (outside, ok) = b.write_users_rt self.outside rt_local in
      let self' = record self { outside = outside } in
      if not self.redis_ctx then self else if not ok then disconnect_db self' else self'

  unfoldable pub flush_rt_writes : Impl Outside Snapshot → Impl Outside Snapshot
  flush_rt_writes self =
      let (self', rt_local) = take_rt self in
      if is_empty self.rt_q then self else write_rt (subtract_rt self' (length rt_local)) rt_local

  unfoldable pub push_rt : Impl Outside Snapshot → Snapshot → Impl Outside Snapshot
  push_rt self s = record self { rt_q = self.rt_q ++ s ∷ [] }

  unfoldable pub add_rt : Impl Outside Snapshot → Impl Outside Snapshot
  add_rt self = record self { rt_pending = (self.rt_pending + 1) % 2 ^ 32 }

  unfoldable pub enqueue_rt_write : Impl Outside Snapshot → Snapshot → Impl Outside Snapshot
  enqueue_rt_write self s = add_rt (push_rt self s)

  -- `handle_db_job` after the fetch.
  unfoldable pub upsert : Impl Outside Snapshot → List Snapshot → Impl Outside Snapshot
  upsert self snap =
      let (outside, ok) = b.upsert_batch self.outside snap in
      let self' = record self { outside = outside } in
      if is_empty snap then self else if not ok then disconnect_db self' else self'

  unfoldable pub fetched : Impl Outside Snapshot → Option (List Snapshot) → Impl Outside Snapshot
  fetched self none = disconnect_db self
  fetched self (some snap) = upsert self snap

  unfoldable pub write_back : Impl Outside Snapshot → List ℕ → Impl Outside Snapshot
  write_back self uids =
      let (outside, answer) = b.fetch_users self.outside uids in
      let self' = fetched (record self { outside = outside }) answer in
      if is_empty uids then self else self'

  unfoldable pub handle_db_job : Impl Outside Snapshot → DbJob → Impl Outside Snapshot
  handle_db_job self job =
      let (first, up) = ensure_connected self in
      let (second, still) = ensure_connected (flush_rt_writes first) in
      if not up then first else if not still then second else write_back second job.uids
