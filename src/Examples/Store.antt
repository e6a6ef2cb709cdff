-- ===== src/Examples/Store.antt =====
-- A storage whose backend answers what it is told to answer.
use mmorpg_server_rl_portfol.Prelude.{
  ℕ, nat_eq, ◌+◌, ◌≡◌, refl, true, false, [], ◌∷◌, length, arith, some, contains, insert, update,
}
use mmorpg_server_rl_portfol.Storage.DirtyHub.{
  DirtyHub, new_hub, mark_dirty, shard_of, steal_all, steal_from, steal_shard,
}
use mmorpg_server_rl_portfol.Storage.DbWorker.{
  DbWorker, job_of, stop_worker, run, run_loop, turn, try_push, pushes, works, stops, do_steps,
  do_step,
}
use mmorpg_server_rl_portfol.Storage.System.{
  Backend, Impl, on_timer, flush_uids, push_batches, push_batch, batch_size, mark_all,
  flush_worker_on_timer, handle_db_job, disconnect_db, close_mysql, close_redis, ensure_connected,
  connect_db, connect_redis, connect_mysql, flush_rt_writes, write_back, fetched, upsert, new_impl,
  push_rt, take_rt, subtract_rt,
}
use mmorpg_server_rl_portfol.Storage.Stealing.{
  is_dirty, IsHub, new_hub-IsHub, mark_dirty-IsHub, steal_all_lem,
}
use mmorpg_server_rl_portfol.Storage.Flushing.{waits_in, waits_in-on_timer}
use mmorpg_server_rl_portfol.Storage.Queue.{IsLog, do_steps-IsLog}
use mmorpg_server_rl_portfol.Storage.Lifecycle.{stop_impl}
use mmorpg_server_rl_portfol.Storage.Lifecycle.Stopping.{worked_off, stop_impl-IsStopped}
use mmorpg_server_rl_portfol.Storage.Connections.{IsPaired, handle_db_job-IsPaired}
use mmorpg_server_rl_portfol.Storage.RealTime.{
  RtState, IsCounted, RtReach-IsCounted, fresh, pushes as pushes_rt, takes, subtracts,
}

-- Everything succeeds, and the outside counts the upserts.
abbrev good_backend : Backend
good_backend = record {
  Outside = ℕ;
  Snapshot = ℕ;
  redis_connect = λ o. (o, some false);
  mysql_init = λ o. (o, true);
  mysql_real_connect = λ o. (o, true);
  redis_free = λ o. o;
  mysql_close = λ o. o;
  fetch_users = λ o uids. (o, some uids);
  upsert_batch = λ o snap. (o + 1, true);
  write_users_rt = λ o snap. (o, true);
}

abbrev two_dirty : DirtyHub
two_dirty = mark_dirty (mark_dirty new_hub 3) 67

two_dirty-IsHub : IsHub two_dirty
two_dirty-IsHub =
    mark_dirty-IsHub (mark_dirty new_hub 3) 67 (mark_dirty-IsHub new_hub 3 new_hub-IsHub)

-- A worker with room for one job.
abbrev tiny_worker : DbWorker
tiny_worker = record { running = true; q = []; max_queue = 1 }

abbrev busy : Impl ℕ ℕ
busy = record {
  started = true;
  max_batch_uids = 1;
  dirty = two_dirty;
  db = tiny_worker;
  redis_ctx = false;
  mysql = false;
  rt_q = [];
  rt_pending = 0;
  outside = 0;
}

storage_code : Unit {0}
unfolding on_timer flush_uids push_batches push_batch batch_size mark_all mark_dirty new_hub
    shard_of steal_all steal_from steal_shard try_push is_dirty contains insert update run run_loop
    turn stop_worker do_steps do_step flush_worker_on_timer
storage_code = tt

steal_all_lem_example :
    (contains 67 (steal_all two_dirty).1 ≡ is_dirty two_dirty 67)
    × (is_dirty (steal_all two_dirty).0 67 ≡ false)
    × IsHub (steal_all two_dirty).0
steal_all_lem_example = steal_all_lem two_dirty 67 two_dirty-IsHub

waits_in-on_timer_example :
    (waits_in (on_timer busy).dirty (on_timer busy).db 67 ≡ waits_in two_dirty tiny_worker 67)
    × IsHub (on_timer busy).dirty
waits_in-on_timer_example = waits_in-on_timer busy 67 two_dirty-IsHub

-- The first user is queued, the second one is marked again.
one_of_each : waits_in (on_timer busy).dirty tiny_worker 67 ≡ true
unfolding storage_code
one_of_each = refl

abbrev two_jobs : DbWorker
two_jobs = record { running = true; q = job_of (3 ∷ []) ∷ job_of (67 ∷ []) ∷ []; max_queue = 360 }

do_steps-IsLog_example : IsLog (
    do_steps
      (record { worker = tiny_worker; handled = []; accepted = [] })
      (pushes (job_of (3 ∷ [])) ∷ pushes (job_of (67 ∷ [])) ∷ works ∷ stops ∷ []))
do_steps-IsLog_example =
    do_steps-IsLog (record { worker = tiny_worker; handled = []; accepted = [] })
      (pushes (job_of (3 ∷ [])) ∷ pushes (job_of (67 ∷ [])) ∷ works ∷ stops ∷ [])
      (record { fifo = refl; bounded = omega arith })

handle_db_job-IsPaired_example : IsPaired (handle_db_job good_backend busy (job_of (3 ∷ [])))
handle_db_job-IsPaired_example = handle_db_job-IsPaired good_backend busy (job_of (3 ∷ [])) refl

abbrev stopped_late : Impl ℕ ℕ
stopped_late = record busy { db = two_jobs }

-- Both jobs are written back; the users that were only marked are not.
stop_impl-IsStopped_example :
    let t = stop_impl good_backend stopped_late in
    (t.outside ≡ (disconnect_db good_backend (worked_off good_backend stopped_late)).outside)
    × (t.db.q ≡ [])
    × (t.redis_ctx ≡ false)
    × (t.mysql ≡ false)
    × (t.dirty ≡ two_dirty)
    × (on_timer t ≡ t)
stop_impl-IsStopped_example = stop_impl-IsStopped good_backend stopped_late refl

two_upserts : (stop_impl good_backend stopped_late).outside ≡ 2
unfolding stop_impl handle_db_job close_mysql close_redis disconnect_db ensure_connected connect_db
    connect_redis connect_mysql flush_rt_writes write_back fetched upsert
two_upserts = refl

-- The worker takes over and subtracts before the counter is raised.
abbrev at_rest : RtState good_backend
at_rest = record {
  self = new_impl good_backend 512 0;
  to_add = 0;
  to_subtract = 0;
  pushed = [];
  taken = [];
}

abbrev one_pushed : RtState good_backend
one_pushed = record at_rest {
  self = push_rt good_backend at_rest.self 5;
  to_add = at_rest.to_add + 1;
  pushed = 5 ∷ [];
}

abbrev one_taken : RtState good_backend
one_taken = record one_pushed {
  self = (take_rt good_backend one_pushed.self).0;
  to_subtract = length (take_rt good_backend one_pushed.self).1;
  taken = (take_rt good_backend one_pushed.self).1;
}

abbrev early_flush : RtState good_backend
early_flush = record one_taken {
  self = subtract_rt good_backend one_taken.self one_taken.to_subtract;
  to_subtract = 0;
}

RtReach-IsCounted_example : IsCounted good_backend early_flush
RtReach-IsCounted_example =
    RtReach-IsCounted good_backend (subtracts (takes refl (pushes_rt 5 (fresh 512 0))))

-- There the counter is below 0.
early_counter : early_flush.self.rt_pending ≡ 4294967295
unfolding push_rt take_rt subtract_rt new_impl
early_counter = refl
