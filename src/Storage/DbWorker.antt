-- ===== src/Storage/DbWorker.antt =====
-- storage/DBWorker.cpp: the bounded queue of jobs and the thread that works on it. The thread's
-- turns and the calls of other threads are steps; the mutex makes each one atomic.
use mmorpg_server_rl_portfol.Prelude.{
  ℕ, zero, suc, Bool, true, false, List, [], ◌∷◌, ◌++◌, length, leb, if◌then◌else◌,
}

-- storage/DBworker/DbJob.h
pub record DbJob : Type 0 where
  pub uids : List ℕ
  pub enqueued_ms : ℕ
  pub batch_id : ℕ

-- A job as `DbJob job; job.uids.assign(..)` makes it.
abbrev pub job_of : List ℕ → DbJob
job_of uids = record { uids = uids; enqueued_ms = 0; batch_id = 0 }

-- `th_` is left out; `handler_`, `on_start_` and `on_stop_` are arguments of the loop.
pub record DbWorker : Type 0 where
  pub running : Bool
  pub q : List DbJob
  pub max_queue : ℕ

unfoldable pub new_worker : DbWorker
new_worker = record { running = false; q = []; max_queue = 360 }

unfoldable pub start_worker : DbWorker → DbWorker
start_worker w = record w { running = true }

unfoldable pub stop_worker : DbWorker → DbWorker
stop_worker w = record w { running = false }

unfoldable pub try_push : DbWorker → DbJob → DbWorker × Bool
try_push w job =
    if leb w.max_queue (length w.q) then (w, false) else (record w { q = w.q ++ job ∷ [] }, true)

-- A turn of the loop of `run`: it waits, leaves, or takes the front job to the handler.
pub data Turn : Type 0 where
  waits : Turn
  leaves : Turn
  takes : DbJob → DbWorker → Turn

unfoldable pub turn : DbWorker → Turn
turn w = elim w.q [
  | [] ↦ if w.running then waits else leaves
  | job ∷ q ↦ takes job (record w { q = q })
]

-- `run` while no other thread acts, over a state that the hooks and the handler change: turns until
-- the loop leaves, or waits for another thread. The last component tells whether it left.
module _ {S : Type 0} (handler : S → DbJob → S) (on_stop : S → S) where
  unfoldable pub run_loop : ℕ → DbWorker → S → DbWorker × (S × Bool)
  unfolding turn
  run_loop zero w s = (w, (s, false))
  run_loop (suc fuel) w s = elim (turn w) [
    | waits ↦ (w, (s, false))
    | leaves ↦ (w, (on_stop s, true))
    | takes job w' ↦ run_loop fuel w' (handler s job)
  ]

  unfoldable pub run : (S → S) → ℕ → DbWorker → S → DbWorker × (S × Bool)
  unfolding run_loop
  run on_start fuel w s = run_loop fuel w (on_start s)

-- What the threads do with a worker, in any order.
pub data WorkerStep : Type 0 where
  pushes : DbJob → WorkerStep
  works : WorkerStep
  stops : WorkerStep

-- The jobs that the handler got, in order, and those that `try_push` accepted.
pub record WorkerLog : Type 0 where
  pub worker : DbWorker
  pub handled : List DbJob
  pub accepted : List DbJob

unfoldable pub do_step : WorkerLog → WorkerStep → WorkerLog
unfolding try_push turn stop_worker
do_step l (pushes job) =
    let (w, ok) = try_push l.worker job in
    record l { worker = w; accepted = if ok then l.accepted ++ job ∷ [] else l.accepted }
do_step l works = elim (turn l.worker) [
  | waits ↦ l
  | leaves ↦ l
  | takes job w ↦ record l { worker = w; handled = l.handled ++ job ∷ [] }
]
do_step l stops = record l { worker = stop_worker l.worker }

unfoldable pub do_steps : WorkerLog → List WorkerStep → WorkerLog
do_steps l [] = l
do_steps l (st ∷ steps) = do_steps (do_step l st) steps
