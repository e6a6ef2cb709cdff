-- ===== src/Storage/Queue.antt =====
-- What storage/DBWorker.cpp promises of its queue.
use mmorpg_server_rl_portfol.Prelude.{
  ℕ, suc, ◌≤◌, ◌<◌, ◌⊎◌, ◌≡◌, ◌∙◌, refl, sym, ap, inl, inr, Bool, true, false, List, [], ◌∷◌, ◌++◌,
  length, if◌then◌else◌, if_true, if_false, le→leb, lt→leb, arith, append_assoc, length-append,
}
use mathlib.Core.Path.{subst}
use mmorpg_server_rl_portfol.Storage.DbWorker.{
  DbJob, DbWorker, try_push, turn, run, run_loop, WorkerStep, pushes, works, stops, WorkerLog,
  do_step, do_steps, stop_worker,
}

-- A fold over the jobs, front first.
abbrev pub handle_all : {S : Type 0} → (S → DbJob → S) → S → List DbJob → S
handle_all handler s [] = s
handle_all handler s (job ∷ jobs) = handle_all handler (handler s job) jobs

module _ {S : Type 0} (handler : S → DbJob → S) (on_start on_stop : S → S) where
  drains :
      (q : List DbJob) (max : ℕ) (s : S)
      → run_loop handler on_stop
          (suc (length q))
          (record { running = false; q = q; max_queue = max })
          s
        ≡ (
          record { running = false; q = []; max_queue = max },
          (on_stop (handle_all handler s q), true),
        )
  unfolding run_loop
  drains [] max s = refl
  drains (job ∷ q) max s = drains q max (handler s job)

  -- Once it is stopped, the thread handles every job that is still queued, in order, each once,
  -- between its two hooks, and ends with the queue empty: a turn for each job and one to leave are
  -- enough.
  pub run-stopped :
      (w : DbWorker) (s : S)
      → run handler on_stop on_start (suc (length w.q)) (stop_worker w) s
        ≡ (record (stop_worker w) { q = [] }, (on_stop (handle_all handler (on_start s) w.q), true))
  unfolding run stop_worker
  run-stopped w s = drains w.q w.max_queue (on_start s)

-- The jobs handled and then those queued are the jobs accepted, and the queue keeps its bound.
pub record IsLog (l : WorkerLog) : Type 0 where
  pub fifo : l.handled ++ l.worker.q ≡ l.accepted
  pub bounded : length l.worker.q ≤ l.worker.max_queue

pub try_push-full :
    (w : DbWorker) (job : DbJob) → w.max_queue ≤ length w.q → try_push w job ≡ (w, false)
unfolding try_push
try_push-full w job full = if_true _ _ (le→leb _ _ full)

pub try_push-room :
    (w : DbWorker) (job : DbJob)
    → length w.q < w.max_queue
    → try_push w job ≡ (record w { q = w.q ++ job ∷ [] }, true)
unfolding try_push
try_push-room w job room = if_false _ _ (lt→leb _ _ room)

abbrev logged : WorkerLog → DbJob → DbWorker × Bool → WorkerLog
logged l job (w, ok) = record l {
  worker = w;
  accepted = if ok then l.accepted ++ job ∷ [] else l.accepted;
}

pub room_lem : (m n : ℕ) → (m ≤ n) ⊎ (n < m)
room_lem m n = ground arith

pushed-IsLog :
    (l : WorkerLog) (job : DbJob)
    → IsLog l
    → length l.worker.q < l.worker.max_queue
    → IsLog (record l {
      worker = record (l.worker) { q = l.worker.q ++ job ∷ [] };
      accepted = l.accepted ++ job ∷ [];
    })
pushed-IsLog l job ok room = record {
  fifo = sym (append_assoc l.handled l.worker.q (job ∷ [])) ∙ ap (λ js. js ++ job ∷ []) ok.fifo;
  bounded = omega (arith, length-append l.worker.q (job ∷ []));
}

worked-IsLog :
    (running : Bool) (q : List DbJob) (max : ℕ) (handled accepted : List DbJob)
    → handled ++ q ≡ accepted
    → length q ≤ max
    → IsLog (
        do_step
          (record {
            worker = record { running = running; q = q; max_queue = max };
            handled = handled;
            accepted = accepted;
          })
          works)
unfolding do_step turn
worked-IsLog true [] max handled accepted fifo bounded = record { fifo = fifo; bounded = bounded }
worked-IsLog false [] max handled accepted fifo bounded = record { fifo = fifo; bounded = bounded }
worked-IsLog running (job ∷ q) max handled accepted fifo bounded = record {
  fifo = append_assoc handled (job ∷ []) q ∙ fifo;
  bounded = omega arith;
}

do_step-IsLog : (l : WorkerLog) (st : WorkerStep) → IsLog l → IsLog (do_step l st)
unfolding do_step stop_worker
do_step-IsLog l (pushes job) ok = elim (room_lem l.worker.max_queue (length l.worker.q)) [
  | inl full ↦ subst (λ r. IsLog (logged l job r)) (sym (try_push-full l.worker job full)) ok
  | inr room ↦
      subst (λ r. IsLog (logged l job r)) (sym (try_push-room l.worker job room))
        (pushed-IsLog l job ok room)
]
do_step-IsLog l works ok =
    worked-IsLog l.worker.running l.worker.q l.worker.max_queue l.handled l.accepted ok.fifo
      ok.bounded
do_step-IsLog l stops ok = record { fifo = ok.fifo; bounded = ok.bounded }

-- However pushes, turns of the thread and stops are ordered, the jobs go to the handler in the order
-- in which they were accepted, each once, and the queue stays within its bound.
pub do_steps-IsLog : (l : WorkerLog) (steps : List WorkerStep) → IsLog l → IsLog (do_steps l steps)
unfolding do_steps
do_steps-IsLog l [] ok = ok
do_steps-IsLog l (st ∷ steps) ok = do_steps-IsLog (do_step l st) steps (do_step-IsLog l st ok)
