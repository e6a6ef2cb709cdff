-- ===== src/Worker/Loop.antt =====
-- worker/worker.cpp: the queue of messages and the thread that hands them to the callback. The mutex
-- makes a section one step; a message is any type.
use mmorpg_server_rl_portfol.Prelude.{
  ℕ, Bool, true, false, List, [], ◌∷◌, ◌++◌, length, if◌then◌else◌,
}

-- Where the thread stands: not started, before the test of the loop, in the wait, or past the loop.
pub data Place : Type 0 where
  unstarted : Place
  at_top : Place
  in_wait : Place
  ended : Place

-- `name_` is left out; `handled` is what `on_message_` got, in order.
pub record Worker (M : Type 0) : Type 0 where
  pub running : Bool
  pub queue : List M
  pub place : Place
  pub handled : List M

module _ {M : Type 0} where
  unfoldable pub new_worker : Worker M
  new_worker = record { running = false; queue = []; place = unstarted; handled = [] }

  -- `compare_exchange_strong` fails while the worker runs.
  unfoldable pub start : Worker M → Worker M
  start w = if w.running then w else record w { running = true; place = at_top }

  -- The part of `stop` before the join.
  unfoldable pub stop : Worker M → Worker M
  stop w = record w { running = false }

  unfoldable pub push : Worker M → M → Worker M
  push w msg = record w { queue = w.queue ++ msg ∷ [] }

  unfoldable pub get_message_count : Worker M → ℕ
  get_message_count w = length w.queue

  -- The wait ends: a message is taken and handled, or the worker was stopped with none left.
  unfoldable pub wake : Worker M → List M → Worker M
  wake w [] = if w.running then w else record w { place = ended }
  wake w (msg ∷ queue) = record w { queue = queue; place = at_top; handled = w.handled ++ msg ∷ [] }

  -- A step of the thread in `loop`.
  unfoldable pub step_from : Worker M → Place → Worker M
  unfolding wake
  step_from w unstarted = w
  step_from w at_top = record w { place = if w.running then in_wait else ended }
  step_from w in_wait = wake w w.queue
  step_from w ended = w

  unfoldable pub thread_step : Worker M → Worker M
  unfolding step_from
  thread_step w = step_from w w.place

-- What the threads do with a worker, in any order. `stop` joins the thread, so that a later start finds
-- it past the loop.
pub data WorkerAction (M : Type 0) : Type 0 where
  starts : WorkerAction M
  stops : WorkerAction M
  pushes : M → WorkerAction M
  steps : WorkerAction M

module _ {M : Type 0} where
  unfoldable pub act : Worker M → WorkerAction M → Worker M
  unfolding start stop push thread_step
  act w starts = start w
  act w stops = stop w
  act w (pushes msg) = push w msg
  act w steps = thread_step w

  unfoldable pub act_all : Worker M → List (WorkerAction M) → Worker M
  unfolding act
  act_all w [] = w
  act_all w (a ∷ actions) = act_all (act w a) actions
