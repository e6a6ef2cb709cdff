-- ===== src/Worker/Delivery.antt =====
-- What worker/worker.cpp promises of the messages pushed.
use mmorpg_server_rl_portfol.Prelude.{
  ◌≡◌, ◌∙◌, refl, sym, ap, List, [], ◌∷◌, ◌++◌, arith, append_nil, append_assoc,
}
use mmorpg_server_rl_portfol.Worker.Loop.{
  Worker, WorkerAction, starts, stops, pushes, steps, act, act_all, start, stop, push, thread_step,
  step_from, wake, Place, unstarted, at_top, in_wait, ended,
}

module _ {M : Type 0} where
  -- The messages of the pushes, in order.
  abbrev pub pushed : List (WorkerAction M) → List M
  pushed [] = []
  pushed (starts ∷ actions) = pushed actions
  pushed (stops ∷ actions) = pushed actions
  pushed (pushes msg ∷ actions) = msg ∷ pushed actions
  pushed (steps ∷ actions) = pushed actions

  abbrev all_of : Worker M → List M
  all_of w = w.handled ++ w.queue

  all_of-start : (w : Worker M) → all_of (start w) ≡ all_of w
  unfolding start
  all_of-start w = ground arith

  all_of-wake : (w : Worker M) (q : List M) → w.queue ≡ q → all_of (wake w q) ≡ all_of w
  unfolding wake
  all_of-wake w [] same = ground arith
  all_of-wake w (msg ∷ q) same =
      append_assoc w.handled (msg ∷ []) q ∙ ap (◌++◌ w.handled) (sym same)

  all_of-step_from : (w : Worker M) (p : Place) → all_of (step_from w p) ≡ all_of w
  unfolding step_from
  all_of-step_from w unstarted = refl
  all_of-step_from w at_top = refl
  all_of-step_from w in_wait = all_of-wake w w.queue refl
  all_of-step_from w ended = refl

  -- However starts, stops, pushes and steps of the thread are ordered, the messages handled and then
  -- those that wait are those at the start and then those pushed, in order: none is lost, doubled or
  -- overtaken.
  pub act_all-order :
      (w : Worker M) (actions : List (WorkerAction M))
      → (act_all w actions).handled ++ (act_all w actions).queue
        ≡ (w.handled ++ w.queue) ++ pushed actions
  unfolding act_all act thread_step stop push
  act_all-order w [] = sym (append_nil (all_of w))
  act_all-order w (starts ∷ actions) =
      act_all-order (start w) actions ∙ ap (λ ms. ms ++ pushed actions) (all_of-start w)
  act_all-order w (stops ∷ actions) = act_all-order (stop w) actions
  act_all-order w (pushes msg ∷ actions) =
      act_all-order (push w msg) actions
      ∙ ap (λ ms. ms ++ pushed actions) (sym (append_assoc w.handled w.queue (msg ∷ [])))
      ∙ append_assoc (all_of w) (msg ∷ []) (pushed actions)
  act_all-order w (steps ∷ actions) =
      act_all-order (thread_step w) actions
      ∙ ap (λ ms. ms ++ pushed actions) (all_of-step_from w w.place)
