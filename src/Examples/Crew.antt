-- ===== src/Examples/Crew.antt =====
-- A worker with two messages, a manager with a storage, and a monster on its way.
use mmorpg_server_rl_portfol.Prelude.{
  ℕ, int_eq, pos, ◌≡◌, refl, true, some, none, [], ◌∷◌, ◌++◌, update,
}
use mmorpg_server_rl_portfol.Worker.Loop.{
  new_worker, starts, stops, pushes, steps, act_all, act, start, stop, push, thread_step, step_from,
  wake,
}
use mmorpg_server_rl_portfol.Worker.Delivery.{act_all-order}
use mmorpg_server_rl_portfol.Worker.Registry.{
  FieldManager, create_field, create_found, create_absent, get_field,
}

crew_code : Unit {0}
unfolding new_worker act_all act start stop push thread_step step_from wake create_field
    create_found create_absent get_field update
crew_code = tt

-- The stop comes while the thread waits, and one message stays behind.
act_all-order_example :
    (act_all
        (new_worker {M = ℕ})
        (starts ∷ pushes 8 ∷ steps ∷ stops ∷ pushes 9 ∷ steps ∷ steps ∷ [])).handled
      ++ (act_all
          (new_worker {M = ℕ})
          (starts ∷ pushes 8 ∷ steps ∷ stops ∷ pushes 9 ∷ steps ∷ steps ∷ [])).queue
    ≡ 8 ∷ 9 ∷ []
unfolding new_worker
act_all-order_example =
    act_all-order (new_worker {M = ℕ})
      (starts ∷ pushes 8 ∷ steps ∷ stops ∷ pushes 9 ∷ steps ∷ steps ∷ [])

left_behind :
    (act_all
      (new_worker {M = ℕ})
      (starts ∷ pushes 8 ∷ steps ∷ stops ∷ pushes 9 ∷ steps ∷ steps ∷ [])).queue
    ≡ 9 ∷ []
unfolding crew_code
left_behind = refl

abbrev no_fields : FieldManager
no_fields = record { fields = λ id. none; has_storage = true; fresh = 1 }

one_field : (create_field (create_field no_fields (pos 1000)).0 (pos 1000)).1 ≡ some 1
unfolding crew_code
one_field = refl
