-- ===== src/Worker/Hub.antt =====
-- The game worker of worker/worker.cpp and the stop of worker/workerManager.cpp. A worker is known by
-- a number for its address, and `make_shared` gives an address that is passed in.
use mmorpg_server_rl_portfol.Prelude.{
  ℕ, nat_eq, ◌==◌, ◌≡◌, ◌∙◌, refl, sym, ap, inl, inr, Bool, Bool-cases, true, false, List, [], ◌∷◌,
  contains, Option, none, some, update, beq_refl, eq_of_beq, arith,
}
use mathlib.Core.Path.{subst}
use mmorpg_server_rl_portfol.Worker.Registry.{insert_worker, insert_found, get_worker}
use mmorpg_server_rl_portfol.Worker.Loop.{Worker, new_worker, start, stop, push}

-- `WorkerManager::workers_`, by the number of a name, and the workers by address.
pub record Hub (M : Type 0) : Type 0 where
  pub workers : ℕ → Option ℕ
  pub objects : ℕ → Worker M

-- `GAME_WORKER_NAME`
abbrev pub game_worker_name : ℕ
game_worker_name = 0

module _ {M : Type 0} where
  unfoldable pub get_game_worker : Hub M → Option ℕ
  unfolding get_worker
  get_game_worker hub = get_worker hub.workers game_worker_name

  -- `CreateGameWorker` from what `insert` gave.
  unfoldable pub start_inserted : Hub M → ℕ → (ℕ → Option ℕ) × Bool → Hub M × Bool
  unfolding start
  start_inserted hub addr (workers, false) = (hub, false)
  start_inserted hub addr (workers, true) =
      (record { workers = workers; objects = update hub.objects addr (start new_worker) }, true)

  -- `CreateGameWorker`, by what `get` found.
  unfoldable pub create_unless : Hub M → ℕ → Option ℕ → Hub M × Bool
  unfolding insert_worker start_inserted
  create_unless hub addr (some worker) = (hub, true)
  create_unless hub addr none =
      start_inserted hub addr (insert_worker hub.workers game_worker_name (some addr))

  unfoldable pub create_game_worker : Hub M → ℕ → Hub M × Bool
  unfolding create_unless get_game_worker
  create_game_worker hub addr = create_unless hub addr (get_game_worker hub)

  unfoldable pub send_found : Hub M → M → Option ℕ → Hub M × Bool
  unfolding push
  send_found hub msg none = (hub, false)
  send_found hub msg (some addr) =
      (record hub { objects = update hub.objects addr (push (hub.objects addr) msg) }, true)

  unfoldable pub send_to_game_worker : Hub M → M → Hub M × Bool
  unfolding send_found get_game_worker
  send_to_game_worker hub msg = send_found hub msg (get_game_worker hub)

  -- `stop_all`, over the names of the copy.
  unfoldable pub stop_each : List ℕ → Hub M → Hub M
  unfolding stop
  stop_each [] hub = hub
  stop_each (name ∷ names) hub = stop_each names (elim (hub.workers name) [
    | none ↦ hub
    | some addr ↦ record hub { objects = update hub.objects addr (stop (hub.objects addr)) }
  ])

  -- The hub with a worker that runs under the game worker's name.
  abbrev pub game_worker_at : Hub M → ℕ → Hub M
  game_worker_at hub addr = record {
    workers = update hub.workers game_worker_name (some addr);
    objects = update hub.objects addr (start new_worker);
  }

  create_game_worker-absent :
      (hub : Hub M) (addr : ℕ)
      → hub.workers game_worker_name ≡ none
      → create_game_worker hub addr ≡ (game_worker_at hub addr, true)
  unfolding create_game_worker create_unless get_game_worker get_worker insert_worker insert_found
      start_inserted
  create_game_worker-absent hub addr absent =
      ap (create_unless hub addr) absent
      ∙ ap (λ o. start_inserted hub addr (insert_found hub.workers game_worker_name addr o)) absent

  -- A game worker that was just made takes a message, and a second creation changes nothing.
  pub send_to_game_worker-create :
      (hub : Hub M) (addr : ℕ) (msg : M)
      → hub.workers game_worker_name ≡ none
      → let made = (create_game_worker hub addr).0 in
        ((send_to_game_worker made msg).1 ≡ true)
        × (((send_to_game_worker made msg).0.objects addr).queue ≡ msg ∷ [])
        × ((other : ℕ) → create_game_worker made other ≡ (made, true))
  unfolding create_game_worker create_unless get_game_worker get_worker send_to_game_worker
      send_found new_worker start push update
  send_to_game_worker-create hub addr msg absent =
      subst
        (λ (r : Hub M × Bool).
          let made = r.0 in
          ((send_to_game_worker made msg).1 ≡ true)
          × (((send_to_game_worker made msg).0.objects addr).queue ≡ msg ∷ [])
          × ((other : ℕ) → create_game_worker made other ≡ (made, true)))
        (sym (create_game_worker-absent hub addr absent))
        (refl, ground (arith, beq_refl addr), λ other. refl)

  -- One worker is told to stop.
  abbrev stop_at : Hub M → Option ℕ → Hub M
  stop_at hub o = elim o [
    | none ↦ hub
    | some addr ↦ record hub { objects = update hub.objects addr (stop (hub.objects addr)) }
  ]

  -- Of the workers at an address, before and after.
  abbrev pub Calms : Worker M → Worker M → Type 0
  Calms w w' = (w'.queue ≡ w.queue) × (w.running ≡ false → w'.running ≡ false)

  stop_at-Calms :
      (hub : Hub M) (o : Option ℕ) (addr : ℕ)
      → Calms (hub.objects addr) ((stop_at hub o).objects addr)
  unfolding stop update
  stop_at-Calms hub none addr = (refl, λ h. h)
  stop_at-Calms hub (some a) addr = ground (arith, eq_of_beq addr a)

  stop_each-Calms :
      (names : List ℕ) (hub : Hub M) (addr : ℕ)
      → Calms (hub.objects addr) ((stop_each names hub).objects addr)
  unfolding stop_each
  stop_each-Calms [] hub addr = (refl, λ h. h)
  stop_each-Calms (name ∷ names) hub addr =
      let next = stop_at hub (hub.workers name) in
      let (same, off) = stop_at-Calms hub (hub.workers name) addr in
      let (same', off') = stop_each-Calms names next addr in (same' ∙ same, λ h. off' (off h))

  workers-stop_at : (hub : Hub M) (o : Option ℕ) → (stop_at hub o).workers ≡ hub.workers
  workers-stop_at hub none = refl
  workers-stop_at hub (some addr) = refl

  -- After `stop_all` every worker under one of the names is told to stop, and no worker has lost a
  -- message that was queued.
  pub stop_each-stopped :
      (names : List ℕ) (hub : Hub M) (name addr : ℕ)
      → contains name names ≡ true
      → hub.workers name ≡ some addr
      → (((stop_each names hub).objects addr).running ≡ false)
        × (((stop_each names hub).objects addr).queue ≡ (hub.objects addr).queue)
  unfolding stop_each contains stop update
  stop_each-stopped [] hub name addr listed here = absurd (cc)
  stop_each-stopped (n ∷ names) hub name addr listed here =
      let next = stop_at hub (hub.workers n) in
      (
        elim (Bool-cases (name == n)) [
          | inl same ↦
              let at : hub.workers n ≡ some addr =
                ap hub.workers (sym (eq_of_beq name n same)) ∙ here in
              (stop_each-Calms names next addr).1 (
                subst (λ o. ((stop_at hub o).objects addr).running ≡ false) (sym at)
                  (ground (arith, beq_refl addr)))
          | inr other ↦
              (stop_each-stopped names next name addr (ground arith)
                (ap (λ (w : ℕ → Option ℕ). w name) (workers-stop_at hub (hub.workers n)) ∙ here)).0
        ],
        (stop_each-Calms (n ∷ names) hub addr).0,
      )
