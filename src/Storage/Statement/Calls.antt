-- ===== src/Storage/Statement/Calls.antt =====
-- What a call of storage/DB/Proc/userStateProc.cpp or storage/DB/userUpsert.cpp leaves at the database.
use mmorpg_server_rl_portfol.Prelude.{
  ℕ, zero, suc, ◌-◌, ◌<◌, ◌≡◌, ◌⊎◌, ◌∙◌, refl, sym, ap, inl, inr, Bool, Bool-cases, true, false,
  ◌&&◌, List, [], ◌∷◌, ◌++◌, append_nil, append_assoc, Option, some, if◌then◌else◌, arith,
}
use mmorpg_server_rl_portfol.Field.Types.{UserSnapshot}
use mmorpg_server_rl_portfol.Storage.Json.{build_snapshot_json}
use mmorpg_server_rl_portfol.Storage.Statement.{
  Value, string, StatementClient, sp_upsert, insert_user_state, values_of, skip_results,
  finish_call, call_prepared, call_sp_upsert_user_state_batch, upsert_rows, upsert_prepared,
  upsert_user_state,
}

-- What the documents of the client say: how many statements are open, the text that the statement was
-- prepared with, and what reached the database to be executed, in order. An execution that fails may
-- have reached it, when the connection is lost or the procedure stops on its way.
pub record IsClient {F : Type 0} (sql : StatementClient F) : Type 0 where
  pub handles : sql.Outside → ℕ
  pub text : sql.Outside → List ℕ
  pub done : sql.Outside → List (List ℕ × List (Value F))
  pub inited :
      (o : sql.Outside)
      → (handles (sql.init o).0 ≡ (if (sql.init o).1 then suc (handles o) else handles o))
        × (done (sql.init o).0 ≡ done o)
  pub prepared :
      (o : sql.Outside) (q : List ℕ)
      → (handles (sql.prepare o q).0 ≡ handles o)
        × (done (sql.prepare o q).0 ≡ done o)
        × ((sql.prepare o q).1 ≡ true → text (sql.prepare o q).0 ≡ q)
  pub bound :
      (o : sql.Outside)
      → (handles (sql.bind_param o).0 ≡ handles o)
        × (done (sql.bind_param o).0 ≡ done o)
        × (text (sql.bind_param o).0 ≡ text o)
  pub executed :
      (o : sql.Outside) (vs : List (Value F))
      → (handles (sql.execute o vs).0 ≡ handles o)
        × ((done (sql.execute o vs).0 ≡ done o ++ (text o, vs) ∷ [])
            ⊎ (((sql.execute o vs).1 ≡ false) × (done (sql.execute o vs).0 ≡ done o)))
        × (text (sql.execute o vs).0 ≡ text o)
  pub skipped :
      (o : sql.Outside)
      → (handles (sql.next_result o).0 ≡ handles o)
        × (done (sql.next_result o).0 ≡ done o)
        × ((sql.next_result o).1 ≡ true
            → sql.results_left (sql.next_result o).0 < sql.results_left o)
  pub closed :
      (o : sql.Outside) → (handles (sql.close o) ≡ handles o - 1) × (done (sql.close o) ≡ done o)

module _ {F : Type 0} (show_double : F → List ℕ) (sql : StatementClient F) (ok : IsClient sql) where
  open sql use {Outside, init, prepare, bind_param, execute, next_result, results_left, close}

  -- The same handles are open, and what was executed since is `more`.
  abbrev pub Adds : Outside → List (List ℕ × List (Value F)) → Outside → Type 0
  Adds o more o' = (ok.handles o' ≡ ok.handles o) × (ok.done o' ≡ ok.done o ++ more)

  skip_results-Adds :
      (fuel : ℕ) (o : Outside)
      → results_left o < fuel
      → (ok.handles (skip_results show_double sql fuel o).0 ≡ ok.handles o)
        × (ok.done (skip_results show_double sql fuel o).0 ≡ ok.done o)
        × ((skip_results show_double sql fuel o).1 ≡ true)
  unfolding skip_results
  skip_results-Adds zero o h = absurd (omega arith)
  skip_results-Adds (suc fuel) o h =
      let (same, nothing, fewer) = ok.skipped o in
      ground (arith, skip_results-Adds fuel (next_result o).0)

  -- What the call comes to from an open statement on: it is closed, and the batch has reached the
  -- database, or has not and the call has failed.
  abbrev Called : Outside → List ℕ → List (Value F) → Outside × Option Bool → Type 0
  Called o q vs r =
      (b : Bool) × (r.1 ≡ some b)
      × (ok.handles r.0 ≡ ok.handles o - 1)
      × ((ok.done r.0 ≡ ok.done o ++ (q, vs) ∷ []) ⊎ ((b ≡ false) × (ok.done r.0 ≡ ok.done o)))

  finish_call-Called :
      (o : Outside)
      → ((finish_call show_double sql o).1 ≡ some true)
        × (ok.handles (finish_call show_double sql o).0 ≡ ok.handles o - 1)
        × (ok.done (finish_call show_double sql o).0 ≡ ok.done o)
  unfolding finish_call
  finish_call-Called o =
      let (same, nothing, ended) = skip_results-Adds (suc (results_left o)) o (omega arith) in
      let (fewer, kept) = ok.closed (skip_results show_double sql (suc (results_left o)) o).0 in
      ground arith

  call_prepared-Called :
      (o : Outside) (json : List ℕ)
      → Called o sp_upsert (string (some json) ∷ []) (call_prepared show_double sql o json)
  unfolding call_prepared
  call_prepared-Called o json =
      let o1 = (prepare o sp_upsert).0 in
      let o2 = (bind_param o1).0 in
      let vs = string (some json) ∷ [] in
      let o3 = (execute o2 vs).0 in
      let (open1, done1, text1) = ok.prepared o sp_upsert in
      let (open2, done2, text2) = ok.bound o1 in
      let (open3, done3, text3) = ok.executed o2 vs in
      let (open4, done4) = ok.closed o1 in
      let (open5, done5) = ok.closed o2 in
      let (open6, done6) = ok.closed o3 in
      let (went, open7, done7) = finish_call-Called o3 in
      (
        (prepare o sp_upsert).1 && ((bind_param o1).1 && (execute o2 vs).1),
        ground arith,
        ground arith,
        ground arith,
      )

  -- What a batch is executed as.
  abbrev pub call_of : List (UserSnapshot F) → List (List ℕ × List (Value F))
  call_of [] = []
  call_of (s ∷ snap) =
      (sp_upsert, string (some (build_snapshot_json show_double (s ∷ snap))) ∷ []) ∷ []

  -- Whatever the client answers, a call of the stored procedure returns, with as many statements open
  -- as before, and the text of the batch has reached the database at most once: once if success is
  -- reported, where an empty batch needs none. On a failure it may have reached it or not; nothing else
  -- has. That a later result of the procedure is an error is not reported.
  pub call_sp_upsert_user_state_batch-Adds :
      (o : Outside) (snap : List (UserSnapshot F))
      → let r = call_sp_upsert_user_state_batch show_double sql o snap in
        ((r.1 ≡ some false) × (Adds o [] r.0 ⊎ Adds o (call_of snap) r.0))
        ⊎ ((r.1 ≡ some true) × Adds o (call_of snap) r.0)
  unfolding call_sp_upsert_user_state_batch
  call_sp_upsert_user_state_batch-Adds o [] = inr (refl, (refl, sym (append_nil (ok.done o))))
  call_sp_upsert_user_state_batch-Adds o (s ∷ snap) =
      let json = build_snapshot_json show_double (s ∷ snap) in
      let (opened, same) = ok.inited o in
      let none_added = append_nil (ok.done o) in
      let (b, told, shut, done) = call_prepared-Called (init o).0 json in
      elim (Bool-cases (init o).1) [
        | inr refused ↦ inl (ground arith, inl (ground arith, ground arith))
        | inl made ↦ elim done [
          | inr (failed, nothing) ↦ inl (ground arith, inl (ground arith, ground arith))
          | inl added ↦ elim (Bool-cases b) [
            | inl went ↦ inr (ground arith, (ground arith, ground arith))
            | inr failed ↦ inl (ground arith, inr (ground arith, ground arith))
          ]
        ]
      ]

  -- What `UpsertUserState` executes for a snapshot.
  abbrev pub inserts : List (UserSnapshot F) → List (List ℕ × List (Value F))
  inserts [] = []
  inserts (r ∷ rows) = (insert_user_state, values_of r) ∷ inserts rows

  -- What the loop comes to: the statement is closed, and the rows up to some place were executed.
  Inserted : Outside → List (UserSnapshot F) → Outside × Bool → Type 0
  Inserted o rows r =
      (before after : List (UserSnapshot F)) × (before ++ after ≡ rows)
      × (ok.handles r.0 ≡ ok.handles o - 1)
      × (ok.done r.0 ≡ ok.done o ++ inserts before)
      × (r.1 ≡ true → after ≡ [])

  upsert_rows-Inserted :
      (o : Outside) (rows : List (UserSnapshot F))
      → ok.text o ≡ insert_user_state
      → Inserted o rows (upsert_rows show_double sql o rows)
  unfolding upsert_rows Inserted
  upsert_rows-Inserted o [] named =
      let (shut, done) = ok.closed o in
      ([], [], refl, shut, done ∙ sym (append_nil (ok.done o)), λ went. refl)
  upsert_rows-Inserted o (r ∷ rows) named =
      let o1 = (bind_param o).0 in
      let o2 = (execute o1 (values_of r)).0 in
      let (open1, done1, text1) = ok.bound o in
      let (open2, done2, text2) = ok.executed o1 (values_of r) in
      let (open3, done3) = ok.closed o1 in
      let (open4, done4) = ok.closed o2 in
      let none_added = append_nil (ok.done o) in
      let (before, after, parts, shut, done, all) =
        upsert_rows-Inserted o2 rows (text2 ∙ text1 ∙ named) in
      let joined : (ok.done o ++ (ok.text o1, values_of r) ∷ []) ++ inserts before
          ≡ ok.done o ++ inserts (r ∷ before) =
        append_assoc (ok.done o) ((ok.text o1, values_of r) ∷ []) (inserts before)
        ∙ ap (λ q. ok.done o ++ (q, values_of r) ∷ inserts before) (text1 ∙ named) in
      elim (Bool-cases ((bind_param o).1 && (execute o1 (values_of r)).1)) [
        | inl went ↦
            (r ∷ before, after, ground arith, ground arith, ground arith, λ told. ground arith)
        | inr failed ↦ elim (Bool-cases (bind_param o).1) [
          | inr unbound ↦ ([], r ∷ rows, refl, ground arith, ground arith, λ told. ground arith)
          | inl bound ↦ elim done2 [
            | inr (refused, nothing) ↦
                ([], r ∷ rows, refl, ground arith, ground arith, λ told. ground arith)
            | inl added ↦
                let reached : ok.done o2 ≡ ok.done o ++ inserts (r ∷ []) =
                  added
                  ∙ ap (λ d. d ++ (ok.text o1, values_of r) ∷ []) done1
                  ∙ ap (λ q. ok.done o ++ (q, values_of r) ∷ []) (text1 ∙ named) in
                (r ∷ [], rows, refl, ground arith, ground arith, λ told. ground arith)
          ]
        ]
      ]

  -- Whatever the client answers, an upsert row by row leaves as many statements open as before, and the
  -- database was given the rows up to some place, in order, and all of them if success is reported: a
  -- failure in the middle keeps what came before.
  pub upsert_user_state-Adds :
      (o : Outside) (rows : List (UserSnapshot F))
      → let r = upsert_user_state show_double sql o rows in
        (before after : List (UserSnapshot F)) × (before ++ after ≡ rows)
        × Adds o (inserts before) r.0
        × (r.1 ≡ true → after ≡ [])
  unfolding upsert_user_state upsert_prepared Inserted
  upsert_user_state-Adds o [] = ([], [], refl, (refl, sym (append_nil (ok.done o))), λ told. refl)
  upsert_user_state-Adds o (r ∷ rows) =
      let o1 = (init o).0 in
      let o2 = (prepare o1 insert_user_state).0 in
      let o3 = (bind_param o2).0 in
      let (open1, done1) = ok.inited o in
      let (open2, done2, text2) = ok.prepared o1 insert_user_state in
      let (open3, done3, text3) = ok.bound o2 in
      let (open4, done4) = ok.closed o2 in
      let (open5, done5) = ok.closed o3 in
      let none_added = append_nil (ok.done o) in
      elim (Bool-cases ((init o).1 && ((prepare o1 insert_user_state).1 && (bind_param o2).1))) [
        | inl went ↦
            let (before, after, parts, shut, done, all) =
              upsert_rows-Inserted o3 (r ∷ rows) (ground arith) in
            (before, after, parts, (ground arith, ground arith), λ told. ground arith)
        | inr failed ↦ ([], r ∷ rows, refl, (ground arith, ground arith), λ told. ground arith)
      ]
