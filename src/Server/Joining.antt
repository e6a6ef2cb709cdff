-- ===== src/Server/Joining.antt =====
-- A client on its way into a field, from core/handlers to worker/fieldWorker.cpp.
use mathlib.Core.Path.{subst}
use mmorpg_server_rl_portfol.Prelude.{
  ℕ, ℤ, pos, nat_eq, ◌==◌, ◌≡◌, ◌∙◌, refl, sym, ap, inl, inr, Bool, Bool-cases, true, false, ◌||◌,
  List, [], ◌∷◌, ◌++◌, map, is_empty, contains, contains-insert, insert, Option, none, some, update,
  update_self, if_false, beq_refl, eq_of_beq, arith, FloatArith,
}
use mmorpg_server_rl_portfol.Monster.World.{◌>>=◌}
use mmorpg_server_rl_portfol.Monster.Whole.{IsWhole}
use mmorpg_server_rl_portfol.Storage.DirtyHub.{DirtyHub}
use mmorpg_server_rl_portfol.Game.Player.{Player}
use mmorpg_server_rl_portfol.Aoi.System.{add_entity}
use mmorpg_server_rl_portfol.Worker.Registry.{create_field}
use mmorpg_server_rl_portfol.Field.Types.{Field, Run, done}
use mmorpg_server_rl_portfol.Field.Sending.{in_grid}
use mmorpg_server_rl_portfol.Field.Players.{add_player, on_player_enter_field, enter_monsters}
use mmorpg_server_rl_portfol.Field.Places.{Agrees, StandsAt}
use mmorpg_server_rl_portfol.Field.Presence.{IsNew, Agrees-joins, entered_field}
use mmorpg_server_rl_portfol.Field.Returns.Runs.{Lasts-joins}
use mmorpg_server_rl_portfol.Handlers.Logic.{
  Login, enter_field_ack, on_recv_login, on_recv_enter_field,
}
use mmorpg_server_rl_portfol.Handlers.Entry.{
  login_envelope, enter_envelope, HasEntered, login_enter,
}
use mmorpg_server_rl_portfol.Server.{
  FieldThread, Server, Out, replied, effect, thread_at, has_session_of, join_thread, join_worker,
  perform_one, perform, serve_enter_field,
}

module _ (fl : FloatArith) where
  open fl use {F, lit}

  -- A player of a field, in its grid at its own place.
  abbrev pub IsIn : Field F → Player F → Type 0
  IsIn f p =
      (contains p.id f.players ≡ true) × (f.objects p.id ≡ some p) × StandsAt f.aoi_system p.id p

  -- The lists of watchers are exact and the monsters have their components, and the id is new.
  abbrev pub IsReady : Field F → ℕ → Type 0
  IsReady f id =
      Agrees f × IsWhole f.monster_world × IsNew fl f id × (contains id f.players ≡ false)

  -- Another object under an id that the field does not have.
  Agrees-object :
      (f : Field F) (p : Player F) (has_session : ℕ → Bool)
      → contains p.id f.players ≡ false
      → Agrees f
      → Agrees (record f { objects = update f.objects p.id (some p); has_session = has_session })
  unfolding update
  Agrees-object f p has_session absent ok = record {
    exact = ok.exact;
    places = λ id q listed found. ok.places id q listed (elim (Bool-cases (id == p.id)) [
      | inl same ↦ absurd (ground (arith, eq_of_beq id p.id))
      | inr other ↦ sym (if_false (some p) (f.objects id) other) ∙ found
    ]);
  }

  add_player-IsIn :
      (f : Field F) (p : Player F)
      → f.objects p.id ≡ some p
      → Agrees f
      → IsWhole f.monster_world
      → IsNew fl f p.id
      → (r : Run F) × (add_player fl f p.id ≡ some r) × IsIn r.0 p × Agrees r.0
  unfolding add_player on_player_enter_field in_grid
  add_player-IsIn f p at ok whole new =
      let (r, went, lasts) = Lasts-joins fl f p.id (some p) whole in
      let agrees = Agrees-joins fl f p.id r (some p) at new went ok in
      let h = record f { players = insert p.id f.players } in
      let g = (in_grid h (λ s. add_entity fl s p.id true p.position.x p.position.y)).0 in
      let same : r.0 ≡ g =
        entered_field fl h g p.id p (enter_monsters g p.id g.monster_world.monsters) _ r went in
      let among : contains p.id r.0.players ≡ true =
        ap (λ (k : Field F). contains p.id k.players) same
        ∙ contains-insert p.id p.id f.players
        ∙ ap (λ b. b || contains p.id f.players) (beq_refl p.id) in
      let held : r.0.objects p.id ≡ some p = ap (λ (k : Field F). k.objects p.id) same ∙ at in
      (
        r,
        ap
              (λ (o : Option (Player F)). elim o as (λ x. Option (Run F)) [
                | none ↦ some (done f)
                | some q ↦
                    on_player_enter_field fl (record f { players = insert p.id f.players }) p.id q
              ])
              at
            ∙ went,
        (among, held, agrees.places p.id p among held),
        agrees,
      )

module _ (fl : FloatArith) (make_database_id : ℕ → ℕ) (hub : DirtyHub) (registered : ℕ → Bool)
    (live : ℕ → Option ℕ) (encode : ℕ → ℕ → List ℕ) where
  open fl use {F, lit}

  -- The field worker that a join at an address finds.
  abbrev pub found_thread : Server F → ℕ → ℤ → FieldThread F
  found_thread = thread_at fl make_database_id hub registered live encode

  -- What a join leads to, in a thread that is left at the address.
  abbrev Joins : Server F → ℕ → Player F → Option (Server F × List (Out F)) → Type 0
  Joins srv addr p o =
      (s : Server F) × (out : List (Out F)) × (t : FieldThread F) × (o ≡ some (s, out))
      × (s.lobby ≡ srv.lobby)
      × (s.threads addr ≡ some t)
      × IsIn fl t.field p
      × Agrees t.field

  join_thread-Joins :
      (srv : Server F) (addr : ℕ) (p : Player F)
      → IsReady fl (found_thread srv addr p.field_id).field p.id
      → Joins srv addr p (join_thread fl make_database_id hub registered live encode srv addr p)
  unfolding join_thread
  join_thread-Joins srv addr p (ok, whole, new, absent) =
      let t = found_thread srv addr p.field_id in
      let asks = has_session_of fl make_database_id hub registered live encode srv in
      let f : Field F = record (t.field) {
        objects = update t.field.objects p.id (some p);
        has_session = asks;
      } in
      let (r, went, inside, agrees) =
        add_player-IsIn fl f p (update_self t.field.objects p.id (some p))
          (Agrees-object fl t.field p asks absent ok) whole new in
      let t' : FieldThread F = record t { field = r.0 } in
      (
        record srv { threads = update srv.threads addr (some t') },
        map effect r.1,
        t',
        ap
            (λ (o : Option (Run F)). o >>= (λ q. some (
              record srv { threads = update srv.threads addr (some (record t { field = q.0 })) },
              map effect q.1,
            )))
            went,
        refl,
        update_self srv.threads addr (some t'),
        inside,
        agrees,
      )

  -- A client that logs in and then asks for a field whose worker is ready for a new player is told so
  -- first; and then its player is in that field, at the entry, in the grid at this place, the lists of
  -- watchers are exact, and the session is in the field.
  pub login_enter-IsIn :
      (id sid : ℕ) (srv : Server F) (sess field_id addr : ℕ) (req : Login)
      → (is_empty req.user_id || is_empty req.token) ≡ false
      → live sess ≡ some sid
      → (create_field srv.lobby.fields (pos field_id)).1 ≡ some addr
      → IsReady fl (found_thread srv addr (pos field_id)).field id
      → let first = on_recv_login fl id srv.lobby sess (login_envelope req) in
        (s : Server F) × (out : List (Out F)) × (t : FieldThread F) × (p : Player F)
        × (serve_enter_field fl make_database_id hub registered live encode
              (record srv { lobby = first.0 })
              sess
              (enter_envelope field_id)
            ≡ some (s, replied (enter_field_ack (pos field_id) id) ∷ out))
        × HasEntered fl s.lobby sess id field_id
        × (s.threads addr ≡ some t)
        × ((p.id ≡ id) × (p.position.x ≡ lit 1021 10) × (p.position.y ≡ lit 15591 100))
        × IsIn fl t.field p
        × Agrees t.field
  unfolding serve_enter_field perform perform_one join_worker thread_at
  login_enter-IsIn id sid srv sess field_id addr req full alive made ready =
      let first = (on_recv_login fl id srv.lobby sess (login_envelope req)).0 in
      let second = on_recv_enter_field fl first sess (enter_envelope field_id) in
      let (ack, linked, told, entered) =
        login_enter fl live id sid srv.lobby sess field_id addr req full alive made in
      let (state, player, field, p, at, named, of_field, at_x, at_y) = entered in
      let srv' : Server F = record srv { lobby = second.0 } in
      let ready' : IsReady fl (found_thread srv' addr p.field_id).field p.id =
        subst (λ i. IsReady fl (found_thread srv' addr p.field_id).field i) (sym named)
          (subst (λ k. IsReady fl (found_thread srv' addr k).field id) (sym of_field) ready) in
      let (s, out, t, went, same, there, inside, agrees) = join_thread-Joins srv' addr p ready' in
      let Step : Type 0 = Server F × List (Out F) in
      let stay : Step → Option Step = λ r. some (r.0, r.1 ++ []) in
      let tell : Step → Option Step =
        λ r. some (r.0, replied (enter_field_ack (pos field_id) id) ∷ r.1) in
      let after : Option Step → Option Step = λ o. (o >>= stay) >>= tell in
      (
        s,
        out ++ [],
        t,
        p,
        ap (perform fl make_database_id hub registered live encode sess srv') told
            ∙ ap
                (λ o.
                  after (join_worker fl make_database_id hub registered live encode srv' addr o))
                at
            ∙ ap after went,
        subst (λ l. HasEntered fl l sess id field_id) (sym same) entered,
        there,
        (named, at_x, at_y),
        inside,
        agrees,
      )
