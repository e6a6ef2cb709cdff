-- ===== src/Server/Messages.antt =====
-- Messages on their way from core/handlers to the queue of a field worker, and what it makes of them.
use mathlib.Core.Path.{subst}
use mmorpg_server_rl_portfol.Prelude.{
  ℕ, ℤ, pos, nat_eq, int_eq, ◌==◌, ◌≡◌, ◌≢◌, ◌∙◌, refl, sym, ap, Bool, false, ◌||◌, List, [], ◌∷◌,
  Option, none, some, update, update_self, if_false, beq_ne, FloatArith,
}
use mmorpg_server_rl_portfol.Storage.DirtyHub.{DirtyHub}
use mmorpg_server_rl_portfol.Worker.Loop.{push}
use mmorpg_server_rl_portfol.Worker.Registry.{get_field}
use mmorpg_server_rl_portfol.Field.Types.{Field, Run, done}
use mmorpg_server_rl_portfol.Field.Players.{FieldCmd, on_client_move_input}
use mmorpg_server_rl_portfol.Field.Worker.{
  FieldCodec, NetMessage, handle_message, handle_by_type, handle_skill, handle_custom, use_skill,
  asker,
}
use mmorpg_server_rl_portfol.Handlers.Logic.{
  Envelope, SkillCmd, to_field_worker, skill_found, on_recv_skill_cmd,
}
use mmorpg_server_rl_portfol.Server.{
  FieldThread, Server, push_to, push_found, send_to_field_worker, move_message, skill_message,
  perform_one, perform, serve_skill_cmd,
}

module _ {F : Type 0} where
  -- The message waits behind those of the worker at the address, and nothing else has changed.
  abbrev pub Arrives : Server F → ℕ → FieldThread F → NetMessage → Server F → Type 0
  Arrives srv addr t msg s =
      (s.lobby ≡ srv.lobby)
      × (s.threads addr ≡ some (record t { worker = push t.worker msg }))
      × ((other : ℕ) → other ≢ addr → s.threads other ≡ srv.threads other)

  send_to_field_worker-Arrives :
      (srv : Server F) (field_id : ℤ) (msg : NetMessage) (addr : ℕ) (t : FieldThread F)
      → get_field srv.lobby.fields field_id ≡ some addr
      → srv.threads addr ≡ some t
      → Arrives srv addr t msg (send_to_field_worker srv field_id msg).0
  unfolding send_to_field_worker push_found push_to update
  send_to_field_worker-Arrives srv field_id msg addr t here at =
      let t' : FieldThread F = record t { worker = push t.worker msg } in
      subst (λ o. Arrives srv addr t msg (push_found srv msg o).0) (sym here)
        (subst (λ o. Arrives srv addr t msg (push_to srv addr msg o).0) (sym at)
          (
            refl,
            update_self srv.threads addr (some t'),
            λ other apart. if_false (some t') (srv.threads other) (beq_ne other addr apart),
          ))

module _ (fl : FloatArith) (codec : FieldCodec fl.F) where
  open fl use {F}

  -- The move that `send_move_to_fieldworker` makes carries no session, so that a field worker ignores
  -- it, whatever flatbuffers reads from it.
  pub handle_message-move_message :
      (encode : FieldCmd F → List ℕ) (player_id : ℕ) (answers : ℕ → ℕ) (f : Field F)
      → handle_message fl codec answers (move_message encode player_id) f ≡ some (done f)
  unfolding handle_message handle_by_type handle_custom asker move_message on_client_move_input
  handle_message-move_message encode player_id answers f = ap some (by_read (codec.get_field_cmd _))
    where
      by_read :
          (o : Option (FieldCmd F))
          → (elim o as (λ x. Run F) [
            | none ↦ done f
            | some cmd ↦ on_client_move_input fl f cmd none
          ])
            ≡ done f
      by_read none = refl
      by_read (some cmd) = refl

  handle_message-skill_message :
      (encode : ℕ → ℕ → List ℕ) (sess skill target : ℕ) (f : Field F) (answers : ℕ → ℕ)
      → codec.get_skill_cmd (encode skill target) ≡ some target
      → handle_message fl codec answers (skill_message encode sess skill target) f
        ≡ use_skill fl (answers sess) target f
  unfolding handle_message handle_by_type handle_skill asker skill_message
  handle_message-skill_message encode sess skill target f answers read =
      ap
        (λ (o : Option ℕ). elim o as (λ x. Option (Run F)) [
          | none ↦ some (done f)
          | some k ↦ use_skill fl (answers sess) k f
        ])
        read

  module _ (make_database_id : ℕ → ℕ) (hub : DirtyHub) (registered : ℕ → Bool) (live : ℕ → Option ℕ)
      (encode : ℕ → ℕ → List ℕ) where
    -- A skill command of a session that is in a field, as a player, waits afterwards behind the
    -- messages of the worker of just this field, nothing is answered, and nothing else of the server
    -- has changed. Whatever the field is when the worker takes the message, it makes of it that the
    -- player whom the session has then uses the skill on the target of the command, provided that the
    -- target is read back from the payload.
    pub serve_skill_cmd-Arrives :
        (srv : Server F) (sess addr : ℕ) (env : Envelope) (sk : SkillCmd) (t : FieldThread F)
        → env.pkt_as_skill_cmd ≡ some sk
        → (srv.lobby.sessions sess).field_id ≢ pos 0
        → (srv.lobby.sessions sess).player_id ≢ 0
        → get_field srv.lobby.fields (srv.lobby.sessions sess).field_id ≡ some addr
        → srv.threads addr ≡ some t
        → codec.get_skill_cmd (encode sk.skill sk.target_id) ≡ some sk.target_id
        → let msg = skill_message encode sess sk.skill sk.target_id in
          (s : Server F) × (serve_skill_cmd fl make_database_id hub registered live encode srv sess
              env
            ≡ some (s, []))
          × Arrives srv addr t msg s
          × ((f : Field F) (answers : ℕ → ℕ)
              → handle_message fl codec answers msg f ≡ use_skill fl (answers sess) sk.target_id f)
    unfolding serve_skill_cmd perform perform_one on_recv_skill_cmd skill_found
    serve_skill_cmd-Arrives srv sess addr env sk t asked in_field as_player here at read =
        let from = srv.lobby.sessions sess in
        let msg = skill_message encode sess sk.skill sk.target_id in
        let placed : (from.field_id == pos 0 || from.player_id == 0) ≡ false =
          ap (λ b. b || (from.player_id == 0)) (beq_ne from.field_id (pos 0) in_field)
          ∙ beq_ne from.player_id 0 as_player in
        (
          (send_to_field_worker srv from.field_id msg).0,
          ap
                (λ o.
                  perform fl make_database_id hub registered live encode sess srv
                    (skill_found from o))
                asked
              ∙ ap (perform fl make_database_id hub registered live encode sess srv)
                  (if_false _ (to_field_worker from.field_id sk.skill sk.target_id ∷ []) placed),
          send_to_field_worker-Arrives srv from.field_id msg addr t here at,
          λ f answers.
              handle_message-skill_message encode sess sk.skill sk.target_id f answers read,
        )
