-- ===== src/Net/Routing.antt =====
-- Which worker net/session.cpp gives a payload to.
use mmorpg_server_rl_portfol.Prelude.{
  ℕ, ◌≡◌, ◌≢◌, beq_refl, refl, ◌⊎◌, inl, inr, List, [], ◌∷◌, Bool-cases, true, false, nat_eq, arith,
  if_true, if_false, ◌∙◌, ℤ,
}
use mmorpg_server_rl_portfol.Net.Codec.{Schema}
use mmorpg_server_rl_portfol.Net.Session.{
  Session, SessionState, Delivery, to_game_worker, to_field_worker, in_field, connected, logged_in,
  route, route_by, route_in_field, route_outside, is_envelope, is_skill_envelope, is_field_cmd,
  skill_cmd,
}

module _ (sc : Schema) where
  -- Who gets a payload, in every case.
  pub record RoutesWell (s : Session) (p : List ℕ) (ds : List Delivery) : Type 0 where
    no_worker : s.game_worker ≡ false → ds ≡ []
    envelope :
        s.game_worker ≡ true
        → s.state ≢ in_field
        → sc.verify_envelope p ≡ true
        → ds ≡ to_game_worker p ∷ []
    no_envelope : s.game_worker ≡ true → s.state ≢ in_field → sc.verify_envelope p ≡ false → ds ≡ []
    skill :
        s.game_worker ≡ true
        → s.state ≡ in_field
        → sc.verify_envelope p ≡ true
        → sc.pkt_type p ≡ skill_cmd
        → ds ≡ to_game_worker p ∷ []
    field :
        s.game_worker ≡ true
        → s.state ≡ in_field
        → ¬ ((sc.verify_envelope p ≡ true) × (sc.pkt_type p ≡ skill_cmd))
        → sc.verify_field_cmd p ≡ true
        → ds ≡ to_field_worker s.field_id p ∷ []
    nothing :
        s.game_worker ≡ true
        → s.state ≡ in_field
        → ¬ ((sc.verify_envelope p ≡ true) × (sc.pkt_type p ≡ skill_cmd))
        → sc.verify_field_cmd p ≡ false
        → ds ≡ []

  skill_lem :
      (p : List ℕ)
      → is_skill_envelope sc p ≡ true
      → (sc.verify_envelope p ≡ true) × (sc.pkt_type p ≡ skill_cmd)
  unfolding is_skill_envelope
  skill_lem p h = (ground arith, ground arith)

  is_skill :
      (p : List ℕ)
      → sc.verify_envelope p ≡ true
      → sc.pkt_type p ≡ skill_cmd
      → is_skill_envelope sc p ≡ true
  unfolding is_skill_envelope
  is_skill p good skilled = ground (arith, beq_refl (sc.pkt_type p))

  is_no_skill :
      (p : List ℕ)
      → ¬ ((sc.verify_envelope p ≡ true) × (sc.pkt_type p ≡ skill_cmd))
      → is_skill_envelope sc p ≡ false
  is_no_skill p other = elim (Bool-cases (is_skill_envelope sc p)) [
    | inr isnt ↦ isnt
    | inl is ↦ absurd (other (skill_lem p is))
  ]

  states_lem : (st : SessionState) → (st ≡ in_field) ⊎ (st ≢ in_field)
  states_lem connected = inr (λ h. absurd (ground arith))
  states_lem logged_in = inr (λ h. absurd (ground arith))
  states_lem in_field = inl refl

  route_by-outside :
      (st : SessionState) (field_id : ℤ) (p : List ℕ)
      → st ≢ in_field
      → route_by sc st field_id p ≡ route_outside sc p
  unfolding route_by
  route_by-outside connected field_id p out = refl
  route_by-outside logged_in field_id p out = refl
  route_by-outside in_field field_id p out = absurd (out refl)

  route_by-inside :
      (st : SessionState) (field_id : ℤ) (p : List ℕ)
      → st ≡ in_field
      → route_by sc st field_id p ≡ route_in_field sc field_id p
  unfolding route_by
  route_by-inside st field_id p inside = rw inside refl

  -- Without a game worker a session drops every payload. Outside a field the game worker gets the
  -- envelopes, and no one gets anything else. In a field the game worker gets the envelopes of skill
  -- commands, the worker of the session's own field gets what else is a field command, and no one
  -- gets the rest.
  pub route-RoutesWell : (s : Session) (p : List ℕ) → RoutesWell s p (route sc s p)
  unfolding route route_outside route_in_field is_envelope is_field_cmd
  route-RoutesWell s p =
      let out = λ (on : s.game_worker ≡ true) (away : s.state ≢ in_field).
        if_true _ [] on ∙ route_by-outside s.state s.field_id p away in
      let inside = λ (on : s.game_worker ≡ true) (here : s.state ≡ in_field).
        if_true _ [] on ∙ route_by-inside s.state s.field_id p here in
      record {
        no_worker = λ off. if_false _ [] off;
        envelope = λ on away good. out on away ∙ if_true _ [] good;
        no_envelope = λ on away bad. out on away ∙ if_false (to_game_worker p ∷ []) [] bad;
        skill = λ on here good skilled. inside on here ∙ if_true _ _ (is_skill p good skilled);
        field = λ on here other good.
            inside on here
            ∙ if_false (to_game_worker p ∷ []) _ (is_no_skill p other)
            ∙ if_true (to_field_worker s.field_id p ∷ []) [] good;
        nothing = λ on here other bad.
            inside on here
            ∙ if_false (to_game_worker p ∷ []) _ (is_no_skill p other)
            ∙ if_false (to_field_worker s.field_id p ∷ []) [] bad;
      }
