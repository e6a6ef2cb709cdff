-- ===== src/Storage/Pipeline.antt =====
-- The pipeline of storage/redis/redisUserCache.cpp: all commands are sent before the first reply.
use mathlib.Core.Path.{subst}
use mmorpg_server_rl_portfol.Prelude.{
  ℕ, ◌≡◌, ◌∙◌, refl, sym, ap, inl, inr, Bool, Bool-cases, Option-cases, true, false, List, [], ◌∷◌,
  ◌++◌, append_assoc, append_nil, Option, some, if_true, if_false, arith, FloatArith,
}
use mmorpg_server_rl_portfol.Field.Types.{UserSnapshot}
use mmorpg_server_rl_portfol.Storage.Redis.{
  RedisContext, RedisReply, Command, hmget, append_all, hmgets, read_reply, push_valid, fetch_one,
  fetch_replies, fetch_users,
}

-- What the code relies on: replies come in the order of the commands that wait for one, and while
-- only reads wait, Redis answers from the values that it holds at this point and keeps them.
pub record IsPipelined {F : Type 0} (ctx : RedisContext F) : Type 0 where
  pub queue : ctx.Conn → List (Command F)
  pub held : ctx.Conn → ℕ → Option RedisReply
  pub appended :
      (c : ctx.Conn) (cmd : Command F)
      → (ctx.append c cmd).1 ≡ true
      → (queue (ctx.append c cmd).0 ≡ queue c ++ cmd ∷ []) × (held (ctx.append c cmd).0 ≡ held c)
  pub replied :
      (c : ctx.Conn) (uid : ℕ) (rest : List (Command F)) (r : Option RedisReply)
      → queue c ≡ hmget uid ∷ rest
      → (ctx.get_reply c).1 ≡ some r
      → (r ≡ held c uid) × (queue (ctx.get_reply c).0 ≡ rest) × (held (ctx.get_reply c).0 ≡ held c)

module _ (fl : FloatArith) (ctx : RedisContext fl.F) (ok : IsPipelined ctx) where
  open fl use {F}
  open ctx use {Conn, append, get_reply}

  append_all-queue :
      (c : Conn) (cmds : List (Command F))
      → (append_all fl ctx c cmds).1 ≡ true
      → (ok.queue (append_all fl ctx c cmds).0 ≡ ok.queue c ++ cmds)
        × (ok.held (append_all fl ctx c cmds).0 ≡ ok.held c)
  unfolding append_all
  append_all-queue c [] h = (sym (append_nil (ok.queue c)), refl)
  append_all-queue c (cmd ∷ cmds) h =
      let c' = (append c cmd).0 in
      let rest = append_all fl ctx c' cmds in
      elim (Bool-cases (append c cmd).1) [
        | inl went ↦
            let picked = if_true rest (c', false) went in
            let (waits, same) = ok.appended c cmd went in
            let (all, kept) =
              append_all-queue c' cmds (ap (λ (r : Conn × Bool). r.1) (sym picked) ∙ h) in
            (
              ap (λ (r : Conn × Bool). ok.queue r.0) picked
                  ∙ all
                  ∙ ap (λ q. q ++ cmds) waits
                  ∙ append_assoc (ok.queue c) (cmd ∷ []) cmds,
              ap (λ (r : Conn × Bool). ok.held r.0) picked ∙ kept ∙ same,
            )
        | inr failed ↦ absurd (
            let wrong =
              ap (λ (r : Conn × Bool). r.1) (sym (if_false rest (c', false) failed)) ∙ h in
            ground arith)
      ]

  -- What Redis holds for these users, where it is whole, in order.
  abbrev pub stored_users : (ℕ → Option RedisReply) → List ℕ → List (UserSnapshot F)
  stored_users held [] = []
  stored_users held (uid ∷ uids) =
      push_valid fl ctx (read_reply fl ctx uid (held uid)) (stored_users held uids)

  -- The result of a fetch that went well.
  abbrev pub HasFetched :
      (ℕ → Option RedisReply) → List ℕ → Conn × (List (UserSnapshot F) × Bool) → Type 0
  HasFetched held uids r = r.1.1 ≡ true → (r.1.0 ≡ stored_users held uids) × (ok.queue r.0 ≡ [])

  fetch_replies-HasFetched :
      (c : Conn) (uids : List ℕ)
      → ok.queue c ≡ hmgets fl ctx uids
      → HasFetched (ok.held c) uids (fetch_replies fl ctx c uids)
  unfolding fetch_replies fetch_one hmgets
  fetch_replies-HasFetched c [] waits = λ went. (refl, waits)
  fetch_replies-HasFetched c (uid ∷ uids) waits =
      let c' = (get_reply c).0 in
      let later = fetch_replies fl ctx c' uids in
      elim (Option-cases (get_reply c).1) [
        | inl failed ↦
            subst (λ o. HasFetched (ok.held c) (uid ∷ uids) (fetch_one fl ctx uid c' o later))
              (sym failed) (λ went. absurd (ground arith))
        | inr (r, got) ↦
            let (mine, left, same) = ok.replied c uid (hmgets fl ctx uids) r waits got in
            subst (λ o. HasFetched (ok.held c) (uid ∷ uids) (fetch_one fl ctx uid c' o later))
              (sym got)
              (λ went.
                let (rest, empty) = fetch_replies-HasFetched c' uids left went in
                (
                  ap (λ x. push_valid fl ctx (read_reply fl ctx uid x) later.1.0) mine
                      ∙ ap (push_valid fl ctx (read_reply fl ctx uid (ok.held c uid)))
                          (rest ∙ ap (λ held. stored_users held uids) same),
                  empty,
                ))
      ]

  -- From a connection with no reply outstanding, a fetch that reports success gives for the users
  -- asked for, in order, what Redis holds for each, without those whose values are not whole; and no
  -- reply is outstanding then.
  pub fetch_users-HasFetched :
      (c : Conn) (uids : List ℕ)
      → ok.queue c ≡ []
      → HasFetched (ok.held c) uids (fetch_users fl ctx c uids)
  unfolding fetch_users
  fetch_users-HasFetched c [] idle = λ went. (refl, idle)
  fetch_users-HasFetched c (uid ∷ uids) idle =
      let sent = append_all fl ctx c (hmgets fl ctx (uid ∷ uids)) in
      elim (Bool-cases sent.1) [
        | inl went ↦
            let (waits, kept) = append_all-queue c (hmgets fl ctx (uid ∷ uids)) went in
            subst (HasFetched (ok.held c) (uid ∷ uids))
              (sym (if_true (fetch_replies fl ctx sent.0 (uid ∷ uids)) (sent.0, ([], false)) went))
              (subst
                (λ held. HasFetched held (uid ∷ uids) (fetch_replies fl ctx sent.0 (uid ∷ uids)))
                kept
                (fetch_replies-HasFetched sent.0 (uid ∷ uids)
                  (waits ∙ ap (λ q. q ++ hmgets fl ctx (uid ∷ uids)) idle)))
        | inr failed ↦
            subst (HasFetched (ok.held c) (uid ∷ uids))
              (sym
                (if_false (fetch_replies fl ctx sent.0 (uid ∷ uids)) (sent.0, ([], false)) failed))
              (λ wrong. absurd (ground arith))
      ]
