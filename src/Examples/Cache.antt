-- ===== src/Examples/Cache.antt =====
-- A connection to a Redis that holds the values of one user.
use Prim.Native.String.{len}
use mmorpg_server_rl_portfol.Prelude.{
  ℕ, ℤ, pos, update, nat_eq, ◌==◌, ◌≡◌, ◌∙◌, refl, sym, ap, true, List, [], ◌∷◌, ◌++◌, Option, none,
  some, if◌then◌else◌,
}
use mmorpg_server_rl_portfol.Storage.Redis.{
  RedisContext, RedisReply, array_reply, plain_reply, integer_reply, Command, hset, hmget,
}
use mmorpg_server_rl_portfol.Storage.Pipeline.{IsPipelined}

-- The values that are held, and the commands that wait.
pub record Cache : Type 0 where
  pub waiting : List (Command ℤ)
  pub values : ℕ → Option RedisReply

abbrev whole : ℤ → ℤ → ℤ → ℤ → RedisReply
whole x z hp sp = array_reply (
    some (integer_reply x)
    ∷ some (integer_reply z)
    ∷ some (integer_reply hp)
    ∷ some (integer_reply sp)
    ∷ [])

abbrev pub held : ℕ → Option RedisReply
held uid = if uid == 3 then some (whole (pos 4) (pos 5) (pos 90) (pos 20)) else none

abbrev pub idle_cache : Cache
idle_cache = record { waiting = []; values = held }

-- The command in front is done and answered.
abbrev pub next_reply : Cache → List (Command ℤ) → Cache × Option (Option RedisReply)
next_reply c [] = (c, none)
next_reply c (hmget uid ∷ rest) = (record c { waiting = rest }, some (c.values uid))
next_reply c (hset uid x z hp sp ∷ rest) = (
  record { waiting = rest; values = update c.values uid (some (whole x z hp sp)) },
  some (some plain_reply),
)

abbrev pub toy_context : RedisContext ℤ
toy_context = record {
  Conn = Cache;
  append = λ c cmd. (record c { waiting = c.waiting ++ cmd ∷ [] }, true);
  get_reply = λ c. next_reply c c.waiting;
  strtof = λ str. pos (len str);
  atoi = λ str. pos (len str);
}

pub next_reply-order :
    (c : Cache) (waiting : List (Command ℤ)) (uid : ℕ) (rest : List (Command ℤ))
    (r : Option RedisReply)
    → waiting ≡ hmget uid ∷ rest
    → (next_reply c waiting).1 ≡ some r
    → (r ≡ c.values uid)
      × ((next_reply c waiting).0.waiting ≡ rest)
      × ((next_reply c waiting).0.values ≡ c.values)
next_reply-order c [] uid rest r same got = absurd cc
next_reply-order c (hmget k ∷ others) uid rest r same got =
    let head : k ≡ uid = cc in
    let tail : others ≡ rest = cc in
    let mine : c.values k ≡ r = cc in (sym mine ∙ ap c.values head, tail, refl)
next_reply-order c (hset k x z hp sp ∷ others) uid rest r same got = absurd cc

unfoldable pub toy_context-IsPipelined : IsPipelined toy_context
toy_context-IsPipelined = record {
  queue = λ c. c.waiting;
  held = λ c. c.values;
  appended = λ c cmd went. (refl, refl);
  replied = λ c. next_reply-order c c.waiting;
}
