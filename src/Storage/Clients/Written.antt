-- ===== src/Storage/Clients/Written.antt =====
-- What a job of storage/StorageSystem.cpp leaves at the database.
use mmorpg_server_rl_portfol.Prelude.{ℕ, ◌≡◌, ◌⊎◌, true, false, List, [], ◌++◌, FloatArith}
use mmorpg_server_rl_portfol.Field.Types.{UserSnapshot}
use mmorpg_server_rl_portfol.Storage.System.{Impl}
use mmorpg_server_rl_portfol.Storage.Pipeline.{IsPipelined}
use mmorpg_server_rl_portfol.Storage.Statement.Calls.{IsClient, call_of}
use mmorpg_server_rl_portfol.Storage.Clients.{Clients}

module _ (fl : FloatArith) (show_double : fl.F → List ℕ) (cl : Clients fl.F)
    (piped : IsPipelined (cl.redis)) (ok : IsClient (cl.sql))
    (closing : (o : cl.sql.Outside) → ok.done (cl.mysql_close o) ≡ ok.done o) where
  open fl use {F}
  open cl use {redis, sql}

  abbrev Storage : Type 0
  Storage = Impl (redis.Conn × sql.Outside) (UserSnapshot F)

  -- After a job: with the connections still open, no reply is outstanding and the batch of these
  -- users has reached the database, if there is any; with the connections closed, it has or has not.
  abbrev pub HasWritten : sql.Outside → List (UserSnapshot F) → Storage → Type 0
  HasWritten o users s =
      ((s.redis_ctx ≡ true)
        × (piped.queue s.outside.0 ≡ [])
        × (ok.done s.outside.1 ≡ ok.done o ++ call_of show_double sql ok users))
      ⊎ ((s.redis_ctx ≡ false)
          × ((ok.done s.outside.1 ≡ ok.done o)
              ⊎ (ok.done s.outside.1 ≡ ok.done o ++ call_of show_double sql ok users)))
