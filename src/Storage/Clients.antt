-- ===== src/Storage/Clients.antt =====
-- storage/StorageSystem.cpp with the clients that it calls: the pipeline of redisUserCache.cpp and the
-- stored procedure of userStateProc.cpp stand for what `Backend` leaves open.
pub mod Written
use mmorpg_server_rl_portfol.Prelude.{
  ℕ, Bool, true, false, List, Option, none, some, if◌then◌else◌, FloatArith,
}
use mmorpg_server_rl_portfol.Field.Types.{UserSnapshot}
use mmorpg_server_rl_portfol.Storage.System.{Backend}
use mmorpg_server_rl_portfol.Storage.Redis.{RedisContext, fetch_users, write_users_rt_only}
use mmorpg_server_rl_portfol.Storage.Statement.{StatementClient, call_sp_upsert_user_state_batch}

-- hiredis and the client of MySQL, with what opens and closes their connections.
pub record Clients (F : Type 0) : Type 1 where
  pub redis : RedisContext F
  pub sql : StatementClient F
  pub redis_connect : redis.Conn → redis.Conn × Option Bool
  pub redis_free : redis.Conn → redis.Conn
  pub mysql_init : sql.Outside → sql.Outside × Bool
  pub mysql_real_connect : sql.Outside → sql.Outside × Bool
  pub mysql_close : sql.Outside → sql.Outside

-- What `CallSpUpsertUserStateBatch` returned; a call that does not return is not a success.
unfoldable pub returned_true : Option Bool → Bool
returned_true none = false
returned_true (some b) = b

module _ (fl : FloatArith) (show_double : fl.F → List ℕ) (cl : Clients fl.F) where
  open fl use {F}
  open cl use {redis, sql}

  -- The calls that `handle_db_job` and `flush_rt_writes` make.
  unfoldable pub call_fetch_users :
      redis.Conn × sql.Outside
      → List ℕ
      → (redis.Conn × sql.Outside) × Option (List (UserSnapshot F))
  call_fetch_users (c, o) uids =
      let (c', (snap, ok)) = fetch_users fl redis c uids in
      ((c', o), if ok then some snap else none)

  unfoldable pub call_write_users :
      redis.Conn × sql.Outside → List (UserSnapshot F) → (redis.Conn × sql.Outside) × Bool
  call_write_users (c, o) snap = let (c', ok) = write_users_rt_only fl redis c snap in ((c', o), ok)

  unfoldable pub call_upsert :
      redis.Conn × sql.Outside → List (UserSnapshot F) → (redis.Conn × sql.Outside) × Bool
  unfolding returned_true
  call_upsert (c, o) snap =
      let (o', r) = call_sp_upsert_user_state_batch show_double sql o snap in
      ((c, o'), returned_true r)

  abbrev pub backend_of : Backend
  backend_of = record {
    Outside = redis.Conn × sql.Outside;
    Snapshot = UserSnapshot F;
    redis_connect = λ o. let (c, answer) = cl.redis_connect o.0 in ((c, o.1), answer);
    mysql_init = λ o. let (d, made) = cl.mysql_init o.1 in ((o.0, d), made);
    mysql_real_connect = λ o. let (d, done) = cl.mysql_real_connect o.1 in ((o.0, d), done);
    redis_free = λ o. (cl.redis_free o.0, o.1);
    mysql_close = λ o. (o.0, cl.mysql_close o.1);
    fetch_users = call_fetch_users;
    upsert_batch = call_upsert;
    write_users_rt = call_write_users;
  }
