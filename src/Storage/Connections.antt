-- ===== src/Storage/Connections.antt =====
-- The two connections of storage/StorageSystem.cpp over the life of the worker's thread.
use mmorpg_server_rl_portfol.Prelude.{
  by_test, ℕ, ◌≡◌, ◌∙◌, refl, sym, inl, inr, Bool, Bool-cases, true, false, not, ◌&&◌, List,
  is_empty, if◌then◌else◌, if_true, arith, Option, none, some,
}
use mathlib.Core.Path.{subst}
use mmorpg_server_rl_portfol.Storage.DbWorker.{DbJob}
use mmorpg_server_rl_portfol.Storage.System.{
  Backend, Impl, close_redis, close_mysql, disconnect_db, connect_mysql, connect_redis, connect_db,
  ensure_connected, flush_rt_writes, take_rt, subtract_rt, write_rt, upsert, fetched, write_back,
  handle_db_job,
}

-- Both connections are open, or both are closed.
abbrev pub IsPaired : {O S : Type 0} → Impl O S → Type 0
IsPaired self = self.redis_ctx ≡ self.mysql

by_cases :
    {A : Type 0} (P : A → Type 0) (b : Bool) (x y : A)
    → (b ≡ true → P y)
    → (b ≡ false → P x)
    → P (if not b then x else y)
by_cases P true x y f g = f refl
by_cases P false x y f g = g refl

both : {b c : Bool} → b ≡ c → c ≡ true → b && c ≡ true
both h k = ground arith

module _ (b : Backend) where
  open b use {Outside, Snapshot}

  close_redis-redis_ctx : (s : Impl Outside Snapshot) → (close_redis b s).redis_ctx ≡ false
  unfolding close_redis
  close_redis-redis_ctx s = ground arith

  close_redis-mysql : (s : Impl Outside Snapshot) → (close_redis b s).mysql ≡ s.mysql
  unfolding close_redis
  close_redis-mysql s = ground arith

  close_mysql-mysql : (s : Impl Outside Snapshot) → (close_mysql b s).mysql ≡ false
  unfolding close_mysql
  close_mysql-mysql s = ground arith

  close_mysql-redis_ctx : (s : Impl Outside Snapshot) → (close_mysql b s).redis_ctx ≡ s.redis_ctx
  unfolding close_mysql
  close_mysql-redis_ctx s = ground arith

  disconnect_db-IsPaired : (s : Impl Outside Snapshot) → IsPaired (disconnect_db b s)
  unfolding disconnect_db
  disconnect_db-IsPaired s =
      close_mysql-redis_ctx (close_redis b s)
      ∙ close_redis-redis_ctx s
      ∙ sym (close_mysql-mysql (close_redis b s))

  disconnect_db-mysql : (s : Impl Outside Snapshot) → (disconnect_db b s).mysql ≡ false
  unfolding disconnect_db
  disconnect_db-mysql s = close_mysql-mysql (close_redis b s)

  connect_mysql-IsPaired :
      (s : Impl Outside Snapshot) → s.redis_ctx ≡ true → IsPaired (connect_mysql b s)
  unfolding connect_mysql
  connect_mysql-IsPaired s on =
      by_cases IsPaired (b.mysql_init s.outside).1 _ _
        (λ made.
          by_test IsPaired (not (b.mysql_real_connect (b.mysql_init s.outside).0).1) _ _
            (disconnect_db-IsPaired _) (on ∙ sym made))
        (λ failed. disconnect_db-IsPaired _)

  connect_redis-IsPaired :
      (s : Impl Outside Snapshot) (answer : Option Bool)
      → s.mysql ≡ false
      → IsPaired (connect_redis b s answer)
  unfolding connect_redis
  connect_redis-IsPaired s none off = sym off
  connect_redis-IsPaired s (some true) off = sym off
  connect_redis-IsPaired s (some false) off =
      connect_mysql-IsPaired (record s { redis_ctx = true }) refl

  connect_db-IsPaired : (s : Impl Outside Snapshot) → IsPaired s → IsPaired (connect_db b s)
  unfolding connect_db
  connect_db-IsPaired s paired = elim (Bool-cases s.mysql) [
    | inl on ↦ subst IsPaired (sym (if_true _ _ (both paired on))) paired
    | inr off ↦
        by_test IsPaired (s.redis_ctx && s.mysql) _ _ paired (connect_redis-IsPaired _ _ off)
  ]

  ensure_connected-IsPaired :
      (s : Impl Outside Snapshot) → IsPaired s → IsPaired (ensure_connected b s).0
  unfolding ensure_connected
  ensure_connected-IsPaired s paired =
      by_test (λ (r : Impl Outside Snapshot × Bool). IsPaired r.0) (s.redis_ctx && s.mysql) _ _
        paired (connect_db-IsPaired (disconnect_db b s) (disconnect_db-IsPaired s))

  flush_rt_writes-IsPaired :
      (s : Impl Outside Snapshot) → IsPaired s → IsPaired (flush_rt_writes b s)
  unfolding flush_rt_writes write_rt subtract_rt take_rt
  flush_rt_writes-IsPaired s paired = by_test IsPaired (is_empty s.rt_q) _ _ paired (
      by_test IsPaired (not s.redis_ctx) _ _ paired
        (by_test IsPaired (not _) _ _ (disconnect_db-IsPaired _) paired))

  fetched-IsPaired :
      (s : Impl Outside Snapshot) (answer : Option (List Snapshot))
      → IsPaired s
      → IsPaired (fetched b s answer)
  unfolding fetched upsert
  fetched-IsPaired s none paired = disconnect_db-IsPaired s
  fetched-IsPaired s (some snap) paired =
      by_test IsPaired (is_empty snap) _ _ paired
        (by_test IsPaired (not _) _ _ (disconnect_db-IsPaired _) paired)

  write_back-IsPaired :
      (s : Impl Outside Snapshot) (uids : List ℕ) → IsPaired s → IsPaired (write_back b s uids)
  unfolding write_back
  write_back-IsPaired s uids paired =
      by_test IsPaired (is_empty uids) _ _ paired (fetched-IsPaired _ _ paired)

  -- Whatever the clients answer, a job that starts with both connections open or both closed ends
  -- so: no branch of the connecting, flushing, fetching and upserting leaves one of them.
  pub handle_db_job-IsPaired :
      (s : Impl Outside Snapshot) (job : DbJob) → IsPaired s → IsPaired (handle_db_job b s job)
  unfolding handle_db_job
  handle_db_job-IsPaired s job paired =
      let first = (ensure_connected b s).0 in
      let flushed = flush_rt_writes b first in
      let second = (ensure_connected b flushed).0 in
      let up = ensure_connected-IsPaired s paired in
      let still = ensure_connected-IsPaired flushed (flush_rt_writes-IsPaired first up) in
      by_test (λ (r : Impl Outside Snapshot). IsPaired r) (not (ensure_connected b s).1) first _ up
        (by_test (λ (r : Impl Outside Snapshot). IsPaired r) (not (ensure_connected b flushed).1)
          second (write_back b second job.uids) still (write_back-IsPaired second job.uids still))
