-- ===== src/Storage/DirtyHub.antt =====
-- storage/DirtyHub.h: the set of users that wait for a write, in 64 shards. A lock is held for one
-- shard at a time, so the steps of a shard are the atomic ones.
use mmorpg_server_rl_portfol.Prelude.{
  ℕ, nat_eq, zero, suc, ◌+◌, ◌%◌, List, [], ◌++◌, insert, update,
}

abbrev pub k_shards : ℕ
k_shards = 64

-- The shards by index.
pub record DirtyHub : Type 0 where
  pub shards : ℕ → List ℕ

unfoldable pub new_hub : DirtyHub
new_hub = record { shards = λ i. [] }

-- `uid & (k_shards - 1)`, on an unsigned number the remainder by 64.
unfoldable pub shard_of : ℕ → ℕ
shard_of uid = uid % k_shards

unfoldable pub mark_dirty : DirtyHub → ℕ → DirtyHub
mark_dirty hub uid = record {
  shards = update hub.shards (shard_of uid) (insert uid (hub.shards (shard_of uid)));
}

-- One turn of the loop of `steal_all`.
unfoldable pub steal_shard : DirtyHub → ℕ → DirtyHub × List ℕ
steal_shard hub i = (record { shards = update hub.shards i [] }, hub.shards i)

-- The loop over so many shards from an index on.
unfoldable pub steal_from : ℕ → ℕ → DirtyHub → DirtyHub × List ℕ
unfolding steal_shard
steal_from zero i hub = (hub, [])
steal_from (suc count) i hub =
    let (hub', out) = steal_shard hub i in
    let (hub'', rest) = steal_from count (i + 1) hub' in (hub'', out ++ rest)

unfoldable pub steal_all : DirtyHub → DirtyHub × List ℕ
steal_all hub = steal_from k_shards 0 hub
