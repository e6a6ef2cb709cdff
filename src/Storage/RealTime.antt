-- ===== src/Storage/RealTime.antt =====
-- The real-time writes of storage/StorageSystem.cpp: `enqueue_rt_write` on the threads of the fields
-- and `flush_rt_writes` on the worker's, with the counter that is changed outside the lock.
use mmorpg_server_rl_portfol.Prelude.{
  ℕ, ◌+◌, ◌-◌, ◌%◌, ◌^◌, ◌<◌, ◌≤◌, ◌≡◌, ◌∙◌, refl, sym, ap, List, [], ◌∷◌, ◌++◌, length, arith,
  length-append, append_assoc, append_nil,
}
use mmorpg_server_rl_portfol.Storage.System.{
  Backend, Impl, push_rt, add_rt, take_rt, subtract_rt, new_impl,
}

-- So many threads are between the two steps of `enqueue_rt_write`, and so many snapshots are between
-- the two of `flush_rt_writes`; what was pushed, and what was taken over, in order.
pub record RtState (b : Backend) : Type 0 where
  pub self : Impl b.Outside b.Snapshot
  pub to_add : ℕ
  pub to_subtract : ℕ
  pub pushed : List b.Snapshot
  pub taken : List b.Snapshot

module _ (b : Backend) where
  open b use {Outside, Snapshot}

  -- The worker takes over only after it has subtracted what it took before.
  pub data RtReach : RtState b → Type 0 where
    fresh :
        (max_batch : ℕ) (outside : Outside)
        → RtReach (record {
          self = new_impl b max_batch outside;
          to_add = 0;
          to_subtract = 0;
          pushed = [];
          taken = [];
        })
    pushes :
        {t : RtState b} (s : Snapshot)
        → RtReach t
        → RtReach (record t {
          self = push_rt b t.self s;
          to_add = t.to_add + 1;
          pushed = t.pushed ++ s ∷ [];
        })
    adds :
        {t : RtState b}
        → 1 ≤ t.to_add
        → RtReach t
        → RtReach (record t { self = add_rt b t.self; to_add = t.to_add - 1 })
    takes :
        {t : RtState b}
        → t.to_subtract ≡ 0
        → RtReach t
        → RtReach (record t {
          self = (take_rt b t.self).0;
          to_subtract = length (take_rt b t.self).1;
          taken = t.taken ++ (take_rt b t.self).1;
        })
    subtracts :
        {t : RtState b}
        → RtReach t
        → RtReach (record t { self = subtract_rt b t.self t.to_subtract; to_subtract = 0 })

  pub record IsCounted (t : RtState b) : Type 0 where
    pub counter :
        (t.self.rt_pending + t.to_add) % 2 ^ 32 ≡ (length t.self.rt_q + t.to_subtract) % 2 ^ 32
    pub small : t.self.rt_pending < 2 ^ 32
    pub order : t.taken ++ t.self.rt_q ≡ t.pushed

  -- In every interleaving the snapshots taken over and then those queued are those pushed, in order,
  -- each once, and the counter is the length of the queue up to the steps under way, modulo 2 ^ 32,
  -- also while it wraps below 0.
  pub RtReach-IsCounted : {t : RtState b} → RtReach t → IsCounted t
  unfolding new_impl push_rt add_rt take_rt subtract_rt
  RtReach-IsCounted (fresh max_batch outside) = record {
    counter = refl;
    small = omega arith;
    order = refl;
  }
  RtReach-IsCounted (pushes {t} s r) =
      let ok = RtReach-IsCounted r in
      record {
        counter = omega (arith, ok.counter, length-append t.self.rt_q (s ∷ []));
        small = ok.small;
        order = sym (append_assoc t.taken t.self.rt_q (s ∷ [])) ∙ ap (λ xs. xs ++ s ∷ []) ok.order;
      }
  RtReach-IsCounted (adds {t} some r) =
      let ok = RtReach-IsCounted r in
      record { counter = omega (arith, ok.counter); small = omega arith; order = ok.order }
  RtReach-IsCounted (takes {t} none r) =
      let ok = RtReach-IsCounted r in
      record {
        counter = omega (arith, ok.counter);
        small = ok.small;
        order = append_nil (t.taken ++ t.self.rt_q) ∙ ok.order;
      }
  RtReach-IsCounted (subtracts {t} r) =
      let ok = RtReach-IsCounted r in
      record {
        counter = omega (arith, ok.counter, ok.small);
        small = omega arith;
        order = ok.order;
      }
