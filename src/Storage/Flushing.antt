-- ===== src/Storage/Flushing.antt =====
-- What `on_timer` of storage/StorageSystem.cpp does to the users that wait for a write.
use mmorpg_server_rl_portfol.Prelude.{
  ℕ, nat_eq, zero, suc, ◌+◌, ◌-◌, ◌<◌, ◌≤◌, ◌≡◌, ◌∙◌, refl, sym, ap, inl, inr, Bool, Bool-cases,
  true, false, not, ◌||◌, List, [], ◌∷◌, ◌++◌, length, take, drop, is_empty, contains, leb, ltb,
  if◌then◌else◌, if_true, if_false, arith, contains-append, drop-drop, take-append-drop,
}
use mathlib.Core.Path.{subst}
use mmorpg_server_rl_portfol.Storage.DirtyHub.{DirtyHub, mark_dirty, steal_all}
use mmorpg_server_rl_portfol.Storage.DbWorker.{DbJob, job_of, DbWorker, try_push}
use mmorpg_server_rl_portfol.Storage.Stealing.{
  is_dirty, IsHub, is_dirty-mark_dirty, mark_dirty-IsHub, steal_all_lem,
}
use mmorpg_server_rl_portfol.Storage.Queue.{try_push-full, try_push-room, room_lem}
use mmorpg_server_rl_portfol.Storage.System.{
  Impl, mark_all, batch_size, push_batch, push_batches, flush_uids, on_timer, FlushWorkerUv,
  flush_worker_on_timer,
}

-- A queued job names the user.
abbrev pub is_queued : List DbJob → ℕ → Bool
is_queued [] uid = false
is_queued (job ∷ q) uid = contains uid job.uids || is_queued q uid

-- The user waits for a write: it is marked, or a queued job names it.
abbrev pub waits_in : DirtyHub → DbWorker → ℕ → Bool
waits_in dirty db uid = is_dirty dirty uid || is_queued db.q uid

is_queued-append :
    (q r : List DbJob) (uid : ℕ) → is_queued (q ++ r) uid ≡ (is_queued q uid || is_queued r uid)
is_queued-append [] r uid = refl
is_queued-append (job ∷ q) r uid = ground (arith, is_queued-append q r uid)

is_dirty-mark_all :
    (uids : List ℕ) (hub : DirtyHub) (v : ℕ)
    → is_dirty (mark_all hub uids) v ≡ (contains v uids || is_dirty hub v)
unfolding mark_all contains
is_dirty-mark_all [] hub v = refl
is_dirty-mark_all (uid ∷ uids) hub v =
    is_dirty-mark_all uids (mark_dirty hub uid) v
    ∙ ap (◌||◌ (contains v uids)) (is_dirty-mark_dirty hub uid v)
    ∙ ground arith

mark_all-IsHub : (uids : List ℕ) (hub : DirtyHub) → IsHub hub → IsHub (mark_all hub uids)
unfolding mark_all
mark_all-IsHub [] hub ok = ok
mark_all-IsHub (uid ∷ uids) hub ok =
    mark_all-IsHub uids (mark_dirty hub uid) (mark_dirty-IsHub hub uid ok)

-- After a batch the users of the batch wait, and no one else who did not.
record Batched (dirty : DirtyHub) (db : DbWorker) (uids : List ℕ) (r : DirtyHub × DbWorker)
    : Type 0 where
  waiting : (v : ℕ) → waits_in r.0 r.1 v ≡ (waits_in dirty db v || contains v uids)
  hub : IsHub r.0

push_batch-Batched :
    (dirty : DirtyHub) (db : DbWorker) (uids : List ℕ)
    → IsHub dirty
    → Batched dirty db uids (push_batch dirty db uids)
unfolding push_batch
push_batch-Batched dirty db uids ok = elim (room_lem db.max_queue (length db.q)) [
  | inl full ↦
      subst
        (λ (p : DbWorker × Bool).
          Batched dirty db uids (if p.1 then dirty else mark_all dirty uids, p.0))
        (sym (try_push-full db (job_of uids) full))
        (record {
          waiting = λ v. ground (arith, is_dirty-mark_all uids dirty v);
          hub = mark_all-IsHub uids dirty ok;
        })
  | inr room ↦
      subst
        (λ (p : DbWorker × Bool).
          Batched dirty db uids (if p.1 then dirty else mark_all dirty uids, p.0))
        (sym (try_push-room db (job_of uids) room))
        (record {
          waiting = λ v. ground (arith, is_queued-append db.q (job_of uids ∷ []) v);
          hub = ok;
        })
]

drop_all : (n : ℕ) (xs : List ℕ) → length xs ≤ n → drop n xs ≡ []
drop_all zero [] h = refl
drop_all zero (x ∷ xs) h = absurd (omega arith)
drop_all (suc n) [] h = refl
drop_all (suc n) (x ∷ xs) h = drop_all n xs (omega arith)

-- `std::min(uids.size(), i + maxBatch)`
abbrev batch_end : ℕ → ℕ → ℕ
batch_end size next = if ltb size next then size else next

same_tail :
    (m i : ℕ) (uids : List ℕ) → drop (batch_end (length uids) (i + m)) uids ≡ drop (i + m) uids
same_tail m i uids = elim (Bool-cases (ltb (length uids) (i + m))) [
  | inl short ↦
      ap (λ n. drop n uids) (if_true (length uids) (i + m) short)
      ∙ drop_all (length uids) uids (omega arith)
      ∙ sym (drop_all (i + m) uids (ground arith))
  | inr long ↦ ap (λ n. drop n uids) (if_false (length uids) (i + m) long)
]

-- The uids from an index on are a batch and those behind it.
batch_split :
    (m i : ℕ) (uids : List ℕ) (v : ℕ)
    → i < length uids
    → contains v (drop i uids) ≡ (
        contains v (take (batch_end (length uids) (i + m) - i) (drop i uids))
        || contains v (drop (i + m) uids))
batch_split m i uids v inside =
    let n = batch_end (length uids) (i + m) - i in
    let back : i + n ≡ batch_end (length uids) (i + m) = ground arith in
    ap (contains v) (sym (take-append-drop n (drop i uids)))
    ∙ contains-append v (take n (drop i uids)) (drop n (drop i uids))
    ∙ ap (λ xs. contains v (take n (drop i uids)) || contains v xs)
        (drop-drop n i uids ∙ ap (λ k. drop k uids) back ∙ same_tail m i uids)

push_batches-Batched :
    (fuel m : ℕ) (uids : List ℕ) (i : ℕ) (dirty : DirtyHub) (db : DbWorker)
    → 1 ≤ m
    → length uids - i ≤ fuel
    → IsHub dirty
    → Batched dirty db (drop i uids) (push_batches fuel m uids i dirty db)
unfolding push_batches contains
push_batches-Batched zero m uids i dirty db h enough ok = record {
  waiting = λ v. ground (arith, ap (contains v) (drop_all i uids (omega arith)));
  hub = ok;
}
push_batches-Batched (suc fuel) m uids i dirty db h enough ok =
    let chunk = take (batch_end (length uids) (i + m) - i) (drop i uids) in
    let first = push_batch-Batched dirty db chunk ok in
    let next = push_batch dirty db chunk in
    let rest = push_batches-Batched fuel m uids (i + m) next.0 next.1 h (omega arith) first.hub in
    elim (Bool-cases (ltb i (length uids))) [
      | inl inside ↦
          subst (Batched dirty db (drop i uids)) (sym (if_true _ (dirty, db) inside)) (record {
            waiting = λ v.
                rest.waiting v
                ∙ ap (λ w. w || contains v (drop (i + m) uids)) (first.waiting v)
                ∙ ground (arith, batch_split m i uids v (ground arith));
            hub = rest.hub;
          })
      | inr outside ↦
          subst (Batched dirty db (drop i uids)) (sym (if_false _ (dirty, db) outside)) (record {
            waiting = λ v. ground (arith, ap (contains v) (drop_all i uids (ground arith)));
            hub = ok;
          })
    ]

-- A job without users makes no one wait.
pushed_none :
    (dirty : DirtyHub) (db : DbWorker) (v : ℕ)
    → waits_in dirty (try_push db (job_of [])).0 v ≡ waits_in dirty db v
unfolding contains
pushed_none dirty db v = elim (room_lem db.max_queue (length db.q)) [
  | inl full ↦
      ap (λ (r : DbWorker × Bool). waits_in dirty r.0 v) (try_push-full db (job_of []) full)
  | inr room ↦
      ap (λ (r : DbWorker × Bool). waits_in dirty r.0 v) (try_push-room db (job_of []) room)
      ∙ ground (arith, is_queued-append db.q (job_of [] ∷ []) v)
]

one_le-batch_size : (n : ℕ) → 1 ≤ batch_size n
unfolding batch_size
one_le-batch_size zero = omega arith
one_le-batch_size (suc n) = omega arith

module _ {O S : Type 0} where
  flush_uids-Batched :
      (self : Impl O S) (uids : List ℕ)
      → IsHub self.dirty
      → Batched self.dirty self.db uids ((flush_uids self uids).dirty, (flush_uids self uids).db)
  unfolding flush_uids contains
  flush_uids-Batched self [] ok = elim (Bool-cases (ltb 0 self.rt_pending)) [
    | inl some ↦
        subst (λ (s : Impl O S). Batched self.dirty self.db [] (s.dirty, s.db))
          (sym (if_true _ self some))
          (record { waiting = λ v. pushed_none self.dirty self.db v ∙ ground arith; hub = ok })
    | inr none ↦
        subst (λ (s : Impl O S). Batched self.dirty self.db [] (s.dirty, s.db))
          (sym (if_false _ self none)) (record { waiting = λ v. ground arith; hub = ok })
  ]
  flush_uids-Batched self (uid ∷ uids) ok =
      push_batches-Batched (length (uid ∷ uids)) (batch_size self.max_batch_uids) (uid ∷ uids) 0
        self.dirty self.db (one_le-batch_size self.max_batch_uids) (omega arith) ok

  -- A tick of the timer neither forgets a user nor adds one: who waits for a write after it, marked
  -- or in a queued job, waited before, also when the worker's queue is full and whatever the size of
  -- the batches. At the start every user is in its own shard; so it is at the end.
  pub waits_in-on_timer :
      (self : Impl O S) (v : ℕ)
      → IsHub self.dirty
      → (waits_in (on_timer self).dirty (on_timer self).db v ≡ waits_in self.dirty self.db v)
        × IsHub (on_timer self).dirty
  unfolding on_timer
  waits_in-on_timer self v ok =
      let (taken, left, ok') = steal_all_lem self.dirty v ok in
      let stolen = record self { dirty = (steal_all self.dirty).0 } in
      let flushed = flush_uids-Batched stolen (steal_all self.dirty).1 ok' in
      elim (Bool-cases self.started) [
        | inl on ↦
            subst
              (λ (s : Impl O S).
                (waits_in s.dirty s.db v ≡ waits_in self.dirty self.db v) × IsHub s.dirty)
              (sym (if_false self _ (ap not on))) (flushed.waiting v ∙ ground arith, flushed.hub)
        | inr off ↦
            subst
              (λ (s : Impl O S).
                (waits_in s.dirty s.db v ≡ waits_in self.dirty self.db v) × IsHub s.dirty)
              (sym (if_true self _ (ap not off))) (refl, ok)
      ]

is_empty-contains : (uids : List ℕ) (v : ℕ) → is_empty uids ≡ true → contains v uids ≡ false
unfolding contains
is_empty-contains [] v h = refl
is_empty-contains (uid ∷ uids) v h = absurd (ground arith)

-- A tick of the other worker keeps who waits while the queue has room. When it is full, the users
-- that were only marked are forgotten: after the tick those wait whom a queued job names, no others.
pub waits_in-flush_worker :
    (self : FlushWorkerUv) (v : ℕ)
    → IsHub self.hub
    → self.running ≡ true
    → waits_in (flush_worker_on_timer self).hub (flush_worker_on_timer self).db v ≡ (
        if leb self.db.max_queue (length self.db.q)
        then is_queued self.db.q v
        else waits_in self.hub self.db v)
unfolding flush_worker_on_timer
waits_in-flush_worker self v ok on =
    let (taken, left, ok') = steal_all_lem self.hub v ok in
    let uids = (steal_all self.hub).1 in
    let waiting : ℕ → DbWorker × Bool → Bool = λ w r. waits_in (steal_all self.hub).0 r.0 w in
    let P : FlushWorkerUv → Type 0 = λ s. waits_in s.hub s.db v ≡ (
      if leb self.db.max_queue (length self.db.q)
      then is_queued self.db.q v
      else waits_in self.hub self.db v) in
    subst P (sym (if_false self _ (ap not on))) (elim (Bool-cases (is_empty uids)) [
      | inl none ↦ subst P (sym (if_true _ _ none)) (ground (arith, is_empty-contains uids v none))
      | inr some ↦
          subst P (sym (if_false _ _ some)) (elim (room_lem self.db.max_queue (length self.db.q)) [
            | inl full ↦ ap (waiting v) (try_push-full self.db (job_of uids) full) ∙ ground arith
            | inr room ↦
                ap (waiting v) (try_push-room self.db (job_of uids) room)
                ∙ ground (arith, is_queued-append self.db.q (job_of uids ∷ []) v)
          ])
    ])
