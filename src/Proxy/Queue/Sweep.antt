-- ===== src/Proxy/Queue/Sweep.antt =====
-- The sweep of `expire_older_than`: what it takes out, and what it leaves.
use hive_core_v.Base.{
  ℕ, ◌+◌, string_eq, Bool, true, false, All, List, [], ◌∷◌, ◌++◌, Eq, ◌≡◌, arith, Bool-cases,
  Option-cases, inl, inr,
}
use hive_core_v.Base.HashMap
use hive_core_v.Base.HashMap.{HashMap, keys, HasUniqueKeys, insert-HasUniqueKeys}
use hive_core_v.Proxy.Task.{ClientTask, is_expired}
use hive_core_v.Proxy.Queue.Deques.{key_Eq, Deque, RequestQueue}
use hive_core_v.Proxy.Queue.Dequeue.{drops, expire_queue_tasks}
use hive_core_v.Proxy.Queue.Expiry.{expire_key, expire_keys, expire_index, expire_older_than}
use hive_core_v.Proxy.Queue.Count.{
  all_waiting, count, count-append, count-expire, total, total-insert, total-remove_if_empty,
  remove_if_empty-HasUniqueKeys,
}
use hive_core_v.Proxy.Queue.Conservation.{HasUniqueQueues}

module _ {V : Type 0} (p : ClientTask V → Bool) where
  module _ {K : Type 0} ⦃e : Eq K⦄ (max_age now : ℕ) where
    -- The tasks of the index are those that are left and those that are taken out.
    pub record Splits (m m' : HashMap K (Deque V)) (expired : List (ClientTask V)) : Type 0 where
      pub unique : HasUniqueKeys m'
      pub tasks : total p m' + count p expired ≡ total p m

    pub expire_key-Splits :
        (k : K) (m : HashMap K (Deque V))
        → HasUniqueKeys m
        → Splits m (expire_key k max_age now m).0 (expire_key k max_age now m).1
    unfolding expire_key
    expire_key-Splits k m u = elim (Option-cases (HashMap.get k m)) [
      | inl n ↦ record { unique = ground (arith, u); tasks = ground arith }
      | inr (d, f) ↦
          let d' = record d { tasks = (expire_queue_tasks false max_age now d.tasks).0 } in
          let um : HasUniqueKeys (HashMap.insert k d' m) = insert-HasUniqueKeys k d' m u in
          record {
            unique =
                ground (arith, u, um, remove_if_empty-HasUniqueKeys k (HashMap.insert k d' m) um);
            tasks = ground (
              arith,
              total-insert p k d d' m f,
              count-expire p false max_age now d.tasks,
              total-remove_if_empty p k (HashMap.insert k d' m) um,
            );
          }
    ]

    expire_keys-Splits :
        (ks : List K) (m : HashMap K (Deque V))
        → HasUniqueKeys m
        → Splits m (expire_keys ks max_age now m).0 (expire_keys ks max_age now m).1
    unfolding expire_keys
    expire_keys-Splits [] m u = record { unique = u; tasks = omega arith }
    expire_keys-Splits (k ∷ ks) m u =
        let a = expire_key-Splits k m u in
        let m' = (expire_key k max_age now m).0 in
        let b = expire_keys-Splits ks m' a.unique in
        record {
          unique = b.unique;
          tasks = omega (
            arith,
            a.tasks,
            b.tasks,
            count-append p (expire_key k max_age now m).1 (expire_keys ks max_age now m').1,
          );
        }

-- The tasks that a sweep takes out have all waited longer than their timeout.
module _ {V : Type 0} (max_age now : ℕ) where
  expired-All :
      (ts : List (ClientTask V))
      → All (λ t. is_expired t max_age now ≡ true) (expire_queue_tasks false max_age now ts).1
  unfolding expire_queue_tasks drops
  expired-All [] = tt
  expired-All (t ∷ ts) = ground (arith, expired-All ts)

  append-All :
      (P : ClientTask V → Type 0) (xs ys : List (ClientTask V))
      → All P xs
      → All P ys
      → All P (xs ++ ys)
  append-All P [] ys h k = k
  append-All P (x ∷ xs) ys h k = (h.0, append-All P xs ys h.1 k)

  expire_key-All :
      {K : Type 0} ⦃e : Eq K⦄ (k : K) (m : HashMap K (Deque V))
      → All (λ t. is_expired t max_age now ≡ true) (expire_key k max_age now m).1
  unfolding expire_key
  expire_key-All k m = elim (Option-cases (HashMap.get k m)) [
    | inl n ↦ rw (expire_key, n) tt
    | inr (d, f) ↦ elim (Bool-cases d.poisoned) [
      | inl b ↦ rw (expire_key, f, b) tt
      | inr b ↦ rw (expire_key, f, b) (expired-All d.tasks)
    ]
  ]

  expire_keys-All :
      {K : Type 0} ⦃e : Eq K⦄ (ks : List K) (m : HashMap K (Deque V))
      → All (λ t. is_expired t max_age now ≡ true) (expire_keys ks max_age now m).1
  unfolding expire_keys
  expire_keys-All [] m = tt
  expire_keys-All (k ∷ ks) m =
      append-All (λ t. is_expired t max_age now ≡ true) (expire_key k max_age now m).1 _
        (expire_key-All k m) (expire_keys-All ks (expire_key k max_age now m).0)

  expire_index-All :
      {K : Type 0} ⦃e : Eq K⦄ (poisoned : Bool) (m : HashMap K (Deque V))
      → All (λ t. is_expired t max_age now ≡ true) (expire_index poisoned max_age now m).1
  unfolding expire_index
  expire_index-All true m = tt
  expire_index-All false m = expire_keys-All (keys m) m

module _ {V : Type 0} (q : RequestQueue V) (max_age now : ℕ) where
  -- From a queue whose indices hold each key once, a sweep partitions the waiting tasks: for any
  -- property, those that had it before are as many as those that still wait and those that the
  -- sweep returns.
  pub expire_older_than-total :
      (p : ClientTask V → Bool)
      → HasUniqueQueues q
      → all_waiting p (expire_older_than q max_age now).0
          + count p (expire_older_than q max_age now).1
        ≡ all_waiting p q
  unfolding expire_older_than expire_index
  expire_older_than-total p u =
      let a = expire_keys-Splits p max_age now (keys q.model_queue) q.model_queue u.models in
      let b = expire_keys-Splits p max_age now (keys q.node_queue) q.node_queue u.nodes in
      ground (
        arith,
        a.tasks,
        b.tasks,
        count-append p (expire_index q.model_poisoned max_age now q.model_queue).1
            (expire_index q.node_poisoned max_age now q.node_queue).1,
      )

  -- Each task that a sweep returns has waited longer than its own timeout, or than the given one
  -- if it has none.
  pub expire_older_than-All :
      All (λ t. is_expired t max_age now ≡ true) (expire_older_than q max_age now).1
  unfolding expire_older_than
  expire_older_than-All =
      append-All max_age now (λ t. is_expired t max_age now ≡ true)
        (expire_index q.model_poisoned max_age now q.model_queue).1
        (expire_index q.node_poisoned max_age now q.node_queue).1
        (expire_index-All max_age now q.model_poisoned q.model_queue)
        (expire_index-All max_age now q.node_poisoned q.node_queue)
