-- ===== src/Proxy/Queue/Conservation.antt =====
-- No waiting task is lost or doubled by the methods that take tasks for a worker.
use hive_core_v.Base.{
  ℕ, ◌+◌, String, string_eq, Bool, true, not, ◌&&◌, Option, none, some, List, [], ◌∷◌,
  if◌then◌else◌, Eq, ◌≡◌, refl, ◌∙◌, subst, arith, Option-cases, inl, inr,
}
use hive_core_v.Base.HashMap
use hive_core_v.Base.HashMap.{HashMap, HasUniqueKeys, insert-HasUniqueKeys, get-insert_self}
use hive_core_v.Worker.Models.{WorkerBackend}
use hive_core_v.Proxy.Task.{ClientTask}
use hive_core_v.Proxy.Queue.Deques.{
  ModelQueueKey, key_Eq, Deque, RequestQueue, remove_node_key_if_empty, remove_model_key_if_empty,
}
use hive_core_v.Proxy.Queue.Dequeue.{
  drops, expire_queue_tasks, front, rest, dequeue_node, dequeue_model_key, dequeue_keys,
  dequeue_for_worker, worker_keys,
}
use hive_core_v.Proxy.Queue.Count.{
  count, total, total-insert, total-remove_if_empty, remove_if_empty-HasUniqueKeys,
}

-- Each index holds a key once.
pub record HasUniqueQueues {V : Type 0} (q : RequestQueue V) : Type 0 where
  pub models : HasUniqueKeys q.model_queue
  pub nodes : HasUniqueKeys q.node_queue

-- The two ways through a step of the loop, and through the whole dequeue.
module _ {V : Type 0} (q : RequestQueue V) (now : ℕ) where
  pub dequeue_keys-found :
      (k : ModelQueueKey) (ks : List ModelQueueKey) (t : ClientTask V)
      → (dequeue_model_key q k now).1 ≡ some t
      → dequeue_keys q (k ∷ ks) now ≡ ((dequeue_model_key q k now).0, some t)
  unfolding dequeue_keys
  dequeue_keys-found k ks t e = rw (dequeue_keys, e) refl

  pub dequeue_keys-next :
      (k : ModelQueueKey) (ks : List ModelQueueKey)
      → (dequeue_model_key q k now).1 ≡ none
      → dequeue_keys q (k ∷ ks) now ≡ dequeue_keys (dequeue_model_key q k now).0 ks now
  unfolding dequeue_keys
  dequeue_keys-next k ks e = rw (dequeue_keys, e) refl

  module _ (w : String) (backend : WorkerBackend) (tags : List String) where
    pub dequeue_for_worker-found :
        (t : ClientTask V)
        → (dequeue_node q w now).1 ≡ some t
        → dequeue_for_worker q w backend tags now ≡ ((dequeue_node q w now).0, some t)
    unfolding dequeue_for_worker
    dequeue_for_worker-found t e = rw (dequeue_for_worker, e) refl

    pub dequeue_for_worker-next :
        (dequeue_node q w now).1 ≡ none
        → dequeue_for_worker q w backend tags now
          ≡ dequeue_keys (dequeue_node q w now).0 (worker_keys backend tags) now
    unfolding dequeue_for_worker
    dequeue_for_worker-next e = rw (dequeue_for_worker, e) refl

module _ {V : Type 0} (p : ClientTask V → Bool) where
  -- A task with the property that a dequeue at `now` does not drop for its own timeout.
  abbrev pub live : ℕ → ℕ → ClientTask V → Bool
  live default_timeout now t = p t && not (drops true default_timeout now t)

  count-kept :
      (d now : ℕ) (ts : List (ClientTask V))
      → count (live d now) (expire_queue_tasks true d now ts).0 ≡ count (live d now) ts
  unfolding expire_queue_tasks
  count-kept d now [] = refl
  count-kept d now (t ∷ ts) = ground (arith, count-kept d now ts)

  abbrev pub waiting : ℕ → ℕ → RequestQueue V → ℕ
  waiting d now q = total (live d now) q.model_queue + total (live d now) q.node_queue

  abbrev pub taken : ℕ → ℕ → Option (ClientTask V) → ℕ
  taken d now none = 0
  taken d now (some t) = if live d now t then 1 else 0

  count-front :
      (d now : ℕ) (ts : List (ClientTask V))
      → taken d now (front ts) + count (live d now) (rest ts) ≡ count (live d now) ts
  count-front d now [] = refl
  count-front d now (t ∷ ts) = refl

  -- What a dequeue keeps: the timeout, the unique keys, and each live task but the one it takes.
  pub record Keeps (now : ℕ) (q q' : RequestQueue V) (r : Option (ClientTask V)) : Type 0 where
    pub timeout : q'.default_timeout ≡ q.default_timeout
    pub unique : HasUniqueQueues q'
    pub tasks :
        waiting q.default_timeout now q' + taken q.default_timeout now r
        ≡ waiting q.default_timeout now q

  -- The index after the front of a deque is taken.
  module _ {K : Type 0} ⦃e : Eq K⦄ (k : K) (dq : Deque V) (d now : ℕ)
      (m : HashMap K (Deque V)) where
    abbrev pub kept : List (ClientTask V)
    kept = (expire_queue_tasks true d now dq.tasks).0

    abbrev pub shorter : HashMap K (Deque V)
    shorter = HashMap.insert k (record dq { tasks = rest kept }) m

    pub shorter-total :
        HashMap.get k m ≡ some dq
        → total (live d now) shorter + taken d now (front kept) ≡ total (live d now) m
    shorter-total h = omega (
      arith,
      total-insert (live d now) k dq (record dq { tasks = rest kept }) m h,
      count-kept d now dq.tasks,
      count-front d now kept,
    )

  dequeue_node-Keeps :
      (q : RequestQueue V) (w : String) (now : ℕ)
      → HasUniqueQueues q
      → Keeps now q (dequeue_node q w now).0 (dequeue_node q w now).1
  unfolding dequeue_node remove_node_key_if_empty
  dequeue_node-Keeps q w now u = elim (Option-cases (HashMap.get w q.node_queue)) [
    | inl n ↦ record {
      timeout = ground arith;
      unique = record { models = ground (arith, u.models); nodes = ground (arith, u.nodes) };
      tasks = ground arith;
    }
    | inr (dq, f) ↦
        let m = shorter w dq q.default_timeout now q.node_queue in
        let s = shorter-total w dq q.default_timeout now q.node_queue f in
        let um : HasUniqueKeys m =
          insert-HasUniqueKeys w
            (record dq { tasks = rest (kept w dq q.default_timeout now q.node_queue) }) q.node_queue
            u.nodes in
        record {
          timeout = ground arith;
          unique = record {
            models = ground (arith, u.models);
            nodes = ground (arith, u.nodes, um, remove_if_empty-HasUniqueKeys w m um);
          };
          tasks = ground (arith, s, total-remove_if_empty (live q.default_timeout now) w m um);
        }
  ]

  dequeue_model_key-Keeps :
      (q : RequestQueue V) (k : ModelQueueKey) (now : ℕ)
      → HasUniqueQueues q
      → Keeps now q (dequeue_model_key q k now).0 (dequeue_model_key q k now).1
  unfolding dequeue_model_key remove_model_key_if_empty
  dequeue_model_key-Keeps q k now u = elim (Option-cases (HashMap.get k q.model_queue)) [
    | inl n ↦ record {
      timeout = ground arith;
      unique = record { models = ground (arith, u.models); nodes = ground (arith, u.nodes) };
      tasks = ground arith;
    }
    | inr (dq, f) ↦
        let m = shorter k dq q.default_timeout now q.model_queue in
        let s = shorter-total k dq q.default_timeout now q.model_queue f in
        let um : HasUniqueKeys m =
          insert-HasUniqueKeys k
            (record dq { tasks = rest (kept k dq q.default_timeout now q.model_queue) })
            q.model_queue u.models in
        record {
          timeout = ground arith;
          unique = record {
            models = ground (arith, u.models, um, remove_if_empty-HasUniqueKeys k m um);
            nodes = ground (arith, u.nodes);
          };
          tasks = ground (arith, s, total-remove_if_empty (live q.default_timeout now) k m um);
        }
  ]

  -- Two dequeues in a row, the first of which took nothing.
  Keeps-after :
      (now : ℕ) (q q' q'' : RequestQueue V) (r : Option (ClientTask V))
      → Keeps now q q' none
      → Keeps now q' q'' r
      → Keeps now q q'' r
  Keeps-after now q q' q'' r a b = record {
    timeout = b.timeout ∙ a.timeout;
    unique = b.unique;
    tasks =
        subst (λ d. waiting d now q'' + taken d now r ≡ waiting d now q') a.timeout b.tasks
        ∙ omega (arith, a.tasks);
  }

  dequeue_keys-Keeps :
      (q : RequestQueue V) (ks : List ModelQueueKey) (now : ℕ)
      → HasUniqueQueues q
      → Keeps now q (dequeue_keys q ks now).0 (dequeue_keys q ks now).1
  unfolding dequeue_keys
  dequeue_keys-Keeps q [] now u = record { timeout = refl; unique = u; tasks = omega arith }
  dequeue_keys-Keeps q (k ∷ ks) now u =
      let q' = (dequeue_model_key q k now).0 in
      let first = dequeue_model_key-Keeps q k now u in
      elim (Option-cases (dequeue_model_key q k now).1) [
        | inr (t, e) ↦ rw (dequeue_keys-found q now k ks t e) (subst (Keeps now q q') e first)
        | inl e ↦ rw (dequeue_keys-next q now k ks e) (
            Keeps-after now q q' (dequeue_keys q' ks now).0 (dequeue_keys q' ks now).1
              (subst (Keeps now q q') e first) (dequeue_keys-Keeps q' ks now first.unique))
      ]

  -- From a queue whose indices hold each key once, a dequeue for a worker keeps the default
  -- timeout and the unique keys, and for any property of tasks, those with it whose own timeout
  -- has not passed are as many as before, the returned task counted.
  pub dequeue_for_worker-Keeps :
      (q : RequestQueue V) (w : String) (backend : WorkerBackend) (tags : List String) (now : ℕ)
      → HasUniqueQueues q
      → Keeps now q
          (dequeue_for_worker q w backend tags now).0
          (dequeue_for_worker q w backend tags now).1
  dequeue_for_worker-Keeps q w backend tags now u =
      let q' = (dequeue_node q w now).0 in
      let ks = worker_keys backend tags in
      let first = dequeue_node-Keeps q w now u in
      elim (Option-cases (dequeue_node q w now).1) [
        | inr (t, e) ↦
            rw (dequeue_for_worker-found q now w backend tags t e) (subst (Keeps now q q') e first)
        | inl e ↦ rw (dequeue_for_worker-next q now w backend tags e) (
            Keeps-after now q q' (dequeue_keys q' ks now).0 (dequeue_keys q' ks now).1
              (subst (Keeps now q q') e first) (dequeue_keys-Keeps q' ks now first.unique))
      ]
