-- ===== src/Proxy/Queue/Enqueue.antt =====
-- The enqueueing methods: what they add, whom they wake, and the way back through a dequeue.
use hive_core_v.Base.{
  ℕ, ◌+◌, ◌%◌, ◌^◌, ◌<◌, String, string_eq, Bool, true, false, Option, none, some, List, [], ◌∷◌,
  ◌++◌, if◌then◌else◌, Eq, ◌≡◌, ◌∙◌, ap, arith, Bool-cases, Option-cases, inl, inr, ==_iff, ◌==◌,
}
use hive_core_v.Base.HashMap
use hive_core_v.Base.HashMap.{HashMap, get-insert_self, beq_refl}
use hive_core_v.Worker.Models.{WorkerBackend}
use hive_core_v.Proxy.Models.{ModelRouteKind}
use hive_core_v.Proxy.Task.{ClientTask}
use hive_core_v.Proxy.Queue.Deques.{
  key_Eq, Deque, RequestQueue, EnqueueResult, ok, err, fresh_deque, deque_for, push_back,
  notify_work_available, enqueue_model, enqueue_node, idle_mark, wait_is_over,
  remove_node_key_if_empty, remove_key_if_empty,
}
use hive_core_v.Proxy.Queue.Dequeue.{drops, expire_queue_tasks, dequeue_node, dequeue_for_worker}
use hive_core_v.Proxy.Queue.Conservation.{dequeue_for_worker-found}
use hive_core_v.Proxy.Queue.Count.{all_waiting, count-append, total, total-insert, total-insert_new}

module _ {V : Type 0} (p : ClientTask V → Bool) where
  push_back-total :
      {K : Type 0} ⦃e : Eq K⦄ (k : K) (t : ClientTask V) (m m' : HashMap K (Deque V))
      → push_back k t m ≡ some m'
      → total p m' ≡ total p m + (if p t then 1 else 0)
  unfolding push_back deque_for
  push_back-total k t m m' h = elim (Option-cases (HashMap.get k m)) [
    | inl n ↦ ground (arith, total-insert_new p k (record { tasks = t ∷ []; poisoned = false }) m n)
    | inr (d, f) ↦ ground (
      arith,
      total-insert p k d (record d { tasks = d.tasks ++ t ∷ [] }) m f,
      count-append p d.tasks (t ∷ []),
    )
  ]

  abbrev pub added : EnqueueResult → ClientTask V → ℕ
  added ok t = if p t then 1 else 0
  added (err m) t = 0

  -- For any property of tasks, `enqueue_model` adds its task to those that wait where it
  -- succeeds, and changes no count where it fails.
  pub enqueue_model-total :
      (q : RequestQueue V) (m : String) (kind : ModelRouteKind) (t : ClientTask V)
      → all_waiting p (enqueue_model q m kind t).0
        ≡ all_waiting p q + added (enqueue_model q m kind t).1 t
  unfolding enqueue_model notify_work_available
  enqueue_model-total q m kind t =
      elim (Option-cases (push_back (record { model = m; kind = kind }) t q.model_queue)) [
        | inl n ↦ ground arith
        | inr (x, e) ↦
            ground (arith, push_back-total (record { model = m; kind = kind }) t q.model_queue x e)
      ]

  -- For any property of tasks, `enqueue_node` adds its task to those that wait where it succeeds,
  -- and changes no count where it fails.
  pub enqueue_node-total :
      (q : RequestQueue V) (w : String) (t : ClientTask V)
      → all_waiting p (enqueue_node q w t).0 ≡ all_waiting p q + added (enqueue_node q w t).1 t
  unfolding enqueue_node notify_work_available
  enqueue_node-total q w t = elim (Option-cases (push_back w t q.node_queue)) [
    | inl n ↦ ground arith
    | inr (x, e) ↦ ground (arith, push_back-total w t q.node_queue x e)
  ]

-- Whether an enqueue went well.
abbrev pub woken : EnqueueResult → Bool
woken ok = true
woken (err m) = false

-- The index with one new key and without it.
insert-remove :
    {K V : Type 0} ⦃e : Eq K⦄ (k : K) (v v' : V) (m : HashMap K V)
    → HashMap.get k m ≡ none
    → HashMap.remove k (HashMap.insert k v' (HashMap.insert k v m)) ≡ m
unfolding HashMap.insert HashMap.remove HashMap.get
insert-remove k v v' [] h = ground (arith, beq_refl k)
insert-remove k v v' ((j, w) ∷ m) h = ground (arith, insert-remove k v v' m)

module _ {V : Type 0} (q : RequestQueue V) where
  next_mark : q.generation < 2 ^ 64 → ((q.generation + 1) % 2 ^ 64 == q.generation) ≡ false
  next_mark small = elim (Bool-cases ((q.generation + 1) % 2 ^ 64 == q.generation)) [
    | inl e ↦ absurd (omega (arith, (==_iff ((q.generation + 1) % 2 ^ 64) q.generation).0 e))
    | inr e ↦ e
  ]

  -- With a generation below 2^64, a poller that took its mark before an enqueue, for a model or
  -- for a worker, finds its wait over at once exactly if that enqueue succeeded.
  pub enqueue-wakes :
      (m w : String) (kind : ModelRouteKind) (t : ClientTask V)
      → q.generation < 2 ^ 64
      → wait_is_over (enqueue_model q m kind t).0 (idle_mark q) ≡ woken (enqueue_model q m kind t).1
        × wait_is_over (enqueue_node q w t).0 (idle_mark q) ≡ woken (enqueue_node q w t).1
  unfolding enqueue_model enqueue_node push_back notify_work_available wait_is_over idle_mark
  enqueue-wakes m w kind t small = ground (arith, next_mark small, ==_iff q.generation q.generation)

  module _ (w : String) (t : ClientTask V) where
    abbrev one : Deque V
    one = record { tasks = t ∷ []; poisoned = false }

    abbrev with_one : RequestQueue V
    with_one = record (notify_work_available q) { node_queue = HashMap.insert w one q.node_queue }

    enqueue_node-new :
        q.node_poisoned ≡ false
        → HashMap.get w q.node_queue ≡ none
        → (enqueue_node q w t).0 ≡ with_one
    unfolding enqueue_node push_back deque_for notify_work_available
    enqueue_node-new up absent = ground arith

    dequeue_node-one :
        (now : ℕ)
        → q.node_poisoned ≡ false
        → HashMap.get w q.node_queue ≡ none
        → drops true q.default_timeout now t ≡ false
        → dequeue_node with_one w now ≡ (notify_work_available q, some t)
    unfolding dequeue_node notify_work_available expire_queue_tasks remove_node_key_if_empty
        remove_key_if_empty
    dequeue_node-one now up absent fresh = ground (
      arith,
      get-insert_self w one q.node_queue,
      get-insert_self w fresh_deque (HashMap.insert w one q.node_queue),
      insert-remove w one fresh_deque q.node_queue absent,
    )

  -- With the index of the workers' queues in order, a task that is queued for a worker with no
  -- queue comes back at that worker's next dequeue, unless its own timeout has passed by then,
  -- and the queue is then as before but for the generation, which has moved on by one.
  pub enqueue_node-dequeue :
      (w : String) (backend : WorkerBackend) (tags : List String) (t : ClientTask V) (now : ℕ)
      → q.node_poisoned ≡ false
      → HashMap.get w q.node_queue ≡ none
      → drops true q.default_timeout now t ≡ false
      → dequeue_for_worker (enqueue_node q w t).0 w backend tags now
        ≡ (notify_work_available q, some t)
  enqueue_node-dequeue w backend tags t now up absent fresh = rw (enqueue_node-new w t up absent) (
      let e = dequeue_node-one w t now up absent fresh in
      dequeue_for_worker-found (with_one w t) now w backend tags t
        (ap (λ (r : RequestQueue V × Option (ClientTask V)). r.1) e)
      ∙ ap (λ (r : RequestQueue V × Option (ClientTask V)). (r.0, some t)) e)
