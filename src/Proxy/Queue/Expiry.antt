-- ===== src/Proxy/Queue/Expiry.antt =====
-- src/servers/proxy/queue.rs, `expire_older_than`: the sweep over all queues.
use hive_core_v.Base.{
  ℕ, string_eq, Bool, false, none, some, List, [], ◌∷◌, ◌++◌, is_empty, if◌then◌else◌, Eq,
}
use hive_core_v.Base.HashMap
use hive_core_v.Base.HashMap.{HashMap, keys}
use hive_core_v.Proxy.Task.{ClientTask}
use hive_core_v.Proxy.Queue.Deques.{key_Eq, Deque, RequestQueue, remove_key_if_empty}
use hive_core_v.Proxy.Queue.Dequeue.{expire_queue_tasks}

module _ {V : Type 0} where
  -- One round of a loop: the deque of the key, if its lock is not poisoned, loses its expired tasks,
  -- and the key goes with the last task.
  unfoldable pub expire_key :
      {K : Type 0} ⦃e : Eq K⦄
      → K
      → ℕ
      → ℕ
      → HashMap K (Deque V)
      → HashMap K (Deque V) × List (ClientTask V)
  unfolding expire_queue_tasks remove_key_if_empty
  expire_key k max_age now m = elim (HashMap.get k m) [
    | none ↦ (m, [])
    | some d ↦
        if d.poisoned
        then (m, [])
        else (let (kept, expired) = expire_queue_tasks false max_age now d.tasks in
            let m' = HashMap.insert k (record d { tasks = kept }) m in
            (if is_empty kept then remove_key_if_empty k m' else m', expired))
  ]

  unfoldable pub expire_keys :
      {K : Type 0} ⦃e : Eq K⦄
      → List K
      → ℕ
      → ℕ
      → HashMap K (Deque V)
      → HashMap K (Deque V) × List (ClientTask V)
  unfolding expire_key
  expire_keys [] max_age now m = (m, [])
  expire_keys (k ∷ ks) max_age now m =
      let (m', expired) = expire_key k max_age now m in
      let (m'', more) = expire_keys ks max_age now m' in (m'', expired ++ more)

  -- A poisoned index is an empty list of entries.
  unfoldable pub expire_index :
      {K : Type 0} ⦃e : Eq K⦄
      → Bool
      → ℕ
      → ℕ
      → HashMap K (Deque V)
      → HashMap K (Deque V) × List (ClientTask V)
  unfolding expire_keys
  expire_index poisoned max_age now m =
      if poisoned then (m, []) else expire_keys (keys m) max_age now m

  unfoldable pub expire_older_than : RequestQueue V → ℕ → ℕ → RequestQueue V × List (ClientTask V)
  unfolding expire_index
  expire_older_than q max_age now =
      let (models, expired) = expire_index q.model_poisoned max_age now q.model_queue in
      let (nodes, more) = expire_index q.node_poisoned max_age now q.node_queue in
      (record q { model_queue = models; node_queue = nodes }, expired ++ more)
