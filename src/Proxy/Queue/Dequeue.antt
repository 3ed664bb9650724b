-- ===== src/Proxy/Queue/Dequeue.antt =====
-- src/servers/proxy/queue.rs: the methods that take a task for a worker.
use hive_core_v.Base.{
  ℕ, String, string_eq, Bool, true, false, not, ◌&&◌, Option, none, some, List, [], ◌∷◌, ◌++◌,
  is_empty, if◌then◌else◌,
}
use hive_core_v.Base.HashMap
use hive_core_v.Base.HashMap.{HashMap}
use hive_core_v.Proxy.Models.{
  ModelRouteKind, ollama_native, open_ai_compatible, vllm_specific, system_one_work,
  compatible_with,
}
use hive_core_v.Proxy.Task.{ClientTask, is_expired}
use hive_core_v.Proxy.Queue.Deques.{
  ModelQueueKey, key_Eq, RequestQueue, remove_node_key_if_empty, remove_model_key_if_empty,
}
use hive_core_v.Worker.Models.{WorkerBackend}

abbrev pub has_timeout : Option ℕ → Bool
has_timeout none = false
has_timeout (some t) = true

abbrev pub kinds : List ModelRouteKind
kinds = open_ai_compatible ∷ ollama_native ∷ vllm_specific ∷ system_one_work ∷ []

-- The keys that a worker may take from, in the order of the two loops.
unfoldable pub kind_keys : WorkerBackend → String → List ModelRouteKind → List ModelQueueKey
unfolding compatible_with
kind_keys backend tag [] = []
kind_keys backend tag (k ∷ ks) =
    if compatible_with k backend
    then record { model = tag; kind = k } ∷ kind_keys backend tag ks
    else kind_keys backend tag ks

unfoldable pub worker_keys : WorkerBackend → List String → List ModelQueueKey
unfolding kind_keys
worker_keys backend [] = []
worker_keys backend (tag ∷ tags) = kind_keys backend tag kinds ++ worker_keys backend tags

module _ {V : Type 0} where
  -- Whether `expire_queue_tasks` takes a task out of the queue.
  unfoldable pub drops : Bool → ℕ → ℕ → ClientTask V → Bool
  unfolding is_expired
  drops custom_timeout_only default_timeout now t =
      if custom_timeout_only && not (has_timeout t.context.queue_timeout)
      then false
      else is_expired t default_timeout now

  -- The tasks that are kept, and the expired ones, each in the order of the queue.
  unfoldable pub expire_queue_tasks :
      Bool → ℕ → ℕ → List (ClientTask V) → List (ClientTask V) × List (ClientTask V)
  unfolding drops
  expire_queue_tasks custom default_timeout now [] = ([], [])
  expire_queue_tasks custom default_timeout now (t ∷ ts) =
      let (kept, expired) = expire_queue_tasks custom default_timeout now ts in
      if drops custom default_timeout now t then (kept, t ∷ expired) else (t ∷ kept, expired)

  abbrev pub front : List (ClientTask V) → Option (ClientTask V)
  front [] = none
  front (t ∷ ts) = some t

  abbrev pub rest : List (ClientTask V) → List (ClientTask V)
  rest [] = []
  rest (t ∷ ts) = ts

  unfoldable pub dequeue_node : RequestQueue V → String → ℕ → RequestQueue V × Option (ClientTask V)
  unfolding expire_queue_tasks remove_node_key_if_empty
  dequeue_node q worker_name now =
      if q.node_poisoned then (q, none) else elim (HashMap.get worker_name q.node_queue) [
        | none ↦ (q, none)
        | some d ↦
            if d.poisoned
            then (q, none)
            else (let kept = (expire_queue_tasks true q.default_timeout now d.tasks).0 in
                let q' = record q {
                  node_queue =
                      HashMap.insert worker_name (record d { tasks = rest kept }) q.node_queue;
                } in
                (
                  if is_empty (rest kept) then remove_node_key_if_empty q' worker_name else q',
                  front kept,
                ))
      ]

  -- With no task left after the expiry the method returns early, and the key stays.
  unfoldable pub dequeue_model_key :
      RequestQueue V → ModelQueueKey → ℕ → RequestQueue V × Option (ClientTask V)
  unfolding expire_queue_tasks remove_model_key_if_empty
  dequeue_model_key q key now =
      if q.model_poisoned then (q, none) else elim (HashMap.get key q.model_queue) [
        | none ↦ (q, none)
        | some d ↦
            if d.poisoned
            then (q, none)
            else (let kept = (expire_queue_tasks true q.default_timeout now d.tasks).0 in
                let q' = record q {
                  model_queue = HashMap.insert key (record d { tasks = rest kept }) q.model_queue;
                } in
                elim kept [
                  | [] ↦ (q', none)
                  | t ∷ ts ↦ (if is_empty ts then remove_model_key_if_empty q' key else q', some t)
                ])
      ]

  unfoldable pub dequeue_keys :
      RequestQueue V → List ModelQueueKey → ℕ → RequestQueue V × Option (ClientTask V)
  unfolding dequeue_model_key
  dequeue_keys q [] now = (q, none)
  dequeue_keys q (key ∷ keys) now =
      let (q', r) = dequeue_model_key q key now in
      let later = dequeue_keys q' keys now in elim r [ some t ↦ (q', some t) | none ↦ later ]

  unfoldable pub dequeue_for_worker :
      RequestQueue V
      → String
      → WorkerBackend
      → List String
      → ℕ
      → RequestQueue V × Option (ClientTask V)
  unfolding dequeue_node dequeue_keys worker_keys
  dequeue_for_worker q worker_name backend tags now =
      let (q', r) = dequeue_node q worker_name now in
      elim r [ some t ↦ (q', some t) | none ↦ dequeue_keys q' (worker_keys backend tags) now ]

  -- `meanwhile` is what other threads do to the queue while the poll is parked, which ends at
  -- `later`.
  unfoldable pub next_for_worker :
      RequestQueue V
      → String
      → WorkerBackend
      → List String
      → ℕ
      → (RequestQueue V → RequestQueue V)
      → ℕ
      → RequestQueue V × Option (ClientTask V)
  unfolding dequeue_for_worker
  next_for_worker q worker_name backend tags now meanwhile later =
      let (q', r) = dequeue_for_worker q worker_name backend tags now in
      elim r [
        | some t ↦ (q', some t)
        | none ↦ dequeue_for_worker (meanwhile q') worker_name backend tags later
      ]
