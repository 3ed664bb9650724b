-- ===== src/Proxy/Queue/Deques.antt =====
-- src/servers/proxy/queue.rs: the state, the enqueueing methods and the idle gate.
use Prim.Native.String.{◌++◌ as append}
use hive_core_v.Base.{
  ℕ, ◌+◌, ◌%◌, ◌^◌, String, str_eq, string_eq, eq_iff, Bool, true, false, not, ◌&&◌, Option, none,
  some, List, [], ◌∷◌, ◌++◌, map, length, is_empty, ◌==◌, if◌then◌else◌, Eq, ◌≡◌, ◌↔◌, arith,
}
use hive_core_v.Base.HashMap
use hive_core_v.Base.HashMap.{HashMap}
use hive_core_v.Proxy.Models.{ModelRouteKind, kind_eq, kind_eq_iff, as_str}
use hive_core_v.Proxy.Task.{ClientTask}

pub record ModelQueueKey : Type 0 where
  pub model : String
  pub kind : ModelRouteKind

abbrev pub key_eq : ModelQueueKey → ModelQueueKey → Bool
key_eq a b = str_eq a.model b.model && kind_eq a.kind b.kind

pub key_eq_iff : (a b : ModelQueueKey) → (key_eq a b ≡ true) ↔ (a ≡ b)
key_eq_iff a b = ground (arith, eq_iff a.model b.model, kind_eq_iff a.kind b.kind)

instance abbrev pub key_Eq : Eq ModelQueueKey
key_Eq = record { beq = key_eq; beq_iff = key_eq_iff }

-- A `VecDeque` behind its mutex; `poisoned` is the state of the mutex.
pub record Deque (V : Type 0) : Type 0 where
  pub tasks : List (ClientTask V)
  pub poisoned : Bool

-- The `poisoned` fields are the states of the locks of the two indices. `generation` is a `u64`.
pub record RequestQueue (V : Type 0) : Type 0 where
  pub model_queue : HashMap ModelQueueKey (Deque V)
  pub model_poisoned : Bool
  pub node_queue : HashMap String (Deque V)
  pub node_poisoned : Bool
  pub default_timeout : ℕ
  pub generation : ℕ

pub data EnqueueResult : Type 0 where
  ok : EnqueueResult
  err : String → EnqueueResult

module _ {V : Type 0} where
  unfoldable pub default : RequestQueue V
  default = record {
    model_queue = [];
    model_poisoned = false;
    node_queue = [];
    node_poisoned = false;
    default_timeout = 60_000_000_000;
    generation = 0;
  }

  abbrev pub fresh_deque : Deque V
  fresh_deque = record { tasks = []; poisoned = false }

  -- The deque of a key, or a new one.
  unfoldable pub deque_for : {K : Type 0} ⦃e : Eq K⦄ → K → HashMap K (Deque V) → Deque V
  deque_for k m = elim (HashMap.get k m) [ some d ↦ d | none ↦ fresh_deque ]

  -- `push_back` under the deque's lock; `none` where the lock is poisoned.
  unfoldable pub push_back :
      {K : Type 0} ⦃e : Eq K⦄
      → K
      → ClientTask V
      → HashMap K (Deque V)
      → Option (HashMap K (Deque V))
  unfolding deque_for
  push_back k t m =
      let d = deque_for k m in
      if d.poisoned
      then none
      else some (HashMap.insert k (record d { tasks = d.tasks ++ t ∷ [] }) m)

  unfoldable pub notify_work_available : RequestQueue V → RequestQueue V
  notify_work_available q = record q { generation = (q.generation + 1) % 2 ^ 64 }

  unfoldable pub enqueue_model :
      RequestQueue V → String → ModelRouteKind → ClientTask V → RequestQueue V × EnqueueResult
  unfolding push_back notify_work_available
  enqueue_model q model kind task =
      if q.model_poisoned
      then (q, err "model queue poisoned")
      else elim (push_back (record { model = model; kind = kind }) task q.model_queue) [
        | none ↦ (q, err "model queue poisoned")
        | some m ↦ (notify_work_available (record q { model_queue = m }), ok)
      ]

  unfoldable pub enqueue_node :
      RequestQueue V → String → ClientTask V → RequestQueue V × EnqueueResult
  unfolding push_back notify_work_available
  enqueue_node q node task =
      if q.node_poisoned
      then (q, err "node queue poisoned")
      else elim (push_back node task q.node_queue) [
        | none ↦ (q, err "node queue poisoned")
        | some m ↦ (notify_work_available (record q { node_queue = m }), ok)
      ]

  unfoldable pub enqueue_to_node :
      RequestQueue V → String → ClientTask V → RequestQueue V × EnqueueResult
  unfolding enqueue_node
  enqueue_to_node q worker_name task = enqueue_node q worker_name task

  unfoldable pub idle_mark : RequestQueue V → ℕ
  idle_mark q = q.generation

  -- Whether `wait_for_work` returns at once.
  unfoldable pub wait_is_over : RequestQueue V → ℕ → Bool
  wait_is_over q seen = not (q.generation == seen)

  -- The removal of a key whose deque is empty.
  unfoldable pub remove_key_if_empty :
      {K : Type 0} ⦃e : Eq K⦄ → K → HashMap K (Deque V) → HashMap K (Deque V)
  remove_key_if_empty k m = elim (HashMap.get k m) [
    | none ↦ m
    | some d ↦ if not d.poisoned && is_empty d.tasks then HashMap.remove k m else m
  ]

  unfoldable pub remove_node_key_if_empty : RequestQueue V → String → RequestQueue V
  unfolding remove_key_if_empty
  remove_node_key_if_empty q worker_name =
      if q.node_poisoned
      then q
      else record q { node_queue = remove_key_if_empty worker_name q.node_queue }

  unfoldable pub remove_model_key_if_empty : RequestQueue V → ModelQueueKey → RequestQueue V
  unfolding remove_key_if_empty
  remove_model_key_if_empty q key =
      if q.model_poisoned
      then q
      else record q { model_queue = remove_key_if_empty key q.model_queue }

-- The name of a model queue in a snapshot.
unfoldable pub display : ModelQueueKey → String
unfolding as_str
display k = append (as_str k.kind) (append ":" k.model)

-- The lengths of the queues; a poisoned lock counts as nothing.
pub record QueueSnapshot : Type 0 where
  pub model_queue : List (String × ℕ)
  pub node_queue : List (String × ℕ)

abbrev pub deque_len : {V : Type 0} → Deque V → ℕ
deque_len d = if d.poisoned then 0 else length d.tasks

unfoldable pub snapshot : {V : Type 0} → RequestQueue V → QueueSnapshot
unfolding display
snapshot q = record {
  model_queue =
      if q.model_poisoned then [] else map (λ e. (display e.0, deque_len e.1)) q.model_queue;
  node_queue = if q.node_poisoned then [] else map (λ e. (e.0, deque_len e.1)) q.node_queue;
}
