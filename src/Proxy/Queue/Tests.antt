-- ===== src/Proxy/Queue/Tests.antt =====
-- The request queue at concrete values.
use hive_core_v.Base.{◌&&◌}
use hive_core_v.Base.{
  ℕ, ◌+◌, ◌≡◌, refl, String, string_eq, false, none, some, List, [], ◌∷◌, ◌==◌, ◌⊎◌, arith,
}
use hive_core_v.Base.HashMap
use hive_core_v.Worker.Models.{ollama}
use hive_core_v.Proxy.Models.{ollama_native}
use hive_core_v.Proxy.Task.{ClientTask, ignore, is_expired}
use hive_core_v.Proxy.Queue.Deques.{
  ModelQueueKey, key_Eq, RequestQueue, enqueue_model, enqueue_node, notify_work_available,
  idle_mark, wait_is_over,
}
use hive_core_v.Proxy.Queue.Dequeue.{drops, dequeue_for_worker}
use hive_core_v.Proxy.Queue.Expiry.{expire_older_than}
use hive_core_v.Proxy.Queue.Count.{all_waiting, count}
use hive_core_v.Proxy.Queue.Conservation.{HasUniqueQueues, Keeps, dequeue_for_worker-Keeps}
use hive_core_v.Proxy.Queue.Sweep.{expire_older_than-total}
use hive_core_v.Proxy.Queue.Swept.{overdue, expire_older_than-none_old, expire_older_than-overdue}
use hive_core_v.Proxy.Queue.Source.{Held, Serves, dequeue_for_worker-source}
use hive_core_v.Proxy.Queue.Enqueue.{woken, enqueue-wakes, enqueue_node-dequeue}
use hive_core_v.Samples.{Doc, request_of}

-- A task that came in at `at`.
abbrev task : ℕ → ℕ → ClientTask Doc
task id at = record {
  id = id;
  request = request_of "Bearer t1" "POST" "/api/chat";
  response_target = ignore;
  queued_at = at;
  context = record {
    key_id = some 1;
    key_name = some "alice";
    model = some "qwen3:8b";
    capture = false;
    client_request = none;
    proxy_mutations = [];
    queue_timeout = none;
  };
}

abbrev two : RequestQueue Doc
two = record {
  model_queue =
      (
        record { model = "qwen3:8b"; kind = ollama_native },
        record { tasks = task 1 10 ∷ task 2 90 ∷ []; poisoned = false },
      )
      ∷ [];
  model_poisoned = false;
  node_queue = [];
  node_poisoned = false;
  default_timeout = 60;
  generation = 0;
}

two-HasUniqueQueues : HasUniqueQueues two
two-HasUniqueQueues = record { models = (tt, tt); nodes = tt }

abbrev served_tags : List String
served_tags = "llama3" ∷ "qwen3:8b" ∷ []

dequeue_for_worker-Keeps_example :
    Keeps
      (λ t. t.id == 2)
      100
      two
      (dequeue_for_worker two "w1" ollama served_tags 100).0
      (dequeue_for_worker two "w1" ollama served_tags 100).1
dequeue_for_worker-Keeps_example =
    dequeue_for_worker-Keeps (λ t. t.id == 2) two "w1" ollama served_tags 100 two-HasUniqueQueues

first_is_served : (dequeue_for_worker two "w1" ollama served_tags 100).1 ≡ some (task 1 10)
unfolding dequeue_for_worker HashMap.get
first_is_served = refl

dequeue_for_worker-source_example :
    Held two.node_queue "w1" (task 1 10)
    ⊎ ((k : ModelQueueKey) × Serves ollama served_tags k × Held two.model_queue k (task 1 10))
dequeue_for_worker-source_example =
    dequeue_for_worker-source two "w1" ollama served_tags 100 (task 1 10) first_is_served

expire_older_than-total_example :
    all_waiting (λ t. t.id == 2) (expire_older_than two 60 100).0
      + count (λ t. t.id == 2) (expire_older_than two 60 100).1
    ≡ all_waiting (λ t. t.id == 2) two
expire_older_than-total_example =
    expire_older_than-total two 60 100 (λ t. t.id == 2) two-HasUniqueQueues

expire_older_than-overdue_example :
    count (λ t. t.id == 2) (expire_older_than two 60 100).1
    ≡ all_waiting (λ t. t.id == 2 && overdue 60 100 t) two
expire_older_than-overdue_example =
    expire_older_than-overdue (λ t. t.id == 2) 60 100 two two-HasUniqueQueues refl refl (refl, tt)
      tt

enqueue-wakes_example :
    wait_is_over (enqueue_model two "qwen3:8b" ollama_native (task 3 95)).0 (idle_mark two)
      ≡ woken (enqueue_model two "qwen3:8b" ollama_native (task 3 95)).1
    × wait_is_over (enqueue_node two "w1" (task 3 95)).0 (idle_mark two)
      ≡ woken (enqueue_node two "w1" (task 3 95)).1
enqueue-wakes_example = enqueue-wakes two "qwen3:8b" "w1" ollama_native (task 3 95) (omega arith)

enqueue_node-dequeue_example :
    dequeue_for_worker (enqueue_node two "w1" (task 3 95)).0 "w1" ollama served_tags 100
    ≡ (notify_work_available two, some (task 3 95))
unfolding HashMap.get drops
enqueue_node-dequeue_example =
    enqueue_node-dequeue two "w1" ollama served_tags (task 3 95) 100 refl refl refl

expire_older_than-none_old_example :
    all_waiting (λ t. is_expired t 60 100) (expire_older_than two 60 100).0 ≡ 0
expire_older_than-none_old_example =
    expire_older_than-none_old two 60 100 two-HasUniqueQueues refl refl (refl, tt) tt
