-- ===== src/Proxy/Queue/Source.antt =====
-- Where the task comes from that `dequeue_for_worker` hands to a worker.
use hive_core_v.Base.{
  ℕ, String, string_eq, Bool, ◌||◌, true, All, Any, Option, none, some, List, [], ◌∷◌, ◌++◌, ◌≡◌,
  refl, sym, ◌∙◌, ap, subst, arith, Bool-cases, Option-cases, ◌⊎◌, inl, inr, Eq,
}
use hive_core_v.Base.HashMap
use hive_core_v.Base.HashMap.{HashMap, get-insert}
use hive_core_v.Worker.Models.{WorkerBackend}
use hive_core_v.Proxy.Models.{ModelRouteKind, compatible_with}
use hive_core_v.Proxy.Task.{ClientTask}
use hive_core_v.Proxy.Queue.Deques.{ModelQueueKey, key_Eq, Deque, RequestQueue}
use hive_core_v.Proxy.Queue.Dequeue.{
  expire_queue_tasks, front, dequeue_node, dequeue_model_key, dequeue_keys, dequeue_for_worker,
  kinds, kind_keys, worker_keys,
}
use hive_core_v.Proxy.Queue.Conservation.{
  dequeue_keys-found, dequeue_keys-next, dequeue_for_worker-found, dequeue_for_worker-next,
}

-- The key is of a tag of the worker, and of a kind that its backend serves.
pub record Serves (backend : WorkerBackend) (tags : List String) (k : ModelQueueKey) : Type 0 where
  pub tag : Any (λ t. t ≡ k.model) tags
  pub kind : compatible_with k.kind backend ≡ true

All-append : {A : Type 0} (P : A → Type 0) (xs ys : List A) → All P xs → All P ys → All P (xs ++ ys)
All-append P [] ys h k = k
All-append P (x ∷ xs) ys h k = (h.0, All-append P xs ys h.1 k)

All-map :
    {A : Type 0} (P Q : A → Type 0) (xs : List A) → ((x : A) → P x → Q x) → All P xs → All Q xs
All-map P Q [] f h = tt
All-map P Q (x ∷ xs) f h = (f x h.0, All-map P Q xs f h.1)

kind_keys-Serves :
    (backend : WorkerBackend) (tag : String) (tags : List String) (ks : List ModelRouteKind)
    → All (Serves backend (tag ∷ tags)) (kind_keys backend tag ks)
unfolding kind_keys
kind_keys-Serves backend tag tags [] = tt
kind_keys-Serves backend tag tags (k ∷ ks) = elim (Bool-cases (compatible_with k backend)) [
  | inl c ↦ rw (All, c) (record { tag = inl refl; kind = c }, kind_keys-Serves backend tag tags ks)
  | inr c ↦ rw (All, c) (kind_keys-Serves backend tag tags ks)
]

worker_keys-Serves :
    (backend : WorkerBackend) (tags : List String)
    → All (Serves backend tags) (worker_keys backend tags)
unfolding worker_keys
worker_keys-Serves backend [] = tt
worker_keys-Serves backend (tag ∷ tags) =
    All-append (Serves backend (tag ∷ tags)) (kind_keys backend tag kinds)
      (worker_keys backend tags) (kind_keys-Serves backend tag tags kinds)
      (All-map (Serves backend tags) (Serves backend (tag ∷ tags)) (worker_keys backend tags)
        (λ k s. record { tag = inr s.tag; kind = s.kind }) (worker_keys-Serves backend tags))

module _ {V : Type 0} where
  -- The task waits in the deque of a key.
  pub record Held {K : Type 0} ⦃e : Eq K⦄ (m : HashMap K (Deque V)) (k : K) (t : ClientTask V)
      : Type 0 where
    pub deque : Deque V
    pub found : HashMap.get k m ≡ some deque
    pub member : Any (λ x. x ≡ t) deque.tasks

  front-member :
      (custom : Bool) (d now : ℕ) (t : ClientTask V) (ts : List (ClientTask V))
      → front (expire_queue_tasks custom d now ts).0 ≡ some t
      → Any (λ x. x ≡ t) ts
  unfolding expire_queue_tasks
  front-member custom d now t [] h = cc
  front-member custom d now t (x ∷ ts) h = ground (arith, front-member custom d now t ts)

  dequeue_node-Held :
      (q : RequestQueue V) (w : String) (now : ℕ) (t : ClientTask V)
      → (dequeue_node q w now).1 ≡ some t
      → Held q.node_queue w t
  unfolding dequeue_node
  dequeue_node-Held q w now t h = elim (Option-cases (HashMap.get w q.node_queue)) [
    | inl n ↦ ground arith
    | inr (d, f) ↦ record {
      deque = d;
      found = f;
      member = front-member true q.default_timeout now t d.tasks (ground arith);
    }
  ]

  dequeue_node-models :
      (q : RequestQueue V) (w : String) (now : ℕ)
      → (dequeue_node q w now).0.model_queue ≡ q.model_queue
  unfolding dequeue_node
  dequeue_node-models q w now = ground arith

  dequeue_model_key-Held :
      (q : RequestQueue V) (k : ModelQueueKey) (now : ℕ) (t : ClientTask V)
      → (dequeue_model_key q k now).1 ≡ some t
      → Held q.model_queue k t
  unfolding dequeue_model_key
  dequeue_model_key-Held q k now t h = elim (Option-cases (HashMap.get k q.model_queue)) [
    | inl n ↦ ground arith
    | inr (d, f) ↦ record {
      deque = d;
      found = f;
      member = front-member true q.default_timeout now t d.tasks (ground arith);
    }
  ]

  emptied-within :
      {K : Type 0} ⦃e : Eq K⦄ (k j : K) (d : Deque V) (t : ClientTask V) (m : HashMap K (Deque V))
      → Held (HashMap.insert k (record d { tasks = [] }) m) j t
      → Held m j t
  emptied-within ⦃e⦄ k j d t m v = elim (Bool-cases (e.beq k j)) [
    | inl hit ↦
        let empty : v.deque.tasks ≡ [] =
          ground (arith, get-insert k j (record d { tasks = [] }) m, v.found) in
        absurd (subst (Any (λ x. x ≡ t)) empty v.member)
    | inr miss ↦ record {
      deque = v.deque;
      found = ground (arith, get-insert k j (record d { tasks = [] }) m, v.found);
      member = v.member;
    }
  ]

  dequeue_model_key-none :
      (q : RequestQueue V) (k : ModelQueueKey) (now : ℕ)
      → (dequeue_model_key q k now).1 ≡ none
      → ((dequeue_model_key q k now).0.model_queue ≡ q.model_queue)
        ⊎ ((d : Deque V) × ((dequeue_model_key q k now).0.model_queue
              ≡ HashMap.insert k (record d { tasks = [] }) q.model_queue))
  unfolding dequeue_model_key
  dequeue_model_key-none q k now h = elim (Option-cases (HashMap.get k q.model_queue)) [
    | inl n ↦ inl (ground arith)
    | inr (d, f) ↦ elim (Bool-cases (q.model_poisoned || d.poisoned)) [
      | inl b ↦ inl (ground arith)
      | inr b ↦ inr (d, ground arith)
    ]
  ]

  -- A dequeue that takes nothing adds nothing.
  dequeue_model_key-within :
      (q : RequestQueue V) (k j : ModelQueueKey) (now : ℕ) (t : ClientTask V)
      → (dequeue_model_key q k now).1 ≡ none
      → Held (dequeue_model_key q k now).0.model_queue j t
      → Held q.model_queue j t
  dequeue_model_key-within q k j now t h v = elim (dequeue_model_key-none q k now h) [
    | inl e ↦ subst (λ m. Held m j t) e v
    | inr (d, e) ↦ emptied-within k j d t q.model_queue (subst (λ m. Held m j t) e v)
  ]

  dequeue_keys-Held :
      (P : ModelQueueKey → Type 0) (q : RequestQueue V) (ks : List ModelQueueKey) (now : ℕ)
      (t : ClientTask V)
      → All P ks
      → (dequeue_keys q ks now).1 ≡ some t
      → (k : ModelQueueKey) × P k × Held q.model_queue k t
  unfolding dequeue_keys
  dequeue_keys-Held P q [] now t a h = cc
  dequeue_keys-Held P q (k ∷ ks) now t a h = elim (Option-cases (dequeue_model_key q k now).1) [
    | inr (x, e) ↦
        let same : x ≡ t = ground (arith, dequeue_keys-found q now k ks x e) in
        (k, a.0, dequeue_model_key-Held q k now t (e ∙ ap some same))
    | inl e ↦
        let (j, pj, v) = dequeue_keys-Held P (dequeue_model_key q k now).0 ks now t a.1 (
          sym (
            ap (λ (r : RequestQueue V × Option (ClientTask V)). r.1)
              (dequeue_keys-next q now k ks e))
          ∙ h) in
        (j, pj, dequeue_model_key-within q k j now t e v)
  ]

  -- The task that a worker gets waited in the worker's own queue, or in the queue of a model that
  -- is one of the worker's tags and of a kind that the worker's backend serves.
  pub dequeue_for_worker-source :
      (q : RequestQueue V) (w : String) (backend : WorkerBackend) (tags : List String) (now : ℕ)
      (t : ClientTask V)
      → (dequeue_for_worker q w backend tags now).1 ≡ some t
      → Held q.node_queue w t
        ⊎ ((k : ModelQueueKey) × Serves backend tags k × Held q.model_queue k t)
  dequeue_for_worker-source q w backend tags now t h =
      elim (Option-cases (dequeue_node q w now).1) [
        | inr (x, e) ↦
            let same : x ≡ t = ground (arith, dequeue_for_worker-found q now w backend tags x e) in
            inl (dequeue_node-Held q w now t (e ∙ ap some same))
        | inl e ↦
            let q' = (dequeue_node q w now).0 in
            let r =
              dequeue_keys-Held (Serves backend tags) q' (worker_keys backend tags) now t
                (worker_keys-Serves backend tags)
                (sym (
                    ap (λ (r : RequestQueue V × Option (ClientTask V)). r.1)
                      (dequeue_for_worker-next q now w backend tags e))
                  ∙ h) in
            inr (r.0, r.1, subst (λ m. Held m r.0 t) (dequeue_node-models q w now) r.2)
      ]
