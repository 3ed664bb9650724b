-- ===== src/Proxy/Queue/Count.antt =====
-- The number of waiting tasks with a property, over all deques of an index.
use hive_core_v.Base.{
  ℕ, string_eq, ◌+◌, Bool, false, All, none, some, List, [], ◌∷◌, ◌++◌, if◌then◌else◌, Eq, ◌≡◌,
  subst, arith, Bool-cases, Option-cases, inl, inr,
}
use hive_core_v.Base.HashMap
use hive_core_v.Base.HashMap.{
  HashMap, HasUniqueKeys, insert-HasUniqueKeys, remove-HasUniqueKeys, remove-absent,
  get-insert_self,
}
use hive_core_v.Proxy.Task.{ClientTask}
use hive_core_v.Proxy.Queue.Deques.{key_Eq, Deque, RequestQueue, remove_key_if_empty}
use hive_core_v.Proxy.Queue.Dequeue.{expire_queue_tasks}

module _ {V : Type 0} (p : ClientTask V → Bool) where
  abbrev pub count : List (ClientTask V) → ℕ
  count [] = 0
  count (t ∷ ts) = (if p t then 1 else 0) + count ts

  pub count-append : (xs ys : List (ClientTask V)) → count (xs ++ ys) ≡ count xs + count ys
  count-append [] ys = omega arith
  count-append (x ∷ xs) ys = omega (arith, count-append xs ys)

  pub count-expire :
      (custom : Bool) (max_age now : ℕ) (ts : List (ClientTask V))
      → count ts
        ≡ count (expire_queue_tasks custom max_age now ts).0
          + count (expire_queue_tasks custom max_age now ts).1
  unfolding expire_queue_tasks
  count-expire custom max_age now [] = omega arith
  count-expire custom max_age now (t ∷ ts) = ground (arith, count-expire custom max_age now ts)

  module _ {K : Type 0} ⦃e : Eq K⦄ where
    abbrev pub total : HashMap K (Deque V) → ℕ
    total [] = 0
    total ((k, d) ∷ m) = count d.tasks + total m

    pub total-insert :
        (k : K) (d d' : Deque V) (m : HashMap K (Deque V))
        → HashMap.get k m ≡ some d
        → total (HashMap.insert k d' m) + count d.tasks ≡ total m + count d'.tasks
    unfolding HashMap.insert HashMap.get
    total-insert k d d' [] h = cc
    total-insert k d d' ((j, w) ∷ m) h = ground (arith, total-insert k d d' m)

    pub total-insert_new :
        (k : K) (d' : Deque V) (m : HashMap K (Deque V))
        → HashMap.get k m ≡ none
        → total (HashMap.insert k d' m) ≡ total m + count d'.tasks
    unfolding HashMap.insert HashMap.get
    total-insert_new k d' [] h = omega arith
    total-insert_new k d' ((j, w) ∷ m) h = ground (arith, total-insert_new k d' m)

    pub total-remove :
        (k : K) (d : Deque V) (m : HashMap K (Deque V))
        → HasUniqueKeys m
        → HashMap.get k m ≡ some d
        → total (HashMap.remove k m) + count d.tasks ≡ total m
    unfolding HashMap.remove HashMap.get
    total-remove k d [] u h = cc
    total-remove k d ((j, w) ∷ m) u h = elim (Bool-cases (e.beq j k)) [
      | inl hit ↦
          let gone =
            remove-absent k m
              (subst (λ x. All (λ q. e.beq q.0 x ≡ false) m) ((e.beq_iff j k).0 hit) u.0) in
          ground (arith, gone, hit)
      | inr miss ↦ ground (arith, total-remove k d m u.1, miss)
    ]

    pub total-remove_if_empty :
        (k : K) (m : HashMap K (Deque V))
        → HasUniqueKeys m
        → total (remove_key_if_empty k m) ≡ total m
    unfolding remove_key_if_empty
    total-remove_if_empty k m u = elim (Option-cases (HashMap.get k m)) [
      | inl n ↦ ground arith
      | inr (d, f) ↦ ground (arith, total-remove k d m u f)
    ]

-- The waiting tasks with a property, in both indices.
abbrev pub all_waiting : {V : Type 0} → (ClientTask V → Bool) → RequestQueue V → ℕ
all_waiting p q = total p q.model_queue + total p q.node_queue

pub remove_if_empty-HasUniqueKeys :
    {V K : Type 0} ⦃e : Eq K⦄ (k : K) (m : HashMap K (Deque V))
    → HasUniqueKeys m
    → HasUniqueKeys (remove_key_if_empty k m)
unfolding remove_key_if_empty
remove_if_empty-HasUniqueKeys k m u = ground (arith, remove-HasUniqueKeys k m u, u)
