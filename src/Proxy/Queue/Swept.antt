-- ===== src/Proxy/Queue/Swept.antt =====
-- What `expire_older_than` takes out and leaves behind, with no lock poisoned.
use hive_core_v.Base.{
  ℕ, ◌+◌, ◌≤◌, ltb, string_eq, Bool, true, false, not, ◌&&◌, All, Any, none, some, List, [], ◌∷◌,
  if◌then◌else◌, Eq, ◌≡◌, refl, sym, subst, arith, Bool-cases, Option-cases, ◌⊎◌, inl, inr,
  is_empty,
}
use hive_core_v.Base.HashMap
use hive_core_v.Base.HashMap.{HashMap, keys, HasUniqueKeys, insert-HasUniqueKeys}
use hive_core_v.Proxy.Task.{ClientTask, is_expired}
use hive_core_v.Proxy.Queue.Deques.{key_Eq, Deque, RequestQueue, remove_key_if_empty}
use hive_core_v.Proxy.Queue.Dequeue.{drops, expire_queue_tasks}
use hive_core_v.Proxy.Queue.Expiry.{expire_key, expire_keys, expire_index, expire_older_than}
use hive_core_v.Proxy.Queue.Count.{all_waiting, count, total}
use hive_core_v.Proxy.Queue.Conservation.{HasUniqueQueues}
use hive_core_v.Proxy.Queue.Sweep.{
  expire_key-Splits, expire_older_than-total, expire_older_than-All,
}

-- No lock of a deque is poisoned.
abbrev pub AreUp : {V K : Type 0} → HashMap K (Deque V) → Type 0
AreUp = All (λ e. e.1.poisoned ≡ false)

module _ {V : Type 0} (max_age now : ℕ) where
  abbrev old : ClientTask V → Bool
  old t = is_expired t max_age now

  kept-none_old :
      (ts : List (ClientTask V)) → count old (expire_queue_tasks false max_age now ts).0 ≡ 0
  unfolding expire_queue_tasks drops
  kept-none_old [] = refl
  kept-none_old (t ∷ ts) = ground (arith, kept-none_old ts)

  abbrev swept : Deque V → Deque V
  swept d = record d { tasks = (expire_queue_tasks false max_age now d.tasks).0 }

  module _ {K : Type 0} ⦃e : Eq K⦄ where
    -- The entry is still to be swept, or has no old task.
    abbrev Pending : List K → K × Deque V → Type 0
    Pending ks q = (q.1.poisoned ≡ false) × (Any (λ i. i ≡ q.0) ks ⊎ (count old q.1.tasks ≡ 0))

    Pending-next :
        (k : K) (ks : List K) (q : K × Deque V)
        → e.beq q.0 k ≡ false
        → Pending (k ∷ ks) q
        → Pending ks q
    Pending-next k ks q ne (up, inl (inl h)) = absurd (ground (arith, (e.beq_iff q.0 k).1 (sym h)))
    Pending-next k ks q ne (up, inl (inr h)) = (up, inl h)
    Pending-next k ks q ne (up, inr h) = (up, inr h)

    absent-Pending :
        (k : K) (ks : List K) (m : HashMap K (Deque V))
        → All (λ q. e.beq q.0 k ≡ false) m
        → All (Pending (k ∷ ks)) m
        → All (Pending ks) m
    absent-Pending k ks [] a h = tt
    absent-Pending k ks (q ∷ m) a h = (Pending-next k ks q a.0 h.0, absent-Pending k ks m a.1 h.1)

    get_none-absent :
        (k : K) (m : HashMap K (Deque V))
        → HashMap.get k m ≡ none
        → All (λ q. e.beq q.0 k ≡ false) m
    unfolding HashMap.get
    get_none-absent k [] h = tt
    get_none-absent k ((j, d) ∷ m) h = (ground arith, get_none-absent k m (ground arith))

    insert-Pending :
        (k : K) (ks : List K) (d : Deque V) (m : HashMap K (Deque V))
        → HasUniqueKeys m
        → d.poisoned ≡ false
        → count old d.tasks ≡ 0
        → All (Pending (k ∷ ks)) m
        → All (Pending ks) (HashMap.insert k d m)
    unfolding HashMap.insert
    insert-Pending k ks d [] u up c h = ((up, inr c), tt)
    insert-Pending k ks d ((j, w) ∷ m) u up c h = elim (Bool-cases (e.beq j k)) [
      | inl hit ↦
          rw (All, hit)
            (
              (up, inr c),
              absent-Pending k ks m
                  (subst (λ x. All (λ q. e.beq q.0 x ≡ false) m) ((e.beq_iff j k).0 hit) u.0) h.1,
            )
      | inr miss ↦
          rw (All, miss) (Pending-next k ks (j, w) miss h.0, insert-Pending k ks d m u.1 up c h.1)
    ]

    remove-All :
        (P : K × Deque V → Type 0) (k : K) (m : HashMap K (Deque V))
        → All P m
        → All P (HashMap.remove k m)
    unfolding HashMap.remove
    remove-All P k [] h = tt
    remove-All P k ((j, d) ∷ m) h = elim (Bool-cases (e.beq j k)) [
      | inl hit ↦ rw (All, hit) (remove-All P k m h.1)
      | inr miss ↦ rw (All, miss) (h.0, remove-All P k m h.1)
    ]

    remove_if_empty-All :
        (P : K × Deque V → Type 0) (k : K) (m : HashMap K (Deque V))
        → All P m
        → All P (remove_key_if_empty k m)
    unfolding remove_key_if_empty
    remove_if_empty-All P k m h = elim (Option-cases (HashMap.get k m)) [
      | inl n ↦ rw (remove_key_if_empty, n) h
      | inr (d, f) ↦ elim (Bool-cases (not d.poisoned && is_empty d.tasks)) [
        | inl b ↦ rw (remove_key_if_empty, f, b) (remove-All P k m h)
        | inr b ↦ rw (remove_key_if_empty, f, b) h
      ]
    ]

    get-up :
        (k : K) (ks : List K) (d : Deque V) (m : HashMap K (Deque V))
        → HashMap.get k m ≡ some d
        → All (Pending ks) m
        → d.poisoned ≡ false
    unfolding HashMap.get
    get-up k ks d [] f h = cc
    get-up k ks d ((j, w) ∷ m) f h = elim (Bool-cases (e.beq j k)) [
      | inl hit ↦
          let same : w ≡ d = ground arith in subst (λ (x : Deque V). x.poisoned ≡ false) same h.0.0
      | inr miss ↦ get-up k ks d m (ground arith) h.1
    ]

    expire_key-found :
        (k : K) (d : Deque V) (m : HashMap K (Deque V))
        → HashMap.get k m ≡ some d
        → d.poisoned ≡ false
        → (expire_key k max_age now m).0 ≡ (
            if is_empty (swept d).tasks
            then remove_key_if_empty k (HashMap.insert k (swept d) m)
            else HashMap.insert k (swept d) m)
    unfolding expire_key
    expire_key-found k d m f up = ground arith

    expire_key-missing :
        (k : K) (m : HashMap K (Deque V))
        → HashMap.get k m ≡ none
        → (expire_key k max_age now m).0 ≡ m
    unfolding expire_key
    expire_key-missing k m n = ground arith

    expire_key-Pending :
        (k : K) (ks : List K) (m : HashMap K (Deque V))
        → HasUniqueKeys m
        → All (Pending (k ∷ ks)) m
        → All (Pending ks) (expire_key k max_age now m).0
    expire_key-Pending k ks m u h = elim (Option-cases (HashMap.get k m)) [
      | inl n ↦ rw (expire_key-missing k m n) (absent-Pending k ks m (get_none-absent k m n) h)
      | inr (d, f) ↦
          let up = get-up k (k ∷ ks) d m f h in
          let next : All (Pending ks) (HashMap.insert k (swept d) m) =
            insert-Pending k ks (swept d) m u up (kept-none_old d.tasks) h in
          rw (expire_key-found k d m f up) (elim (Bool-cases (is_empty (swept d).tasks)) [
            | inl b ↦ rw b (remove_if_empty-All (Pending ks) k (HashMap.insert k (swept d) m) next)
            | inr b ↦ rw b next
          ])
    ]

    expire_keys-Pending :
        (ks : List K) (m : HashMap K (Deque V))
        → HasUniqueKeys m
        → All (Pending ks) m
        → All (Pending []) (expire_keys ks max_age now m).0
    unfolding expire_keys
    expire_keys-Pending [] m u h = h
    expire_keys-Pending (k ∷ ks) m u h =
        expire_keys-Pending ks (expire_key k max_age now m).0
          (expire_key-Splits old max_age now k m u).unique (expire_key-Pending k ks m u h)

    weaken :
        (k : K) (ks : List K) (m : HashMap K (Deque V))
        → All (Pending ks) m
        → All (Pending (k ∷ ks)) m
    weaken k ks [] h = tt
    weaken k ks (q ∷ m) ((up, inl h), hs) = ((up, inl (inr h)), weaken k ks m hs)
    weaken k ks (q ∷ m) ((up, inr h), hs) = ((up, inr h), weaken k ks m hs)

    keys-Pending : (m : HashMap K (Deque V)) → AreUp m → All (Pending (keys m)) m
    keys-Pending [] h = tt
    keys-Pending ((j, d) ∷ m) h = ((h.0, inl (inl refl)), weaken j (keys m) m (keys-Pending m h.1))

    none-Pending : (m : HashMap K (Deque V)) → All (Pending []) m → total old m ≡ 0
    none-Pending [] h = refl
    none-Pending (q ∷ m) ((up, inl h), hs) = absurd h
    none-Pending (q ∷ m) ((up, inr h), hs) = omega (arith, h, none-Pending m hs)

    expire_index-none_old :
        (m : HashMap K (Deque V))
        → HasUniqueKeys m
        → AreUp m
        → total old (expire_index false max_age now m).0 ≡ 0
    unfolding expire_index
    expire_index-none_old m u h =
        none-Pending (expire_keys (keys m) max_age now m).0
          (expire_keys-Pending (keys m) m u (keys-Pending m h))

-- With no lock poisoned and indices that hold each key once, no task that has waited longer than
-- its own timeout, or than the given one if it has none, is left after a sweep.
pub expire_older_than-none_old :
    {V : Type 0} (q : RequestQueue V) (max_age now : ℕ)
    → HasUniqueQueues q
    → q.model_poisoned ≡ false
    → q.node_poisoned ≡ false
    → AreUp q.model_queue
    → AreUp q.node_queue
    → all_waiting (λ t. is_expired t max_age now) (expire_older_than q max_age now).0 ≡ 0
unfolding expire_older_than
expire_older_than-none_old q max_age now u a b m n =
    rw (a, b)
      (omega (
        arith,
        expire_index-none_old max_age now q.model_queue u.models m,
        expire_index-none_old max_age now q.node_queue u.nodes n,
      ))

-- A task that has waited longer than its own timeout, or than `max_age` if it has none.
abbrev pub overdue : {V : Type 0} → ℕ → ℕ → ClientTask V → Bool
overdue max_age now t =
    ltb (t.queued_at + elim t.context.queue_timeout [ some own ↦ own | none ↦ max_age ]) now

is_expired_lem :
    {V : Type 0} (max_age now : ℕ) (t : ClientTask V)
    → is_expired t max_age now ≡ overdue max_age now t
unfolding is_expired
is_expired_lem max_age now t = ground arith

module _ {V : Type 0} (p : ClientTask V → Bool) (max_age now : ℕ) where
  abbrev due : ClientTask V → Bool
  due t = p t && overdue max_age now t

  count_due-le : (ts : List (ClientTask V)) → count due ts ≤ count (old max_age now) ts
  count_due-le [] = omega arith
  count_due-le (t ∷ ts) = ground (arith, count_due-le ts, is_expired_lem max_age now t)

  total_due-le :
      {K : Type 0} ⦃e : Eq K⦄ (m : HashMap K (Deque V)) → total due m ≤ total (old max_age now) m
  total_due-le [] = omega arith
  total_due-le ((k, d) ∷ m) = omega (arith, count_due-le d.tasks, total_due-le m)

  expired-due :
      (ts : List (ClientTask V))
      → All (λ t. is_expired t max_age now ≡ true) ts
      → count due ts ≡ count p ts
  expired-due [] h = refl
  expired-due (t ∷ ts) h = ground (arith, h.0, expired-due ts h.1, is_expired_lem max_age now t)

  -- With no lock poisoned and indices that hold each key once, a sweep returns exactly the
  -- overdue tasks: for any property, the returned tasks that have it are as many as the tasks
  -- that waited before the sweep, have it, and came in longer ago than their own timeout, or than
  -- the given one if they have none.
  pub expire_older_than-overdue :
      (q : RequestQueue V)
      → HasUniqueQueues q
      → q.model_poisoned ≡ false
      → q.node_poisoned ≡ false
      → AreUp q.model_queue
      → AreUp q.node_queue
      → count p (expire_older_than q max_age now).1
        ≡ all_waiting (λ t. p t && overdue max_age now t) q
  expire_older_than-overdue q u a b m n =
      let q' = (expire_older_than q max_age now).0 in
      omega (
        arith,
        expire_older_than-total q max_age now due u,
        expire_older_than-none_old q max_age now u a b m n,
        total_due-le q'.model_queue,
        total_due-le q'.node_queue,
        expired-due (expire_older_than q max_age now).1 (expire_older_than-All q max_age now),
      )
