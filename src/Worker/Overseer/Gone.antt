-- ===== src/Worker/Overseer/Gone.antt =====
-- The connections that a round of the overseer removes.
use hive_core_v.Base.{
  ℕ, String, str_eq, string_eq, eq_iff, true, false, ◌&&◌, none, some, List, [], ◌∷◌, ◌++◌, Any,
  find, ◌==◌, ==_iff, ◌≡◌, refl, sym, ◌∙◌, ap, subst, arith, Bool-cases, Option-cases, inl, inr,
}
use hive_core_v.Base.HashMap
use hive_core_v.Base.HashMap.{HashMap, get-insert, get-remove, get-insert_self, get-remove_self}
use hive_core_v.App.Config.{Config}
use hive_core_v.App.State.{AppState}
use hive_core_v.Worker.Models.{WorkerConnectionStatus, WorkerStatus}
use hive_core_v.Worker.Connections.{remove_connection, connection}
use hive_core_v.Worker.Connections.Registration.{remove_connection_lem}
use hive_core_v.Worker.Overseer.{
  is_stale, stale_of, stale_connections, remove_one, remove_stale, round,
}
use hive_core_v.Worker.Overseer.Fresh.{line, remove_one-line}
use hive_core_v.Proxy.Queue.Deques.{RequestQueue}

module _ (n : String) (i : ℕ) where
  Any-left :
      (xs ys : List (String × ℕ)) → Any (λ s. s ≡ (n, i)) xs → Any (λ s. s ≡ (n, i)) (xs ++ ys)
  Any-left [] ys h = absurd h
  Any-left (x ∷ xs) ys (inl h) = inl h
  Any-left (x ∷ xs) ys (inr h) = inr (Any-left xs ys h)

  Any-right :
      (xs ys : List (String × ℕ)) → Any (λ s. s ≡ (n, i)) ys → Any (λ s. s ≡ (n, i)) (xs ++ ys)
  Any-right [] ys h = h
  Any-right (x ∷ xs) ys h = inr (Any-right xs ys h)

  module _ (c : Config) (now : ℕ) where
    stale_of-Any :
        (k : WorkerConnectionStatus) (ks : List WorkerConnectionStatus)
        → find (λ d. d.index == i) ks ≡ some k
        → is_stale c now k ≡ true
        → Any (λ s. s ≡ (n, i)) (stale_of c now n ks)
    stale_of-Any k [] f h = cc
    stale_of-Any k (x ∷ xs) f h = elim (Bool-cases (x.index == i)) [
      | inl hit ↦
          let same : x ≡ k = ground arith in
          let stale : is_stale c now x ≡ true = subst (λ y. is_stale c now y ≡ true) (sym same) h in
          rw (Any, stale) (inl (ap (λ j. (n, j)) ((==_iff x.index i).0 hit)))
      | inr miss ↦
          let later = stale_of-Any k xs (ground arith) h in
          elim (Bool-cases (is_stale c now x)) [
            | inl e ↦ rw (Any, e) (inr later)
            | inr e ↦ rw (Any, e) later
          ]
    ]

module _ {V : Type 0} (n : String) (i : ℕ) where
  remove_one-gone : (m : HashMap String (WorkerStatus V)) → line n i (remove_one m (n, i)) ≡ none
  unfolding remove_one
  remove_one-gone m = elim (Option-cases (HashMap.get n m)) [
    | inl e ↦ rw (remove_one, e) (rw e refl)
    | inr (w, e) ↦
        let w' = (remove_connection w i).0 in
        ground (
          arith,
          get-insert_self n w' m,
          get-remove_self n (HashMap.insert n w' m),
          (remove_connection_lem w i i).0,
          ==_iff i i,
        )
  ]

  remove_one-none :
      (m : HashMap String (WorkerStatus V)) (s : String × ℕ)
      → line n i m ≡ none
      → line n i (remove_one m s) ≡ none
  remove_one-none m (name, index) h = elim (Bool-cases (str_eq name n && index == i)) [
    | inl e ↦
        let same_name : name ≡ n = (eq_iff name n).0 (ground arith) in
        let same_index : index ≡ i = (==_iff index i).0 (ground arith) in
        subst (λ j. line n i (remove_one m (name, j)) ≡ none) (sym same_index)
          (subst (λ x. line n i (remove_one m (x, i)) ≡ none) (sym same_name) (remove_one-gone m))
    | inr o ↦ remove_one-line n i m (name, index) o ∙ h
  ]

  remove_stale-none :
      (m : HashMap String (WorkerStatus V)) (ss : List (String × ℕ))
      → line n i m ≡ none
      → line n i (remove_stale m ss) ≡ none
  unfolding remove_stale
  remove_stale-none m [] h = h
  remove_stale-none m (s ∷ ss) h = remove_stale-none (remove_one m s) ss (remove_one-none m s h)

  remove_stale-gone :
      (m : HashMap String (WorkerStatus V)) (ss : List (String × ℕ))
      → Any (λ s. s ≡ (n, i)) ss
      → line n i (remove_stale m ss) ≡ none
  unfolding remove_stale
  remove_stale-gone m [] h = absurd h
  remove_stale-gone m (s ∷ ss) (inl e) =
      remove_stale-none (remove_one m s) ss
        (subst (λ x. line n i (remove_one m x) ≡ none) (sym e) (remove_one-gone m))
  remove_stale-gone m (s ∷ ss) (inr h) = remove_stale-gone (remove_one m s) ss h

  module _ (c : Config) (now : ℕ) where
    stale_connections-Any :
        (m : HashMap String (WorkerStatus V)) (w : WorkerStatus V) (k : WorkerConnectionStatus)
        → HashMap.get n m ≡ some w
        → connection w i ≡ some k
        → is_stale c now k ≡ true
        → Any (λ s. s ≡ (n, i)) (stale_connections c now m)
    unfolding stale_connections HashMap.get connection
    stale_connections-Any [] w k f e h = cc
    stale_connections-Any ((j, x) ∷ m) w k f e h = elim (Bool-cases (str_eq j n)) [
      | inl hit ↦
          let name : j ≡ n = (eq_iff j n).0 hit in
          let same : x ≡ w = ground arith in
          Any-left n i (stale_of c now j x.connections) (stale_connections c now m) (
            subst (λ z. Any (λ s. s ≡ (n, i)) (stale_of c now z x.connections)) (sym name)
              (subst
                (λ (z : WorkerStatus V). Any (λ s. s ≡ (n, i)) (stale_of c now n z.connections))
                (sym same) (stale_of-Any n i c now k w.connections e h)))
      | inr miss ↦
          Any-right n i (stale_of c now j x.connections) (stale_connections c now m)
            (stale_connections-Any m w k (ground arith) e h)
    ]

-- With the lock of the workers in order, a connection that is found under its index and is stale
-- is not found after a round of the overseer.
pub round-gone :
    {V : Type 0} (s : AppState V) (q : RequestQueue V) (now : ℕ) (n : String) (i : ℕ)
    (w : WorkerStatus V) (k : WorkerConnectionStatus)
    → s.workers_poisoned ≡ false
    → HashMap.get n s.workers ≡ some w
    → connection w i ≡ some k
    → is_stale s.config now k ≡ true
    → line n i (round s q now).0.workers ≡ none
unfolding round
round-gone s q now n i w k up f e h = rw up (
    remove_stale-gone n i s.workers (stale_connections s.config now s.workers)
      (stale_connections-Any n i s.config now s.workers w k f e h))
