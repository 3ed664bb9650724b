-- ===== src/Worker/Overseer/Fresh.antt =====
-- The connections that a round of the overseer keeps.
use hive_core_v.Base.{
  ℕ, ◌<◌, String, str_eq, string_eq, eq_iff, true, false, ◌&&◌, Option, none, some, List, [], ◌∷◌,
  ◌++◌, All, find, is_empty, ◌==◌, ==_iff, ◌≡◌, refl, sym, ◌∙◌, ap, subst, arith, Bool-cases,
  Option-cases, inl, inr,
}
use hive_core_v.Base.HashMap
use hive_core_v.Base.HashMap.{HashMap, HasUniqueKeys, get-insert, get-remove}
use hive_core_v.App.Config.{Config}
use hive_core_v.App.State.{AppState}
use hive_core_v.Shared.Http.Text.{and_then}
use hive_core_v.Worker.Models.{WorkerConnectionStatus, WorkerStatus}
use hive_core_v.Worker.Connections.{remove_connection, connection}
use hive_core_v.Worker.Connections.Registration.{AreDistinct, remove_connection_lem}
use hive_core_v.Worker.Overseer.{
  is_stale, stale_of, stale_connections, remove_one, remove_stale, round,
}
use hive_core_v.Proxy.Queue.Deques.{RequestQueue}

-- The connection of a worker's name and an index.
abbrev pub line :
    {V : Type 0} → String → ℕ → HashMap String (WorkerStatus V) → Option WorkerConnectionStatus
line n i m = and_then (HashMap.get n m) λ w. connection w i

-- The pair is not the given one.
abbrev pub IsOther : String → ℕ → String × ℕ → Type 0
IsOther n i s = (str_eq s.0 n && s.1 == i) ≡ false

module _ (n : String) (i : ℕ) where
  append-IsOther :
      (xs ys : List (String × ℕ))
      → All (IsOther n i) xs
      → All (IsOther n i) ys
      → All (IsOther n i) (xs ++ ys)
  append-IsOther [] ys h k = k
  append-IsOther (x ∷ xs) ys h k = (h.0, append-IsOther xs ys h.1 k)

  module _ (c : Config) (now : ℕ) where
    stale_of-name :
        (name : String) (ks : List WorkerConnectionStatus)
        → str_eq name n ≡ false
        → All (IsOther n i) (stale_of c now name ks)
    stale_of-name name [] h = tt
    stale_of-name name (k ∷ ks) h = elim (Bool-cases (is_stale c now k)) [
      | inl e ↦ rw (All, e) (ground arith, stale_of-name name ks h)
      | inr e ↦ rw (All, e) (stale_of-name name ks h)
    ]

    stale_of-above :
        (ks : List WorkerConnectionStatus)
        → All (λ d. i < d.index) ks
        → All (IsOther n i) (stale_of c now n ks)
    stale_of-above [] h = tt
    stale_of-above (k ∷ ks) h = elim (Bool-cases (is_stale c now k)) [
      | inl e ↦ rw (All, e) (ground (arith, h.0), stale_of-above ks h.1)
      | inr e ↦ rw (All, e) (stale_of-above ks h.1)
    ]

    stale_of-fresh :
        (k : WorkerConnectionStatus) (ks : List WorkerConnectionStatus)
        → AreDistinct ks
        → find (λ d. d.index == i) ks ≡ some k
        → is_stale c now k ≡ false
        → All (IsOther n i) (stale_of c now n ks)
    stale_of-fresh k [] d f h = tt
    stale_of-fresh k (x ∷ xs) d f h = elim (Bool-cases (x.index == i)) [
      | inl hit ↦
          let same : x ≡ k = ground arith in
          let fresh : is_stale c now x ≡ false =
            subst (λ y. is_stale c now y ≡ false) (sym same) h in
          rw (All, fresh)
            (stale_of-above xs
              (subst (λ j. All (λ e. j < e.index) xs) ((==_iff x.index i).0 hit) d.0))
      | inr miss ↦
          let later = stale_of-fresh k xs d.1 (ground arith) h in
          elim (Bool-cases (is_stale c now x)) [
            | inl e ↦ rw (All, e) (ground arith, later)
            | inr e ↦ rw (All, e) later
          ]
    ]

module _ {V : Type 0} (n : String) (i : ℕ) where
  pub empty-connection :
      (w : WorkerStatus V) → is_empty w.connections ≡ true → connection w i ≡ none
  unfolding connection
  empty-connection w h = ground arith

  pub remove_one-line :
      (m : HashMap String (WorkerStatus V)) (s : String × ℕ)
      → IsOther n i s
      → line n i (remove_one m s) ≡ line n i m
  unfolding remove_one
  remove_one-line m (name, index) o = elim (Option-cases (HashMap.get name m)) [
    | inl e ↦ rw (remove_one, e) refl
    | inr (w, e) ↦
        let w' = (remove_connection w index).0 in
        ground (
          arith,
          get-insert name n w' m,
          get-remove name n (HashMap.insert name w' m),
          eq_iff name n,
          (remove_connection_lem w index i).0,
          empty-connection w',
          ap (λ x. HashMap.get x m) {x = name} {y = n},
        )
  ]

  remove_stale-line :
      (m : HashMap String (WorkerStatus V)) (ss : List (String × ℕ))
      → All (IsOther n i) ss
      → line n i (remove_stale m ss) ≡ line n i m
  unfolding remove_stale
  remove_stale-line m [] o = refl
  remove_stale-line m (s ∷ ss) o =
      remove_stale-line (remove_one m s) ss o.1 ∙ remove_one-line m s o.0

  module _ (c : Config) (now : ℕ) where
    absent-IsOther :
        (m : HashMap String (WorkerStatus V))
        → All (λ q. str_eq q.0 n ≡ false) m
        → All (IsOther n i) (stale_connections c now m)
    unfolding stale_connections
    absent-IsOther [] h = tt
    absent-IsOther ((j, w) ∷ m) h =
        append-IsOther n i (stale_of c now j w.connections) (stale_connections c now m)
          (stale_of-name n i c now j w.connections h.0) (absent-IsOther m h.1)

    fresh-IsOther :
        (m : HashMap String (WorkerStatus V)) (w : WorkerStatus V) (k : WorkerConnectionStatus)
        → HasUniqueKeys m
        → HashMap.get n m ≡ some w
        → AreDistinct w.connections
        → connection w i ≡ some k
        → is_stale c now k ≡ false
        → All (IsOther n i) (stale_connections c now m)
    unfolding stale_connections HashMap.get connection
    fresh-IsOther [] w k u f d e h = tt
    fresh-IsOther ((j, x) ∷ m) w k u f d e h = elim (Bool-cases (str_eq j n)) [
      | inl hit ↦
          let name : j ≡ n = (eq_iff j n).0 hit in
          let same : x ≡ w = ground arith in
          append-IsOther n i (stale_of c now j x.connections) (stale_connections c now m)
            (subst (λ z. All (IsOther n i) (stale_of c now z x.connections)) (sym name)
              (subst (λ (z : WorkerStatus V). All (IsOther n i) (stale_of c now n z.connections))
                (sym same) (stale_of-fresh n i c now k w.connections d e h)))
            (absent-IsOther m (subst (λ z. All (λ q. str_eq q.0 z ≡ false) m) name u.0))
      | inr miss ↦
          append-IsOther n i (stale_of c now j x.connections) (stale_connections c now m)
            (stale_of-name n i c now j x.connections miss)
            (fresh-IsOther m w k u.1 (ground arith) d e h)
    ]

-- Where each worker's name stands once in the map and a worker's connections stand in the order
-- of distinct indices, a connection of that worker that is not stale is still there, under its
-- index, after a round of the overseer.
pub round-fresh :
    {V : Type 0} (s : AppState V) (q : RequestQueue V) (now : ℕ) (n : String) (i : ℕ)
    (w : WorkerStatus V) (k : WorkerConnectionStatus)
    → HasUniqueKeys s.workers
    → HashMap.get n s.workers ≡ some w
    → AreDistinct w.connections
    → connection w i ≡ some k
    → is_stale s.config now k ≡ false
    → line n i (round s q now).0.workers ≡ some k
unfolding round
round-fresh s q now n i w k u f d e h =
    let kept =
      remove_stale-line n i s.workers (stale_connections s.config now s.workers)
        (fresh-IsOther n i s.config now s.workers w k u f d e h) in
    let before : line n i s.workers ≡ some k = rw f e in
    elim (Bool-cases s.workers_poisoned) [ inl b ↦ rw b before | inr b ↦ rw b (kept ∙ before) ]
