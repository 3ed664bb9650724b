-- ===== src/Worker/Connections/Registration.antt =====
-- Joining and leaving: the indices and the nonces of a worker's connections.
use hive_core_v.Base.{
  ℕ, ◌+◌, ◌<◌, ◌≤◌, ◌≡◌, refl, ap, ◌∙◌, String, str_eq, eq_iff, Bool, true, not, none, some, List,
  [], ◌∷◌, ◌++◌, filter, find, all, any, All, min, ◌==◌, length, length-append, length-filter-le,
  if◌then◌else◌, arith, Bool-cases, inl, inr,
}
use hive_core_v.Base.Sorted.{All-append}
use hive_core_v.Worker.Models.{WorkerConnectionStatus, WorkerStatus, authenticating, u64_max}
use hive_core_v.Worker.Connections.{
  sync_summary, register_connection, connection, remove_connection, accepts_nonce,
}
use hive_core_v.Worker.Connections.Summary.{sync_summary-connections}

abbrev pub AreDistinct : List WorkerConnectionStatus → Type 0
AreDistinct [] = Unit {0}
AreDistinct (c ∷ cs) = All (λ d. c.index < d.index) cs × AreDistinct cs

-- The connections stand in the order of their indices, which are all below the next one, and share
-- one nonce.
pub record IsWellFormed {V : Type 0} (w : WorkerStatus V) : Type 0 where
  pub distinct : AreDistinct w.connections
  pub below : All (λ c. c.index < w.next_connection_index) w.connections
  pub nonce : String
  pub shared : All (λ c. c.nonce ≡ nonce) w.connections

snoc-AreDistinct :
    (cs : List WorkerConnectionStatus) (d : WorkerConnectionStatus)
    → AreDistinct cs
    → All (λ c. c.index < d.index) cs
    → AreDistinct (cs ++ d ∷ [])
snoc-AreDistinct [] d h k = (tt, tt)
snoc-AreDistinct (c ∷ cs) d h k =
    (All-append (λ e. c.index < e.index) cs (d ∷ []) h.0 (k.0, tt), snoc-AreDistinct cs d h.1 k.1)

filter-All :
    {A : Type 0} (P : A → Type 0) (p : A → Bool) (xs : List A) → All P xs → All P (filter p xs)
filter-All P p [] h = tt
filter-All P p (x ∷ xs) h = elim (Bool-cases (p x)) [
  | inl e ↦ rw e (h.0, filter-All P p xs h.1)
  | inr e ↦ rw e (filter-All P p xs h.1)
]

filter-AreDistinct :
    (p : WorkerConnectionStatus → Bool) (cs : List WorkerConnectionStatus)
    → AreDistinct cs
    → AreDistinct (filter p cs)
filter-AreDistinct p [] h = tt
filter-AreDistinct p (c ∷ cs) h = elim (Bool-cases (p c)) [
  | inl e ↦ rw e (filter-All (λ d. c.index < d.index) p cs h.0, filter-AreDistinct p cs h.1)
  | inr e ↦ rw e (filter-AreDistinct p cs h.1)
]

abbrev others : ℕ → List WorkerConnectionStatus → List WorkerConnectionStatus
others i = filter λ c. not (c.index == i)

find-below :
    (i : ℕ) (cs : List WorkerConnectionStatus) (d : WorkerConnectionStatus)
    → All (λ c. c.index < i) cs
    → d.index ≡ i
    → find (λ c. c.index == i) (cs ++ d ∷ []) ≡ some d
find-below i [] d h e = ground arith
find-below i (c ∷ cs) d h e = ground (arith, find-below i cs d h.1 e)

find-others :
    (i j : ℕ) (cs : List WorkerConnectionStatus)
    → find (λ c. c.index == j) (others i cs)
      ≡ (if i == j then none else find (λ c. c.index == j) cs)
find-others i j [] = ground arith
find-others i j (c ∷ cs) = ground (arith, find-others i j cs)

others-snoc :
    (i : ℕ) (cs : List WorkerConnectionStatus) (d : WorkerConnectionStatus)
    → All (λ c. c.index < i) cs
    → d.index ≡ i
    → others i (cs ++ d ∷ []) ≡ cs
others-snoc i [] d h e = ground arith
others-snoc i (c ∷ cs) d h e = ground (arith, others-snoc i cs d h.1 e)

length-others :
    (i : ℕ) (cs : List WorkerConnectionStatus)
    → (length cs == length (others i cs)) ≡ not (any (λ c. c.index == i) cs)
length-others i [] = refl
length-others i (c ∷ cs) = ground (
  arith,
  length-others i cs,
  length-filter-le (λ (d : WorkerConnectionStatus). not (d.index == i)) cs,
)

module _ {V : Type 0} (w : WorkerStatus V) (nonce : String) (now : ℕ) where
  abbrev pub registered : WorkerStatus V
  registered = (register_connection w nonce now).0

  abbrev pub joined : WorkerConnectionStatus
  joined = record {
    index = w.next_connection_index;
    nonce = nonce;
    tags = w.tags;
    state = authenticating;
    last_ping = now;
    last_poll = now;
    core_to_node_rtt_latency = none;
    node_to_backend_rtt_latency = none;
    latency_reported_at = none;
  }

  registered-fields :
      (registered.connections ≡ w.connections ++ joined ∷ [])
      × (registered.next_connection_index ≡ min (w.next_connection_index + 1) u64_max)
      × ((register_connection w nonce now).1 ≡ w.next_connection_index)
  unfolding register_connection sync_summary
  registered-fields = ground arith

  shared-nonce : accepts_nonce w nonce ≡ true → All (λ c. c.nonce ≡ nonce) w.connections
  unfolding accepts_nonce
  shared-nonce h = go w.connections (ground arith)
    where
      go :
          (cs : List WorkerConnectionStatus)
          → all (λ c. str_eq c.nonce nonce) cs ≡ true
          → All (λ c. c.nonce ≡ nonce) cs
      go [] a = tt
      go (c ∷ cs) a = (ground (arith, eq_iff c.nonce nonce), go cs (ground arith))

  below-later :
      (cs : List WorkerConnectionStatus) (i j : ℕ)
      → i ≤ j
      → All (λ c. c.index < i) cs
      → All (λ c. c.index < j) cs
  below-later [] i j le h = tt
  below-later (c ∷ cs) i j le h = (omega (arith, h.0), below-later cs i j le h.1)

  -- A connection whose nonce is accepted joins a well-formed worker with an index of its own, as
  -- long as the counter of indices is below its greatest value: the connections stay in the order
  -- of their indices, below the counter, and share one nonce.
  pub register_connection-IsWellFormed :
      IsWellFormed w
      → accepts_nonce w nonce ≡ true
      → w.next_connection_index < u64_max
      → IsWellFormed registered
  register_connection-IsWellFormed v a small =
      let (cs, next, _) = registered-fields in
      record {
        distinct = rw cs (snoc-AreDistinct w.connections joined v.distinct v.below);
        below =
            rw (cs, next)
              (All-append (λ c. c.index < min (w.next_connection_index + 1) u64_max) w.connections
                (joined ∷ [])
                (below-later w.connections w.next_connection_index
                  (min (w.next_connection_index + 1) u64_max) (omega (arith, small)) v.below)
                (omega (arith, small), tt));
        nonce = nonce;
        shared = rw cs (
            All-append (λ c. c.nonce ≡ nonce) w.connections (joined ∷ []) (shared-nonce a)
              (refl, tt));
      }

  -- In a well-formed worker, the index that `register_connection` returns finds the new
  -- connection, in the phase of authentication, and `remove_connection` of that index says that
  -- there was one and leaves the connections from before.
  pub register-remove :
      IsWellFormed w
      → let i = (register_connection w nonce now).1 in
        (connection registered i ≡ some joined)
        × ((remove_connection registered i).0.connections ≡ w.connections)
        × ((remove_connection registered i).1 ≡ true)
  unfolding connection remove_connection
  register-remove v =
      let i = w.next_connection_index in
      let kept = others i registered.connections in
      let fields = registered-fields in
      let same : kept ≡ w.connections =
        ap (others i) fields.0 ∙ others-snoc i w.connections joined v.below refl in
      let found = find-below i w.connections joined v.below refl in
      rw fields.2 (
        rw fields.0 found,
        (sync_summary-connections (record registered { connections = kept })).0 ∙ same,
        rw (same, fields.0) (ground (arith, length-append w.connections (joined ∷ []))),
      )

module _ {V : Type 0} (w : WorkerStatus V) (i : ℕ) where
  -- After `remove_connection` of an index no connection is found under it, each other index finds
  -- what it found before, and the result says whether a connection had the index.
  pub remove_connection_lem :
      (j : ℕ)
      → (connection (remove_connection w i).0 j ≡ (if i == j then none else connection w j))
        × ((remove_connection w i).1 ≡ any (λ c. c.index == i) w.connections)
  unfolding connection remove_connection sync_summary
  remove_connection_lem j =
      ground (arith, find-others i j w.connections, length-others i w.connections)

  pub remove_connection-IsWellFormed : IsWellFormed w → IsWellFormed (remove_connection w i).0
  unfolding remove_connection
  remove_connection-IsWellFormed v =
      let (cs, next) =
        sync_summary-connections (record w { connections = others i w.connections }) in
      record {
        distinct = rw cs (filter-AreDistinct (λ c. not (c.index == i)) w.connections v.distinct);
        below =
            rw (cs, next)
              (filter-All (λ c. c.index < w.next_connection_index) (λ c. not (c.index == i))
                w.connections v.below);
        nonce = v.nonce;
        shared =
            rw cs (
              filter-All (λ c. c.nonce ≡ v.nonce) (λ c. not (c.index == i)) w.connections v.shared);
      }
