-- ===== src/Worker/Connections/Summary.antt =====
-- The summary of a worker's connections: the busiest phase and the latest poll.
use hive_core_v.Base.{
  ℕ, ◌+◌, ◌≤◌, ◌≡◌, refl, Bool, true, false, some, List, [], ◌∷◌, map, filter, All, Any, leb,
  length, if◌then◌else◌, arith, inl, ◌⊎◌, subst,
}
use hive_core_v.Worker.Models.{
  WorkerPhase, authenticating, polling, working, WorkerConnectionStatus, WorkerStatus,
}
use hive_core_v.Worker.Connections.{
  priority, max_from, max_by_key, sync_summary, count_phases, connection_counts,
}

module _ {A : Type 0} (key : A → ℕ) where
  -- A greatest element of a list.
  pub record IsMax (xs : List A) (m : A) : Type 0 where
    pub member : Any (λ x. x ≡ m) xs
    pub greatest : All (λ x. key x ≤ key m) xs

  max_from-ge : (best : A) (xs : List A) → key best ≤ key (max_from key best xs)
  unfolding max_from
  max_from-ge best [] = omega arith
  max_from-ge best (x ∷ xs) = ground (arith, max_from-ge best xs, max_from-ge x xs)

  max_from-All :
      (best : A) (xs : List A) (b : ℕ) → key (max_from key best xs) ≤ b → All (λ x. key x ≤ b) xs
  unfolding max_from
  max_from-All best [] b h = tt
  max_from-All best (x ∷ xs) b h =
      let y = if leb (key best) (key x) then x else best in
      (ground (arith, max_from-ge y xs), max_from-All y xs b h)

  max_from-Any :
      (best : A) (xs : List A)
      → (best ≡ max_from key best xs) ⊎ Any (λ x. x ≡ max_from key best xs) xs
  unfolding max_from
  max_from-Any best [] = inl refl
  max_from-Any best (x ∷ xs) = ground (arith, max_from-Any best xs, max_from-Any x xs)

  pub max_by_key-IsMax :
      (x : A) (xs : List A) → (m : A) × (max_by_key key (x ∷ xs) ≡ some m) × IsMax (x ∷ xs) m
  unfolding max_by_key
  max_by_key-IsMax x xs = (
    max_from key x xs,
    refl,
    record {
      member = max_from-Any x xs;
      greatest = (max_from-ge x xs, max_from-All x xs (key (max_from key x xs)) (omega arith));
    },
  )

module _ {V : Type 0} (w : WorkerStatus V) where
  -- The phase is the busiest of the connections', or polling where there is none, and the time of
  -- the last poll, with all the data beside it, is that of a connection that polled last.
  pub data Summarises (s : WorkerStatus V) : List WorkerConnectionStatus → Type 0 where
    idle : s.state ≡ polling → s.last_poll ≡ w.last_poll → s.tags ≡ w.tags → Summarises s []
    busy :
        {c : WorkerConnectionStatus} {cs : List WorkerConnectionStatus}
        → IsMax priority (map (λ k. k.state) (c ∷ cs)) s.state
        → (last : WorkerConnectionStatus) → IsMax (λ k. k.last_poll) (c ∷ cs) last
        → s.last_poll ≡ last.last_poll
        → s.last_ping ≡ last.last_ping
        → s.tags ≡ last.tags
        → Summarises s (c ∷ cs)

  sync_summary-cases :
      (l : List WorkerConnectionStatus) → w.connections ≡ l → Summarises (sync_summary w) l
  unfolding sync_summary
  sync_summary-cases [] e = idle (ground arith) (ground arith) (ground arith)
  sync_summary-cases (c ∷ cs) e =
      let (phase, p, mp) = max_by_key-IsMax priority c.state (map (λ k. k.state) cs) in
      let (last, q, ml) = max_by_key-IsMax (λ k. k.last_poll) c cs in
      busy (subst (IsMax priority (map (λ k. k.state) (c ∷ cs))) (ground arith) mp) last ml
        (ground arith) (ground arith) (ground arith)

  -- After `sync_summary` the worker's phase is the busiest of its connections' phases, and its
  -- times and tags are those of a connection that polled last; with no connection the phase is
  -- polling, and the last poll and the tags stay.
  pub sync_summary-Summarises : Summarises (sync_summary w) w.connections
  sync_summary-Summarises = sync_summary-cases w.connections refl

  pub sync_summary-connections :
      ((sync_summary w).connections ≡ w.connections)
      × ((sync_summary w).next_connection_index ≡ w.next_connection_index)
  unfolding sync_summary
  sync_summary-connections = ground arith

abbrev pub phase_eq : WorkerPhase → WorkerPhase → Bool
phase_eq authenticating authenticating = true
phase_eq polling polling = true
phase_eq working working = true
phase_eq _ _ = false

-- The connections in a phase.
abbrev pub in_phase : WorkerPhase → List WorkerConnectionStatus → ℕ
in_phase p cs = length (filter (λ c. phase_eq c.state p) cs)

count_phases_lem :
    (cs : List WorkerConnectionStatus) (a p w : ℕ)
    → count_phases cs (a, p, w)
      ≡ (a + in_phase authenticating cs, p + in_phase polling cs, w + in_phase working cs)
unfolding count_phases
count_phases_lem [] a p w = ground arith
count_phases_lem (c ∷ cs) a p w = ground (
  arith,
  count_phases_lem cs (a + 1) p w,
  count_phases_lem cs a (p + 1) w,
  count_phases_lem cs a p (w + 1),
)

in_phase-sum :
    (cs : List WorkerConnectionStatus)
    → in_phase authenticating cs + in_phase polling cs + in_phase working cs ≡ length cs
in_phase-sum [] = omega arith
in_phase-sum (c ∷ cs) = ground (arith, in_phase-sum cs)

-- `connection_counts` gives the number of connections and the number in each phase, and the three
-- phases add up to all.
pub connection_counts_lem :
    {V : Type 0} (s : WorkerStatus V)
    → (connection_counts s ≡ (
      length s.connections,
      in_phase authenticating s.connections,
      in_phase polling s.connections,
      in_phase working s.connections,
    ))
      × (in_phase authenticating s.connections
            + in_phase polling s.connections
            + in_phase working s.connections
          ≡ length s.connections)
unfolding connection_counts
connection_counts_lem s =
    (ground (arith, count_phases_lem s.connections 0 0 0), in_phase-sum s.connections)
