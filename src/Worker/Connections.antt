-- ===== src/Worker/Connections.antt =====
-- The methods of `WorkerStatus`: a worker's connections and the summary of them.
pub mod Summary
pub mod Registration
use hive_core_v.Base.{
  ℕ, zero, suc, ◌+◌, ◌<◌, ◌≡◌, refl, String, str_eq, Bool, true, false, not, Option, none, some,
  List, [], ◌∷◌, ◌++◌, map, filter, find, all, ◌||◌, leb, ltb, min, ◌==◌, length, is_empty,
  if◌then◌else◌, arith,
}
use hive_core_v.Worker.Models.{
  WorkerPhase, authenticating, polling, working, WorkerConnectionStatus, WorkerStatus, u64_max,
}

unfoldable pub priority : WorkerPhase → ℕ
priority authenticating = 0
priority polling = 1
priority working = 2

-- `Iterator::max_by_key`: the last of the greatest.
module _ {A : Type 0} (key : A → ℕ) where
  unfoldable pub max_from : A → List A → A
  max_from best [] = best
  max_from best (x ∷ xs) = max_from (if leb (key best) (key x) then x else best) xs

  unfoldable pub max_by_key : List A → Option A
  unfolding max_from
  max_by_key [] = none
  max_by_key (x ∷ xs) = some (max_from x xs)

module _ {V : Type 0} where
  unfoldable pub sync_summary : WorkerStatus V → WorkerStatus V
  unfolding max_by_key priority
  sync_summary w =
      let phase : WorkerPhase = elim (max_by_key priority (map (λ c. c.state) w.connections)) [
        | some p ↦ p
        | none ↦ polling
      ] in
      elim (max_by_key (λ c. c.last_poll) w.connections) [
        | none ↦ record w { state = phase }
        | some c ↦ record w {
          state = phase;
          tags = c.tags;
          last_ping = c.last_ping;
          last_poll = c.last_poll;
          core_to_node_rtt_latency = c.core_to_node_rtt_latency;
          node_to_backend_rtt_latency = c.node_to_backend_rtt_latency;
          latency_reported_at = c.latency_reported_at;
        }
      ]

  -- `now` stands for the two readings of the clock. The new index is the second part.
  unfoldable pub register_connection : WorkerStatus V → String → ℕ → WorkerStatus V × ℕ
  unfolding sync_summary
  register_connection w nonce now =
      let connection : WorkerConnectionStatus = record {
        index = w.next_connection_index;
        nonce = nonce;
        tags = w.tags;
        state = authenticating;
        last_ping = now;
        last_poll = now;
        core_to_node_rtt_latency = none;
        node_to_backend_rtt_latency = none;
        latency_reported_at = none;
      } in
      (
        sync_summary (record w {
          next_connection_index = min (w.next_connection_index + 1) u64_max;
          connections = w.connections ++ connection ∷ [];
        }),
        w.next_connection_index,
      )

  unfoldable pub connection : WorkerStatus V → ℕ → Option WorkerConnectionStatus
  connection w index = find (λ c. c.index == index) w.connections

  unfoldable pub remove_connection : WorkerStatus V → ℕ → WorkerStatus V × Bool
  unfolding sync_summary
  remove_connection w index =
      let kept = filter (λ c. not (c.index == index)) w.connections in
      (sync_summary (record w { connections = kept }), not (length w.connections == length kept))

  unfoldable pub connection_states : WorkerStatus V → List WorkerPhase
  connection_states w = map (λ c. c.state) w.connections

  unfoldable pub accepts_nonce : WorkerStatus V → String → Bool
  accepts_nonce w nonce = is_empty w.connections || all (λ c. str_eq c.nonce nonce) w.connections

unfoldable pub count_phases : List WorkerConnectionStatus → ℕ × ℕ × ℕ → ℕ × ℕ × ℕ
count_phases [] counts = counts
count_phases (c ∷ cs) (a, p, w) = count_phases cs (elim c.state [
  | authenticating ↦ (a + 1, p, w)
  | polling ↦ (a, p + 1, w)
  | working ↦ (a, p, w + 1)
])

-- All connections, and those in each phase.
unfoldable pub connection_counts : {V : Type 0} → WorkerStatus V → ℕ × ℕ × ℕ × ℕ
unfolding count_phases
connection_counts s =
    let (a, p, w) = count_phases s.connections (0, 0, 0) in (length s.connections, a, p, w)
