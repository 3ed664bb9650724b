-- ===== src/Worker/Server/Registry/Refinement.antt =====
-- The registry as a map from a worker's name and a connection's index to the connection.
use mathlib.Core.Path.{fun_ext}
use hive_core_v.Base.{
  ℕ, ◌≡◌, refl, ap, ◌∙◌, String, str_eq, string_eq, eq_iff, true, false, ◌&&◌, Option, none, some,
  List, [], ◌∷◌, find, is_empty, ◌==◌, if◌then◌else◌, arith, Option-cases, inl, inr,
}
use hive_core_v.Base.HashMap
use hive_core_v.Base.HashMap.{HashMap, get-insert, get-remove}
use hive_core_v.App.State.{AppState}
use hive_core_v.Worker.Models.{WorkerBackend, WorkerPhase, WorkerConnectionStatus, WorkerStatus}
use hive_core_v.Worker.Connections.{sync_summary, connection, remove_connection}
use hive_core_v.Worker.Connections.Summary.{sync_summary-connections}
use hive_core_v.Worker.Connections.Registration.{remove_connection_lem}
use hive_core_v.Worker.Overseer.{remove_one}
use hive_core_v.Worker.Overseer.Fresh.{line}
use hive_core_v.Worker.Server.Latency.{NodeLatency}
use hive_core_v.Worker.Server.Registry.{
  Workers, change_connection, or_backend, touched, touch_worker, remove_worker,
}
use hive_core_v.Worker.Server.Registry.Invariant.{touched-same}
use hive_core_v.Worker.Server.Registry.Operations.{remove_worker_lem}

-- The abstract registry, and a change of it at one connection.
abbrev pub Registry : Type 0
Registry = String → ℕ → Option WorkerConnectionStatus

abbrev pub view : {V : Type 0} → AppState V → Registry
view app name index = line name index app.workers

abbrev pub update :
    Registry
    → String
    → ℕ
    → (Option WorkerConnectionStatus → Option WorkerConnectionStatus)
    → Registry
update f name index change n i = if str_eq name n && index == i then change (f n i) else f n i

abbrev pub mapped :
    (WorkerConnectionStatus → WorkerConnectionStatus)
    → Option WorkerConnectionStatus
    → Option WorkerConnectionStatus
mapped f none = none
mapped f (some c) = some (f c)

abbrev pub erased : Option WorkerConnectionStatus → Option WorkerConnectionStatus
erased o = none

module _ (tags : Option (List String)) (phase : WorkerPhase) (latency : Option NodeLatency)
    (now : ℕ) where
  find-change :
      (index i : ℕ) (cs : List WorkerConnectionStatus)
      → find (λ c. c.index == i) (change_connection index (touched tags phase latency now) cs) ≡ (
          if index == i
          then mapped (touched tags phase latency now) (find (λ c. c.index == i) cs)
          else find (λ c. c.index == i) cs)
  unfolding change_connection
  find-change index i [] = ground arith
  find-change index i (c ∷ cs) =
      ground (arith, find-change index i cs, touched-same tags phase latency now c)

module _ {V : Type 0} where
  find_none : (i : ℕ) (w : WorkerStatus V) → is_empty w.connections ≡ true → connection w i ≡ none
  unfolding connection
  find_none i w h = ground arith

  remove_one-view :
      (m : Workers V) (name : String) (index : ℕ) (n : String) (i : ℕ)
      → line n i (remove_one m (name, index))
        ≡ (if str_eq name n && index == i then none else line n i m)
  unfolding remove_one
  remove_one-view m name index n i = elim (Option-cases (HashMap.get name m)) [
    | inl g ↦ ground (arith, eq_iff name n)
    | inr (w, g) ↦
        let w' = (remove_connection w index).0 in
        ground (
          arith,
          eq_iff name n,
          get-insert name n w' m,
          get-remove name n (HashMap.insert name w' m),
          remove_connection_lem w index i,
          find_none i w',
        )
  ]

  module _ (tags : Option (List String)) (phase : WorkerPhase) (latency : Option NodeLatency)
      (now : ℕ) where
    touch_worker-view :
        (name : String) (index : ℕ) (backend : Option WorkerBackend) (app : AppState V)
        → app.workers_poisoned ≡ false
        → (n : String) (i : ℕ)
        → view (touch_worker name index tags phase backend latency now app) n i
          ≡ update (view app) name index (mapped (touched tags phase latency now)) n i
    unfolding touch_worker connection
    touch_worker-view name index backend app up n i =
        elim (Option-cases (HashMap.get name app.workers)) [
          | inl g ↦ ground (arith, eq_iff name n)
          | inr (w, g) ↦
              let w1 : WorkerStatus V = record w {
                connections =
                    change_connection index (touched tags phase latency now) w.connections;
                backend = or_backend w.backend backend;
              } in
              ground (
                arith,
                eq_iff name n,
                get-insert name n (sync_summary w1) app.workers,
                (sync_summary-connections w1).0,
                find-change tags phase latency now index i w.connections,
              )
        ]

    -- The registry of workers is a map from names and indices to connections: while its lock is
    -- sound, the end of a connection erases it in the map, a touch changes it there where it is,
    -- and neither changes another connection, though the code keeps lists of connections in a map
    -- of workers, with summaries, and drops the workers without connections.
    pub registry-refines :
        (name : String) (index : ℕ) (backend : Option WorkerBackend) (app : AppState V)
        → app.workers_poisoned ≡ false
        → (view (remove_worker name index app) ≡ update (view app) name index erased)
          × (view (touch_worker name index tags phase backend latency now app)
              ≡ update (view app) name index (mapped (touched tags phase latency now)))
    registry-refines name index backend app up = (
      fun_ext λ n. fun_ext λ i.
          ap (line n i) (remove_worker_lem name index app ∙ rw up refl)
          ∙ remove_one-view app.workers name index n i,
      fun_ext λ n. fun_ext λ i. touch_worker-view name index backend app up n i,
    )
