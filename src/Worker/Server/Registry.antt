-- ===== src/Worker/Server/Registry.antt =====
-- The registry of workers as the connections change it: `authenticate_worker`, `touch_worker` and
-- `remove_worker`. `now` stands for every reading of the clock in a call.
pub mod Invariant
pub mod Operations
pub mod Reachable
pub mod Refinement
use hive_core_v.Base.{
  ℕ, String, string_eq, str_eq, not, ◌&&◌, ◌||◌, Option, none, some, List, [], ◌∷◌, map, ◌==◌,
  is_empty, if◌then◌else◌,
}
use hive_core_v.Base.HashMap
use hive_core_v.Base.HashMap.{HashMap}
use hive_core_v.App.State.{AppState}
use hive_core_v.Auth.Models.{admin, worker}
use hive_core_v.Auth.Keys.{verify}
use hive_core_v.Shared.Http.Request.{HttpRequest}
use hive_core_v.Shared.Wire.Utf8.{codes, text_of}
use hive_core_v.Shared.Wire.Text.{split}
use hive_core_v.Shared.Wire.Stream.{
  raise, permission_denied, invalid_data, other, Action, ◌>>=◌, pure, ok, err,
}
use hive_core_v.Worker.Models.{
  WorkerBackend, unknown, WorkerPhase, authenticating, WorkerConnectionStatus, WorkerStatus,
}
use hive_core_v.Worker.Connections.{
  sync_summary, register_connection, connection, remove_connection, accepts_nonce,
}
use hive_core_v.Worker.Server.Latency.{NodeLatency}

abbrev pub Workers : Type 0 → Type 0
Workers V = HashMap String (WorkerStatus V)

-- Changes the first connection with the index.
unfoldable pub change_connection :
    ℕ
    → (WorkerConnectionStatus → WorkerConnectionStatus)
    → List WorkerConnectionStatus
    → List WorkerConnectionStatus
change_connection index f [] = []
change_connection index f (c ∷ cs) =
    if c.index == index then f c ∷ cs else c ∷ change_connection index f cs

abbrev pub or_tags : List String → Option (List String) → List String
or_tags old none = old
or_tags old (some tags) = tags

abbrev pub reported : ℕ → Option NodeLatency → WorkerConnectionStatus → WorkerConnectionStatus
reported now none c = c
reported now (some latency) c = record c {
  core_to_node_rtt_latency = some latency.core_to_node_ms;
  node_to_backend_rtt_latency = latency.node_to_backend_ms;
  latency_reported_at = some now;
}

unfoldable pub touched :
    Option (List String)
    → WorkerPhase
    → Option NodeLatency
    → ℕ
    → WorkerConnectionStatus
    → WorkerConnectionStatus
touched tags phase latency now c =
    reported now latency
      (record c { tags = or_tags c.tags tags; state = phase; last_ping = now; last_poll = now })

abbrev pub or_backend : WorkerBackend → Option WorkerBackend → WorkerBackend
or_backend old none = old
or_backend old (some backend) = backend

module _ {V : Type 0} where
  -- A worker that is not there, and a connection that is not, are left alone.
  unfoldable pub touch_worker :
      String
      → ℕ
      → Option (List String)
      → WorkerPhase
      → Option WorkerBackend
      → Option NodeLatency
      → ℕ
      → AppState V
      → AppState V
  unfolding connection change_connection touched sync_summary
  touch_worker name index tags phase backend latency now app =
      if app.workers_poisoned then app else elim (HashMap.get name app.workers) [
        | none ↦ app
        | some w ↦ elim (connection w index) [
          | none ↦ app
          | some c ↦
              let w' = sync_summary (record w {
                connections =
                    change_connection index (touched tags phase latency now) w.connections;
                backend = or_backend w.backend backend;
              }) in
              record app { workers = HashMap.insert name w' app.workers }
        ]
      ]

  -- The worker goes with its last connection.
  unfoldable pub remove_worker : String → ℕ → AppState V → AppState V
  unfolding remove_connection
  remove_worker name index app =
      if app.workers_poisoned then app else elim (HashMap.get name app.workers) [
        | none ↦ app
        | some w ↦
            let (w', removed) = remove_connection w index in
            let workers = HashMap.insert name w' app.workers in
            record app {
              workers =
                  if removed && is_empty w'.connections
                  then HashMap.remove name workers
                  else workers;
            }
      ]

  abbrev pub new_worker : String → String → String → ℕ → WorkerStatus V
  new_worker name hive_version backend_version now = record {
    name = name;
    hive_version = hive_version;
    backend_version = backend_version;
    backend = unknown;
    tags = [];
    state = authenticating;
    last_ping = now;
    last_poll = now;
    core_to_node_rtt_latency = none;
    node_to_backend_rtt_latency = none;
    latency_reported_at = none;
    connections = [];
    next_connection_index = 0;
    model_catalog = none;
    running_models = none;
    version_payload = none;
  }

  -- `or_insert_with`
  abbrev pub entry : String → String → String → ℕ → Workers V → WorkerStatus V
  entry name hive_version backend_version now m = elim (HashMap.get name m) [
    | some w ↦ w
    | none ↦ new_worker name hive_version backend_version now
  ]

  -- The block that holds the lock on the registry: the entry is made before the nonce is tested.
  unfoldable pub join : String → String → String → String → ℕ → Action (AppState V) ℕ
  unfolding accepts_nonce register_connection
  join name nonce hive_version backend_version now app =
      if app.workers_poisoned
      then (err other, app)
      else (let w = entry name hive_version backend_version now app.workers in
          if accepts_nonce w nonce
          then (let (w', index) =
                register_connection
                  (record w { hive_version = hive_version; backend_version = backend_version })
                  nonce now in
              (ok index, record app { workers = HashMap.insert name w' app.workers }))
          else (err permission_denied, record app { workers = HashMap.insert name w app.workers }))

  -- The lookup of the key may fill the cache of keys.
  unfoldable pub admit_key :
      String → String → String → String → ℕ → Action (AppState V) (String × ℕ)
  unfolding verify join
  admit_key token nonce hive_version backend_version now app =
      let (keys, found) = verify app.keys token (admin ∷ worker ∷ []) in
      let app' = record app { keys = keys } in
      elim found [
        | none ↦ (err permission_denied, app')
        | some r ↦
            (join r.name nonce hive_version backend_version now >>= λ i. pure (r.name, i)) app'
      ]

  unfoldable pub admit_parts : List String → ℕ → Action (AppState V) (String × ℕ)
  unfolding admit_key
  admit_parts (token ∷ nonce ∷ hive_version ∷ backend_version ∷ []) now =
      admit_key token nonce hive_version backend_version now
  admit_parts _ now = raise invalid_data

  -- What a connection must say first: the key, a nonce and two versions.
  unfoldable pub admit_worker : HttpRequest V → ℕ → Action (AppState V) (String × ℕ)
  unfolding split text_of admit_parts
  admit_worker request now =
      if not (str_eq request.protocol "HIVE") || not (str_eq request.method "AUTH")
      then raise permission_denied
      else admit_parts (map text_of (split 59 (codes request.uri))) now
