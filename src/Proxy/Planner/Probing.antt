-- ===== src/Proxy/Planner/Probing.antt =====
-- src/servers/proxy/planner.rs: the probes of several workers at a time.
use mathlib.Core.List.{Perm}
use hive_core_v.Base.{ℕ, ◌*◌, min, String, Option, none, some, List, [], ◌∷◌, ◌≡◌, refl, ◌∙◌}
use hive_core_v.App.Config.{Config}
use hive_core_v.Shared.Http.Json.{Json}
use hive_core_v.Shared.Http.Request.{HttpRequest}
use hive_core_v.Shared.Http.Request
use hive_core_v.Worker.Server.Relay.{WorkerHttpResponse}
use hive_core_v.Proxy.Queue.Deques.{RequestQueue}
use hive_core_v.Proxy.State.{ProxyState}
use hive_core_v.Proxy.Probe.{Wait, probe_worker_json, probe_worker_version}

-- What comes from outside the probing threads: for each worker the clock and the channel of its
-- task, and what other threads do to the queue until the worker's answer is there or the time is
-- over; the order in which the threads take their task ids; and the order in which the results
-- arrive.
pub record Probes (Value : Type 0) : Type 0 where
  pub now : String → ℕ
  pub channel : String → ℕ
  pub recv_timeout :
      String → String → RequestQueue Value → RequestQueue Value × Option WorkerHttpResponse
  pub order : List String → List String
  pub order-Perm : (workers : List String) → Perm (order workers) workers
  pub arrival : List (Option Value) → List (Option Value)
  pub arrival-Perm : (results : List (Option Value)) → Perm (arrival results) results
  pub version_arrival : List (Option String) → List (Option String)
  pub version_arrival-Perm :
      (results : List (Option String)) → Perm (version_arrival results) results

-- `flatten`
abbrev pub present : {A : Type 0} → List (Option A) → List A
present [] = []
present (none ∷ rs) = present rs
present (some a ∷ rs) = a ∷ present rs

abbrev aggregate_probe_timeout_ms : ℕ
aggregate_probe_timeout_ms = 2_000

unfoldable pub aggregate_probe_timeout : Config → ℕ
aggregate_probe_timeout config = min config.proxy_timeout_ms aggregate_probe_timeout_ms * 1_000_000

module _ {V A : Type 0} (probe : String → ProxyState V → ProxyState V × Option A) where
  -- The probing threads. A thread touches the deque and the answers of its own worker only, so the
  -- threads leave what they leave one after the other, in the order of their task ids.
  abbrev pub spawn_all : List String → ProxyState V → ProxyState V × List (Option A)
  spawn_all [] s = (s, [])
  spawn_all (w ∷ ws) s = let (s1, r) = probe w s in let (s2, rs) = spawn_all ws s1 in (s2, r ∷ rs)

  spawn_all-keeps :
      {C : Type 0} (measure : ProxyState V → C)
      → ((w : String) (s : ProxyState V) → measure (probe w s).0 ≡ measure s)
      → (ws : List String) (s : ProxyState V) → measure (spawn_all ws s).0 ≡ measure s
  spawn_all-keeps measure h [] s = refl
  spawn_all-keeps measure h (w ∷ ws) s = spawn_all-keeps measure h ws (probe w s).0 ∙ h w s

abbrev pub probe_request : {V : Type 0} → String → HttpRequest V
probe_request uri = Request.new "GET" uri "HTTP/1.1" [] []

module _ (json : Json) (probes : Probes json.Value) where
  open json use {Value}

  abbrev pub wait_of : ℕ → String → String → Wait Value
  wait_of timeout uri worker = record {
    now = probes.now worker;
    channel = probes.channel worker;
    timeout = timeout;
    recv_timeout = λ s.
        let (q, answer) = probes.recv_timeout worker uri s.request_queue in
        (record s { request_queue = q }, answer);
  }

  -- The probes have no body, as in each call.
  unfoldable pub parallel_probe_json :
      List String → String → ProxyState Value → ProxyState Value × List Value
  unfolding aggregate_probe_timeout probe_worker_json Request.new
  parallel_probe_json workers uri s =
      let timeout = aggregate_probe_timeout s.app.config in
      let (s', results) =
        spawn_all (λ w. probe_worker_json json (wait_of timeout uri w) w (probe_request uri))
          (probes.order workers) s in
      (s', present (probes.arrival results))

  unfoldable pub parallel_probe_versions :
      List String → ProxyState Value → ProxyState Value × List String
  unfolding aggregate_probe_timeout probe_worker_version
  parallel_probe_versions workers s =
      let timeout = aggregate_probe_timeout s.app.config in
      let (s', results) =
        spawn_all (λ w. probe_worker_version json (wait_of timeout "/api/version" w) w)
          (probes.order workers) s in
      (s', present (probes.version_arrival results))

  -- What each probe of one worker keeps, the probes of several keep.
  module _ {C : Type 0} (measure : ProxyState Value → C)
      (kept : (timeout : ℕ) (uri w : String) (s : ProxyState Value)
        → measure (probe_worker_json json (wait_of timeout uri w) w (probe_request uri) s).0
          ≡ measure s) where
    pub parallel_probe_json-keeps :
        (ws : List String) (uri : String) (s : ProxyState Value)
        → measure (parallel_probe_json ws uri s).0 ≡ measure s
    unfolding parallel_probe_json
    parallel_probe_json-keeps ws uri s =
        let timeout = aggregate_probe_timeout s.app.config in
        spawn_all-keeps (λ w. probe_worker_json json (wait_of timeout uri w) w (probe_request uri))
          measure (kept timeout uri) (probes.order ws) s

    pub parallel_probe_versions-keeps :
        (ws : List String) (s : ProxyState Value)
        → measure (parallel_probe_versions ws s).0 ≡ measure s
    unfolding parallel_probe_versions probe_worker_version
    parallel_probe_versions-keeps ws s =
        let timeout = aggregate_probe_timeout s.app.config in
        spawn_all-keeps (λ w. probe_worker_version json (wait_of timeout "/api/version" w) w)
          measure (kept timeout "/api/version") (probes.order ws) s
