-- ===== src/Proxy/Tests.antt =====
-- Admission, planning and the handler at one concrete request: the key `alice` of the tests' table
-- asks `POST /api/chat` for the model `qwen3:8b`.
use hive_core_v.Base.{
  ◌+◌, ◌-◌, ◌^◌, min, ◌≡◌, ◌≢◌, refl, string_eq, true, false, All, some, [], ◌∷◌, if◌then◌else◌,
}
use hive_core_v.Base.HashMap
use hive_core_v.Base.{str_eq, ◌&&◌, ◌==◌, ◌≤◌, arith, none}
use hive_core_v.Shared.Http.Text.{is_some}
use hive_core_v.Worker.Models.{WorkerConnectionStatus, polling}
use hive_core_v.Samples.{worker}
use hive_core_v.Proxy.Task
use hive_core_v.Shared.Http.Request
use hive_core_v.Proxy.Planner.Workers.{connected_workers}
use hive_core_v.Proxy.Planner.Probing.{parallel_probe_json, aggregate_probe_timeout}
use hive_core_v.Proxy.Queue.Deques.{enqueue_node, enqueue_to_node}
use hive_core_v.Proxy.Planner.Listing.{local_openai_models_response}
use hive_core_v.Proxy.Probe.{
  probe_worker_json, worker_has_polling_connection, dispatch_capture, kept, update_worker_cache,
  cached_value,
}
use hive_core_v.Proxy.Probe.Cache.{same_group, update-cached_value}
use hive_core_v.Samples.{text}
use hive_core_v.Auth.Models.{KeyRecord, admin}
use hive_core_v.Auth.Policy.{allows_model, model_rule_matches, split_model_tag}
use hive_core_v.Auth.Keys.{verify}
use hive_core_v.Auth.Keys.Coherence.{IsUp, IsCoherent}
use hive_core_v.App.RateLimiter.Slots.{IsWellFormed, slots}
use hive_core_v.App.RateLimiter.Check.{check}
use hive_core_v.App.RateLimiter.Check.{check_key, key_state_for}
use hive_core_v.App.RateLimiter.State.{resolve_tier, at_limit_i64, new_key_state}
use hive_core_v.App.RateLimiter.Scan.{scan_limits, limits_of, scan_limit}
use hive_core_v.App.RateLimiter.Window.{prune_and_count, cutoff, position}
use hive_core_v.App.RateLimiter.Window
use hive_core_v.Shared.Sqlite.KeyTable.{fetch_key_by_token}
use hive_core_v.Shared.Http.Request.{HttpRequest, header, bearer_token, extract_json_value}
use hive_core_v.Proxy.Models.{queue_by_model, ollama_native}
use hive_core_v.Proxy.Queue.Deques.{RequestQueue, enqueue_model, push_back}
use hive_core_v.Proxy.Planner.Endpoint.{classify_endpoint, classify_prefix}
use mathlib.Core.List.Perm
use hive_core_v.Proxy.Queue.Count.{all_waiting}
use hive_core_v.Proxy.Queue.Deques.{key_Eq}
use hive_core_v.Proxy.Planner.Probing.{Probes}
use hive_core_v.Proxy.Planner.Clients.{of_client, IsQuiet}
use hive_core_v.Proxy.State.{ProxyState}
use hive_core_v.Proxy.Planner.Listing.{openai_models, tags_models, ps_models}
use hive_core_v.Proxy.Planner.Plan.{plan_request, route_by_required_model}
use hive_core_v.Proxy.Admission.Tables.{admin_only_proxy_route, request_models, is_discovery_route}
use hive_core_v.Proxy.Admission.Authorize.{ok, authorized_key, authorize_request}
use hive_core_v.Proxy.Safety.Verdicts.{
  HasKey, takes_slot, authorize_request-admin, authorize_request-HasKey,
  authorize_request-within_limit,
}
use hive_core_v.Proxy.Safety.Policy.{queued_model-allowed}
use hive_core_v.Proxy.Safety.Listing.{IsVisible, listings-IsVisible}
use hive_core_v.Proxy.Server.{Connection, queued, handle_connection}
use hive_core_v.Proxy.Server.Handling.{
  plan, after, key, verdict, handle_connection-slots, handle_connection-clients,
}
use hive_core_v.Proxy.Server.Queued.{Queued, permitted, handle_connection-Queued}
use hive_core_v.Samples.{
  Doc, page, docs, linear_search, alice, key_store, limiter, state, request_of,
}

-- The threads go in the order of the workers, and no worker answers in time.
abbrev probes : Probes Doc
probes = record {
  now = λ worker. 8;
  channel = λ worker. 1;
  recv_timeout = λ worker uri q. (q, none);
  order = λ workers. workers;
  order-Perm = Perm.refl;
  arrival = λ results. results;
  arrival-Perm = Perm.refl;
  version_arrival = λ results. results;
  version_arrival-Perm = Perm.refl;
}

abbrev no_tasks : RequestQueue Doc
no_tasks = record {
  model_queue = [];
  model_poisoned = false;
  node_queue = [];
  node_poisoned = false;
  default_timeout = 60;
  generation = 0;
}

abbrev proxy : ProxyState Doc
proxy = record { app = state; request_queue = no_tasks; next_task_id = 1 }

-- A worker that polls and has told its models before.
abbrev poll : WorkerConnectionStatus
poll = record {
  index = 0;
  nonce = "n";
  tags = "qwen3:8b" ∷ [];
  state = polling;
  last_ping = 5;
  last_poll = 5;
  core_to_node_rtt_latency = none;
  node_to_backend_rtt_latency = none;
  latency_reported_at = none;
}

abbrev known_models : Doc
known_models = page (
    (("id", "qwen3:8b") ∷ ("name", "qwen3:8b") ∷ [])
    ∷ (("id", "llama3") ∷ ("name", "llama3") ∷ [])
    ∷ [])

abbrev polled : ProxyState Doc
polled = record proxy {
  app = record state {
    workers =
        (
          "w1",
          record worker {
            connections = poll ∷ [];
            next_connection_index = 1;
            model_catalog = some known_models;
          },
        )
        ∷ [];
  };
}

abbrev chat_request : HttpRequest Doc
chat_request = request_of "Bearer t1" "POST" "/api/chat"

abbrev load_request : HttpRequest Doc
load_request = request_of "Bearer t2" "GET" "/load"

alice_key : (authorized_key state chat_request).1 ≡ some alice
unfolding authorized_key bearer_token HashMap.get verify fetch_key_by_token HashMap.insert
alice_key = refl

chat_admitted : (authorize_request docs linear_search state chat_request 7).1 ≡ ok
unfolding authorize_request bearer_token HashMap.get verify fetch_key_by_token HashMap.insert
    admin_only_proxy_route request_models allows_model model_rule_matches split_model_tag
    is_discovery_route check check_key resolve_tier at_limit_i64 key_state_for new_key_state
    Window.new scan_limits limits_of scan_limit prune_and_count cutoff position
chat_admitted = refl

load_admitted : (authorize_request docs linear_search state load_request 7).1 ≡ ok
unfolding authorize_request bearer_token HashMap.get verify fetch_key_by_token HashMap.insert
    admin_only_proxy_route request_models is_discovery_route check check_key resolve_tier
    scan_limits limits_of scan_limit
load_admitted = refl

chat_planned :
    (plan_request docs proxy probes chat_request (some alice)).1
    ≡ queue_by_model "qwen3:8b" ollama_native
unfolding plan_request HashMap.get classify_endpoint route_by_required_model extract_json_value
chat_planned = refl

queued_model-allowed_example : allows_model alice "qwen3:8b" ≡ true
queued_model-allowed_example =
    queued_model-allowed docs linear_search state proxy probes chat_request 7 alice "qwen3:8b"
      ollama_native alice_key chat_admitted chat_planned

authorize_request-admin_example :
    (k : KeyRecord) × ((authorized_key state load_request).1 ≡ some k) × (k.role ≡ admin)
unfolding admin_only_proxy_route header HashMap.get
authorize_request-admin_example =
    authorize_request-admin docs linear_search state load_request 7 load_admitted refl

authorize_request-HasKey_example : HasKey state chat_request
authorize_request-HasKey_example =
    authorize_request-HasKey docs linear_search state chat_request 7 refl chat_admitted

fresh_limiter : IsWellFormed limiter
fresh_limiter = record { unique = tt; up = refl }

authorize_request-within_limit_example :
    slots (authorize_request docs linear_search state chat_request 7).0.rate_limiter 1
    ≤ (resolve_tier limiter "low").max_concurrent
authorize_request-within_limit_example =
    authorize_request-within_limit docs linear_search state chat_request 7 alice alice_key
      fresh_limiter (unfold resolve_tier HashMap.get in omega arith)
      (unfold resolve_tier key_state_for new_key_state HashMap.get in omega arith)

listings-IsVisible_example :
    All (IsVisible docs (some alice) "id") (openai_models docs probes polled (some alice)).1
    × All (IsVisible docs (some alice) "name") (tags_models docs probes polled (some alice)).1
    × All (IsVisible docs (some alice) "name") (ps_models docs probes polled (some alice)).1
listings-IsVisible_example = listings-IsVisible docs (some alice) probes polled

abbrev connection : Connection
connection = record { stream = 0; try_clone = true; now = 7 }

abbrev unknown_request : HttpRequest Doc
unknown_request = request_of "Bearer t1" "GET" "/nothing"

handle_connection-slots_example :
    slots (after docs linear_search probes proxy connection unknown_request).0.app.rate_limiter 1
    ≡ (if takes_slot
          (verdict docs linear_search probes proxy connection unknown_request).1
          (key docs linear_search probes proxy connection unknown_request)
          unknown_request
          1
        then min (slots limiter 1 + 1) (2 ^ 63 - 1)
        else slots limiter 1)
handle_connection-slots_example =
    handle_connection-slots docs linear_search probes proxy connection unknown_request 1
      fresh_limiter refl

quiet : IsQuiet (λ t. t.id == 1) probes
quiet = record { still = λ worker uri q. refl }

abbrev models_request : HttpRequest Doc
models_request = request_of "Bearer t1" "GET" "/v1/models"

models_answered : (after docs linear_search probes polled connection models_request).1 ≢ queued
unfolding handle_connection authorize_request bearer_token HashMap.get verify fetch_key_by_token
    HashMap.insert admin_only_proxy_route request_models allows_model model_rule_matches
    split_model_tag is_discovery_route check check_key resolve_tier at_limit_i64 key_state_for
    new_key_state Window.new scan_limits limits_of scan_limit prune_and_count cutoff position
    plan_request classify_endpoint route_by_required_model extract_json_value enqueue_model
    push_back classify_prefix connected_workers parallel_probe_json aggregate_probe_timeout
    probe_worker_json worker_has_polling_connection dispatch_capture Task.new Request.new
    cached_value kept enqueue_to_node enqueue_node openai_models local_openai_models_response
models_answered e = cc

-- The probe of the worker takes a task id and waits in the worker's queue.
probed : (after docs linear_search probes polled connection models_request).0.next_task_id ≡ 2
unfolding handle_connection authorize_request bearer_token HashMap.get verify fetch_key_by_token
    HashMap.insert admin_only_proxy_route request_models allows_model model_rule_matches
    split_model_tag is_discovery_route check check_key resolve_tier at_limit_i64 key_state_for
    new_key_state Window.new scan_limits limits_of scan_limit prune_and_count cutoff position
    plan_request classify_endpoint route_by_required_model extract_json_value enqueue_model
    push_back classify_prefix connected_workers parallel_probe_json aggregate_probe_timeout
    probe_worker_json worker_has_polling_connection dispatch_capture Task.new Request.new
    cached_value kept enqueue_to_node enqueue_node openai_models local_openai_models_response
probed = refl

handle_connection-clients_example :
    all_waiting
      (of_client (λ t. t.id == 1))
      (after docs linear_search probes polled connection models_request).0.request_queue
    ≡ all_waiting (of_client (λ t. t.id == 1)) no_tasks
handle_connection-clients_example =
    handle_connection-clients docs linear_search probes polled connection models_request
      (λ t. t.id == 1) quiet models_answered

chat_queued : (after docs linear_search probes proxy connection chat_request).1 ≡ queued
unfolding handle_connection authorize_request bearer_token HashMap.get verify fetch_key_by_token
    HashMap.insert admin_only_proxy_route request_models allows_model model_rule_matches
    split_model_tag is_discovery_route check check_key resolve_tier at_limit_i64 key_state_for
    new_key_state Window.new scan_limits limits_of scan_limit prune_and_count cutoff position
    plan_request classify_endpoint route_by_required_model extract_json_value enqueue_model
    push_back classify_prefix
chat_queued = refl

up : IsUp key_store
up = record { cache_up = refl; database_up = refl }

cold : IsCoherent key_store
unfolding HashMap.get
cold = record { at = λ t k e. cc }

handle_connection-Queued_example :
    Queued docs connection chat_request
      (key docs linear_search probes proxy connection chat_request)
      1
      no_tasks
      (after docs linear_search probes proxy connection chat_request).0.request_queue
      (plan docs linear_search probes proxy connection chat_request)
    × (permitted
          (key docs linear_search probes proxy connection chat_request)
          (plan docs linear_search probes proxy connection chat_request)
        ≡ true)
handle_connection-Queued_example =
    handle_connection-Queued docs linear_search probes proxy connection chat_request up cold
      chat_queued

-- An answer to `/api/tags` is found again under `/v1/models`.
update-cached_value_example :
    cached_value "w1" "/v1/models" (update_worker_cache "w1" "/api/tags" (text "models") state) ≡ (
      if str_eq "w1" "w1"
        && same_group "/api/tags" "/v1/models"
        && is_some (HashMap.get "w1" state.workers)
      then some (text "models")
      else cached_value "w1" "/v1/models" state)
update-cached_value_example =
    update-cached_value "w1" "/api/tags" "w1" "/v1/models" (text "models") state refl
