-- ===== src/Proxy/Safety/Policy.antt =====
-- The model policy from the token to the queue: admission and plan of one request together.
use hive_core_v.Base.{ℕ, String, true, Option, some, List, [], ◌∷◌, ◌≡◌, ◌≢◌, arith}
use hive_core_v.Auth.Models.{KeyRecord}
use hive_core_v.Auth.Policy.{allows_model}
use hive_core_v.App.State.{AppState}
use hive_core_v.App.RateLimiter.Window.{BinarySearch}
use hive_core_v.Shared.Http.Json.{Json}
use hive_core_v.Shared.Http.Request.{HttpRequest, extract_json_value}
use hive_core_v.Proxy.Models.{ModelRouteKind, RoutePlan, queue_by_model}
use hive_core_v.Proxy.State.{ProxyState}
use hive_core_v.Proxy.Planner.Probing.{Probes}
use hive_core_v.Proxy.Admission.Tables.{request_models}
use hive_core_v.Proxy.Admission.Authorize.{ok, authorized_key, admit, authorize_request}
use hive_core_v.Proxy.Planner.Endpoint.{ProxyEndpoint, classify_endpoint}
use hive_core_v.Proxy.Planner.Workers.{
  route_to_owner, route_to_any_backend, no_workers_available, first_or, missing_field,
  not_found_for_masked_model,
}
use hive_core_v.Proxy.Planner.Listing.{
  local_openai_models_response, local_tags_response, local_ps_response, local_version_response,
  local_health_response, local_openai_model_response,
}
use hive_core_v.Proxy.Planner.Plan.{
  route_by_required_model, route_openai_model_request, route_systemone_eval_request,
  route_show_request, route_create_request, route_copy_request, route_pull_request,
  route_push_request, route_delete_request, plan_endpoint, plan_request,
}
use hive_core_v.Proxy.Safety.Routes.{is_model_endpoint, model_endpoint-checked}
use hive_core_v.Proxy.Safety.Verdicts.{ok-Passed, admit-allowed}

module _ (json : Json) (state : ProxyState json.Value) (probes : Probes json.Value)
    (r : HttpRequest json.Value) (key : Option KeyRecord) (m : String) (kind : ModelRouteKind) where
  first_or-not :
      (refusal : RoutePlan) (ws : List String)
      → refusal ≢ queue_by_model m kind
      → first_or refusal ws ≢ queue_by_model m kind
  first_or-not refusal [] h = h
  first_or-not refusal (w ∷ ws) h = λ e. cc

  plan_endpoint-model :
      (e : ProxyEndpoint)
      → (plan_endpoint json state probes r key e).1 ≡ queue_by_model m kind
      → (is_model_endpoint e ≡ true) × (extract_json_value json r "model" ≡ some m)
  unfolding plan_endpoint route_by_required_model route_openai_model_request
      route_systemone_eval_request route_show_request route_create_request route_copy_request
      route_pull_request route_push_request route_delete_request local_openai_models_response
      local_tags_response local_ps_response local_version_response local_health_response
      local_openai_model_response route_to_owner route_to_any_backend no_workers_available
      missing_field not_found_for_masked_model
  plan_endpoint-model e h = ground arith

module _ (json : Json) (b : BinarySearch) (s : AppState json.Value) (state : ProxyState json.Value)
    (probes : Probes json.Value) (r : HttpRequest json.Value) (now : ℕ) (key : KeyRecord) where
  -- If `authorize_request` admits a request whose token belongs to a key, and `plan_request`
  -- sends the same request under that key to a model's queue, whatever the state is by then, the
  -- key may use that model.
  pub queued_model-allowed :
      (m : String) (kind : ModelRouteKind)
      → (authorized_key s r).1 ≡ some key
      → (authorize_request json b s r now).1 ≡ ok
      → (plan_request json state probes r (some key)).1 ≡ queue_by_model m kind
      → allows_model key m ≡ true
  unfolding plan_request request_models
  queued_model-allowed m kind k h q =
      let p = ok-Passed json b s r now h in
      let admitted : (admit json b (some key) now (record s { keys = (authorized_key s r).0 }) r).1
          ≡ ok =
        ground (arith, p.admitted) in
      let allowed =
        admit-allowed json b key now (record s { keys = (authorized_key s r).0 }) r admitted in
      let planned : (plan_endpoint json state probes r (some key) (classify_endpoint r)).1
          ≡ queue_by_model m kind =
        ground arith in
      let (e, named) =
        plan_endpoint-model json state probes r (some key) m kind (classify_endpoint r) planned in
      ground (arith, model_endpoint-checked r e)
