-- ===== src/Proxy/Safety/Routes.antt =====
-- The table of routes of the planner against the tables of the admission.
use hive_core_v.Base.{
  String, str_eq, eq_iff, Bool, true, false, not, ◌&&◌, ◌||◌, any, all, some, List, [], ◌∷◌, ◌≡◌,
  refl, arith, Option-cases, inl, inr,
}
use hive_core_v.Shared.Http.Request.{HttpRequest, matches}
use hive_core_v.Proxy.Planner.Endpoint.{
  ProxyEndpoint, generate, chat, embed, create, copy, pull, push, delete, open_ai_chat_completions,
  open_ai_chat_completions_batch, open_ai_completions, open_ai_responses, open_ai_embeddings,
  vllm_cohere_embed, vllm_score, vllm_rerank, vllm_model_field_route, vllm_generative_scoring,
  vllm_targeted_only, system_one_evaluate, system_one_evaluate_v1, system_one_system_one,
  system_one_cloudflare_ai_run, Route, exact_routes, match_route, classify_endpoint,
  classify_prefix,
}
use hive_core_v.Proxy.Admission.Tables.{model_routes, admin_routes, admin_only_proxy_route}

-- The endpoints whose requests wait in a model's queue.
abbrev pub is_model_endpoint : ProxyEndpoint → Bool
is_model_endpoint generate = true
is_model_endpoint chat = true
is_model_endpoint embed = true
is_model_endpoint open_ai_chat_completions = true
is_model_endpoint open_ai_chat_completions_batch = true
is_model_endpoint open_ai_completions = true
is_model_endpoint open_ai_responses = true
is_model_endpoint open_ai_embeddings = true
is_model_endpoint vllm_cohere_embed = true
is_model_endpoint vllm_score = true
is_model_endpoint vllm_rerank = true
is_model_endpoint vllm_model_field_route = true
is_model_endpoint vllm_generative_scoring = true
is_model_endpoint system_one_evaluate = true
is_model_endpoint system_one_evaluate_v1 = true
is_model_endpoint system_one_system_one = true
is_model_endpoint system_one_cloudflare_ai_run = true
is_model_endpoint _ = false

-- The endpoints that change the models of a worker, and the control routes of vLLM.
abbrev pub is_admin_endpoint : ProxyEndpoint → Bool
is_admin_endpoint create = true
is_admin_endpoint copy = true
is_admin_endpoint pull = true
is_admin_endpoint push = true
is_admin_endpoint delete = true
is_admin_endpoint vllm_targeted_only = true
is_admin_endpoint _ = false

abbrev pub in_table : List (String × String) → String → String → Bool
in_table table m u = any (λ e. str_eq m e.0 && str_eq u e.1) table

-- A test that holds of every row holds of the row that is found.
match_route-all :
    (q : String → String → ProxyEndpoint → Bool) (m u : String) (e : ProxyEndpoint)
    (rows : List Route)
    → all (λ r. q r.0 r.1 r.2) rows ≡ true
    → match_route m u rows ≡ some e
    → q m u e ≡ true
unfolding match_route
match_route-all q m u e [] h k = cc
match_route-all q m u e ((m', u', e') ∷ rows) h k =
    ground (arith, eq_iff m m', eq_iff u u', match_route-all q m u e rows)

abbrev model_row : String → String → ProxyEndpoint → Bool
model_row m u e = not (is_model_endpoint e) || in_table model_routes m u

abbrev admin_row : String → String → ProxyEndpoint → Bool
admin_row m u e = not (is_admin_endpoint e) || in_table admin_routes m u

model_rows : all (λ r. model_row r.0 r.1 r.2) exact_routes ≡ true
model_rows = refl

admin_rows : all (λ r. admin_row r.0 r.1 r.2) exact_routes ≡ true
admin_rows = refl

-- Below the table only the routes of single models and of stored responses are left.
classify_prefix-other :
    (m u : String)
    → (is_model_endpoint (classify_prefix m u) ≡ false)
      × (is_admin_endpoint (classify_prefix m u) ≡ false)
unfolding classify_prefix
classify_prefix-other m u = ground arith

module _ {V : Type 0} (r : HttpRequest V) where
  classify_cases :
      (q : String → String → ProxyEndpoint → Bool)
      → all (λ row. q row.0 row.1 row.2) exact_routes ≡ true
      → q r.method r.uri (classify_prefix r.method r.uri) ≡ true
      → q r.method r.uri (classify_endpoint r) ≡ true
  unfolding classify_endpoint
  classify_cases q h k = elim (Option-cases (match_route r.method r.uri exact_routes)) [
    | inl e ↦ rw (e, classify_endpoint) k
    | inr (e', e) ↦ rw (e, classify_endpoint) (match_route-all q r.method r.uri e' exact_routes h e)
  ]

  -- Every method and target that the planner classifies as an endpoint served from a model's
  -- queue is on the list of routes whose model the admission checks.
  pub model_endpoint-checked :
      is_model_endpoint (classify_endpoint r) ≡ true → matches model_routes r ≡ true
  unfolding matches
  model_endpoint-checked h = ground (
    arith,
    classify_cases model_row model_rows (ground (arith, classify_prefix-other r.method r.uri)),
  )

  -- Every method and target that the planner classifies as a change of a worker's models, or as a
  -- control route of vLLM, is on the list of the admin's routes.
  pub admin_endpoint-checked :
      is_admin_endpoint (classify_endpoint r) ≡ true → admin_only_proxy_route r ≡ true
  unfolding admin_only_proxy_route
  admin_endpoint-checked h = ground (
    arith,
    classify_cases admin_row admin_rows (ground (arith, classify_prefix-other r.method r.uri)),
  )
