-- ===== src/Proxy/Planner/Listing.antt =====
-- src/servers/proxy/planner.rs: the answers that the proxy gives itself, and the state that the
-- probes for them leave.
use Prim.Native.String.{compare}
use Prim.Native.Nat.{Ordering}
use hive_core_v.Base.{
  String, str_eq, true, false, Option, none, some, List, [], ◌∷◌, ◌++◌, any, length, if◌then◌else◌,
}
use hive_core_v.Base.HashMap.{HashMap, values}
use hive_core_v.Auth.Models.{KeyRecord}
use hive_core_v.App.State.{AppState}
use hive_core_v.Shared.Http.Json.{Json}
use hive_core_v.Shared.Http.Response.{HttpResponse}
use hive_core_v.Shared.Http.Response
use hive_core_v.Shared.Http.Text.{and_then}
use hive_core_v.Shared.Sqlite.Normalize.{is_nil}
use hive_core_v.Proxy.Models.{RoutePlan, local, reject}
use hive_core_v.Proxy.State.{ProxyState}
use hive_core_v.Proxy.Planner.Probing.{Probes, parallel_probe_json, parallel_probe_versions}
use hive_core_v.Proxy.Planner.Workers.{
  connected_workers, connected_workers_by_backend, model_owners, model_visible, any_backend,
  ollama_backend, not_found_for_masked_model,
}

-- `BTreeMap::entry(k).or_insert_with(v)`: the keys are sorted, and the first value of a key stays.
unfoldable pub or_insert : {V : Type 0} → String → V → HashMap String V → HashMap String V
or_insert k v [] = (k, v) ∷ []
or_insert k v ((j, w) ∷ m) = elim (compare k j) [
  | Ordering.lt ↦ (k, v) ∷ (j, w) ∷ m
  | Ordering.eq ↦ (j, w) ∷ m
  | Ordering.gt ↦ (j, w) ∷ or_insert k v m
]

module _ (json : Json) where
  open json use {Value, get, as_str, as_array, to_vec, string, number, bool, array, object}

  unfoldable pub json_response : Value → HttpResponse
  unfolding Response.json Response.new
  json_response value = elim (to_vec value) [
    | some body ↦ Response.json 200 "OK" body
    | none ↦ Response.new 500 "Internal Server Error" []
  ]

  -- The name of an entry, if it is a text.
  abbrev pub name_of : String → Value → Option String
  name_of field model = and_then (get model field) as_str

  -- The loop over the entries of one answer. `field` holds the name of an entry.
  unfoldable pub collect_models :
      Option KeyRecord → String → List Value → HashMap String Value → HashMap String Value
  unfolding or_insert model_visible
  collect_models key field [] by_name = by_name
  collect_models key field (model ∷ models) by_name =
      collect_models key field models (elim (name_of field model) [
        | none ↦ by_name
        | some name ↦ if model_visible key name then or_insert name model by_name else by_name
      ])

  abbrev pub entries : String → Value → List Value
  entries field answer = elim (and_then (get answer field) as_array) [ none ↦ [] | some l ↦ l ]

  -- The loop over the answers.
  unfoldable pub collect_answers :
      Option KeyRecord → String → String → List Value → HashMap String Value → HashMap String Value
  unfolding collect_models
  collect_answers key list field [] by_name = by_name
  collect_answers key list field (answer ∷ answers) by_name =
      collect_answers key list field answers
        (collect_models key field (entries list answer) by_name)

  -- The loops of `local_ps_response`: `seen` has the names that are in `models`.
  unfoldable pub collect_running :
      Option KeyRecord → List Value → List Value × List String → List Value × List String
  unfolding model_visible
  collect_running key [] acc = acc
  collect_running key (model ∷ rest) (models, seen) =
      collect_running key rest (elim (name_of "name" model) [
        | none ↦ (models, seen)
        | some name ↦
            if model_visible key name
            then if any (λ s. str_eq s name) seen
              then (models, seen)
              else (models ++ model ∷ [], name ∷ seen)
            else (models, seen)
      ])

  unfoldable pub collect_running_answers :
      Option KeyRecord → List Value → List Value × List String → List Value × List String
  unfolding collect_running
  collect_running_answers key [] acc = acc
  collect_running_answers key (answer ∷ answers) acc =
      collect_running_answers key answers (collect_running key (entries "models" answer) acc)

  -- The first version that is not empty.
  unfoldable pub first_version : List String → String
  first_version [] = "unknown"
  first_version (v ∷ vs) = if is_nil v then first_version vs else v

  module _ (probes : Probes Value) (s : ProxyState Value) where
    -- The entries of `GET /v1/models`.
    unfoldable pub openai_models : Option KeyRecord → ProxyState Value × List Value
    unfolding collect_answers connected_workers parallel_probe_json
    openai_models key = elim (connected_workers s.app) [
      | [] ↦ (s, [])
      | w ∷ ws ↦
          let (s', answers) = parallel_probe_json json probes (w ∷ ws) "/v1/models" s in
          (s', values (collect_answers key "data" "id" answers []))
    ]

    unfoldable pub local_openai_models_response : Option KeyRecord → ProxyState Value × RoutePlan
    unfolding openai_models json_response
    local_openai_models_response key =
        let (s', models) = openai_models key in
        (
          s',
          local (json_response (object (("object", string "list") ∷ ("data", array models) ∷ []))),
        )

    -- The entries of `GET /api/tags`.
    unfoldable pub tags_models : Option KeyRecord → ProxyState Value × List Value
    unfolding collect_answers connected_workers_by_backend parallel_probe_json
    tags_models key = elim (connected_workers_by_backend s.app ollama_backend) [
      | [] ↦ (s, [])
      | w ∷ ws ↦
          let (s', answers) = parallel_probe_json json probes (w ∷ ws) "/api/tags" s in
          (s', values (collect_answers key "models" "name" answers []))
    ]

    unfoldable pub local_tags_response : Option KeyRecord → ProxyState Value × RoutePlan
    unfolding tags_models json_response
    local_tags_response key =
        let (s', models) = tags_models key in
        (s', local (json_response (object (("models", array models) ∷ []))))

    -- The entries of `GET /api/ps`.
    unfoldable pub ps_models : Option KeyRecord → ProxyState Value × List Value
    unfolding collect_running_answers connected_workers_by_backend parallel_probe_json
    ps_models key = elim (connected_workers_by_backend s.app ollama_backend) [
      | [] ↦ (s, [])
      | w ∷ ws ↦
          let (s', answers) = parallel_probe_json json probes (w ∷ ws) "/api/ps" s in
          (s', (collect_running_answers key answers ([], [])).0)
    ]

    unfoldable pub local_ps_response : Option KeyRecord → ProxyState Value × RoutePlan
    unfolding ps_models json_response
    local_ps_response key =
        let (s', models) = ps_models key in
        (s', local (json_response (object (("models", array models) ∷ []))))

    -- The text of `GET /api/version`.
    unfoldable pub backend_version : ProxyState Value × String
    unfolding first_version connected_workers_by_backend parallel_probe_versions
    backend_version = elim (connected_workers_by_backend s.app ollama_backend) [
      | [] ↦ (s, "unknown")
      | w ∷ ws ↦
          let (s', versions) = parallel_probe_versions json probes (w ∷ ws) s in
          (s', first_version versions)
    ]

    unfoldable pub local_version_response : ProxyState Value × RoutePlan
    unfolding backend_version json_response
    local_version_response =
        let (s', version) = backend_version in
        (s', local (json_response (object (("version", string version) ∷ []))))

  module _ (state : AppState Value) where
    unfoldable pub local_health_response : RoutePlan
    unfolding connected_workers json_response
    local_health_response = local (
        json_response (
          object (
            ("status", string "ok")
            ∷ ("workers", object (("connected", number (length (connected_workers state))) ∷ []))
            ∷ ("queue", object (("healthy", bool true) ∷ []))
            ∷ ("kv_cache", object (("supported", bool false) ∷ []))
            ∷ [])))

    unfoldable pub local_openai_model_response : Option KeyRecord → String → RoutePlan
    unfolding model_visible model_owners json_response not_found_for_masked_model
    local_openai_model_response key model =
        if model_visible key model
        then elim (model_owners state model any_backend) [
          | [] ↦ reject 404 "Not Found" "model not found"
          | w ∷ ws ↦ local (
              json_response (
                object (
                  ("id", string model)
                  ∷ ("object", string "model")
                  ∷ ("created", number 0)
                  ∷ ("owned_by", string "ollama")
                  ∷ [])))
        ]
        else not_found_for_masked_model
