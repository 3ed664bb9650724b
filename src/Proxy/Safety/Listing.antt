-- ===== src/Proxy/Safety/Listing.antt =====
-- The lists of models that the proxy answers itself: `GET /v1/models`, `/api/tags` and `/api/ps`.
use hive_core_v.Base.{
  String, str_eq, true, All, inl, inr, Option, some, List, [], ◌∷◌, ◌++◌, ◌≡◌, arith, Bool-cases,
  Option-cases, any,
}
use hive_core_v.Base.HashMap.{HashMap, values}
use hive_core_v.Auth.Models.{KeyRecord}
use hive_core_v.Shared.Http.Json.{Json}
use hive_core_v.Proxy.State.{ProxyState}
use hive_core_v.Proxy.Planner.Probing.{Probes, parallel_probe_json}
use hive_core_v.Proxy.Planner.Workers.{
  model_visible, connected_workers, connected_workers_by_backend, ollama_backend,
}
use hive_core_v.Proxy.Planner.Listing.{
  or_insert, name_of, entries, collect_models, collect_answers, collect_running,
  collect_running_answers, openai_models, tags_models, ps_models,
}

or_insert-All :
    {V : Type 0} (P : V → Type 0) (k : String) (v : V) (m : HashMap String V)
    → P v
    → All P (values m)
    → All P (values (or_insert k v m))
unfolding or_insert
or_insert-All P k v [] p h = (p, tt)
or_insert-All P k v ((j, w) ∷ m) p h = ground (arith, or_insert-All P k v m p)

module _ (json : Json) (key : Option KeyRecord) (field : String) where
  open json use {Value}

  -- The entry has a name, of a model that the key may use.
  pub record IsVisible (v : Value) : Type 0 where
    pub name : String
    pub named : name_of json field v ≡ some name
    pub visible : model_visible key name ≡ true

  collect_models-IsVisible :
      (models : List Value) (by_name : HashMap String Value)
      → All IsVisible (values by_name)
      → All IsVisible (values (collect_models json key field models by_name))
  unfolding collect_models
  collect_models-IsVisible [] by_name h = h
  collect_models-IsVisible (v ∷ vs) by_name h = elim (Option-cases (name_of json field v)) [
    | inl e ↦ rw e (collect_models-IsVisible vs by_name h)
    | inr (n, e) ↦ elim (Bool-cases (model_visible key n)) [
      | inl s ↦
          rw (e, s)
            (collect_models-IsVisible vs (or_insert n v by_name)
              (or_insert-All IsVisible n v by_name (record { name = n; named = e; visible = s }) h))
      | inr d ↦ rw (e, d) (collect_models-IsVisible vs by_name h)
    ]
  ]

  collect_answers-IsVisible :
      (list : String) (answers : List Value) (by_name : HashMap String Value)
      → All IsVisible (values by_name)
      → All IsVisible (values (collect_answers json key list field answers by_name))
  unfolding collect_answers
  collect_answers-IsVisible list [] by_name h = h
  collect_answers-IsVisible list (a ∷ answers) by_name h =
      collect_answers-IsVisible list answers
        (collect_models json key field (entries json list a) by_name)
        (collect_models-IsVisible (entries json list a) by_name h)

module _ (json : Json) (key : Option KeyRecord) where
  open json use {Value}

  snoc-All :
      (vs : List Value) (v : Value)
      → All (IsVisible json key "name") vs
      → IsVisible json key "name" v
      → All (IsVisible json key "name") (vs ++ v ∷ [])
  snoc-All [] v h p = (p, tt)
  snoc-All (w ∷ vs) v h p = (h.0, snoc-All vs v h.1 p)

  collect_running-IsVisible :
      (rest : List Value) (models : List Value) (seen : List String)
      → All (IsVisible json key "name") models
      → All (IsVisible json key "name") (collect_running json key rest (models, seen)).0
  unfolding collect_running
  collect_running-IsVisible [] models seen h = h
  collect_running-IsVisible (v ∷ vs) models seen h = elim (Option-cases (name_of json "name" v)) [
    | inl e ↦ rw (All, e) (collect_running-IsVisible vs models seen h)
    | inr (n, e) ↦ elim (Bool-cases (model_visible key n)) [
      | inl s ↦ elim (Bool-cases (any (λ t. str_eq t n) seen)) [
        | inl d ↦ rw (All, e, s, d) (collect_running-IsVisible vs models seen h)
        | inr d ↦
            rw (All, e, s, d)
              (collect_running-IsVisible vs (models ++ v ∷ []) (n ∷ seen)
                (snoc-All models v h (record { name = n; named = e; visible = s })))
      ]
      | inr d ↦ rw (All, e, d) (collect_running-IsVisible vs models seen h)
    ]
  ]

  collect_running_answers-IsVisible :
      (answers : List Value) (acc : List Value × List String)
      → All (IsVisible json key "name") acc.0
      → All (IsVisible json key "name") (collect_running_answers json key answers acc).0
  unfolding collect_running_answers
  collect_running_answers-IsVisible [] acc h = h
  collect_running_answers-IsVisible (a ∷ answers) acc h =
      collect_running_answers-IsVisible answers
        (collect_running json key (entries json "models" a) acc)
        (collect_running-IsVisible (entries json "models" a) acc.0 acc.1 h)

  -- The three lists of models that the proxy answers itself, for any state and any answers of the
  -- probed workers, have only entries with a name, and only of models that the key may use.
  pub listings-IsVisible :
      (probes : Probes Value) (s : ProxyState Value)
      → All (IsVisible json key "id") (openai_models json probes s key).1
        × All (IsVisible json key "name") (tags_models json probes s key).1
        × All (IsVisible json key "name") (ps_models json probes s key).1
  unfolding openai_models tags_models ps_models
  listings-IsVisible probes s = (
    elim (connected_workers s.app)
        as (λ l.
          let x : ProxyState Value × List Value = elim l [
            | [] ↦ (s, [])
            | w ∷ ws ↦
                let (s', answers) = parallel_probe_json json probes (w ∷ ws) "/v1/models" s in
                (s', values (collect_answers json key "data" "id" answers []))
          ] in
          All (IsVisible json key "id") x.1) [
            | [] ↦ tt
            | w ∷ ws ↦
                collect_answers-IsVisible json key "id" "data"
                  (parallel_probe_json json probes (w ∷ ws) "/v1/models" s).1 [] tt
          ],
    elim (connected_workers_by_backend s.app ollama_backend)
        as (λ l.
          let x : ProxyState Value × List Value = elim l [
            | [] ↦ (s, [])
            | w ∷ ws ↦
                let (s', answers) = parallel_probe_json json probes (w ∷ ws) "/api/tags" s in
                (s', values (collect_answers json key "models" "name" answers []))
          ] in
          All (IsVisible json key "name") x.1) [
            | [] ↦ tt
            | w ∷ ws ↦
                collect_answers-IsVisible json key "name" "models"
                  (parallel_probe_json json probes (w ∷ ws) "/api/tags" s).1 [] tt
          ],
    elim (connected_workers_by_backend s.app ollama_backend)
        as (λ l.
          let x : ProxyState Value × List Value = elim l [
            | [] ↦ (s, [])
            | w ∷ ws ↦
                let (s', answers) = parallel_probe_json json probes (w ∷ ws) "/api/ps" s in
                (s', (collect_running_answers json key answers ([], [])).0)
          ] in
          All (IsVisible json key "name") x.1) [
            | [] ↦ tt
            | w ∷ ws ↦
                collect_running_answers-IsVisible
                  (parallel_probe_json json probes (w ∷ ws) "/api/ps" s).1 ([], []) tt
          ],
  )
