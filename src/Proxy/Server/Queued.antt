-- ===== src/Proxy/Server/Queued.antt =====
-- The task that `handle_connection` queues: of which key, for which model, and where.
use hive_core_v.Base.{
  ℕ, String, Bool, Option-cases, true, inl, inr, Option, some, ◌≡◌, refl, sym, ◌∙◌, subst, arith,
  Bool-cases,
}
use hive_core_v.Auth.Models.{KeyRecord}
use hive_core_v.Auth.Policy.{allows_model}
use hive_core_v.Auth.Keys.Coherence.{IsUp, IsCoherent}
use hive_core_v.App.RateLimiter.Window.{BinarySearch}
use hive_core_v.Shared.Http.Json.{Json}
use hive_core_v.Shared.Http.Request.{HttpRequest, request_usage_model_name}
use hive_core_v.Proxy.Models.{
  ModelRouteKind, RoutePlan, queue_by_model, queue_by_node, local, reject,
}
use hive_core_v.Proxy.Queue.Deques.{RequestQueue, enqueue_model, enqueue_node}
use hive_core_v.Proxy.Admission.Authorize.{ok}
use hive_core_v.Proxy.Planner.Probing.{Probes}
use hive_core_v.Proxy.Planner.Plan.{plan_request}
use hive_core_v.Proxy.Planner.Effects.{is_queued, plan_request-queued}
use hive_core_v.Proxy.State.{ProxyState}
use hive_core_v.Proxy.Safety.Policy.{queued_model-allowed}
use hive_core_v.Proxy.Server.{Reply, queued, Connection, client_task, dispatch}
use hive_core_v.Proxy.Server.Handling.{
  authorized_key-again, authorize_request-keys, after, key, again, served, planned, plan, verdict,
  handle_connection-cases,
}

-- The key may use the model of a plan that waits for one.
unfoldable pub permitted : Option KeyRecord → RoutePlan → Bool
permitted (some k) (queue_by_model m kind) = allows_model k m
permitted _ _ = true

-- A task made of the request, under the given key, went to the end of one queue of `q`.
pub data Queued (json : Json) (c : Connection) (r : HttpRequest json.Value) (k : Option KeyRecord)
    (id : ℕ) (q q' : RequestQueue json.Value) : RoutePlan → Type 0 where
  to_model :
      (m : String) (kind : ModelRouteKind)
      → q' ≡ (enqueue_model q m kind (client_task json c k (some m) r id).0).0
      → Queued json c r k id q q' (queue_by_model m kind)
  to_node :
      (w : String)
      → q' ≡ (enqueue_node q w (client_task json c k (request_usage_model_name json r) r id).0).0
      → Queued json c r k id q q' (queue_by_node w)

dispatch-Queued :
    (json : Json) (p : ProxyState json.Value) (c : Connection) (k : Option KeyRecord)
    (r : HttpRequest json.Value) (plan : RoutePlan)
    → (dispatch json p c k r plan).1 ≡ queued
    → Queued json c r k p.next_task_id p.request_queue
        (dispatch json p c k r plan).0.request_queue
        plan
unfolding dispatch
dispatch-Queued json p c k r (queue_by_model m kind) h = elim (Bool-cases c.try_clone) [
  | inl t ↦ to_model m kind (rw t refl)
  | inr t ↦ ground arith
]
dispatch-Queued json p c k r (queue_by_node w) h = elim (Bool-cases c.try_clone) [
  | inl t ↦ to_node w (rw t refl)
  | inr t ↦ ground arith
]
dispatch-Queued json p c k r (local response) h = cc
dispatch-Queued json p c k r (reject s reason message) h = cc

Queued-is_queued :
    {json : Json} {c : Connection} {r : HttpRequest json.Value} {k : Option KeyRecord} {id : ℕ}
    {q q' : RequestQueue json.Value} {plan : RoutePlan}
    → Queued json c r k id q q' plan
    → is_queued plan ≡ true
Queued-is_queued (to_model m kind e) = refl
Queued-is_queued (to_node w e) = refl

module _ (json : Json) (b : BinarySearch) (probes : Probes json.Value) (p : ProxyState json.Value)
    (c : Connection) (r : HttpRequest json.Value) where
  again-key :
      IsUp p.app.keys → IsCoherent p.app.keys → again json b probes p c r ≡ key json b probes p c r
  again-key up co =
      authorized_key-again p.app (verdict json b probes p c r).0 r up co
        (authorize_request-keys json b p.app r c.now)

  abbrev before : RequestQueue json.Value
  before = p.request_queue

  abbrev now_queued : RequestQueue json.Value
  now_queued = (after json b probes p c r).0.request_queue

  plan-permitted :
      IsUp p.app.keys
      → IsCoherent p.app.keys
      → (verdict json b probes p c r).1 ≡ ok
      → (pl : RoutePlan) → plan json b probes p c r ≡ pl
      → permitted (key json b probes p c r) pl ≡ true
  unfolding permitted
  plan-permitted up co v (queue_by_model m kind) q = elim (Option-cases (key json b probes p c r)) [
    | inl e ↦ rw e refl
    | inr (k, e) ↦ rw e (
        queued_model-allowed json b p.app (served json b probes p c r) probes r c.now k m kind e v (
          subst
            (λ o.
              (plan_request json (served json b probes p c r) probes r o).1 ≡ queue_by_model m kind)
            (again-key up co ∙ e) q))
  ]
  plan-permitted up co v (queue_by_node w) q = ground arith
  plan-permitted up co v (local response) q = ground arith
  plan-permitted up co v (reject s reason message) q = ground arith

  -- With a key store that works and a cache that agrees with the table, where the handler leaves
  -- the client's stream with a task, the queue is as before but for one enqueue, of the task made
  -- of the request under the key that the admission found, in the queue that the plan of
  -- `plan_request` names; and if there is a key and that plan waits for a model, the key may use
  -- that model.
  pub handle_connection-Queued :
      IsUp p.app.keys
      → IsCoherent p.app.keys
      → (after json b probes p c r).1 ≡ queued
      → Queued json c r
          (key json b probes p c r)
          p.next_task_id
          before
          now_queued
          (plan json b probes p c r)
        × (permitted (key json b probes p c r) (plan json b probes p c r) ≡ true)
  handle_connection-Queued up co h = elim (handle_connection-cases json b probes p c r) [
    | inl (n, e) ↦ absurd (n h)
    | inr (v, e) ↦
        let q =
          dispatch-Queued json (planned json b probes p c r) c (again json b probes p c r) r
            (plan json b probes p c r)
            (subst (λ (x : ProxyState json.Value × Reply). x.1 ≡ queued) e h) in
        let waits : is_queued (plan json b probes p c r) ≡ true = Queued-is_queued q in
        let same : planned json b probes p c r ≡ served json b probes p c r =
          plan_request-queued json (served json b probes p c r) probes r (again json b probes p c r)
            waits in
        (
          subst (λ o. Queued json c r o p.next_task_id before now_queued (plan json b probes p c r))
              (again-key up co)
              (subst
                (λ (s : ProxyState json.Value).
                  Queued json c r (again json b probes p c r) s.next_task_id s.request_queue
                    now_queued (plan json b probes p c r))
                same
                (subst
                  (λ (x : ProxyState json.Value × Reply).
                    Queued json c r (again json b probes p c r)
                      (planned json b probes p c r).next_task_id
                      (planned json b probes p c r).request_queue x.0.request_queue
                      (plan json b probes p c r))
                  (sym e) q)),
          plan-permitted up co v (plan json b probes p c r) refl,
        )
  ]
