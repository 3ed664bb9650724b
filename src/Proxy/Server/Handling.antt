-- ===== src/Proxy/Server/Handling.antt =====
-- What `handle_connection` does with a request, its key, its slot and the queue.
use hive_core_v.Base.{
  ℕ, ◌+◌, ◌-◌, ◌^◌, min, str_eq, Bool, false, ◌⊎◌, inl, inr, Option, some, List, [], ◌∷◌,
  if◌then◌else◌, ◌≡◌, ◌≢◌, refl, ◌∙◌, ap, subst, arith, Bool-cases, Option-cases,
}
use hive_core_v.Auth.Models.{KeyRecord, Role, admin, client}
use hive_core_v.Auth.Keys.{KeyStore, verify}
use hive_core_v.Auth.Keys.Coherence.{IsUp, IsCoherent, verify-verify}
use hive_core_v.App.State.{AppState}
use hive_core_v.App.RateLimiter.Window.{BinarySearch}
use hive_core_v.App.RateLimiter.Slots.{IsWellFormed, slots}
use hive_core_v.Shared.Http.Json.{Json}
use hive_core_v.Shared.Http.Request.{HttpRequest, bearer_token}
use hive_core_v.Proxy.Models.{RoutePlan}
use hive_core_v.Proxy.Task.{ClientTask}
use hive_core_v.Proxy.Queue.Count.{all_waiting}
use hive_core_v.Proxy.Queue.Deques.{enqueue_model, enqueue_node}
use hive_core_v.Proxy.Admission.Authorize.{
  Verdict, ok, err, authorized_key, admit, admit_key, authorize_request,
}
use hive_core_v.Proxy.Planner.Probing.{Probes}
use hive_core_v.Proxy.Planner.Plan.{plan_request}
use hive_core_v.Proxy.Planner.Effects.{plan_request-keeps}
use hive_core_v.Proxy.Planner.Clients.{of_client, IsQuiet, probe-limiter, probe-clients}
use hive_core_v.Proxy.State.{ProxyState}
use hive_core_v.Proxy.Safety.Verdicts.{takes_slot, authorize_request-slots}
use hive_core_v.Proxy.Server.{
  Reply, queued, Connection, enqueue_error, dispatch, serve, handle_connection,
}

module _ (json : Json) (p : ProxyState json.Value) (c : Connection) (key : Option KeyRecord)
    (r : HttpRequest json.Value) (plan : RoutePlan) where
  dispatch-app : (dispatch json p c key r plan).0.app ≡ p.app
  unfolding dispatch
  dispatch-app = ground arith

  -- The queue changes only where the client's stream goes with the task.
  dispatch-unqueued :
      (dispatch json p c key r plan).1 ≢ queued
      → (dispatch json p c key r plan).0.request_queue ≡ p.request_queue
  unfolding dispatch enqueue_model enqueue_node enqueue_error
  dispatch-unqueued h = ground arith

-- The token of a request names the same key before and after the first lookup.
pub authorized_key-again :
    {V : Type 0} (s s' : AppState V) (r : HttpRequest V)
    → IsUp s.keys
    → IsCoherent s.keys
    → s'.keys ≡ (authorized_key s r).0
    → (authorized_key s' r).1 ≡ (authorized_key s r).1
unfolding authorized_key
authorized_key-again s s' r up co e = elim (Option-cases (bearer_token r)) [
  | inl n ↦ ground arith
  | inr (t, f) ↦
      let roles : List Role = admin ∷ client ∷ [] in
      let same : s'.keys ≡ (verify s.keys t roles).0 = ground arith in
      let again : (verify s'.keys t roles).1 ≡ (verify s.keys t roles).1 =
        ap (λ (k : KeyStore). (verify k t roles).1) same ∙ verify-verify s.keys t roles up co in
      ground arith
]

pub authorize_request-keys :
    (json : Json) (b : BinarySearch) (s : AppState json.Value) (r : HttpRequest json.Value)
    (now : ℕ)
    → (authorize_request json b s r now).0.keys ≡ (authorized_key s r).0
unfolding authorize_request admit admit_key
authorize_request-keys json b s r now = ground arith

module _ (json : Json) (b : BinarySearch) (probes : Probes json.Value) (p : ProxyState json.Value)
    (c : Connection) (r : HttpRequest json.Value) where
  abbrev pub verdict : AppState json.Value × Verdict
  verdict = authorize_request json b p.app r c.now

  abbrev pub after : ProxyState json.Value × Reply
  after = handle_connection json b probes p c (some r)

  abbrev pub key : Option KeyRecord
  key = (authorized_key p.app r).1

  -- What the second lookup of the token gives, the state that it leaves, and the plan with the
  -- state that its probes leave.
  abbrev pub again : Option KeyRecord
  again = (authorized_key verdict.0 r).1

  abbrev pub served : ProxyState json.Value
  served = record p { app = record verdict.0 { keys = (authorized_key verdict.0 r).0 } }

  abbrev pub planned : ProxyState json.Value
  planned = (plan_request json served probes r again).0

  abbrev pub plan : RoutePlan
  plan = (plan_request json served probes r again).1

  handle_connection-limiter :
      str_eq r.method "OPTIONS" ≡ false → after.0.app.rate_limiter ≡ verdict.0.rate_limiter
  unfolding handle_connection serve
  handle_connection-limiter n = ground (
    arith,
    ap (λ (s : AppState json.Value). s.rate_limiter) (dispatch-app json planned c again r plan),
    plan_request-keeps json served probes r again (λ s. s.app.rate_limiter)
        (probe-limiter json probes),
  )

  -- With a well-formed limiter, after a request of any method but OPTIONS each key holds the
  -- slots that it held before, but for one more, up to the counter's greatest value, of the
  -- request's own key where the request was admitted on no discovery route; that holds whether
  -- the request was queued, was answered at once or was dropped, so the handler gives no slot
  -- back.
  pub handle_connection-slots :
      (id : ℕ)
      → IsWellFormed p.app.rate_limiter
      → str_eq r.method "OPTIONS" ≡ false
      → slots after.0.app.rate_limiter id ≡ (
          if takes_slot verdict.1 key r id
          then min (slots p.app.rate_limiter id + 1) (2 ^ 63 - 1)
          else slots p.app.rate_limiter id)
  handle_connection-slots id v n =
      ap (λ l. slots l id) (handle_connection-limiter n)
      ∙ authorize_request-slots json b p.app r c.now id v

  pub handle_connection-cases :
      ((after.1 ≢ queued) × (after.0.request_queue ≡ p.request_queue))
      ⊎ ((verdict.1 ≡ ok) × (after ≡ dispatch json planned c again r plan))
  unfolding handle_connection serve
  handle_connection-cases = elim (Bool-cases (str_eq r.method "OPTIONS")) [
    | inl o ↦ inl (rw o (λ e. cc, refl))
    | inr o ↦
        elim verdict.1
            as (λ v.
              verdict.1 ≡ v
              → ((after.1 ≢ queued) × (after.0.request_queue ≡ p.request_queue))
                ⊎ ((verdict.1 ≡ ok) × (after ≡ dispatch json planned c again r plan))) [
                  | ok ↦ λ v. inr (v, rw (o, v) refl)
                  | err e ↦ λ v. inl (rw (o, v) (λ e. cc, refl))
                ]
          refl
  ]

  -- Where the client's stream does not go with a task, because the request was answered, an error
  -- included, or dropped, no client's task is added or lost, whatever probes the plan sent to the
  -- workers' queues: for any property, as many clients' tasks with it wait as before, if that
  -- also holds of what other threads do to the queue while the probes wait.
  pub handle_connection-clients :
      (has : ClientTask json.Value → Bool)
      → IsQuiet has probes
      → after.1 ≢ queued
      → all_waiting (of_client has) after.0.request_queue
        ≡ all_waiting (of_client has) p.request_queue
  handle_connection-clients has quiet h = elim handle_connection-cases [
    | inl (n, e) ↦ ap (all_waiting (of_client has)) e
    | inr (v, e) ↦ rw e (
        ap (all_waiting (of_client has)) (
          dispatch-unqueued json planned c again r plan
            (subst (λ (x : ProxyState json.Value × Reply). x.1 ≢ queued) e h))
        ∙ plan_request-keeps json served probes r again
            (λ s. all_waiting (of_client has) s.request_queue)
            (probe-clients json probes has quiet))
  ]
