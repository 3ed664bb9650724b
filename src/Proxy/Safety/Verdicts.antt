-- ===== src/Proxy/Safety/Verdicts.antt =====
-- src/servers/proxy/admission.rs: what the verdict `ok` of `authorize_request` implies, and what a
-- verdict does to the rate limiter.
use hive_core_v.Base.{
  ℕ, ◌+◌, ◌-◌, ◌^◌, ◌<◌, ◌≤◌, leb, min, String, Bool, List, [], ◌∷◌, any, ◌||◌, true, false, not,
  all, ◌&&◌, ◌⊎◌, inl, inr, Option, none, some, if◌then◌else◌, ◌≡◌, refl, ap, arith, Bool-cases,
  Option-cases, ◌==◌, nat_eq,
}
use hive_core_v.Auth.Models.{KeyRecord, Role, admin, client, role_eq, role_eq_iff}
use hive_core_v.Auth.Policy.{allows_model}
use hive_core_v.Auth.Keys.{KeyStore, verify}
use hive_core_v.App.State.{AppState}
use hive_core_v.App.RateLimiter.Window.{BinarySearch}
use hive_core_v.App.RateLimiter.State.{RateLimiter, resolve_tier}
use hive_core_v.App.RateLimiter.Check.{check}
use hive_core_v.App.RateLimiter.Slots.{
  IsWellFormed, slots, check-full, check-slots, check-IsWellFormed, start_request-slots,
}
use hive_core_v.Shared.Http.Json.{Json}
use hive_core_v.Shared.Http.Request.{HttpRequest, header, bearer_token}
use hive_core_v.Shared.Http.Text.{is_some}
use hive_core_v.Proxy.Admission.Tables.{admin_only_proxy_route, is_discovery_route, request_models}
use hive_core_v.Proxy.Admission.Authorize.{
  Verdict, ok, err, admin_check, rate_limit, authorized_key, admit_key, admit, authorize_request,
}

-- The gates that a request passed.
pub record Passed (json : Json) (b : BinarySearch) (s : AppState json.Value)
    (r : HttpRequest json.Value) (now : ℕ) : Type 0 where
  pub known : (s.config.user_authentication ≡ false) ⊎ (is_some (authorized_key s r).1 ≡ true)
  pub node : admin_check (is_some (header r "node")) (authorized_key s r).1 ≡ none
  pub route : admin_check (admin_only_proxy_route r) (authorized_key s r).1 ≡ none
  pub admitted :
      authorize_request json b s r now
      ≡ admit json b (authorized_key s r).1 now (record s { keys = (authorized_key s r).0 }) r

module _ (json : Json) (b : BinarySearch) (s : AppState json.Value) (r : HttpRequest json.Value)
    (now : ℕ) where
  pub ok-Passed : (authorize_request json b s r now).1 ≡ ok → Passed json b s r now
  unfolding authorize_request
  ok-Passed h = record {
    known = ground arith;
    node = ground arith;
    route = ground arith;
    admitted = ground arith;
  }

check_admin :
    (needed : Bool) (k : Option KeyRecord)
    → admin_check needed k ≡ none
    → needed ≡ true
    → (key : KeyRecord) × (k ≡ some key) × (key.role ≡ admin)
unfolding admin_check
check_admin needed none h n = ground arith
check_admin needed (some key) h n = (key, refl, ground (arith, role_eq_iff key.role admin))

pub admit-allowed :
    (json : Json) (b : BinarySearch) (key : KeyRecord) (now : ℕ) (s : AppState json.Value)
    (r : HttpRequest json.Value)
    → (admit json b (some key) now s r).1 ≡ ok
    → all (λ model. allows_model key model) (request_models json r) ≡ true
unfolding admit
admit-allowed json b key now s r h = ground arith

-- The request names a worker, or its route is one of the admin's.
abbrev pub needs_admin : {V : Type 0} → HttpRequest V → Bool
needs_admin r = is_some (header r "node") || admin_only_proxy_route r

-- A request that is admitted and that names a worker or is on one of the admin's routes has a
-- token of an admin's key, also where authentication is off.
pub authorize_request-admin :
    (json : Json) (b : BinarySearch) (s : AppState json.Value) (r : HttpRequest json.Value)
    (now : ℕ)
    → (authorize_request json b s r now).1 ≡ ok
    → needs_admin r ≡ true
    → (key : KeyRecord) × ((authorized_key s r).1 ≡ some key) × (key.role ≡ admin)
authorize_request-admin json b s r now h n =
    let p = ok-Passed json b s r now h in
    elim (Bool-cases (is_some (header r "node"))) [
      | inl e ↦ check_admin (is_some (header r "node")) (authorized_key s r).1 p.node e
      | inr e ↦ check_admin (admin_only_proxy_route r) (authorized_key s r).1 p.route (ground arith)
    ]

verify-role :
    (s : KeyStore) (t : String) (roles : List Role) (k : KeyRecord)
    → (verify s t roles).1 ≡ some k
    → any (λ role. role_eq role k.role) roles ≡ true
unfolding verify
verify-role s t roles k h = ground arith

-- The key comes from the request's token, and is an admin's or a client's.
pub record HasKey {V : Type 0} (s : AppState V) (r : HttpRequest V) : Type 0 where
  pub token : String
  pub key : KeyRecord
  pub sent : bearer_token r ≡ some token
  pub verified : (verify s.keys token (admin ∷ client ∷ [])).1 ≡ some key
  pub role : (key.role ≡ admin) ⊎ (key.role ≡ client)

authorized_key-HasKey :
    {V : Type 0} (s : AppState V) (r : HttpRequest V)
    → is_some (authorized_key s r).1 ≡ true
    → HasKey s r
unfolding authorized_key
authorized_key-HasKey s r h = elim (Option-cases (bearer_token r)) [
  | inl e ↦ ground arith
  | inr (t, e) ↦ elim (Option-cases (verify s.keys t (admin ∷ client ∷ [])).1) [
    | inl f ↦ ground arith
    | inr (k, f) ↦ record {
      token = t;
      key = k;
      sent = e;
      verified = f;
      role = ground (
        arith,
        verify-role s.keys t (admin ∷ client ∷ []) k f,
        role_eq_iff admin k.role,
        role_eq_iff client k.role,
      );
    }
  ]
]

-- With authentication on, an admitted request has a token that verifies to the key of an admin or
-- a client.
pub authorize_request-HasKey :
    (json : Json) (b : BinarySearch) (s : AppState json.Value) (r : HttpRequest json.Value)
    (now : ℕ)
    → s.config.user_authentication ≡ true
    → (authorize_request json b s r now).1 ≡ ok
    → HasKey s r
authorize_request-HasKey json b s r now on h =
    let p = ok-Passed json b s r now h in authorized_key-HasKey s r (ground (arith, p.known))

-- Who takes a slot: a request of a key, admitted, on no discovery route.
abbrev pub takes_slot : {V : Type 0} → Verdict → Option KeyRecord → HttpRequest V → ℕ → Bool
takes_slot ok (some key) r id = not (is_discovery_route r) && (key.id == id)
takes_slot _ _ r id = false

module _ (b : BinarySearch) (key : KeyRecord) (now : ℕ) (l : RateLimiter) (v : IsWellFormed l)
    (id : ℕ) where
  rate_limit-slots : slots (rate_limit b key now l).0 id ≡ (
      if (elim (rate_limit b key now l).1 [ ok ↦ key.id == id | err e ↦ false ])
      then min (slots l id + 1) (2 ^ 63 - 1)
      else slots l id)
  unfolding rate_limit
  rate_limit-slots =
      let c = check b l key.id (resolve_tier l key.rate_limit_tier) now in
      ground (
        arith,
        check-slots b l key.id id now (resolve_tier l key.rate_limit_tier) v,
        start_request-slots c.0 key.id id
            (check-IsWellFormed b l key.id now (resolve_tier l key.rate_limit_tier) v),
        ap (slots c.0) {x = key.id} {y = id},
      )

rate_limit-free :
    (b : BinarySearch) (key : KeyRecord) (now : ℕ) (l : RateLimiter)
    → IsWellFormed l
    → 0 < (resolve_tier l key.rate_limit_tier).max_concurrent
    → (rate_limit b key now l).1 ≡ ok
    → slots l key.id < (resolve_tier l key.rate_limit_tier).max_concurrent
unfolding rate_limit
rate_limit-free b key now l v limited h =
    let tier = resolve_tier l key.rate_limit_tier in
    elim (Bool-cases (leb tier.max_concurrent (slots l key.id))) [
      | inl full ↦
          let (refusal, same) = check-full b l key.id now tier v limited (ground (arith, full)) in
          ground arith
      | inr free ↦ ground (arith, free)
    ]

module _ (json : Json) (b : BinarySearch) (s : AppState json.Value) (r : HttpRequest json.Value)
    (now : ℕ) where
  abbrev ans : AppState json.Value × Verdict
  ans = authorize_request json b s r now

  -- With a well-formed limiter, `authorize_request` takes a slot exactly where it admits a
  -- request of a key on no discovery route: one, of that key, up to the counter's greatest value;
  -- the slots of the other keys, and after a refusal those of all keys, are as before.
  pub authorize_request-slots :
      (id : ℕ)
      → IsWellFormed s.rate_limiter
      → slots ans.0.rate_limiter id ≡ (
          if takes_slot ans.1 (authorized_key s r).1 r id
          then min (slots s.rate_limiter id + 1) (2 ^ 63 - 1)
          else slots s.rate_limiter id)
  unfolding authorize_request admit admit_key
  authorize_request-slots id v = elim (Option-cases (authorized_key s r).1) [
    | inl e ↦ ground arith
    | inr (key, e) ↦ ground (arith, rate_limit-slots b key now s.rate_limiter v id)
  ]

  admitted-free :
      (key : KeyRecord)
      → (authorized_key s r).1 ≡ some key
      → IsWellFormed s.rate_limiter
      → 0 < (resolve_tier s.rate_limiter key.rate_limit_tier).max_concurrent
      → takes_slot ans.1 (some key) r key.id ≡ true
      → slots s.rate_limiter key.id
        < (resolve_tier s.rate_limiter key.rate_limit_tier).max_concurrent
  unfolding authorize_request admit admit_key
  admitted-free key e v limited h =
      ground (arith, rate_limit-free b key now s.rate_limiter v limited)

  -- With a well-formed limiter and a key whose tier limits the slots, if the key of the request
  -- holds no more slots than its tier allows, it holds no more than that after
  -- `authorize_request`, whether the request is admitted or not.
  pub authorize_request-within_limit :
      (key : KeyRecord)
      → (authorized_key s r).1 ≡ some key
      → IsWellFormed s.rate_limiter
      → 0 < (resolve_tier s.rate_limiter key.rate_limit_tier).max_concurrent
      → slots s.rate_limiter key.id
        ≤ (resolve_tier s.rate_limiter key.rate_limit_tier).max_concurrent
      → slots ans.0.rate_limiter key.id
        ≤ (resolve_tier s.rate_limiter key.rate_limit_tier).max_concurrent
  authorize_request-within_limit key e v limited h =
      ground (arith, authorize_request-slots key.id v, admitted-free key e v limited)
