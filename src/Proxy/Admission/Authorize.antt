-- ===== src/Proxy/Admission/Authorize.antt =====
-- src/servers/proxy/admission.rs, `authorize_request`: the keys, the roles, the models and the rate
-- limits of a request, and the state that the check leaves.
use hive_core_v.Base.{ℕ, String, Bool, not, all, ◌&&◌, Option, none, some, [], ◌∷◌, if◌then◌else◌}
use hive_core_v.Auth.Models.{KeyRecord, admin, client, role_eq}
use hive_core_v.Auth.Policy.{allows_model}
use hive_core_v.Auth.Keys.{KeyStore, verify}
use hive_core_v.App.State.{AppState}
use hive_core_v.App.RateLimiter.Window.{BinarySearch}
use hive_core_v.App.RateLimiter.State.{RateLimiter, resolve_tier}
use hive_core_v.App.RateLimiter.Check.{check, start_request}
use hive_core_v.Shared.Http.Json.{Json}
use hive_core_v.Shared.Http.Request.{HttpRequest, header, bearer_token}
use hive_core_v.Shared.Http.Text.{is_some}
use hive_core_v.Proxy.Admission.Tables.{admin_only_proxy_route, is_discovery_route, request_models}

pub record RateLimitDenial : Type 0 where
  pub reason : String
  pub retry_after_secs : Option ℕ

pub data AuthError : Type 0 where
  status : ℕ → AuthError
  rate_limited : RateLimitDenial → AuthError

pub data Verdict : Type 0 where
  ok : Verdict
  err : AuthError → Verdict

abbrev pub get_or : Option String → String → String
get_or none d = d
get_or (some s) d = s

-- The node header and the admin-only routes ask for an admin's key.
unfoldable pub require_admin : Option KeyRecord → Option AuthError
require_admin none = some (status 401)
require_admin (some key) = if role_eq key.role admin then none else some (status 403)

unfoldable pub admin_check : Bool → Option KeyRecord → Option AuthError
unfolding require_admin
admin_check needed key = if needed then require_admin key else none

unfoldable pub rate_limit : BinarySearch → KeyRecord → ℕ → RateLimiter → RateLimiter × Verdict
rate_limit b key now limiter =
    let (limiter', result) =
      check b limiter key.id (resolve_tier limiter key.rate_limit_tier) now in
    if result.allowed then (start_request limiter' key.id, ok) else (
      limiter',
      err (
          rate_limited (record {
            reason = get_or result.reason "rate limit";
            retry_after_secs = result.retry_after_secs;
          })),
    )

unfoldable pub authorized_key :
    {V : Type 0} → AppState V → HttpRequest V → KeyStore × Option KeyRecord
authorized_key s r = elim (bearer_token r) [
  | none ↦ (s.keys, none)
  | some token ↦ verify s.keys token (admin ∷ client ∷ [])
]

module _ (json : Json) (b : BinarySearch) where
  open json use {Value}

  -- The checks of a request whose token belongs to a key.
  unfoldable pub admit_key :
      KeyRecord → ℕ → AppState Value → HttpRequest Value → AppState Value × Verdict
  unfolding rate_limit
  admit_key key now s r =
      if all (λ model. allows_model key model) (request_models json r)
      then if is_discovery_route r
        then (s, ok)
        else (let (limiter, verdict) = rate_limit b key now s.rate_limiter in
            (record s { rate_limiter = limiter }, verdict))
      else (s, err (status 403))

  unfoldable pub admit :
      Option KeyRecord → ℕ → AppState Value → HttpRequest Value → AppState Value × Verdict
  unfolding admit_key
  admit none now s r = (s, ok)
  admit (some key) now s r = admit_key key now s r

  unfoldable pub authorize_request :
      AppState Value → HttpRequest Value → ℕ → AppState Value × Verdict
  unfolding authorized_key admin_check admit
  authorize_request s r now =
      let (keys, verified_key) = authorized_key s r in
      let s' = record s { keys = keys } in
      if s.config.user_authentication && not (is_some verified_key)
      then (s', err (status 401))
      else elim (admin_check (is_some (header r "node")) verified_key) [
        | some e ↦ (s', err e)
        | none ↦ elim (admin_check (admin_only_proxy_route r) verified_key) [
          | some e ↦ (s', err e)
          | none ↦ admit verified_key now s' r
        ]
      ]
