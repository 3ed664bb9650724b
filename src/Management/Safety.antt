-- ===== src/Management/Safety.antt =====
-- What requests to the management server can change, and what they can see.
use hive_core_v.Base.{
  ℕ, String, str_eq, eq_iff, ◌&&◌, ◌||◌, Option, none, some, List, [], ◌∷◌, ◌≡◌, refl, ap, ◌∙◌,
  arith, Bool-cases, Option-cases, inl, inr,
}
use hive_core_v.Base.HashMap.{HashMap}
use hive_core_v.Auth.Models.{Role, KeyRecord, admin, analytics, client, worker}
use hive_core_v.Auth.Keys.{KeyStore, verify, cache_record, checked}
use hive_core_v.Auth.Keys.Coherence.{IsUp, IsCoherent, stored}
use hive_core_v.App.Access.{role_of, authorize_management, authorize_management_lem}
use hive_core_v.App.State.{AppState}
use hive_core_v.App.RateLimiter.Window.{BinarySearch}
use hive_core_v.Proxy.State.{ProxyState}
use hive_core_v.Shared.Http.Json.{Json}
use hive_core_v.Shared.Http.Request.{HttpRequest, bearer_token}
use hive_core_v.Shared.Http.Text.{and_then, is_some, strip_prefix}
use hive_core_v.Management.Models.{Readers}
use hive_core_v.Management.Server.{
  Call, route_path, dispatch, own_routes, found_key, remember, key_me, permitted, private_routes,
  public_file, handle_connection,
}
use hive_core_v.Management.Permissions.{read, write, allowed_roles, management_permission}

-- What only an admin may change.
abbrev pub Kept : {V : Type 0} → ProxyState V → ProxyState V → Type 0
Kept s t = (t.app.keys.database ≡ s.app.keys.database) × (t.request_queue ≡ s.request_queue)

verify-database :
    (s : KeyStore) (t : String) (roles : List Role) → (verify s t roles).0.database ≡ s.database
unfolding verify cache_record
verify-database s t roles = ground arith

authorize_management-database :
    {V : Type 0} (app : AppState V) (r : HttpRequest V) (roles : List Role)
    → (authorize_management app r roles).0.database ≡ app.keys.database
unfolding authorize_management
authorize_management-database app r roles = elim (Option-cases (bearer_token r)) [
  | inl e ↦ rw (authorize_management, e) refl
  | inr (token, e) ↦ rw (authorize_management, e) (verify-database app.keys token roles)
]

-- The admin's key that a request has.
abbrev pub admin_key : {V : Type 0} → AppState V → HttpRequest V → Option KeyRecord
admin_key app r = and_then (bearer_token r) λ token. checked (admin ∷ []) (stored app.keys token)

listed-get : (method path : String) → management_permission method path ≡ some read → method ≡ "GET"
unfolding management_permission
listed-get method path h = elim (Bool-cases (str_eq method "GET")) [
  | inl e ↦ (eq_iff method "GET").0 e
  | inr n ↦ absurd (ground (arith, n, h))
]

module _ (json : Json) (readers : Readers) (b : BinarySearch) where
  open json use {Value}

  found_key-database :
      (app : AppState Value) (r : HttpRequest Value) (roles : List Role)
      → (found_key json readers b app r roles).0.database ≡ app.keys.database
  found_key-database app r roles = elim (Option-cases (bearer_token r)) [
    | inl e ↦ rw (found_key, e) refl
    | inr (token, e) ↦ rw (found_key, e) (verify-database app.keys token roles)
  ]

  dispatch-get :
      (c : Call) (role : Role) (path : String) (body : List ℕ) (s : ProxyState Value)
      → Kept s (dispatch json readers b c role "GET" path body s).0
  unfolding dispatch
  dispatch-get c role path body s = ground arith

  own_routes-Kept :
      (c : Call) (k : KeyRecord) (method path uri : String) (s : ProxyState Value)
      → Kept s (own_routes json readers b c k method path uri s).0
  unfolding own_routes
  own_routes-Kept c k method path uri s = ground arith

  permitted-read :
      (c : Call) (r : HttpRequest Value) (path : String) (s : ProxyState Value)
      → r.method ≡ "GET"
      → Kept s (permitted json readers b c r path read s).0
  unfolding permitted
  permitted-read c r path s h =
      let (keys, role) = authorize_management s.app r (allowed_roles read) in
      let same = authorize_management-database s.app r (allowed_roles read) in
      elim (Option-cases role) [
        | inl n ↦ rw (permitted, n) (same, refl)
        | inr (k, n) ↦
            let get = dispatch-get c k path r.body (remember json readers b s keys) in
            rw (permitted, n, h) (get.0 ∙ same, get.1)
      ]

  permitted-write :
      (c : Call) (r : HttpRequest Value) (path : String) (s : ProxyState Value)
      → IsUp s.app.keys
      → IsCoherent s.app.keys
      → admin_key s.app r ≡ none
      → Kept s (permitted json readers b c r path write s).0
  unfolding permitted allowed_roles
  permitted-write c r path s up k h =
      let same = authorize_management-database s.app r (allowed_roles write) in
      let no_role : (authorize_management s.app r (allowed_roles write)).1 ≡ none =
        (authorize_management_lem s.app r (allowed_roles write) up k).0 ∙ ap role_of h in
      rw (permitted, no_role) (same, refl)

  key_me-Kept :
      (c : Call) (r : HttpRequest Value) (path : String) (s : ProxyState Value)
      → Kept s (key_me json readers b c r path s).0
  unfolding key_me
  key_me-Kept c r path s =
      let roles = admin ∷ client ∷ analytics ∷ worker ∷ [] in
      let (keys, found) = found_key json readers b s.app r roles in
      let same = found_key-database s.app r roles in
      elim (Option-cases found) [
        | inl n ↦ rw (key_me, n) (same, refl)
        | inr (k, n) ↦
            let own = own_routes-Kept c k r.method path r.uri (remember json readers b s keys) in
            rw (key_me, n) (own.0 ∙ same, own.1)
      ]

  private_routes-Kept :
      (c : Call) (r : HttpRequest Value) (path : String) (s : ProxyState Value)
      → IsUp s.app.keys
      → IsCoherent s.app.keys
      → admin_key s.app r ≡ none
      → Kept s (private_routes json readers b c r path s).0
  unfolding private_routes
  private_routes-Kept c r path s up k h =
      elim (Bool-cases (is_some (strip_prefix "/key/me" path))) [
        | inl own ↦ rw (private_routes, own) (key_me-Kept c r path s)
        | inr other ↦ elim (Option-cases (management_permission r.method path)) [
          | inl n ↦ rw (private_routes, other, n) (refl, refl)
          | inr (read, n) ↦
              rw (private_routes, other, n) (permitted-read c r path s (listed-get r.method path n))
          | inr (write, n) ↦ rw (private_routes, other, n) (permitted-write c r path s up k h)
        ]
      ]

  -- With a key store that works and a cache that agrees with the table, a request to the
  -- management server whose token is not that of an admin's key leaves the table of keys and the
  -- queue as they were, whatever its method, target and body.
  pub handle_connection-Kept :
      (files : HashMap String (List ℕ)) (c : Call) (r : HttpRequest Value) (s : ProxyState Value)
      → IsUp s.app.keys
      → IsCoherent s.app.keys
      → admin_key s.app r ≡ none
      → Kept s (handle_connection json readers b files c r s).0
  unfolding handle_connection
  handle_connection-Kept files c r s up k h =
      let path = route_path r.uri in
      elim (Bool-cases
        ((str_eq r.method "GET" || str_eq r.method "HEAD") && str_eq path "/config.json")) [
          | inl e ↦ rw (handle_connection, e) (refl, refl)
          | inr e ↦ elim (Option-cases (public_file json readers b files r path)) [
            | inl n ↦ rw (handle_connection, e, n) (private_routes-Kept c r path s up k h)
            | inr (page, n) ↦ rw (handle_connection, e, n) (refl, refl)
          ]
        ]
