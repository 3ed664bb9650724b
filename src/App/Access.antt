-- ===== src/App/Access.antt =====
-- src/app/state.rs, `authorize_management`: the role of a request's token.
use hive_core_v.Base.{List, Option, none, some, ◌≡◌, refl, ap, Option-cases, inl, inr}
use hive_core_v.Auth.Models.{KeyRecord, Role}
use hive_core_v.Auth.Keys.{KeyStore, verify, checked}
use hive_core_v.Auth.Keys.Coherence.{IsUp, IsCoherent, stored, verify_lem}
use hive_core_v.App.State.{AppState}
use hive_core_v.Shared.Http.Request.{HttpRequest, bearer_token}
use hive_core_v.Shared.Http.Text.{and_then}

abbrev pub role_of : Option KeyRecord → Option Role
role_of none = none
role_of (some key) = some key.role

unfoldable pub authorize_management :
    {V : Type 0} → AppState V → HttpRequest V → List Role → KeyStore × Option Role
unfolding bearer_token
authorize_management s r allowed_roles = elim (bearer_token r) [
  | none ↦ (s.keys, none)
  | some token ↦ let (keys, key) = verify s.keys token allowed_roles in (keys, role_of key)
]

-- With a key store that works and a cache that agrees with the table, `authorize_management`
-- answers the role of the table's live key of the request's token if that role is allowed, and
-- nothing else, and the cache still agrees.
pub authorize_management_lem :
    {V : Type 0} (s : AppState V) (r : HttpRequest V) (allowed_roles : List Role)
    → IsUp s.keys
    → IsCoherent s.keys
    → ((authorize_management s r allowed_roles).1
        ≡ role_of (and_then (bearer_token r) λ token. checked allowed_roles (stored s.keys token)))
      × IsCoherent (authorize_management s r allowed_roles).0
unfolding authorize_management
authorize_management_lem s r allowed_roles up c = elim (Option-cases (bearer_token r)) [
  | inl e ↦ rw (authorize_management, e) (refl, c)
  | inr (token, e) ↦
      let v = verify_lem s.keys token allowed_roles up c in
      rw (authorize_management, e) (ap role_of v.0, v.1)
]
