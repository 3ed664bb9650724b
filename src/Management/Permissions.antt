-- ===== src/Management/Permissions.antt =====
-- src/servers/management/server.rs, `management_permission`: who may use which route.

use hive_core_v.Base.{
  String, str_eq, Bool, ◌&&◌, any, Option, none, some, List, [], ◌∷◌, if◌then◌else◌, string_eq,
}
use hive_core_v.Auth.Models.{Role, admin, analytics}

abbrev listed : List (String × String) → String → String → Bool
listed routes method path = any (λ r. str_eq method r.0 && str_eq path r.1) routes

pub data ManagementPermission : Type 0 where
  read write : ManagementPermission

unfoldable pub allowed_roles : ManagementPermission → List Role
allowed_roles read = admin ∷ analytics ∷ []
allowed_roles write = admin ∷ []

abbrev pub read_routes : List (String × String)
read_routes =
    ("GET", "/queue")
    ∷ ("GET", "/usage")
    ∷ ("GET", "/worker/status")
    ∷ ("GET", "/worker/connections")
    ∷ ("GET", "/worker/pings")
    ∷ ("GET", "/worker/tags")
    ∷ ("GET", "/worker/versions")
    ∷ ("GET", "/key")
    ∷ []

abbrev pub write_routes : List (String × String)
write_routes =
    ("POST", "/key") ∷ ("PATCH", "/key") ∷ ("DELETE", "/key") ∷ ("POST", "/worker/command") ∷ []

unfoldable pub management_permission : String → String → Option ManagementPermission
management_permission method path =
    if listed read_routes method path
    then some read
    else if listed write_routes method path
    then some write
    else none
