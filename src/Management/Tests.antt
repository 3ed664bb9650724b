-- ===== src/Management/Tests.antt =====
-- The management server at concrete requests.
use hive_core_v.Base.{ℕ, string_eq, false, Option, none, some, List, [], ◌∷◌, ◌≡◌, refl}
use hive_core_v.Base.HashMap
use hive_core_v.Auth.Models.{analytics, client}
use hive_core_v.Auth.Keys.{KeyStore, list}
use hive_core_v.Auth.Keys.Coherence.{IsUp, IsCoherent}
use hive_core_v.Proxy.State.{ProxyState}
use hive_core_v.Proxy.Queue.Deques.{RequestQueue}
use hive_core_v.Shared.Http.Request.{HttpRequest, bearer_token}
use hive_core_v.Shared.Sqlite.KeyTable.{list_keys, live_keys}
use hive_core_v.Management.Models.{KeyFields, Readers, reboot}
use hive_core_v.Management.Keys.{get_keys, trimmed_name}
use hive_core_v.Management.Server.{Call, handle_connection, route_path, query}
use hive_core_v.Management.Permissions.{read, write, management_permission}
use hive_core_v.Management.Dashboard.{clean_path}
use hive_core_v.Management.Safety.{Kept, handle_connection-Kept}
use hive_core_v.Management.Secrets.{get_keys-hides}
use hive_core_v.Samples.{Doc, docs, key_store, table, alice, root, state, request_of, linear_search}

abbrev fields : KeyFields
fields = record {
  role = client;
  name = some "bob";
  capture = none;
  whitelist_models = none;
  blacklist_models = some ("llama3" ∷ []);
  rate_limit_tier = none;
}

-- Readers that take any body that is not empty for the same request.
abbrev if_there : {A : Type 0} → A → List ℕ → Option A
if_there a [] = none
if_there a (b ∷ bs) = some a

abbrev readers : Readers
readers = record {
  key_fields = if_there fields;
  key_update =
      if_there (record { id = 1; name = some " carol "; capture = none; rate_limit_tier = none });
  key_delete = if_there (record { id = 1 });
  worker_command = if_there (record { worker = "w1"; command = reboot });
}

abbrev queue : RequestQueue Doc
queue = record {
  model_queue = [];
  model_poisoned = false;
  node_queue = [];
  node_poisoned = false;
  default_timeout = 60;
  generation = 0;
}

abbrev server : ProxyState Doc
server = record { app = state; request_queue = queue; next_task_id = 1 }

abbrev call : Call
call = record { now = 100; uuid = "u1" }

up : IsUp key_store
up = record { cache_up = refl; database_up = refl }

cold : IsCoherent key_store
unfolding HashMap.get
cold = record { at = λ t k e. cc }

-- A client that tries to delete a key.
abbrev attempt : HttpRequest Doc
attempt = request_of "Bearer t1" "DELETE" "/key"

handle_connection-Kept_example :
    Kept server (handle_connection docs readers linear_search [] call attempt server).0
unfolding bearer_token HashMap.get live_keys
handle_connection-Kept_example =
    handle_connection-Kept docs readers linear_search [] call attempt server up cold refl

-- The same keys, one of them with another token.
abbrev other_store : KeyStore
other_store = record key_store {
  database = record table {
    rows =
        record { key = record alice { token = "t9" }; deleted = false }
        ∷ record { key = root; deleted = false }
        ∷ [];
  };
}

get_keys-hides_example : get_keys docs key_store analytics ≡ get_keys docs other_store analytics
unfolding list list_keys
get_keys-hides_example = get_keys-hides docs analytics key_store other_store refl refl

management-tests :
    (route_path "/usage?from=1" ≡ "/usage")
    × (query "/usage?from=1" ≡ "from=1")
    × (clean_path "/" ≡ some "index.html")
    × (clean_path "/app.js" ≡ some "app.js")
    × (clean_path "/etc" ≡ none)
    × (trimmed_name (some " carol ") ≡ some (some "carol"))
    × (trimmed_name (some " ") ≡ none)
    × (management_permission "GET" "/usage" ≡ some read)
    × (management_permission "POST" "/key" ≡ some write)
    × (management_permission "PUT" "/key" ≡ none)
unfolding route_path query clean_path trimmed_name management_permission
management-tests = (refl, refl, refl, refl, refl, refl, refl, refl, refl, refl)
