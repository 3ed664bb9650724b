-- ===== src/Management/Models.antt =====
-- src/servers/management/models: the bodies of requests.
use hive_core_v.Base.{ℕ, String, Bool, true, false, Option, none, some, List, []}
use hive_core_v.Auth.Models.{Role}

pub data WorkerCommand : Type 0 where
  update reboot shutdown : WorkerCommand

unfoldable pub hive_method : WorkerCommand → String
hive_method update = "UPDATE_OLLAMA"
hive_method reboot = "REBOOT"
hive_method shutdown = "SHUTDOWN"

unfoldable pub is_update : WorkerCommand → Bool
is_update update = true
is_update _ = false

pub record WorkerCommandRequest : Type 0 where
  pub worker : String
  pub command : WorkerCommand

pub record KeyRequest : Type 0 where
  pub role : Role
  pub name : String
  pub capture : Bool
  pub whitelist_models : List String
  pub blacklist_models : List String
  pub rate_limit_tier : String

-- Ids that are negative are left out; they name no row.
pub record KeyUpdateRequest : Type 0 where
  pub id : ℕ
  pub name : Option String
  pub capture : Option Bool
  pub rate_limit_tier : Option String

pub record KeyDeleteRequest : Type 0 where
  pub id : ℕ

-- The fields that are there in the body of a new key.
pub record KeyFields : Type 0 where
  pub role : Role
  pub name : Option String
  pub capture : Option Bool
  pub whitelist_models : Option (List String)
  pub blacklist_models : Option (List String)
  pub rate_limit_tier : Option String

abbrev pub or_default : {A : Type 0} → A → Option A → A
or_default a none = a
or_default a (some b) = b

-- The defaults of fields that are missing.
unfoldable pub key_request : KeyFields → KeyRequest
key_request f = record {
  role = f.role;
  name = or_default "generated" f.name;
  capture = or_default true f.capture;
  whitelist_models = or_default [] f.whitelist_models;
  blacklist_models = or_default [] f.blacklist_models;
  rate_limit_tier = or_default "low" f.rate_limit_tier;
}

-- The readers of bodies that are derived from the records.
pub record Readers : Type 0 where
  pub key_fields : List ℕ → Option KeyFields
  pub key_update : List ℕ → Option KeyUpdateRequest
  pub key_delete : List ℕ → Option KeyDeleteRequest
  pub worker_command : List ℕ → Option WorkerCommandRequest
