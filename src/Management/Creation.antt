-- ===== src/Management/Creation.antt =====
-- A key that the server has created can be used.
use hive_core_v.Base.{String, string_eq}
use hive_core_v.Auth.Models.{KeyRecord}
use hive_core_v.Auth.Keys.{KeyStore}
use hive_core_v.Shared.Http.Json.{Json}
use hive_core_v.Management.Models.{KeyFields, key_request}

-- The record that a new key has in the cache.
abbrev pub created : KeyStore → String → KeyFields → KeyRecord
created s uuid f =
    let p = key_request f in
    record {
      id = s.database.next_id;
      token = uuid;
      role = p.role;
      name = p.name;
      whitelist_models = p.whitelist_models;
      blacklist_models = p.blacklist_models;
      capture = p.capture;
      rate_limit_tier = p.rate_limit_tier;
    }
