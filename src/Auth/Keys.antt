-- ===== src/Auth/Keys.antt =====
-- src/auth/keys.rs: the cache of keys in front of the table.
pub mod Table
pub mod Coherence
pub mod Deletion
pub mod Insertion
use hive_core_v.Base.{
  ℕ, String, Bool, true, false, Option, none, some, List, [], ◌∷◌, any, if◌then◌else◌, string_eq,
  ◌≡◌,
}
use hive_core_v.Base.HashMap
use hive_core_v.Base.HashMap.{HashMap}
use hive_core_v.Auth.Models.{Role, KeyRecord, role_eq}
use hive_core_v.Shared.Sqlite.KeyTable.{SqliteKeyStore, Io, ok, err, other, ◌>>=◌}
use hive_core_v.Shared.Sqlite.KeyTable

-- `poisoned` is the state of the cache's lock.
pub record KeyStore : Type 0 where
  pub cache : HashMap String KeyRecord
  pub poisoned : Bool
  pub database : SqliteKeyStore

abbrev pub if_allowed : List Role → KeyRecord → Option KeyRecord
if_allowed roles r = if any (λ role. role_eq role r.role) roles then some r else none

unfoldable pub cached : KeyStore → String → Option KeyRecord
cached s token = if s.poisoned then none else HashMap.get token s.cache

unfoldable pub cache_record : KeyRecord → KeyStore → KeyStore
cache_record r s = if s.poisoned then s else record s { cache = HashMap.insert r.token r s.cache }

abbrev pub checked : List Role → Option KeyRecord → Option KeyRecord
checked roles none = none
checked roles (some r) = if_allowed roles r

unfoldable pub verify : KeyStore → String → List Role → KeyStore × Option KeyRecord
unfolding cached cache_record
verify s token roles = elim (cached s token) [
  | some r ↦ (s, if_allowed roles r)
  | none ↦ elim (KeyTable.fetch_key_by_token s.database token) [
    | err e ↦ (s, none)
    | ok none ↦ (s, none)
    | ok (some r) ↦ let s' = cache_record r s in (s', checked roles (cached s' token))
  ]
]

unfoldable pub insert :
    KeyStore
    → String
    → Role
    → String
    → Bool
    → List String
    → List String
    → String
    → KeyStore × Io KeyRecord
unfolding cache_record
insert s token role name capture whitelist_models blacklist_models rate_limit_tier =
    let (db, result) =
      KeyTable.insert_key s.database token role name capture whitelist_models blacklist_models
        rate_limit_tier in
    let s' = record s { database = db } in
    elim result [ err e ↦ (s', err e) | ok r ↦ (cache_record r s', ok r) ]

unfoldable pub list : KeyStore → Io (List KeyRecord)
list s = KeyTable.list_keys s.database

-- The map that `collect` builds.
unfoldable pub cache_of : List KeyRecord → HashMap String KeyRecord → HashMap String KeyRecord
cache_of [] m = m
cache_of (r ∷ rs) m = cache_of rs (HashMap.insert r.token r m)

unfoldable pub refresh_cache : KeyStore → KeyStore × Io (Unit {0})
unfolding cache_of list
refresh_cache s = elim (list s) [
  | err e ↦ (s, err e)
  | ok records ↦
      if s.poisoned then (s, err other) else (record s { cache = cache_of records [] }, ok tt)
]

abbrev pub after_refresh : {A : Type 0} → KeyStore × Io (Unit {0}) → A → KeyStore × Io A
after_refresh (s, r) a = (s, r >>= λ _. ok a)

unfoldable pub update_key :
    KeyStore → ℕ → Option String → Option Bool → Option String → KeyStore × Io (Option KeyRecord)
unfolding refresh_cache
update_key s id name capture rate_limit_tier =
    let (db, result) = KeyTable.update_key s.database id name capture rate_limit_tier in
    let s' = record s { database = db } in
    elim result [ err e ↦ (s', err e) | ok r ↦ after_refresh (refresh_cache s') r ]

unfoldable pub delete : KeyStore → ℕ → KeyStore × Io Bool
unfolding refresh_cache
delete s id =
    let (db, result) = KeyTable.delete_key s.database id in
    let s' = record s { database = db } in
    elim result [
      | err e ↦ (s', err e)
      | ok deleted ↦ if deleted then after_refresh (refresh_cache s') true else (s', ok false)
    ]
