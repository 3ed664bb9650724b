-- ===== src/Auth/Keys/Insertion.antt =====
-- `insert` of src/auth/keys.rs: the cached key against the stored one.
use hive_core_v.Base.{
  String, Bool, false, some, List, [], ◌∷◌, ◌++◌, string_eq, ◌≡◌, ◌≢◌, sym, ◌∙◌, arith, eq_iff, inl,
  inr, subst, ◌⊎◌, ◌+◌,
}
use hive_core_v.Base.HashMap
use hive_core_v.Base.HashMap.{HashMap, get-insert, get-insert_self}
use hive_core_v.Auth.Models.{KeyRecord, Role}
use hive_core_v.Shared.Sqlite.Normalize.{normalize_models}
use hive_core_v.Shared.Sqlite.KeyTable.{insert_key, is_taken}
use hive_core_v.Auth.Keys.{KeyStore, insert}
use hive_core_v.Auth.Keys.Table.{by_token-append, by_token-fresh}
use hive_core_v.Auth.Keys.Coherence.{stored, IsCoherent, IsUp}

module _ (s : KeyStore) (token name tier : String) (role : Role) (capture : Bool)
    (whitelist_models blacklist_models : List String) where
  abbrev given : KeyRecord
  given = record {
    id = s.database.next_id;
    token = token;
    role = role;
    name = name;
    whitelist_models = whitelist_models;
    blacklist_models = blacklist_models;
    capture = capture;
    rate_limit_tier = tier;
  }

  abbrev normalised : KeyRecord
  normalised = record given {
    whitelist_models = normalize_models whitelist_models;
    blacklist_models = normalize_models blacklist_models;
  }

  abbrev with_key : KeyStore
  with_key = record s {
    cache = HashMap.insert token given s.cache;
    database = record s.database {
      rows = s.database.rows ++ record { key = normalised; deleted = false } ∷ [];
      next_id = s.database.next_id + 1;
    };
  }

  insert_lem :
      IsUp s
      → is_taken name token s.database.rows ≡ false
      → (insert s token role name capture whitelist_models blacklist_models tier).0 ≡ with_key
  unfolding insert insert_key
  insert_lem up fresh = ground (arith, up.cache_up, up.database_up, fresh)

  stored-insert :
      is_taken name token s.database.rows ≡ false → stored with_key token ≡ some normalised
  stored-insert fresh = ground (
    arith,
    by_token-append token s.database.rows normalised,
    by_token-fresh name token s.database.rows fresh,
    eq_iff token token,
  )

  -- With a key store that works, after an insert of a fresh name and token with model rules that
  -- normalising changes, the cache does not agree with the table.
  pub insert-incoherent :
      IsUp s
      → is_taken name token s.database.rows ≡ false
      → ((normalize_models whitelist_models ≢ whitelist_models)
          ⊎ (normalize_models blacklist_models ≢ blacklist_models))
      → ¬ IsCoherent (insert s token role name capture whitelist_models blacklist_models tier).0
  insert-incoherent up fresh odd c =
      let c' = subst IsCoherent (insert_lem up fresh) c in
      let same : some normalised ≡ some given =
        sym (stored-insert fresh) ∙ c'.at token given (get-insert_self token given s.cache) in
      elim odd [ inl n ↦ n (ground arith) | inr n ↦ n (ground arith) ]

  -- With a key store that works and a cache that agrees with the table, an insert of a fresh name
  -- and token whose model rules are normal already keeps the cache in agreement.
  pub insert-IsCoherent :
      IsUp s
      → is_taken name token s.database.rows ≡ false
      → normalize_models whitelist_models ≡ whitelist_models
      → normalize_models blacklist_models ≡ blacklist_models
      → IsCoherent s
      → IsCoherent (insert s token role name capture whitelist_models blacklist_models tier).0
  insert-IsCoherent up fresh w b c = subst IsCoherent (sym (insert_lem up fresh)) (record {
    at = λ t k h. ground (
      arith,
      get-insert token t given s.cache,
      c.at t k,
      eq_iff token t,
      by_token-append t s.database.rows normalised,
      by_token-fresh name token s.database.rows fresh,
    );
  })
