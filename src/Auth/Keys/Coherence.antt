-- ===== src/Auth/Keys/Coherence.antt =====
-- The cache of keys against the table: when the two agree, and what `verify` then answers.
use hive_core_v.Base.{
  String, false, Option, none, some, List, str_eq, string_eq, ◌≡◌, refl, sym, ◌∙◌, arith, eq_iff,
  Bool-cases, inl, inr, Option-cases, ap, subst,
}
use hive_core_v.Base.HashMap
use hive_core_v.Base.HashMap.{HashMap, get-insert, get-insert_self}
use hive_core_v.Auth.Models.{KeyRecord, Role}
use hive_core_v.Shared.Sqlite.KeyTable.{SqliteKeyStore, live_keys, list_keys, fetch_key_by_token}
use hive_core_v.Auth.Keys.{KeyStore, verify, refresh_cache, checked, cached, cache_record}
use hive_core_v.Auth.Keys.Table.{
  by_token, HasUniqueTokens, live_keys-AreDistinct, cache_of-get, by_token-token,
}

-- The live key that the table has for a token.
abbrev pub stored : KeyStore → String → Option KeyRecord
stored s t = by_token t (live_keys s.database.rows)

-- Each key in the cache is the table's.
pub record IsCoherent (s : KeyStore) : Type 0 where
  pub at : (t : String) (k : KeyRecord) → HashMap.get t s.cache ≡ some k → stored s t ≡ some k

-- Neither the lock of the cache nor the database is broken.
pub record IsUp (s : KeyStore) : Type 0 where
  pub cache_up : s.poisoned ≡ false
  pub database_up : s.database.broken ≡ false

-- With a key store that works and tokens that are unique in the table, the cache agrees with the
-- table after a refresh, whatever it held before.
pub refresh_cache-IsCoherent :
    (s : KeyStore) → HasUniqueTokens s.database.rows → IsUp s → IsCoherent (refresh_cache s).0
unfolding refresh_cache list_keys
refresh_cache-IsCoherent s u up = record {
  at = λ t k e. ground (
    arith,
    up.cache_up,
    up.database_up,
    e,
    cache_of-get t (live_keys s.database.rows) (live_keys-AreDistinct s.database.rows u),
  );
}

cache_record-IsCoherent :
    (s : KeyStore) (k : KeyRecord)
    → s.poisoned ≡ false
    → IsCoherent s
    → stored s k.token ≡ some k
    → IsCoherent (cache_record k s)
unfolding cache_record
cache_record-IsCoherent s k up c e = record {
  at = λ t q h. elim (Bool-cases (str_eq k.token t)) [
    | inl hit ↦
        let same : k.token ≡ t = (eq_iff k.token t).0 hit in
        let found : stored s t ≡ some k = subst (λ x. stored s x ≡ some k) same e in
        ground (arith, get-insert k.token t k s.cache, up)
    | inr miss ↦ ground (arith, get-insert k.token t k s.cache, up, c.at t q)
  ];
}

cached_record :
    (s : KeyStore) (k : KeyRecord) (t : String)
    → s.poisoned ≡ false
    → k.token ≡ t
    → cached (cache_record k s) t ≡ some k
unfolding cached cache_record
cached_record s k t up e = ground (arith, get-insert k.token t k s.cache, up, eq_iff k.token t, e)

abbrev Answers : KeyStore → String → List Role → KeyStore × Option KeyRecord → Type 0
Answers s t roles r =
    (r.1 ≡ checked roles (stored s t)) × IsCoherent r.0 × (r.0.database ≡ s.database)

miss_lem :
    (s : KeyStore) (t : String) (roles : List Role) (k : KeyRecord)
    → IsUp s
    → IsCoherent s
    → k.token ≡ t
    → stored s t ≡ some k
    → Answers s t roles (cache_record k s, checked roles (cached (cache_record k s) t))
miss_lem s t roles k up c e f = (
  ground (arith, cached_record s k t up.cache_up e, f),
  cache_record-IsCoherent s k up.cache_up c (subst (λ x. stored s x ≡ some k) (sym e) f),
  unfold cache_record in rw up.cache_up,
)

module _ (s : KeyStore) (t : String) (roles : List Role) (up : IsUp s) where
  verify-hit :
      (k : KeyRecord)
      → HashMap.get t s.cache ≡ some k
      → verify s t roles ≡ (s, checked roles (some k))
  unfolding verify
  verify-hit k e = ground (arith, up.cache_up, e)

  verify-unknown : HashMap.get t s.cache ≡ none → stored s t ≡ none → verify s t roles ≡ (s, none)
  unfolding verify fetch_key_by_token
  verify-unknown e f = ground (arith, up.cache_up, up.database_up, e, f)

  verify-miss :
      (k : KeyRecord)
      → HashMap.get t s.cache ≡ none
      → stored s t ≡ some k
      → verify s t roles ≡ (cache_record k s, checked roles (cached (cache_record k s) t))
  unfolding verify fetch_key_by_token
  verify-miss k e f = ground (arith, up.cache_up, up.database_up, e, f)

-- With a key store that works and a cache that agrees with the table, `verify`, on a hit or a
-- miss, answers the table's live key of the token if its role is allowed, and nothing else; the
-- cache still agrees, and the table is as before.
pub verify_lem :
    (s : KeyStore) (t : String) (roles : List Role)
    → IsUp s
    → IsCoherent s
    → ((verify s t roles).1 ≡ checked roles (stored s t))
      × IsCoherent (verify s t roles).0
      × ((verify s t roles).0.database ≡ s.database)
verify_lem s t roles up c = elim (Option-cases (HashMap.get t s.cache)) [
  | inr (k, e) ↦
      subst (Answers s t roles) (sym (verify-hit s t roles up k e)) (rw (c.at t k e), c, refl)
  | inl e ↦ elim (Option-cases (stored s t)) [
    | inl f ↦ subst (Answers s t roles) (sym (verify-unknown s t roles up e f)) (rw f, c, refl)
    | inr (k, f) ↦
        subst (Answers s t roles) (sym (verify-miss s t roles up k e f))
          (miss_lem s t roles k up c (by_token-token t (live_keys s.database.rows) k f) f)
  ]
]

verify-poisoned :
    (s : KeyStore) (t : String) (roles : List Role) → (verify s t roles).0.poisoned ≡ s.poisoned
unfolding verify cache_record
verify-poisoned s t roles = ground arith

pub verify-IsUp :
    (s : KeyStore) (t : String) (roles : List Role)
    → IsUp s
    → IsCoherent s
    → IsUp (verify s t roles).0
verify-IsUp s t roles up c = record {
  cache_up = verify-poisoned s t roles ∙ up.cache_up;
  database_up = ap (λ d. d.broken) (verify_lem s t roles up c).2 ∙ up.database_up;
}

-- A second `verify` of a token answers as the first.
pub verify-verify :
    (s : KeyStore) (t : String) (roles : List Role)
    → IsUp s
    → IsCoherent s
    → (verify (verify s t roles).0 t roles).1 ≡ (verify s t roles).1
verify-verify s t roles up c =
    let (first, c', same) = verify_lem s t roles up c in
    let answer = verify_lem (verify s t roles).0 t roles (verify-IsUp s t roles up c) c' in
    answer.0
    ∙ ap (λ (d : SqliteKeyStore). checked roles (by_token t (live_keys d.rows))) same
    ∙ sym first
