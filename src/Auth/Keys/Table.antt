-- ===== src/Auth/Keys/Table.antt =====
-- The table of keys as the cache sees it: the live key of a token.
use hive_core_v.Base.{
  ℕ, String, false, not, Option, none, some, List, [], ◌∷◌, ◌++◌, All, any, find, map,
  if◌then◌else◌, str_eq, string_eq, ◌≡◌, ◌≢◌, refl, arith, eq_iff, ◌==◌, ◌&&◌, subst, Bool-cases,
  inl, inr,
}
use hive_core_v.Base.HashMap
use hive_core_v.Base.HashMap.{HashMap, get-insert}
use hive_core_v.Auth.Models.{KeyRecord}
use hive_core_v.Shared.Sqlite.KeyTable.{KeyRow, live_keys, delete_row, is_taken}
use hive_core_v.Auth.Keys.{cache_of}

abbrev pub by_token : String → List KeyRecord → Option KeyRecord
by_token t = find λ k. str_eq k.token t

-- The column `value` is `UNIQUE`.
abbrev pub HasUniqueTokens : List KeyRow → Type 0
HasUniqueTokens [] = Unit {0}
HasUniqueTokens (r ∷ rs) = All (λ q. str_eq q.key.token r.key.token ≡ false) rs × HasUniqueTokens rs

-- The same of a list of keys.
abbrev pub AreDistinct : List KeyRecord → Type 0
AreDistinct [] = Unit {0}
AreDistinct (k ∷ ks) = (by_token k.token ks ≡ none) × AreDistinct ks

by_token-none :
    (t : String) (rs : List KeyRow)
    → All (λ q. str_eq q.key.token t ≡ false) rs
    → by_token t (live_keys rs) ≡ none
unfolding live_keys
by_token-none t [] h = refl
by_token-none t (r ∷ rs) h = ground (arith, by_token-none t rs h.1)

pub live_keys-AreDistinct : (rs : List KeyRow) → HasUniqueTokens rs → AreDistinct (live_keys rs)
unfolding live_keys
live_keys-AreDistinct [] h = tt
live_keys-AreDistinct (r ∷ rs) h = elim (Bool-cases r.deleted) [
  | inl d ↦ rw d (live_keys-AreDistinct rs h.1)
  | inr d ↦ rw d (by_token-none r.key.token rs h.0, live_keys-AreDistinct rs h.1)
]

cache_of-get_from :
    (t : String) (ks : List KeyRecord) (m : HashMap String KeyRecord)
    → AreDistinct ks
    → HashMap.get t (cache_of ks m)
      ≡ elim (by_token t ks) [ some k ↦ some k | none ↦ HashMap.get t m ]
unfolding cache_of
cache_of-get_from t [] m h = refl
cache_of-get_from t (k ∷ ks) m h =
    let ih = cache_of-get_from t ks (HashMap.insert k.token k m) h.1 in
    let i = get-insert k.token t k m in
    elim (Bool-cases (str_eq k.token t)) [
      | inl e ↦
          let last : by_token t ks ≡ none =
            subst (λ x. by_token x ks ≡ none) ((eq_iff k.token t).0 e) h.0 in
          ground (arith, ih, i, last)
      | inr e ↦ ground (arith, ih, i)
    ]

-- A cache built from the live keys has for each token what the table has.
pub cache_of-get :
    (t : String) (ks : List KeyRecord)
    → AreDistinct ks
    → HashMap.get t (cache_of ks []) ≡ by_token t ks
unfolding HashMap.get
cache_of-get t ks h = ground (arith, cache_of-get_from t ks [] h)

delete_row-All :
    (t : String) (id : ℕ) (rs : List KeyRow)
    → All (λ q. str_eq q.key.token t ≡ false) rs
    → All (λ q. str_eq q.key.token t ≡ false) (map (delete_row id) rs)
unfolding delete_row
delete_row-All t id [] h = tt
delete_row-All t id (r ∷ rs) h = (ground arith, delete_row-All t id rs h.1)

pub delete_row-HasUniqueTokens :
    (id : ℕ) (rs : List KeyRow) → HasUniqueTokens rs → HasUniqueTokens (map (delete_row id) rs)
unfolding delete_row
delete_row-HasUniqueTokens id [] h = tt
delete_row-HasUniqueTokens id (r ∷ rs) h = (
  subst (λ t. All (λ q. str_eq q.key.token t ≡ false) (map (delete_row id) rs)) (token r)
      (delete_row-All r.key.token id rs h.0),
  delete_row-HasUniqueTokens id rs h.1,
)
  where
    token : (r : KeyRow) → r.key.token ≡ (delete_row id r).key.token
    token r = ground arith

-- A deleted key is not live.
pub by_token-delete :
    (t : String) (id : ℕ) (rs : List KeyRow) (k : KeyRecord)
    → by_token t (live_keys (map (delete_row id) rs)) ≡ some k
    → k.id ≢ id
unfolding live_keys delete_row
by_token-delete t id [] k h = λ e. cc
by_token-delete t id (r ∷ rs) k h = ground (arith, by_token-delete t id rs k)

-- Deleting a key that is not live changes nothing that is live.
pub live_keys-delete :
    (id : ℕ) (rs : List KeyRow)
    → any (λ r. r.key.id == id && not r.deleted) rs ≡ false
    → live_keys (map (delete_row id) rs) ≡ live_keys rs
unfolding live_keys delete_row
live_keys-delete id [] e = refl
live_keys-delete id (r ∷ rs) e = ground (arith, live_keys-delete id rs)

-- A new row adds its token and changes no other.
pub by_token-append :
    (t : String) (rs : List KeyRow) (k : KeyRecord)
    → by_token t (live_keys (rs ++ record { key = k; deleted = false } ∷ []))
      ≡ elim (by_token t (live_keys rs)) [
        | some q ↦ some q
        | none ↦ if str_eq k.token t then some k else none
      ]
unfolding live_keys
by_token-append t [] k = refl
by_token-append t (r ∷ rs) k = ground (arith, by_token-append t rs k)

pub by_token-fresh :
    (name token : String) (rs : List KeyRow)
    → is_taken name token rs ≡ false
    → by_token token (live_keys rs) ≡ none
unfolding live_keys is_taken
by_token-fresh name token [] h = refl
by_token-fresh name token (r ∷ rs) h = ground (arith, by_token-fresh name token rs)

pub by_token-token :
    (t : String) (ks : List KeyRecord) (k : KeyRecord) → by_token t ks ≡ some k → k.token ≡ t
by_token-token t [] k h = cc
by_token-token t (q ∷ ks) k h = ground (arith, by_token-token t ks k, eq_iff q.token t)
