-- ===== src/Management/Secrets.antt =====
-- Who does not see the tokens of keys.
use hive_core_v.Base.{false, List, [], ◌∷◌, map, ◌≡◌, refl, sym, ap, ◌∙◌, arith}
use hive_core_v.Auth.Models.{Role, KeyRecord, admin, role_eq}
use hive_core_v.Auth.Keys.{KeyStore, list}
use hive_core_v.Shared.Http.Json.{Json}
use hive_core_v.Shared.Sqlite.KeyTable.{Io, ok, err}
use hive_core_v.Shared.Http.Response.{HttpResponse}
use hive_core_v.Management.Keys.{
  from_record, rendered, get_keys, json_response, value_of, server_error,
}

-- A key without its token.
abbrev pub blank : KeyRecord → KeyRecord
blank r = record r { token = "" }

abbrev pub blanked : Io (List KeyRecord) → Io (List KeyRecord)
blanked (ok rs) = ok (map blank rs)
blanked (err e) = err e

rendered-blank :
    (role : Role) (rs : List KeyRecord)
    → role_eq role admin ≡ false
    → rendered role (map blank rs) ≡ rendered role rs
unfolding from_record
rendered-blank role [] h = refl
rendered-blank role (r ∷ rs) h = ground (arith, rendered-blank role rs h)

module _ (json : Json) where
  -- What `get_keys` makes of the answer of the table.
  abbrev answer_of : Role → Io (List KeyRecord) → HttpResponse
  answer_of role (ok rs) =
      json_response json 200 "OK" (json.array (map (value_of json) (rendered role rs)))
  answer_of role (err e) = server_error

  get_keys-answer : (role : Role) (s : KeyStore) → get_keys json s role ≡ answer_of role (list s)
  unfolding get_keys
  get_keys-answer role s = refl

  answer-blanked :
      (role : Role) (o : Io (List KeyRecord))
      → role_eq role admin ≡ false
      → answer_of role (blanked o) ≡ answer_of role o
  answer-blanked role (ok rs) h =
      ap (λ ks. json_response json 200 "OK" (json.array (map (value_of json) ks)))
        (rendered-blank role rs h)
  answer-blanked role (err e) h = refl

  -- Two key stores that list the same keys but for their tokens, or fail alike, give the same
  -- answer to a requester that is no admin: the list of keys tells nothing of the tokens.
  pub get_keys-hides :
      (role : Role) (s t : KeyStore)
      → role_eq role admin ≡ false
      → blanked (list s) ≡ blanked (list t)
      → get_keys json s role ≡ get_keys json t role
  get_keys-hides role s t h same =
      get_keys-answer role s
      ∙ sym (answer-blanked role (list s) h)
      ∙ ap (answer_of role) same
      ∙ answer-blanked role (list t) h
      ∙ sym (get_keys-answer role t)
