-- ===== src/Shared/Http/Response.antt =====
-- `HttpResponse` of src/shared/http/mod.rs.
use hive_core_v.Base.{ℕ, String, List, [], ◌∷◌, ◌++◌, length}
use hive_core_v.Shared.Http.Text.{to_string}

pub record HttpResponse : Type 0 where
  pub status_code : ℕ
  pub reason : String
  pub headers : List (String × String)
  pub body : List ℕ

unfoldable pub new : ℕ → String → List ℕ → HttpResponse
unfolding to_string
new status_code reason body = record {
  status_code = status_code;
  reason = reason;
  headers =
      ("Content-Length", to_string (length body))
      ∷ ("Connection", "close")
      ∷ ("Access-Control-Allow-Origin", "*")
      ∷ ("Access-Control-Allow-Headers", "Authorization, API-Key, Content-Type, Node")
      ∷ ("Access-Control-Allow-Methods", "GET, HEAD, POST, PATCH, DELETE, OPTIONS")
      ∷ [];
  body = body;
}

unfoldable pub json : ℕ → String → List ℕ → HttpResponse
unfolding new to_string
json status_code reason body =
    let r = new status_code reason body in
    record r { headers = r.headers ++ ("Content-Type", "application/json") ∷ [] }
