-- ===== src/Management/Dashboard.antt =====
-- src/shared/dash.rs, `serve_file`: the files of the dashboard.
use Prim.Native.Char.{code}
use hive_core_v.Base.{
  ℕ, String, str_eq, Bool, ◌||◌, ◌==◌, Option, none, some, List, [], ◌∷◌, ◌++◌, if◌then◌else◌,
  string_eq,
}
use hive_core_v.Base.HashMap
use hive_core_v.Base.HashMap.{HashMap}
use hive_core_v.Shared.Http.Response.{HttpResponse}
use hive_core_v.Shared.Http.Response
use hive_core_v.Shared.Http.Text.{is_some, strip_suffix}

unfoldable pub trim_slashes : String → String
trim_slashes String.[] = String.[]
trim_slashes (String.◌∷◌ c s) = if code c == 47 then trim_slashes s else String.◌∷◌ c s

abbrev ends_with : String → String → Bool
ends_with s suffix = is_some (strip_suffix suffix s)

unfoldable pub mime_type : String → String
unfolding strip_suffix
mime_type path =
    if ends_with path ".html"
    then "text/html; charset=utf-8"
    else if ends_with path ".js"
    then "application/javascript; charset=utf-8"
    else if ends_with path ".css"
    then "text/css; charset=utf-8"
    else "application/octet-stream"

unfoldable pub clean_path : String → Option String
unfolding trim_slashes strip_suffix
clean_path uri =
    if str_eq uri "/" || str_eq uri ""
    then some "index.html"
    else (let p = trim_slashes uri in
        if ends_with p ".html" || ends_with p ".js" || ends_with p ".css" then some p else none)

-- `files` are the files of the dashboard that the build embeds.
unfoldable pub serve_file : HashMap String (List ℕ) → String → Option HttpResponse
unfolding clean_path mime_type Response.new
serve_file files uri = elim (clean_path uri) [
  | none ↦ none
  | some p ↦ elim (HashMap.get p files) [
    | none ↦ none
    | some bytes ↦
        let r = Response.new 200 "OK" bytes in
        some (record r {
          headers = r.headers ++ ("Content-Type", mime_type p) ∷ ("Cache-Control", "no-store") ∷ [];
        })
  ]
]
