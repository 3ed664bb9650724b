-- ===== src/Worker/Server/Sanitize.antt =====
-- `sanitize_response_headers`: the fields of a worker's answer as the client gets them.
use hive_core_v.Base.{
  suc, ◌+◌, ◌≡◌, refl, arith, Bool-cases, inl, inr, Bool, true, false, ◌&&◌, ℕ, Option, none, some,
  List, [], ◌∷◌, ◌++◌, if◌then◌else◌,
}
use hive_core_v.Shared.Wire.Utf8.{codes, to_utf8}
use hive_core_v.Shared.Wire.Text.{eq_ignore_ascii_case}

-- `Name: value` and the line end.
abbrev pub header_line : List ℕ → List ℕ → List ℕ
header_line name value = name ++ codes ": " ++ value ++ codes "\r\n"

abbrev pub or_text : List ℕ → Option (List ℕ) → List ℕ
or_text t none = t
or_text t (some s) = s

-- The fields in front of the ones that are added: with `chunked` without the length and the
-- encodings.
unfoldable pub kept_headers : Bool → List (List ℕ × List ℕ) → List (List ℕ × List ℕ)
unfolding eq_ignore_ascii_case
kept_headers chunk [] = []
kept_headers chunk ((name, value) ∷ hs) =
    let rest = kept_headers chunk hs in
    if chunk && eq_ignore_ascii_case name (codes "content-length")
    then rest
    else if chunk && eq_ignore_ascii_case name (codes "transfer-encoding")
    then rest
    else (name, value) ∷ rest

abbrev pub field : List ℕ → List (List ℕ × List ℕ) → Option (List ℕ)
field name [] = none
field name ((n, value) ∷ hs) = if eq_ignore_ascii_case n name then some value else field name hs

abbrev pub has_field : List ℕ → List (List ℕ × List ℕ) → Bool
has_field name hs = elim (field name hs) [ none ↦ false | some v ↦ true ]

abbrev pub added_headers : Bool → List (List ℕ × List ℕ) → List (List ℕ × List ℕ)
added_headers chunk hs =
    (if has_field (codes "access-control-allow-origin") hs
      then []
      else (codes "Access-Control-Allow-Origin", codes "*") ∷ [])
    ++ (if chunk
        then (
          codes "Transfer-Encoding",
          or_text (codes "chunked") (field (codes "transfer-encoding") hs),
        )
          ∷ []
        else [])

abbrev pub header_lines : List (List ℕ × List ℕ) → List ℕ
header_lines [] = []
header_lines ((name, value) ∷ hs) = header_line name value ++ header_lines hs

-- The fields that the client gets.
unfoldable pub sent_headers : Bool → List (List ℕ × List ℕ) → List (List ℕ × List ℕ)
unfolding kept_headers
sent_headers chunk hs = kept_headers chunk hs ++ added_headers chunk hs

unfoldable pub sanitize_response_headers : Bool → List (List ℕ × List ℕ) → List ℕ
unfolding sent_headers to_utf8
sanitize_response_headers chunk hs = to_utf8 (header_lines (sent_headers chunk hs))

-- How many fields have the name, in any case.
abbrev pub count_field : List ℕ → List (List ℕ × List ℕ) → ℕ
count_field name [] = 0
count_field name ((n, value) ∷ hs) =
    let rest = count_field name hs in if eq_ignore_ascii_case n name then suc rest else rest

count_field-append :
    (name : List ℕ) (xs ys : List (List ℕ × List ℕ))
    → count_field name (xs ++ ys) ≡ count_field name xs + count_field name ys
count_field-append name [] ys = omega arith
count_field-append name ((n, v) ∷ xs) ys = ground (arith, count_field-append name xs ys)

count_kept :
    (hs : List (List ℕ × List ℕ))
    → (count_field (codes "content-length") (kept_headers true hs) ≡ 0)
      × (count_field (codes "transfer-encoding") (kept_headers true hs) ≡ 0)
unfolding kept_headers
count_kept [] = (refl, refl)
count_kept ((n, v) ∷ hs) = ground (arith, count_kept hs)

count_added :
    (hs : List (List ℕ × List ℕ))
    → (count_field (codes "content-length") (added_headers true hs) ≡ 0)
      × (count_field (codes "transfer-encoding") (added_headers true hs) ≡ 1)
unfolding eq_ignore_ascii_case
count_added hs = elim (Bool-cases (has_field (codes "access-control-allow-origin") hs)) [
  | inl e ↦ rw e (refl, refl)
  | inr e ↦ rw e (refl, refl)
]

-- With `chunked` the client gets no length and one encoding, whatever fields the worker sent.
pub sent_headers-chunked :
    (hs : List (List ℕ × List ℕ))
    → (count_field (codes "content-length") (sent_headers true hs) ≡ 0)
      × (count_field (codes "transfer-encoding") (sent_headers true hs) ≡ 1)
unfolding sent_headers
sent_headers-chunked hs = ground (
  arith,
  count_kept hs,
  count_added hs,
  count_field-append (codes "content-length") (kept_headers true hs) (added_headers true hs),
  count_field-append (codes "transfer-encoding") (kept_headers true hs) (added_headers true hs),
)
