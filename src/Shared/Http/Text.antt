-- ===== src/Shared/Http/Text.antt =====
-- The functions of `str` that the program calls.
use Prim.Native.Char.{code}
use Prim.Native.String.{◌++◌}
use mathlib.Core.List.{◌++◌ as append_bytes}
use hive_core_v.Base.{
  ℕ, zero, suc, ◌+◌, ltb, List, [], ◌∷◌, ◌/◌, ◌%◌, String, Bool, true, false, Option, none, some,
  ◌==◌, if◌then◌else◌, str_eq, ◌≡◌, refl,
}

unfoldable pub strip_prefix : String → String → Option String
strip_prefix String.[] s = some s
strip_prefix (String.◌∷◌ p ps) String.[] = none
strip_prefix (String.◌∷◌ p ps) (String.◌∷◌ c s) =
    if code p == code c then strip_prefix ps s else none

-- The suffix may be the whole text.
unfoldable pub strip_suffix : String → String → Option String
strip_suffix suffix String.[] = if str_eq suffix String.[] then some String.[] else none
strip_suffix suffix (String.◌∷◌ c s) =
    let rest = strip_suffix suffix s in
    if str_eq suffix (String.◌∷◌ c s)
    then some String.[]
    else elim rest [ none ↦ none | some r ↦ some (String.◌∷◌ c r) ]

abbrev pub is_some : {A : Type 0} → Option A → Bool
is_some none = false
is_some (some a) = true

abbrev pub or_else : {A : Type 0} → Option A → Option A → Option A
or_else none o = o
or_else (some a) o = some a

abbrev pub and_then : {A B : Type 0} → Option A → (A → Option B) → Option B
and_then none f = none
and_then (some a) f = f a

digit : ℕ → String
digit d =
    if d == 0
    then "0"
    else if d == 1
    then "1"
    else if d == 2
    then "2"
    else if d == 3
    then "3"
    else if d == 4
    then "4"
    else if d == 5
    then "5"
    else if d == 6
    then "6"
    else if d == 7
    then "7"
    else if d == 8
    then "8"
    else "9"

-- The digits of a number in front of a text; a number has no more digits than its value plus one.
digits_before : ℕ → ℕ → String → String
unfolding digit
digits_before zero n s = s
digits_before (suc fuel) n s =
    let rest = digits_before fuel (n / 10) (digit (n % 10) ++ s) in
    if n / 10 == 0 then digit (n % 10) ++ s else rest

unfoldable pub to_string : ℕ → String
unfolding digits_before
to_string n = digits_before (suc n) n String.[]

-- The UTF-8 encoding of a character and of a text.
unfoldable pub encode : ℕ → List ℕ
encode c =
    if ltb c 128
    then c ∷ []
    else if ltb c 2048
    then (192 + c / 64) ∷ (128 + c % 64) ∷ []
    else if ltb c 65536
    then (224 + c / 4096) ∷ (128 + c / 64 % 64) ∷ (128 + c % 64) ∷ []
    else (240 + c / 262144) ∷ (128 + c / 4096 % 64) ∷ (128 + c / 64 % 64) ∷ (128 + c % 64) ∷ []

unfoldable pub as_bytes : String → List ℕ
unfolding encode
as_bytes String.[] = []
as_bytes (String.◌∷◌ c s) = append_bytes (encode (code c)) (as_bytes s)

as_bytes-tests : as_bytes "aé" ≡ 97 ∷ 195 ∷ 169 ∷ []
unfolding as_bytes
as_bytes-tests = refl

to_string-tests : (to_string 0 ≡ "0") × (to_string 2048 ≡ "2048")
unfolding to_string
to_string-tests = (refl, refl)

strip_prefix-tests :
    (strip_prefix "/v1/models/" "/v1/models/qwen" ≡ some "qwen")
    × (strip_prefix "Bearer " "bearer x" ≡ none)
    × (strip_suffix "/cancel" "/v1/responses/a/cancel" ≡ some "/v1/responses/a")
unfolding strip_prefix strip_suffix
strip_prefix-tests = (refl, refl, refl)
