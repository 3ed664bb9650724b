-- ===== src/Shared/Wire/Text.antt =====
-- The methods of `str` that the wire formats use, on texts as lists of characters' numbers.
use hive_core_v.Base.{
  ℕ, ◌+◌, ◌-◌, ◌*◌, ◌^◌, Bool, true, false, not, ◌&&◌, ◌||◌, Option, none, some, List, [], ◌∷◌, map,
  filter, is_empty, leb, ltb, ◌==◌, if◌then◌else◌, ◌≡◌, refl,
}
use hive_core_v.Shared.Wire.Utf8.{codes}

abbrev pub within : ℕ → ℕ → ℕ → Bool
within low high c = leb low c && leb c high

-- `char::is_whitespace`
unfoldable pub is_whitespace : ℕ → Bool
is_whitespace c =
    within 9 13 c
    || c == 32
    || c == 133
    || c == 160
    || c == 5760
    || within 8192 8202 c
    || c == 8232
    || c == 8233
    || c == 8239
    || c == 8287
    || c == 12288

unfoldable pub trim_start : List ℕ → List ℕ
unfolding is_whitespace
trim_start [] = []
trim_start (c ∷ cs) = let rest = trim_start cs in if is_whitespace c then rest else c ∷ cs

unfoldable pub trim_end : List ℕ → List ℕ
unfolding is_whitespace
trim_end [] = []
trim_end (c ∷ cs) =
    let rest = trim_end cs in if is_whitespace c && is_empty rest then [] else c ∷ rest

unfoldable pub trim : List ℕ → List ℕ
unfolding trim_start trim_end
trim s = trim_end (trim_start s)

abbrev push_front : ℕ → List (List ℕ) → List (List ℕ)
push_front c [] = (c ∷ []) ∷ []
push_front c (p ∷ ps) = (c ∷ p) ∷ ps

-- `split` at the characters of a test: one part more than there are such characters.
unfoldable pub split_by : (ℕ → Bool) → List ℕ → List (List ℕ)
split_by p [] = [] ∷ []
split_by p (c ∷ cs) = let rest = split_by p cs in if p c then [] ∷ rest else push_front c rest

unfoldable pub split : ℕ → List ℕ → List (List ℕ)
unfolding split_by
split d = split_by λ c. c == d

abbrev without_return : List ℕ → List ℕ
without_return [] = []
without_return (c ∷ []) = if c == 13 then [] else c ∷ []
without_return (c ∷ d ∷ cs) = c ∷ without_return (d ∷ cs)

abbrev ended_lines : List (List ℕ) → List (List ℕ)
ended_lines [] = []
ended_lines (p ∷ []) = if is_empty p then [] else p ∷ []
ended_lines (p ∷ q ∷ ps) = without_return p ∷ ended_lines (q ∷ ps)

-- `str::lines`: the line end is a newline with or without a carriage return before it.
unfoldable pub lines : List ℕ → List (List ℕ)
unfolding split
lines s = ended_lines (split 10 s)

abbrev pub strip_prefix : List ℕ → List ℕ → Option (List ℕ)
strip_prefix [] s = some s
strip_prefix (p ∷ ps) [] = none
strip_prefix (p ∷ ps) (c ∷ cs) = if p == c then strip_prefix ps cs else none

unfoldable pub split_whitespace : List ℕ → List (List ℕ)
unfolding split_by is_whitespace
split_whitespace s = filter (λ p. not (is_empty p)) (split_by is_whitespace s)

unfoldable pub split_once : ℕ → List ℕ → Option (List ℕ × List ℕ)
split_once d [] = none
split_once d (c ∷ cs) =
    let rest = split_once d cs in
    if c == d
    then some ([], cs)
    else elim rest [ none ↦ none | some (before, after) ↦ some (c ∷ before, after) ]

abbrev pub text_eq : List ℕ → List ℕ → Bool
text_eq [] [] = true
text_eq (x ∷ xs) (y ∷ ys) = x == y && text_eq xs ys
text_eq _ _ = false

unfoldable pub lower : ℕ → ℕ
lower c = if within 65 90 c then c + 32 else c

unfoldable pub to_ascii_lowercase : List ℕ → List ℕ
unfolding lower
to_ascii_lowercase = map lower

unfoldable pub eq_ignore_ascii_case : List ℕ → List ℕ → Bool
unfolding to_ascii_lowercase
eq_ignore_ascii_case a b = text_eq (to_ascii_lowercase a) (to_ascii_lowercase b)

-- `char::to_digit`
unfoldable pub to_digit : ℕ → ℕ → Option ℕ
to_digit radix c =
    let d =
      if within 48 57 c
      then c - 48
      else if within 97 122 c
      then c - 87
      else if within 65 90 c
      then c - 55
      else radix in
    if ltb d radix then some d else none

-- The number of the digits behind `n`; `none` is a wrong digit or an overflow of `max`.
unfoldable pub digits_from : ℕ → ℕ → ℕ → List ℕ → Option ℕ
unfolding to_digit
digits_from radix max n [] = some n
digits_from radix max n (c ∷ cs) = elim (to_digit radix c) [
  | none ↦ none
  | some d ↦
      let rest = digits_from radix max (n * radix + d) cs in
      if leb (n * radix + d) max then rest else none
]

abbrev pub digits_only : ℕ → ℕ → List ℕ → Option ℕ
digits_only radix max [] = none
digits_only radix max (c ∷ cs) = digits_from radix max 0 (c ∷ cs)

-- `from_str_radix` of the unsigned integers up to `max`. A sign `+` may stand in front.
unfoldable pub from_str_radix : ℕ → ℕ → List ℕ → Option ℕ
unfolding digits_from
from_str_radix radix max [] = none
from_str_radix radix max (c ∷ cs) =
    if c == 43 then digits_only radix max cs else digits_only radix max (c ∷ cs)

abbrev pub u16_max : ℕ
u16_max = 2 ^ 16 - 1

-- `u64::MAX`, and `usize::MAX` on a machine of 64 bits.
abbrev pub u64_max : ℕ
u64_max = 2 ^ 64 - 1

text-tests :
    (trim (codes "\t a b \r\n") ≡ codes "a b")
    × (split 59 (codes "a;;b") ≡ codes "a" ∷ [] ∷ codes "b" ∷ [])
    × (lines (codes "a\r\n\nb") ≡ codes "a" ∷ [] ∷ codes "b" ∷ [])
    × (split_whitespace (codes " GET  / ") ≡ codes "GET" ∷ codes "/" ∷ [])
    × (split_once 58 (codes "a:b:c") ≡ some (codes "a", codes "b:c"))
    × (eq_ignore_ascii_case (codes "Chunked") (codes "chunKED") ≡ true)
    × (from_str_radix 16 u64_max (codes "1aF") ≡ some 431)
    × (from_str_radix 10 u16_max (codes "65536") ≡ none)
    × (from_str_radix 10 u16_max (codes "+7") ≡ some 7)
    × (from_str_radix 10 u16_max (codes "+") ≡ none)
unfolding trim split lines split_whitespace split_once eq_ignore_ascii_case from_str_radix
text-tests = (refl, refl, refl, refl, refl, refl, refl, refl, refl, refl)
