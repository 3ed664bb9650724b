-- ===== src/Shared/Wire/Utf8.antt =====
-- UTF-8 of Rust's `str`. A text is the list of its characters' numbers.
use Prim.Native.Nat.{compare}
use Prim.Native.Nat.{Ordering}
use Prim.Native.Char.{Char, char, code, IsScalar}
use hive_core_v.Base.{
  ℕ, zero, suc, ◌+◌, ◌-◌, ◌*◌, String, Bool, ◌&&◌, Option, none, some, List, [], ◌∷◌, ◌++◌, map,
  leb, ltb, ◌==◌, if◌then◌else◌, ◌≡◌, refl, arith,
}
use hive_core_v.Shared.Http.Text.{encode}

-- The characters of a literal.
abbrev pub codes : String → List ℕ
codes String.[] = []
codes (String.◌∷◌ c s) = code c ∷ codes s

-- A sequence that is under way: the bytes it still needs, the bits read, the bounds of its next byte.
pub record Pending : Type 0 where
  pub need : ℕ
  pub bits : ℕ
  pub low : ℕ
  pub high : ℕ

abbrev pub between : Pending
between = record { need = 0; bits = 0; low = 128; high = 191 }

abbrev within : ℕ → ℕ → ℕ → Bool
within low high b = leb low b && leb b high

-- A first byte. `none` is an invalid sequence.
unfoldable lead : ℕ → List (Option ℕ) × Pending
lead b =
    if ltb b 128
    then (some b ∷ [], between)
    else if within 194 223 b
    then ([], record { need = 1; bits = b - 192; low = 128; high = 191 })
    else if within 224 239 b
    then (
      [],
      record {
        need = 2;
        bits = b - 224;
        low = if b == 224 then 160 else 128;
        high = if b == 237 then 159 else 191;
      },
    )
    else if within 240 244 b
    then (
      [],
      record {
        need = 3;
        bits = b - 240;
        low = if b == 240 then 144 else 128;
        high = if b == 244 then 143 else 191;
      },
    )
    else (none ∷ [], between)

-- A byte that does not go on with a sequence ends it, and is a first byte.
unfoldable step : Pending → ℕ → List (Option ℕ) × Pending
unfolding lead
step p b = elim p.need [
  | zero ↦ lead b
  | suc n ↦
      let bits = p.bits * 64 + (b - 128) in
      if within p.low p.high b
      then elim n [
        | zero ↦ (some bits ∷ [], between)
        | suc m ↦ ([], record { need = suc m; bits = bits; low = 128; high = 191 })
      ]
      else (none ∷ (lead b).0, (lead b).1)
]

-- The characters of the bytes, with `none` for each invalid sequence.
unfoldable pub decode : Pending → List ℕ → List (Option ℕ)
unfolding step
decode p [] = if p.need == 0 then [] else none ∷ []
decode p (b ∷ bs) = (step p b).0 ++ decode (step p b).1 bs

abbrev pub strict : List (Option ℕ) → Option (List ℕ)
strict [] = some []
strict (none ∷ cs) = none
strict (some c ∷ cs) = elim (strict cs) [ none ↦ none | some t ↦ some (c ∷ t) ]

abbrev pub replaced : Option ℕ → ℕ
replaced none = 65533
replaced (some c) = c

-- `String::from_utf8`
unfoldable pub from_utf8 : List ℕ → Option (List ℕ)
unfolding decode
from_utf8 bytes = strict (decode between bytes)

-- `String::from_utf8_lossy`
unfoldable pub from_utf8_lossy : List ℕ → List ℕ
unfolding decode
from_utf8_lossy bytes = map replaced (decode between bytes)

-- `as_bytes`
unfoldable pub to_utf8 : List ℕ → List ℕ
unfolding encode
to_utf8 [] = []
to_utf8 (c ∷ cs) = encode c ++ to_utf8 cs

abbrev low-IsScalar : (n : ℕ) → compare n 55296 ≡ Ordering.lt → IsScalar n
low-IsScalar n e = rw e tt

pub compare-high : (n : ℕ) → compare 57343 n ≡ Ordering.lt → compare n 55296 ≡ Ordering.gt
compare-high n e = ground arith

abbrev high-IsScalar :
    (n : ℕ) → compare 57343 n ≡ Ordering.lt → compare n 1114112 ≡ Ordering.lt → IsScalar n
high-IsScalar n e f = rw (compare-high n e, e, f) tt

abbrev char_if : (n : ℕ) (o : Ordering) → (o ≡ Ordering.lt → IsScalar n) → Option Char
char_if n Ordering.lt proof = some (char n (proof refl))
char_if n _ proof = none

abbrev high_char : (n : ℕ) (o : Ordering) → compare 57343 n ≡ o → Option Char
high_char n Ordering.lt e = char_if n (compare n 1114112) (high-IsScalar n e)
high_char n _ e = none

abbrev scalar : ℕ → Option Char
scalar n = elim (char_if n (compare n 55296) (low-IsScalar n)) [
  | some c ↦ some c
  | none ↦ high_char n (compare 57343 n) refl
]

-- The text of characters; a number that is none is left out.
unfoldable pub text_of : List ℕ → String
text_of [] = String.[]
text_of (n ∷ ns) =
    let rest = text_of ns in elim (scalar n) [ none ↦ rest | some c ↦ String.◌∷◌ c rest ]

utf8-tests :
    (from_utf8 (97 ∷ 195 ∷ 169 ∷ 226 ∷ 130 ∷ 172 ∷ []) ≡ some (codes "aé€"))
    × (from_utf8 (97 ∷ 195 ∷ []) ≡ none)
    × (from_utf8_lossy (226 ∷ 130 ∷ 97 ∷ 192 ∷ []) ≡ 65533 ∷ 97 ∷ 65533 ∷ [])
    × (to_utf8 (codes "é€") ≡ 195 ∷ 169 ∷ 226 ∷ 130 ∷ 172 ∷ [])
    × (text_of (codes "aé€") ≡ "aé€")
unfolding from_utf8 from_utf8_lossy to_utf8 text_of
utf8-tests = (refl, refl, refl, refl, refl)
