-- ===== src/Shared/Sqlite/Normalize.antt =====
-- `normalize_models` of src/shared/sqlite/key_store.rs: the model rules as they are stored.
use Prim.Native.Char.{Char, code}
use hive_core_v.Base.{
  String, Bool, true, false, ◌||◌, ◌&&◌, List, [], ◌∷◌, ◌++◌, any, leb, ◌==◌, str_eq, if◌then◌else◌,
  ◌≡◌, refl,
}

-- `char::is_whitespace`, the Unicode property White_Space
unfoldable pub is_whitespace : Char → Bool
is_whitespace c =
    (leb 0x9 (code c) && leb (code c) 0xd)
    || code c == 0x20
    || code c == 0x85
    || code c == 0xa0
    || code c == 0x1680
    || (leb 0x2000 (code c) && leb (code c) 0x200a)
    || code c == 0x2028
    || code c == 0x2029
    || code c == 0x202f
    || code c == 0x205f
    || code c == 0x3000

unfoldable pub trim_start : String → String
unfolding is_whitespace
trim_start String.[] = String.[]
trim_start (String.◌∷◌ c s) = if is_whitespace c then trim_start s else String.◌∷◌ c s

abbrev pub is_nil : String → Bool
is_nil String.[] = true
is_nil (String.◌∷◌ c s) = false

unfoldable pub trim_end : String → String
unfolding is_whitespace
trim_end String.[] = String.[]
trim_end (String.◌∷◌ c s) =
    let rest = trim_end s in if is_whitespace c && is_nil rest then String.[] else String.◌∷◌ c rest

unfoldable pub trim : String → String
unfolding trim_start trim_end
trim s = trim_end (trim_start s)

-- `models` is the list under construction.
unfoldable pub normalize_from : List String → List String → List String
unfolding trim
normalize_from models [] = models
normalize_from models (value ∷ rest) =
    normalize_from
      (if is_nil (trim value)
        then models
        else if any (λ existing. str_eq existing (trim value)) models
        then models
        else models ++ trim value ∷ [])
      rest

unfoldable pub normalize_models : List String → List String
unfolding normalize_from
normalize_models values = normalize_from [] values

normalize-tests :
    (normalize_models (" llama3 " ∷ "" ∷ "llama3" ∷ "a b" ∷ []) ≡ "llama3" ∷ "a b" ∷ [])
    × (normalize_models ("  " ∷ []) ≡ [])
unfolding normalize_models
normalize-tests = (refl, refl)
