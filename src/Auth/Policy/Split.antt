-- ===== src/Auth/Policy/Split.antt =====
-- The split of a model name at the colon before its tag.
use Prim.Native.Char.{Char, code}
use Prim.Native.String.{◌++◌}
use text.Mathlib.TextLemmas.{cons-append, nil-append}
use text.Mathlib.TextEquality.{Char-path}
use hive_core_v.Base.{
  ◌≡◌, refl, ◌↔◌, String, false, none, some, ◌⊎◌, inl, inr, ==_iff, arith, Option-cases, Bool-cases,
}
use hive_core_v.Auth.Policy.{contains_char, rsplit_once, split_model_tag}

pub rsplit_once-eq-none :
    (c : Char) (s : String) → contains_char c s ≡ false → rsplit_once c s ≡ none
unfolding contains_char rsplit_once
rsplit_once-eq-none c String.[] h = refl
rsplit_once-eq-none c (String.◌∷◌ d s) h = ground (arith, rsplit_once-eq-none c s)

pub rsplit_once-append :
    (c : Char) (a b : String)
    → contains_char c b ≡ false
    → rsplit_once c (a ++ String.◌∷◌ c b) ≡ some (a, b)
unfolding rsplit_once
rsplit_once-append c String.[] b h =
    rw (nil-append (String.◌∷◌ c b))
      (rw (rsplit_once-eq-none c b h) (rw ((==_iff (code c) (code c)).1 refl)))
rsplit_once-append c (String.◌∷◌ d a) b h =
    rw (cons-append d a (String.◌∷◌ c b)) (ground (arith, rsplit_once-append c a b h))

pub contains_char-of-rsplit_once :
    (c : Char) (s : String) → rsplit_once c s ≡ none → contains_char c s ≡ false
unfolding contains_char rsplit_once
contains_char-of-rsplit_once c String.[] h = refl
contains_char-of-rsplit_once c (String.◌∷◌ d s) h = ground (arith, contains_char-of-rsplit_once c s)

-- A split gives the text back, and its second part has no separator.
pub rsplit_once-eq-some :
    (c : Char) (s a b : String)
    → rsplit_once c s ≡ some (a, b)
    → (s ≡ a ++ String.◌∷◌ c b) × (contains_char c b ≡ false)
unfolding rsplit_once
rsplit_once-eq-some c String.[] a b h = cc
rsplit_once-eq-some c (String.◌∷◌ d s) a b h = elim (Option-cases (rsplit_once c s)) [
  | inl e ↦
      ground (arith, contains_char-of-rsplit_once c s, nil-append (String.◌∷◌ c s), Char-path d c)
  | inr ((a', b'), e) ↦
      ground (arith, rsplit_once-eq-some c s a' b', cons-append d a' (String.◌∷◌ c b'))
]

-- A tag has no colon and no slash.
pub record IsTag (t : String) : Type 0 where
  pub no_colon : contains_char ":" t ≡ false
  pub no_slash : contains_char "/" t ≡ false

abbrev pub tagged : String → String → String
tagged name tag = name ++ String.◌∷◌ ":" tag

-- A name is split exactly where it is a name, a colon and a tag.
pub split-eq-some_iff :
    (s name tag : String)
    → (split_model_tag s ≡ (name, some tag)) ↔ ((s ≡ tagged name tag) × IsTag tag)
unfolding split_model_tag
split-eq-some_iff s name tag = (there, back)
  where
    there : split_model_tag s ≡ (name, some tag) → (s ≡ tagged name tag) × IsTag tag
    there h = elim (Option-cases (rsplit_once ":" s)) [
      | inl e ↦ ground arith
      | inr ((a, b), e) ↦ ground (arith, rsplit_once-eq-some ":" s a b e)
    ]

    back : (s ≡ tagged name tag) × IsTag tag → split_model_tag s ≡ (name, some tag)
    back (e, t) = ground (arith, rsplit_once-append ":" name tag t.no_colon)

pub split-cases :
    (s : String)
    → (split_model_tag s ≡ (s, none))
      ⊎ ((name : String) × (tag : String) × (split_model_tag s ≡ (name, some tag)))
unfolding split_model_tag
split-cases s = elim (Option-cases (rsplit_once ":" s)) [
  | inl e ↦ inl (ground arith)
  | inr ((a, b), e) ↦ elim (Bool-cases (contains_char "/" b)) [
    | inl k ↦ inl (ground arith)
    | inr k ↦ inr (a, b, ground arith)
  ]
]
