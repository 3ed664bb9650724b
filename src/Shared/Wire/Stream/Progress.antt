-- ===== src/Shared/Wire/Stream/Progress.antt =====
-- Reads take bytes from the front, and come to an end: how an action changes what is left to read.
use hive_core_v.Base.{
  ℕ, zero, suc, ◌+◌, ◌≤◌, ◌<◌, ◌≡◌, refl, Bool, true, false, Option, List, [], ◌∷◌, length, drop,
  is_empty, if◌then◌else◌, arith,
}
use hive_core_v.Shared.Wire.Stream.{
  ErrorKind, or_raise, raise, pure, Outcome, ok, err, unfinished, Action, after, ◌>>=◌, Reader,
  Line, until_newline, read_line, line_of, read_exact, read_to_end, read_limited, Writer, write_all,
}

-- A result or an error, and not the end of the model's fuel.
abbrev pub finishes : {A : Type 0} → Outcome A → Bool
finishes (ok a) = true
finishes (err e) = true
finishes unfinished = false

abbrev pub is_ok : {A : Type 0} → Outcome A → Bool
is_ok (ok a) = true
is_ok _ = false

module _ {S : Type 0} (size : S → ℕ) where
  -- From a state below the bound the action finishes, and the state does not grow.
  pub record IsTotal {A : Type 0} (n : ℕ) (m : Action S A) : Type 0 where
    pub total : (s : S) → size s < n → (finishes (m s).0 ≡ true) × (size (m s).1 ≤ size s)

  -- A result of the action makes the state smaller.
  pub record IsShrinking {A : Type 0} (m : Action S A) : Type 0 where
    pub shrinks :
        (s : S)
        → (finishes (m s).0 ≡ true)
          × (size (m s).1 ≤ size s)
          × (is_ok (m s).0 ≡ true → size (m s).1 < size s)

  after-IsTotal :
      {A B : Type 0} (n k : ℕ) (f : A → Action S B) (p : Outcome A × S)
      → finishes p.0 ≡ true
      → size p.1 ≤ k
      → (is_ok p.0 ≡ true → size p.1 < n)
      → ((a : A) → IsTotal n (f a))
      → (finishes (after f p).0 ≡ true) × (size (after f p).1 ≤ k)
  after-IsTotal n k f (ok a, s) h l b t =
      let (done, le) = (t a).total s (b refl) in (done, omega (arith, le, l))
  after-IsTotal n k f (err e, s) h l b t = (refl, l)
  after-IsTotal n k f (unfinished, s) h l b t = (h, l)

  module _ {A B : Type 0} (n : ℕ) {m : Action S A} {f : A → Action S B} where
    pub >>=-IsTotal : IsTotal n m → ((a : A) → IsTotal n (f a)) → IsTotal n (m >>= f)
    >>=-IsTotal t k = record {
      total = λ s lt.
          let (h, le) = t.total s lt in
          after-IsTotal n (size s) f (m s) h le (λ x. omega (arith, le, lt)) k;
    }

    pub shrinking-IsTotal : IsShrinking m → ((a : A) → IsTotal n (f a)) → IsTotal (suc n) (m >>= f)
    shrinking-IsTotal t k = record {
      total = λ s lt.
          let (h, le, less) = t.shrinks s in
          after-IsTotal n (size s) f (m s) h le (λ x. omega (arith, less x, lt)) k;
    }

  pub zero-IsTotal : {A : Type 0} (m : Action S A) → IsTotal 0 m
  zero-IsTotal m = record { total = λ s lt. absurd (omega (arith, lt)) }

  pub pure-IsTotal : {A : Type 0} (n : ℕ) (a : A) → IsTotal n (pure {S = S} a)
  pure-IsTotal n a = record { total = λ s lt. (refl, omega arith) }

  pub raise-IsTotal : {A : Type 0} (n : ℕ) (e : ErrorKind) → IsTotal n (raise {S = S} {A = A} e)
  raise-IsTotal n e = record { total = λ s lt. (refl, omega arith) }

  pub or_raise-IsTotal :
      {A : Type 0} (n : ℕ) (o : Option A) (e : ErrorKind) → IsTotal n (or_raise {S = S} o e)
  or_raise-IsTotal n o e = record { total = λ s lt. ground arith }

  -- A choice between two actions.
  pub elim-IsTotal :
      {A : Type 0} (n : ℕ) (b : Bool) {m k : Action S A}
      → IsTotal n m
      → IsTotal n k
      → IsTotal n (elim b [ true ↦ m | false ↦ k ])
  elim-IsTotal n true x y = x
  elim-IsTotal n false x y = y

  pub if-IsTotal :
      {A : Type 0} (n : ℕ) (b : Bool) {m k : Action S A}
      → IsTotal n m
      → IsTotal n k
      → IsTotal n (if b then m else k)
  if-IsTotal n true x y = x
  if-IsTotal n false x y = y

abbrev pub left : Reader → ℕ
left r = length r.bytes

until_newline-length :
    (bs : List ℕ) → length (until_newline bs).0 + length (until_newline bs).1 ≡ length bs
unfolding until_newline
until_newline-length [] = refl
until_newline-length (b ∷ bs) = ground (arith, until_newline-length bs)

line_of-raw : (raw : List ℕ) (line : Line) → line_of raw ≡ ok line → line.raw ≡ raw
line_of-raw raw line h = ground arith

line_of-finishes : (raw : List ℕ) → finishes (line_of raw) ≡ true
line_of-finishes raw = ground arith

pub read_line-IsTotal : (n : ℕ) → IsTotal left n read_line
unfolding read_line
read_line-IsTotal n = record {
  total = λ r lt.
      ground (arith, line_of-finishes (until_newline r.bytes).0, until_newline-length r.bytes);
}

-- A line that is not empty leaves fewer bytes.
pub read_line-shorter :
    (r : Reader) (line : Line)
    → (read_line r).0 ≡ ok line
    → is_empty line.raw ≡ false
    → left (read_line r).1 < left r
unfolding read_line
read_line-shorter r line h n =
    ground (arith, until_newline-length r.bytes, line_of-raw (until_newline r.bytes).0 line)

drop-le : {A : Type 0} (n : ℕ) (xs : List A) → length (drop n xs) ≤ length xs
drop-le zero xs = omega arith
drop-le (suc n) [] = omega arith
drop-le (suc n) (x ∷ xs) = omega (arith, drop-le n xs)

pub read_exact-IsTotal : (n k : ℕ) → IsTotal left n (read_exact k)
unfolding read_exact
read_exact-IsTotal n k = record { total = λ r lt. ground (arith, drop-le k r.bytes) }

pub read_to_end-IsTotal : (n : ℕ) → IsTotal left n read_to_end
unfolding read_to_end
read_to_end-IsTotal n = record { total = λ r lt. ground arith }

pub read_limited-IsTotal : (n k : ℕ) → IsTotal left n (read_limited k)
unfolding read_limited read_to_end
read_limited-IsTotal n k = record { total = λ r lt. ground (arith, drop-le k r.bytes) }

pub write_all-finishes : (bs : List ℕ) (w : Writer) → finishes (write_all bs w).0 ≡ true
unfolding write_all
write_all-finishes bs w = ground arith

pub after-finishes :
    {S A B : Type 0} (f : A → Action S B) (p : Outcome A × S)
    → finishes p.0 ≡ true
    → ((a : A) → finishes (f a p.1).0 ≡ true)
    → finishes (after f p).0 ≡ true
after-finishes f (ok a, s) h k = k a
after-finishes f (err e, s) h k = refl
after-finishes f (unfinished, s) h k = h

-- The action finishes in every state.
pub record IsFinishing {S A : Type 0} (m : Action S A) : Type 0 where
  pub done : (s : S) → finishes (m s).0 ≡ true

pub >>=-IsFinishing :
    {S A B : Type 0} {m : Action S A} {f : A → Action S B}
    → IsFinishing m
    → ((a : A) → IsFinishing (f a))
    → IsFinishing (m >>= f)
>>=-IsFinishing {m} {f} t k = record {
  done = λ s. after-finishes f (m s) (t.done s) (λ a. (k a).done (m s).1);
}

pub if-IsFinishing :
    {S A : Type 0} (b : Bool) {m k : Action S A}
    → IsFinishing m
    → IsFinishing k
    → IsFinishing (if b then m else k)
if-IsFinishing true x y = x
if-IsFinishing false x y = y
