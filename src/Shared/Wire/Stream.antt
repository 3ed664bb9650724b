-- ===== src/Shared/Wire/Stream.antt =====
-- The readers and writers of a connection (`BufRead`, `Read`, `Write`), and actions on a state that
-- may fail. The bytes of a reader are all that will come before its end.
pub mod Progress
use hive_core_v.Base.{
  ℕ, zero, suc, Bool, true, false, ◌||◌, Option, none, some, List, [], ◌∷◌, ◌++◌, any, take, drop,
  length, leb, ◌==◌, if◌then◌else◌, ◌≡◌, refl,
}
use hive_core_v.Shared.Wire.Utf8.{from_utf8}

pub data ErrorKind : Type 0 where
  unexpected_eof invalid_data permission_denied other : ErrorKind

-- `unfinished` is no result of the program: it is the answer of a loop of the model that used up
-- its fuel.
pub data Outcome (A : Type 0) : Type 0 where
  ok : A → Outcome A
  err : ErrorKind → Outcome A
  unfinished : Outcome A

-- What was done to the state before an error stays done.
abbrev pub Action : Type 0 → Type 0 → Type 0
Action S A = S → Outcome A × S

abbrev pub after : {S A B : Type 0} → (A → Action S B) → Outcome A × S → Outcome B × S
after f (ok a, s) = f a s
after f (err e, s) = (err e, s)
after f (unfinished, s) = (unfinished, s)

infixl 5 ◌>>=◌ ◌>>◌
abbrev pub ◌>>=◌ : {S A B : Type 0} → Action S A → (A → Action S B) → Action S B
◌>>=◌ m f s = after f (m s)

abbrev pub ◌>>◌ : {S A B : Type 0} → Action S A → Action S B → Action S B
m >> k = m >>= λ _. k

abbrev pub pure : {S A : Type 0} → A → Action S A
pure a s = (ok a, s)

abbrev pub raise : {S A : Type 0} → ErrorKind → Action S A
raise e s = (err e, s)

abbrev pub or_err : {A : Type 0} → Option A → ErrorKind → Outcome A
or_err none e = err e
or_err (some a) e = ok a

abbrev pub or_raise : {S A : Type 0} → Option A → ErrorKind → Action S A
or_raise o e s = (or_err o e, s)

-- `at_end` is what a read at the end answers: `none` is the end of the stream, and otherwise the
-- error, as of a connection that times out.
pub record Reader : Type 0 where
  pub bytes : List ℕ
  pub at_end : Option ErrorKind

-- A writer lets `left` more calls succeed; what a failed call sent is not counted.
pub record Writer : Type 0 where
  pub sent : List ℕ
  pub left : ℕ

pub record Line : Type 0 where
  pub raw : List ℕ
  pub text : List ℕ

-- The bytes up to a newline with the newline, and the rest.
unfoldable pub until_newline : List ℕ → List ℕ × List ℕ
until_newline [] = ([], [])
until_newline (b ∷ bs) =
    let (line, rest) = until_newline bs in if b == 10 then (b ∷ [], bs) else (b ∷ line, rest)

abbrev pub is_none : {A : Type 0} → Option A → Bool
is_none none = true
is_none (some a) = false

abbrev pub kind_or : ErrorKind → Option ErrorKind → ErrorKind
kind_or e none = e
kind_or e (some f) = f

abbrev pub line_of : List ℕ → Outcome Line
line_of raw = elim (from_utf8 raw) [
  | none ↦ err invalid_data
  | some text ↦ ok (record { raw = raw; text = text })
]

-- `read_line`: an empty line is the end of the stream.
unfoldable pub read_line : Action Reader Line
unfolding until_newline from_utf8
read_line r =
    let (line, rest) = until_newline r.bytes in
    (
      if any (λ b. b == 10) r.bytes || is_none r.at_end
          then line_of line
          else err (kind_or other r.at_end),
      record r { bytes = rest },
    )

unfoldable pub read_exact : ℕ → Action Reader (List ℕ)
read_exact n r =
    if leb n (length r.bytes)
    then (ok (take n r.bytes), record r { bytes = drop n r.bytes })
    else (err (kind_or unexpected_eof r.at_end), record r { bytes = [] })

unfoldable pub read_to_end : Action Reader (List ℕ)
read_to_end r = (elim r.at_end [ none ↦ ok r.bytes | some e ↦ err e ], record r { bytes = [] })

-- `take(n)` and then `read_to_end`: fewer bytes than `n` where the stream ends.
unfoldable pub read_limited : ℕ → Action Reader (List ℕ)
unfolding read_to_end
read_limited n r =
    if leb n (length r.bytes)
    then (ok (take n r.bytes), record r { bytes = drop n r.bytes })
    else read_to_end r

unfoldable pub write_all : List ℕ → Action Writer (Unit {0})
write_all bs w = elim w.left [
  | zero ↦ (err other, w)
  | suc n ↦ (ok tt, record w { sent = w.sent ++ bs; left = n })
]

-- `flush`
unfoldable pub flush : Action Writer (Unit {0})
unfolding write_all
flush = write_all []

stream-tests :
    (read_line (record { bytes = 97 ∷ 10 ∷ 98 ∷ []; at_end = none }) ≡ (
      ok (record { raw = 97 ∷ 10 ∷ []; text = 97 ∷ 10 ∷ [] }),
      record { bytes = 98 ∷ []; at_end = none },
    ))
    × ((read_line (record { bytes = 98 ∷ []; at_end = some other })).0 ≡ err other)
    × ((read_exact 2 (record { bytes = 98 ∷ []; at_end = none })).0 ≡ err unexpected_eof)
unfolding read_line read_exact
stream-tests = (refl, refl, refl)
