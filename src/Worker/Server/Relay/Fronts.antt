-- ===== src/Worker/Server/Relay/Fronts.antt =====
-- Reads that take what they give from the front, and actions that pass on what they read.
use hive_core_v.Base.{
  ℕ, zero, suc, Bool, true, false, Option, List, [], ◌∷◌, ◌++◌, ◌≡◌, refl, sym, ap, ◌∙◌, is_empty,
  take, drop, if◌then◌else◌, arith, Bool-cases, inl, inr,
}
use mathlib.Core.List.{append_assoc, append-nil}
use hive_core_v.Shared.Wire.Text.{trim_end}
use hive_core_v.Shared.Wire.Stream.{
  ErrorKind, Action, ◌>>=◌, after, pure, raise, or_raise, Outcome, ok, err, unfinished,
  unexpected_eof, Reader, Line, until_newline, read_line, line_of, read_exact, read_to_end,
  write_all,
}
use hive_core_v.Worker.Server.Chunks.{some_line}
use hive_core_v.Worker.Server.Relay.{
  Relay, ResponseCaptureBuilder, reading, writing, capturing, relay_chunk_trailers,
}

-- A read takes what it gives from the front.
pub record IsFront {A : Type 0} (bytes : A → List ℕ) (m : Action Reader A) : Type 0 where
  front : (r : Reader) (a : A) → (m r).0 ≡ ok a → bytes a ++ (m r).1.bytes ≡ r.bytes

until_newline-append : (bs : List ℕ) → (until_newline bs).0 ++ (until_newline bs).1 ≡ bs
unfolding until_newline
until_newline-append [] = refl
until_newline-append (b ∷ bs) = ground (arith, until_newline-append bs)

take-drop : (n : ℕ) (xs : List ℕ) → take n xs ++ drop n xs ≡ xs
take-drop zero xs = refl
take-drop (suc n) [] = refl
take-drop (suc n) (x ∷ xs) = ap (λ ys. x ∷ ys) (take-drop n xs)

line_of-raw : (raw : List ℕ) (line : Line) → line_of raw ≡ ok line → line.raw ≡ raw
line_of-raw raw line h = ground arith

read_line-front :
    (r : Reader) (line : Line)
    → (read_line r).0 ≡ ok line
    → line.raw ++ (read_line r).1.bytes ≡ r.bytes
unfolding read_line
read_line-front r line h =
    let raw = (until_newline r.bytes).0 in
    let same : line.raw ≡ raw = ground (arith, line_of-raw raw line) in
    ap (λ xs. xs ++ (until_newline r.bytes).1) same ∙ until_newline-append r.bytes

there : Line → Action Reader Line
there l = if is_empty l.raw then raise unexpected_eof else pure l

there-front :
    (r : Reader) (p : Outcome Line × Reader) (line : Line)
    → read_line r ≡ p
    → (after there p).0 ≡ ok line
    → line.raw ++ (after there p).1.bytes ≡ r.bytes
unfolding there
there-front r (ok l, s) line e h = elim (Bool-cases (is_empty l.raw)) [
  | inl i ↦ absurd (ground (arith, i, h))
  | inr n ↦
      let same : l ≡ line = ground (arith, n, h) in
      let rest : (after there (ok l, s)).1 ≡ s = ground (arith, n) in
      ap (λ (x : Reader). line.raw ++ x.bytes) rest
      ∙ ap (λ (x : Line). x.raw ++ s.bytes) (sym same)
      ∙ ap (λ (q : Outcome Line × Reader). l.raw ++ q.1.bytes) (sym e)
      ∙ read_line-front r l (ap (λ (q : Outcome Line × Reader). q.0) e)
]
there-front r (err k, s) line e h = cc
there-front r (unfinished, s) line e h = cc

pub some_line-IsFront : IsFront (λ line. line.raw) some_line
unfolding there
some_line-IsFront = record { front = λ r line h. there-front r (read_line r) line refl h }

pub read_exact-IsFront : (n : ℕ) → IsFront (λ bs. bs) (read_exact n)
unfolding read_exact
read_exact-IsFront n = record { front = λ r bs h. ground (arith, take-drop n r.bytes) }

pub read_to_end-IsFront : IsFront (λ bs. bs) read_to_end
unfolding read_to_end
read_to_end-IsFront = record { front = λ r bs h. ground (arith, append-nil r.bytes) }

-- What the client has and what is left of the answer.
abbrev pub on_the_way : {V : Type 0} → Relay V → List ℕ
on_the_way s = s.client.sent ++ s.reader.bytes

module _ {V : Type 0} where
  -- A success of the action leaves the bytes on the way as they are.
  pub record IsTransparent {A : Type 0} (m : Action (Relay V) A) : Type 0 where
    pub passes : (s : Relay V) (a : A) → (m s).0 ≡ ok a → on_the_way (m s).1 ≡ on_the_way s

  pub pure-IsTransparent : {A : Type 0} (a : A) → IsTransparent (pure {S = Relay V} a)
  pure-IsTransparent a = record { passes = λ s b h. refl }

  after-passes :
      {A B : Type 0} (f : A → Action (Relay V) B) (p : Outcome A × Relay V) (bs : List ℕ) (b : B)
      → ((a : A) → p.0 ≡ ok a → on_the_way p.1 ≡ bs)
      → ((a : A) → IsTransparent (f a))
      → (after f p).0 ≡ ok b
      → on_the_way (after f p).1 ≡ bs
  after-passes f (ok a, s) bs b h k e = (k a).passes s b e ∙ h a refl
  after-passes f (err x, s) bs b h k e = cc
  after-passes f (unfinished, s) bs b h k e = cc

  pub >>=-IsTransparent :
      {A B : Type 0} {m : Action (Relay V) A} {f : A → Action (Relay V) B}
      → IsTransparent m
      → ((a : A) → IsTransparent (f a))
      → IsTransparent (m >>= f)
  >>=-IsTransparent {m} {f} t k = record {
    passes = λ s b e. after-passes f (m s) (on_the_way s) b (λ a h. t.passes s a h) k e;
  }

  pub capturing-IsTransparent :
      (f : ResponseCaptureBuilder V → ResponseCaptureBuilder V) → IsTransparent (capturing f)
  capturing-IsTransparent f = record { passes = λ s u h. refl }

  pub or_raise-IsTransparent :
      {A : Type 0} (o : Option A) (e : ErrorKind) → IsTransparent (or_raise {S = Relay V} o e)
  or_raise-IsTransparent o e = record { passes = λ s u h. refl }

  pub elim-IsTransparent :
      {A : Type 0} (b : Bool) {m k : Action (Relay V) A}
      → IsTransparent m
      → IsTransparent k
      → IsTransparent (elim b [ true ↦ m | false ↦ k ])
  elim-IsTransparent true x y = x
  elim-IsTransparent false x y = y

  write_passes :
      (bs : List ℕ) (s : Relay V) (u : Unit {0})
      → (writing {V = V} (write_all bs) s).0 ≡ ok u
      → on_the_way (writing {V = V} (write_all bs) s).1 ≡ s.client.sent ++ (bs ++ s.reader.bytes)
  unfolding write_all
  write_passes bs s u h = ground (arith, append_assoc s.client.sent bs s.reader.bytes)

  -- What is read and then written is on the way as before.
  read_write-passes :
      {A B : Type 0} (bytes : A → List ℕ) (f : A → Action (Relay V) B) (s : Relay V) (b : B)
      (p : Outcome A × Reader)
      → ((a : A) → p.0 ≡ ok a → bytes a ++ p.1.bytes ≡ s.reader.bytes)
      → ((a : A) → IsTransparent (f a))
      → let r =
          after
            (λ a. writing (write_all (bytes a)) >>= λ u. f a)
            (p.0, record s { reader = p.1 }) in
        r.0 ≡ ok b → on_the_way r.1 ≡ on_the_way s
  read_write-passes bytes f s b (ok a, r) h k e =
      let s1 : Relay V = record s { reader = r } in
      after-passes (λ u. f a) (writing (write_all (bytes a)) s1) (on_the_way s) b
        (λ u w. write_passes (bytes a) s1 u w ∙ ap (λ xs. s.client.sent ++ xs) (h a refl))
        (λ u. k a) e
  read_write-passes bytes f s b (err x, r) h k e = cc
  read_write-passes bytes f s b (unfinished, r) h k e = cc

  pub pass-IsTransparent :
      {A B : Type 0} (bytes : A → List ℕ) {m : Action Reader A} {f : A → Action (Relay V) B}
      → IsFront bytes m
      → ((a : A) → IsTransparent (f a))
      → IsTransparent (reading m >>= λ a. writing (write_all (bytes a)) >>= λ u. f a)
  pass-IsTransparent bytes {m} {f} t k = record {
    passes = λ s b e. read_write-passes bytes f s b (m s.reader) (λ a h. t.front s.reader a h) k e;
  }

  pub relay_chunk_trailers-IsTransparent :
      (fuel : ℕ) → IsTransparent (relay_chunk_trailers {V = V} fuel)
  unfolding relay_chunk_trailers
  relay_chunk_trailers-IsTransparent zero = record { passes = λ s a h. cc }
  relay_chunk_trailers-IsTransparent (suc fuel) =
      pass-IsTransparent (λ line. line.raw) some_line-IsFront
        λ line.
          elim-IsTransparent (is_empty (trim_end line.text)) (pure-IsTransparent tt)
            (relay_chunk_trailers-IsTransparent fuel)
