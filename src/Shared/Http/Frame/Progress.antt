-- ===== src/Shared/Http/Frame/Progress.antt =====
-- Reading a request comes to an end.
use hive_core_v.Base.{
  ℕ, zero, suc, String, string_eq, str_eq, ◌≡◌, refl, ap, subst, ◌<◌, ◌≤◌, true, false, List, [],
  ◌∷◌, is_empty, length, arith, Option-cases, Bool-cases, inl, inr,
}
use hive_core_v.Base.HashMap.{HashMap}
use hive_core_v.Shared.Http.Request.{new}
use hive_core_v.Shared.Http.Frame.{
  note_field, read_fields, content_length, read_rest, read_words, read_request,
  read_request_from_reader, write_framed_request,
}
use hive_core_v.Shared.Wire.Utf8.{from_utf8, text_of}
use hive_core_v.Shared.Wire.Text.{trim, trim_end, split_whitespace}
use hive_core_v.Shared.Wire.Stream.{
  Action, Reader, Writer, Line, Outcome, ok, err, unfinished, after, until_newline, read_line,
  line_of, pure, unexpected_eof, invalid_data, write_all, flush,
}
use hive_core_v.Shared.Wire.Stream.Progress.{
  finishes, left, IsTotal, >>=-IsTotal, pure-IsTotal, raise-IsTotal, if-IsTotal, zero-IsTotal,
  after-finishes, read_line-IsTotal, read_line-shorter, read_limited-IsTotal, write_all-finishes,
}

-- A line with a text that is not blank has bytes.
line_of-raw :
    (raw : List ℕ) (line : Line)
    → line_of raw ≡ ok line
    → is_empty (trim_end line.text) ≡ false
    → is_empty line.raw ≡ false
unfolding from_utf8 trim_end
line_of-raw [] line h n = ground arith
line_of-raw (b ∷ bs) line h n = ground arith

not_blank-shorter :
    (r : Reader) (line : Line)
    → (read_line r).0 ≡ ok line
    → is_empty (trim_end line.text) ≡ false
    → left (read_line r).1 < left r
unfolding read_line
not_blank-shorter r line h n =
    let raw = (until_newline r.bytes).0 in
    read_line-shorter r line h (ground (arith, line_of-raw raw line))

next_field : ℕ → HashMap String String → Line → Action Reader (HashMap String String)
next_field fuel m line = elim (is_empty (trim_end line.text)) [
  | true ↦ pure m
  | false ↦ read_fields fuel (note_field (trim_end line.text) m)
]

next_field-total :
    (fuel : ℕ) (m : HashMap String String) (r : Reader) (p : Outcome Line × Reader)
    → read_line r ≡ p
    → left r < suc fuel
    → ((k : HashMap String String) → IsTotal left fuel (read_fields fuel k))
    → (finishes (after (next_field fuel m) p).0 ≡ true)
      × (left (after (next_field fuel m) p).1 ≤ left r)
unfolding next_field
next_field-total fuel m r (ok line, s) e lt ih =
    let all = (read_line-IsTotal (suc fuel)).total r lt in
    let same : (read_line r).1 ≡ s = ap (λ (q : Outcome Line × Reader). q.1) e in
    let here : (read_line r).0 ≡ ok line = ap (λ (q : Outcome Line × Reader). q.0) e in
    let le : left s ≤ left r = subst (λ (x : Reader). left x ≤ left r) same all.1 in
    elim (Bool-cases (is_empty (trim_end line.text))) [
      | inl b ↦ rw (next_field, b) (refl, le)
      | inr n ↦
          let less : left s < left r =
            subst (λ (x : Reader). left x < left r) same (not_blank-shorter r line here n) in
          let (h, k) = (ih (note_field (trim_end line.text) m)).total s (omega arith) in
          rw (next_field, n) (h, omega (arith, k, le))
    ]
next_field-total fuel m r (err k, s) e lt ih =
    ground (arith, (read_line-IsTotal (suc fuel)).total r lt)
next_field-total fuel m r (unfinished, s) e lt ih =
    ground (arith, (read_line-IsTotal (suc fuel)).total r lt)

read_fields-IsTotal :
    (fuel : ℕ) (m : HashMap String String) → IsTotal left fuel (read_fields fuel m)
unfolding read_fields next_field
read_fields-IsTotal zero m = zero-IsTotal left _
read_fields-IsTotal (suc fuel) m = record {
  total = λ r lt. next_field-total fuel m r (read_line r) refl lt (read_fields-IsTotal fuel);
}

module _ {V : Type 0} where
  read_rest-IsTotal :
      (fuel : ℕ) (method uri protocol : String)
      → IsTotal left fuel (read_rest {V = V} fuel method uri protocol)
  unfolding read_rest
  read_rest-IsTotal fuel method uri protocol =
      >>=-IsTotal left fuel (read_fields-IsTotal fuel []) λ headers.
        elim (Option-cases (content_length headers)) [
          | inl n ↦ rw n (pure-IsTotal left fuel (new method uri protocol headers []))
          | inr (k, n) ↦ rw n (
              >>=-IsTotal left fuel (read_limited-IsTotal fuel k)
                λ body. pure-IsTotal left fuel (new method uri protocol headers body))
        ]

  read_words-IsTotal :
      (fuel : ℕ) (words : List (List ℕ)) → IsTotal left fuel (read_words {V = V} fuel words)
  unfolding read_words
  read_words-IsTotal fuel [] = raise-IsTotal left fuel unexpected_eof
  read_words-IsTotal fuel (a ∷ []) = raise-IsTotal left fuel invalid_data
  read_words-IsTotal fuel (a ∷ b ∷ []) = raise-IsTotal left fuel invalid_data
  read_words-IsTotal fuel (a ∷ b ∷ c ∷ []) =
      if-IsTotal left fuel (str_eq (text_of c) "HIVE")
        (pure-IsTotal left fuel (new (text_of a) (text_of b) (text_of c) [] []))
        (read_rest-IsTotal fuel (text_of a) (text_of b) (text_of c))
  read_words-IsTotal fuel (a ∷ b ∷ c ∷ d ∷ ds) = raise-IsTotal left fuel invalid_data

pub read_request-finishes :
    (V : Type 0) (r : Reader) → finishes (read_request_from_reader {V = V} r).0 ≡ true
unfolding read_request_from_reader read_request
read_request-finishes V r =
    let fuel = suc (length r.bytes) in
    let all : IsTotal left fuel (read_request {V = V} fuel) =
      >>=-IsTotal left fuel (read_line-IsTotal fuel)
        (λ line. read_words-IsTotal fuel (split_whitespace (trim line.text))) in
    (all.total r (omega arith)).0

pub write_framed_request-finishes :
    (bs : List ℕ) (w : Writer) → finishes (write_framed_request bs w).0 ≡ true
unfolding write_framed_request flush
write_framed_request-finishes bs w =
    after-finishes _ (write_all _ w) (write_all-finishes _ w)
      λ u. write_all-finishes [] (write_all _ w).1
