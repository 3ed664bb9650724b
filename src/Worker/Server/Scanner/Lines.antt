-- ===== src/Worker/Server/Scanner/Lines.antt =====
-- The scanner's pending line does not depend on how the answer is cut into chunks.
use mathlib.Core.List.{append_assoc, append-nil}
use hive_core_v.Base.{
  ℕ, zero, suc, ◌<◌, ◌≡◌, refl, sym, ap, ◌∙◌, ◌||◌, true, false, List, [], ◌∷◌, ◌++◌, is_empty,
  length, ◌==◌, if◌then◌else◌, arith, Bool-cases, inl, inr,
}
use hive_core_v.Shared.Http.Json.{Json}
use hive_core_v.Shared.Http.TokenUsage.{parse_usage_json}
use hive_core_v.Shared.Wire.Utf8.{from_utf8_lossy}
use hive_core_v.Shared.Wire.Stream.{until_newline}
use hive_core_v.Worker.Server.Scanner.{
  UsageLineScanner, default, newer, has_newline, observe, drain_lines, push, finish,
}

-- The bytes behind the last newline.
abbrev pub last_line : List ℕ → List ℕ
last_line [] = []
last_line (b ∷ bs) =
    let later = last_line bs in if has_newline bs then later else if b == 10 then bs else b ∷ bs

last_line_whole : (bs : List ℕ) → has_newline bs ≡ false → last_line bs ≡ bs
last_line_whole [] h = refl
last_line_whole (b ∷ bs) h = ground arith

last_line-rest :
    (bs : List ℕ)
    → has_newline bs ≡ true
    → (last_line (until_newline bs).1 ≡ last_line bs) × (length (until_newline bs).1 < length bs)
unfolding until_newline
last_line-rest [] h = cc
last_line-rest (b ∷ bs) h = ground (arith, last_line-rest bs, last_line_whole bs)

has_newline-append : (xs ys : List ℕ) → has_newline (xs ++ ys) ≡ (has_newline xs || has_newline ys)
has_newline-append [] ys = refl
has_newline-append (x ∷ xs) ys = ground (arith, has_newline-append xs ys)

last_line-append : (xs ys : List ℕ) → last_line (last_line xs ++ ys) ≡ last_line (xs ++ ys)
last_line-append [] ys = refl
last_line-append (x ∷ xs) ys =
    ground (arith, last_line-append xs ys, has_newline-append xs ys, last_line_whole (xs ++ ys))

last_line_idem : (xs : List ℕ) → last_line (last_line xs) ≡ last_line xs
last_line_idem xs =
    ap last_line (sym (append-nil (last_line xs)))
    ∙ last_line-append xs []
    ∙ ap last_line (append-nil xs)

-- The chunks of an answer in one.
abbrev pub joined : List (List ℕ) → List ℕ
joined [] = []
joined (c ∷ cs) = c ++ joined cs

module _ (json : Json) where
  observe-pending : (bs : List ℕ) (s : UsageLineScanner) → (observe json bs s).pending ≡ s.pending
  unfolding observe
  observe-pending bs s = refl

  drain_lines-pending :
      (fuel : ℕ) (s : UsageLineScanner)
      → length s.pending < fuel
      → (drain_lines json fuel s).pending ≡ last_line s.pending
  unfolding drain_lines observe
  drain_lines-pending zero s lt = absurd (omega arith)
  drain_lines-pending (suc fuel) s lt = elim (Bool-cases (has_newline s.pending)) [
    | inl h ↦
        let (line, rest) = until_newline s.pending in
        let (same, less) = last_line-rest s.pending h in
        let s' : UsageLineScanner = observe json line (record s { pending = rest }) in
        rw (drain_lines, h) (drain_lines-pending fuel s' (omega (arith, lt, less)) ∙ same)
    | inr n ↦ rw (drain_lines, n) (sym (last_line_whole s.pending n))
  ]

  push-pending :
      (bs : List ℕ) (s : UsageLineScanner) → (push json bs s).pending ≡ last_line (s.pending ++ bs)
  unfolding push observe
  push-pending bs s =
      drain_lines-pending (suc (length (s.pending ++ bs)))
        (record (observe json bs s) { pending = s.pending ++ bs }) (omega arith)

  -- The chunks of an answer, pushed one after the other.
  abbrev pub push_all : List (List ℕ) → UsageLineScanner → UsageLineScanner
  push_all [] s = s
  push_all (c ∷ cs) s = push_all cs (push json c s)

  push_all-pending :
      (cs : List (List ℕ)) (s : UsageLineScanner)
      → s.pending ≡ last_line s.pending
      → (push_all cs s).pending ≡ last_line (s.pending ++ joined cs)
  push_all-pending [] s e = e ∙ ap last_line (sym (append-nil s.pending))
  push_all-pending (c ∷ cs) s e =
      let p = push-pending c s in
      let idle = last_line_idem (s.pending ++ c) in
      push_all-pending cs (push json c s) (p ∙ sym idle ∙ ap last_line (sym p))
      ∙ ap (λ xs. last_line (xs ++ joined cs)) p
      ∙ last_line-append (s.pending ++ c) (joined cs)
      ∙ ap last_line (append_assoc s.pending c (joined cs))

  -- However an answer, or any first part of it, is cut into chunks, the scanner that has read
  -- them from its start on has as its pending line the bytes behind the last newline of their
  -- concatenation, so no loop over lines stopped early; and `finish` gives the usage of exactly
  -- those bytes where they are some and have one, and otherwise the usage that the scanner has
  -- observed.
  pub finish-last :
      (cs : List (List ℕ))
      → ((push_all cs default).pending ≡ last_line (joined cs))
        × (finish json (push_all cs default) ≡ (
            if is_empty (last_line (joined cs))
            then (push_all cs default).observed
            else newer
                (push_all cs default).observed
                (parse_usage_json json (from_utf8_lossy (last_line (joined cs))))))
  unfolding finish observe
  finish-last cs = let p = push_all-pending cs default refl in (p, rw (finish, p) refl)
