-- ===== src/Worker/Server/Relay/Decode.antt =====
-- `capture_worker_response` takes the chunked coding of HTTP off a body.
use mathlib.Core.List.{append_assoc, append-nil}
use hive_core_v.Base.{
  ℕ, zero, suc, ◌+◌, ◌<◌, true, false, Option, some, List, [], ◌∷◌, ◌++◌, ◌≡◌, refl, sym, ap, ◌∙◌,
  subst, any, All, is_empty, length, length-append, take, drop, leb, ◌==◌, arith,
}
use hive_core_v.Shared.Wire.Utf8.{codes, from_utf8}
use hive_core_v.Shared.Wire.Stream.{
  ErrorKind, ok, Reader, until_newline, read_line, read_exact, line_of, after,
}
use hive_core_v.Worker.Server.Chunks.{parse_chunk_size, discard_chunk_trailers}
use hive_core_v.Worker.Server.Relay.{fuel_of}
use hive_core_v.Worker.Server.Relay.Kept.{collect_chunks}

-- One line with its newline, and its text.
pub record IsLine (raw text : List ℕ) : Type 0 where
  pub ends : any (λ b. b == 10) raw ≡ true
  pub single : until_newline raw ≡ (raw, [])
  pub utf8 : from_utf8 raw ≡ some text

-- A chunk: the line of its size, its bytes, and the line end behind them.
pub record Chunk : Type 0 where
  pub size_line : List ℕ
  pub size_text : List ℕ
  pub bytes : List ℕ
  pub line_end : List ℕ

-- The size line says how many bytes there are, and there are some.
pub record IsChunk (c : Chunk) : Type 0 where
  pub line : IsLine c.size_line c.size_text
  pub size : parse_chunk_size c.size_text ≡ some (length c.bytes)
  pub some_bytes : (length c.bytes == 0) ≡ false
  pub ended : length c.line_end ≡ 2

-- The chunks, and then the last chunk and no trailers.
abbrev pub encoded : List Chunk → List ℕ → List ℕ
encoded [] rest = codes "0\r\n" ++ (codes "\r\n" ++ rest)
encoded (c ∷ cs) rest = c.size_line ++ (c.bytes ++ (c.line_end ++ encoded cs rest))

abbrev pub contents : List Chunk → List ℕ
contents [] = []
contents (c ∷ cs) = c.bytes ++ contents cs

until_newline-append :
    (raw rest : List ℕ)
    → any (λ b. b == 10) raw ≡ true
    → until_newline (raw ++ rest) ≡ ((until_newline raw).0, (until_newline raw).1 ++ rest)
unfolding until_newline
until_newline-append [] rest h = cc
until_newline-append (b ∷ bs) rest h = ground (arith, until_newline-append bs rest)

any-append :
    (raw rest : List ℕ) → any (λ b. b == 10) raw ≡ true → any (λ b. b == 10) (raw ++ rest) ≡ true
any-append [] rest h = cc
any-append (b ∷ bs) rest h = ground (arith, any-append bs rest)

read_line-line :
    (raw text rest : List ℕ) (e : Option ErrorKind)
    → IsLine raw text
    → read_line (record { bytes = raw ++ rest; at_end = e })
      ≡ (ok (record { raw = raw; text = text }), record { bytes = rest; at_end = e })
unfolding read_line
read_line-line raw text rest e l =
    let split : until_newline (raw ++ rest) ≡ (raw, rest) =
      until_newline-append raw rest l.ends
      ∙ ap (λ (p : List ℕ × List ℕ). (p.0, p.1 ++ rest)) l.single in
    rw (any-append raw rest l.ends, line_of, split, l.utf8)
      (ap
        (λ (p : List ℕ × List ℕ).
          (ok (record { raw = p.0; text = text }), record { bytes = rest; at_end = e }))
        split)

take-append : (xs ys : List ℕ) → take (length xs) (xs ++ ys) ≡ xs
take-append [] ys = refl
take-append (x ∷ xs) ys = ap (λ zs. x ∷ zs) (take-append xs ys)

drop-append : (xs ys : List ℕ) → drop (length xs) (xs ++ ys) ≡ ys
drop-append [] ys = refl
drop-append (x ∷ xs) ys = drop-append xs ys

leb-append : (xs ys : List ℕ) → leb (length xs) (length (xs ++ ys)) ≡ true
leb-append [] ys = ground arith
leb-append (x ∷ xs) ys = ground (arith, leb-append xs ys)

read_exact-append :
    (xs rest : List ℕ) (e : Option ErrorKind)
    → read_exact (length xs) (record { bytes = xs ++ rest; at_end = e })
      ≡ (ok xs, record { bytes = rest; at_end = e })
unfolding read_exact
read_exact-append xs rest e = rw (leb-append xs rest, take-append xs rest, drop-append xs rest) refl

read_end :
    (end rest : List ℕ) (e : Option ErrorKind)
    → length end ≡ 2
    → read_exact 2 (record { bytes = end ++ rest; at_end = e })
      ≡ (ok end, record { bytes = rest; at_end = e })
read_end end rest e two =
    subst
      (λ n.
        read_exact n (record { bytes = end ++ rest; at_end = e })
        ≡ (ok end, record { bytes = rest; at_end = e }))
      two (read_exact-append end rest e)

not_empty : (raw : List ℕ) → any (λ b. b == 10) raw ≡ true → is_empty raw ≡ false
not_empty [] h = cc
not_empty (b ∷ bs) h = refl

positive : (raw : List ℕ) → any (λ b. b == 10) raw ≡ true → 0 < length raw
positive [] h = cc
positive (b ∷ bs) h = omega arith

collect_chunk :
    (fuel : ℕ) (body : List ℕ) (c : Chunk) (rest : List ℕ) (e : Option ErrorKind)
    → IsChunk c
    → collect_chunks
        (suc fuel)
        body
        (record { bytes = c.size_line ++ (c.bytes ++ (c.line_end ++ rest)); at_end = e })
      ≡ collect_chunks fuel (body ++ c.bytes) (record { bytes = rest; at_end = e })
unfolding collect_chunks
collect_chunk fuel body c rest e k =
    rw
      (
        read_line-line c.size_line c.size_text (c.bytes ++ (c.line_end ++ rest)) e k.line,
        not_empty c.size_line k.line.ends,
        k.size,
      )
      (rw
        (
          after,
          k.some_bytes,
          read_exact-append c.bytes (c.line_end ++ rest) e,
          read_end c.line_end rest e k.ended,
        )
        refl)

collect_last :
    (fuel : ℕ) (body rest : List ℕ) (e : Option ErrorKind)
    → collect_chunks (suc (suc fuel)) body (record { bytes = encoded [] rest; at_end = e })
      ≡ (ok body, record { bytes = rest; at_end = e })
unfolding collect_chunks read_line parse_chunk_size discard_chunk_trailers
collect_last fuel body rest e = refl

collect_chunked :
    (fuel : ℕ) (body : List ℕ) (cs : List Chunk) (rest : List ℕ) (e : Option ErrorKind)
    → All IsChunk cs
    → length cs + 1 < fuel
    → collect_chunks fuel body (record { bytes = encoded cs rest; at_end = e })
      ≡ (ok (body ++ contents cs), record { bytes = rest; at_end = e })
collect_chunked zero body cs rest e h lt = absurd (omega (arith, lt))
collect_chunked (suc zero) body cs rest e h lt = absurd (omega (arith, lt))
collect_chunked (suc (suc fuel)) body [] rest e h lt =
    collect_last fuel body rest e
    ∙ ap (λ (bs : List ℕ). (ok bs, record { bytes = rest; at_end = e })) (sym (append-nil body))
collect_chunked (suc (suc fuel)) body (c ∷ cs) rest e h lt =
    collect_chunk (suc fuel) body c (encoded cs rest) e h.0
    ∙ collect_chunked (suc fuel) (body ++ c.bytes) cs rest e h.1 (omega (arith, lt))
    ∙ ap (λ (bs : List ℕ). (ok bs, record { bytes = rest; at_end = e }))
        (append_assoc body c.bytes (contents cs))

chunk_length : (c : Chunk) → IsChunk c → 0 < length c.size_line
chunk_length c k = positive c.size_line k.line.ends

encoded-length :
    (cs : List Chunk) (rest : List ℕ)
    → All IsChunk cs
    → length cs + 1 < suc (length (encoded cs rest))
encoded-length [] rest h = omega arith
encoded-length (c ∷ cs) rest h =
    let tail = encoded cs rest in
    omega (
      arith,
      encoded-length cs rest h.1,
      chunk_length c h.0,
      length-append c.size_line (c.bytes ++ (c.line_end ++ tail)),
      length-append c.bytes (c.line_end ++ tail),
      length-append c.line_end tail,
    )

-- A body in the chunked coding, of any chunks with a size line each that gives the number of
-- their bytes, some, and of a last chunk without trailers, is read as the bytes of the chunks in
-- their order, and the reader then stands right behind the body, whatever comes there.
pub collect_chunks-decodes :
    (cs : List Chunk) (rest : List ℕ) (e : Option ErrorKind)
    → All IsChunk cs
    → let r : Reader = record { bytes = encoded cs rest; at_end = e } in
      collect_chunks (fuel_of r) [] r ≡ (ok (contents cs), record { bytes = rest; at_end = e })
collect_chunks-decodes cs rest e h =
    collect_chunked (suc (length (encoded cs rest))) [] cs rest e h (encoded-length cs rest h)
