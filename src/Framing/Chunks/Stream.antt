-- ===== src/Framing/Chunks/Stream.antt =====
-- src/session/multiline_framing.rs: a stream that arrives in chunks.
use nntp_proxy.Base.{
  ℕ, suc, ◌≡◌, refl, ap, sym, ◌∙◌, Bool, true, false, List, [], ◌∷◌, ◌++◌, Option, none, some,
  arith, if◌then◌else◌, Bytes, length, Option-cases, length-take,
}
use nntp_proxy.Memchr.{Memchr, find_first}
use nntp_proxy.Framing.{
  MultilineFramer, default_framer, terminator, tail, update, find_spanning,
  find_spanning_terminator, or_else, next_terminator_end, terminator_ends_in_chunk, head?,
  ends_fuel, advance_to_next_terminator_end,
}
use nntp_proxy.Framing.Scan.{scan, plus, backwards, ends_terminator}
use nntp_proxy.Framing.Scan.Find.{scan-find_first}
use nntp_proxy.Framing.Chunks.{backwards-append, overlaps, spanning_tail, scan-last_bytes}
use nntp_proxy.Framing.Tail.{Follows, update-Follows, Follows-default}

abbrev pub concat : List Bytes → Bytes
concat [] = []
concat (c ∷ cs) = c ++ concat cs

or_else-plus :
    (o p : Option ℕ) (k : ℕ) → plus 1 (or_else o (plus k p)) ≡ or_else (plus 1 o) (plus (suc k) p)
or_else-plus none none k = refl
or_else-plus none (some q) k = ap some (omega arith)
or_else-plus (some n) p k = refl

-- A scan of two texts is the scan of the first, or else the scan of the second behind it.
pub scan-append :
    (xs ys seen : Bytes)
    → scan seen (xs ++ ys) ≡ or_else (scan seen xs) (plus (length xs) (scan (backwards xs seen) ys))
unfolding scan
scan-append [] ys seen = plus-zero (scan seen ys)
  where
    plus-zero : (o : Option ℕ) → o ≡ plus 0 o
    plus-zero none = refl
    plus-zero (some n) = ap some (omega arith)
scan-append (x ∷ xs) ys seen =
    rw (scan-append xs ys (x ∷ seen))
      (step (ends_terminator (x ∷ seen)) (scan (x ∷ seen) xs) (scan (backwards xs (x ∷ seen)) ys))
  where
    step :
        (b : Bool) (o p : Option ℕ)
        → (if b then some 1 else plus 1 (or_else o (plus (length xs) p)))
          ≡ or_else (if b then some 1 else plus 1 o) (plus (suc (length xs)) p)
    step true o p = refl
    step false o p = or_else-plus o p (length xs)

spanning_of_tail :
    (f : MultilineFramer) (chunk : Bytes)
    → find_spanning f chunk ≡ find_spanning_terminator (tail f) chunk
unfolding find_spanning find_spanning_terminator
spanning_of_tail f chunk = ground arith

-- No boundary between the chunks is shared by two terminators.
abbrev pub IsApart : MultilineFramer → List Bytes → Type 0
IsApart f [] = Unit
IsApart f (c ∷ cs) = (overlaps (tail f) c ≡ false) × IsApart (update f c) cs

module _ (m : Memchr) where
  pub head?-terminator_ends_in_chunk :
      (chunk : Bytes) → head? (terminator_ends_in_chunk m chunk) ≡ scan [] chunk
  unfolding terminator_ends_in_chunk ends_fuel
  head?-terminator_ends_in_chunk chunk =
      ground (arith, m.find_lem terminator chunk, scan-find_first chunk)

  -- After a stream, the framer finds the end of the first terminator that ends in the chunk,
  -- wherever the terminator begins, unless two terminators share the boundary.
  pub next_terminator_end-scan :
      (f : MultilineFramer) (stream chunk : Bytes)
      → Follows f stream
      → overlaps (tail f) chunk ≡ false
      → next_terminator_end m f chunk ≡ scan (backwards stream []) chunk
  unfolding next_terminator_end find_spanning
  next_terminator_end-scan f stream chunk g o =
      let e : find_spanning f chunk ≡ find_spanning_terminator (tail f) chunk =
        spanning_of_tail f chunk in
      ap (λ o. or_else o (head? (terminator_ends_in_chunk m chunk))) e
      ∙ ap (or_else (find_spanning_terminator (tail f) chunk))
          (head?-terminator_ends_in_chunk chunk)
      ∙ spanning_tail (tail f) chunk (omega (arith, length-take f.len f.bytes, g.framer.used)) o
      ∙ ap (λ t. scan (backwards t []) chunk) g.holds
      ∙ sym (scan-last_bytes stream chunk)

  -- The callers' loop: each chunk advances the framer until one holds the end; the result counts
  -- the bytes from the start.
  unfoldable pub advance_chunks : MultilineFramer → List Bytes → Option ℕ
  unfolding advance_to_next_terminator_end
  advance_chunks f [] = none
  advance_chunks f (c ∷ cs) =
      let (g, found) = advance_to_next_terminator_end m f c in
      let rest = advance_chunks g cs in
      elim found [ some end ↦ some end | none ↦ plus (length c) rest ]

  advance_chunks-scan :
      (f : MultilineFramer) (stream : Bytes) (chunks : List Bytes)
      → Follows f stream
      → IsApart f chunks
      → advance_chunks f chunks ≡ scan (backwards stream []) (concat chunks)
  unfolding advance_chunks advance_to_next_terminator_end scan
  advance_chunks-scan f stream [] g o = refl
  advance_chunks-scan f stream (c ∷ cs) g (o, os) =
      let here = next_terminator_end-scan f stream c g o in
      let later =
        advance_chunks-scan (update f c) (stream ++ c) cs (update-Follows f stream c g) os in
      ground (
        arith,
        here,
        later,
        scan-append c (concat cs) (backwards stream []),
        backwards-append stream c [],
        Option-cases (next_terminator_end m f c),
      )

  -- A response is found complete at the same byte however it is cut into chunks: at the end of
  -- the first terminator of the chunks put together, when no boundary is shared by two
  -- terminators.
  pub advance_chunks_lem :
      (chunks : List Bytes)
      → IsApart default_framer chunks
      → advance_chunks default_framer chunks ≡ plus 5 (find_first terminator (concat chunks))
  advance_chunks_lem chunks o =
      advance_chunks-scan default_framer [] chunks Follows-default o
      ∙ scan-find_first (concat chunks)
