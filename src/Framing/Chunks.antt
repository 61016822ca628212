-- ===== src/Framing/Chunks.antt =====
-- src/session/multiline_framing.rs: a chunk after the tail of the stream before it.
pub mod Stream
pub mod Bounds
use nntp_proxy.Base.{
  ℕ, suc, ◌+◌, ◌≤◌, ◌≡◌, refl, ap, sym, ◌∙◌, Bool, true, false, ◌&&◌, [], ◌∷◌, ◌++◌, Option, none,
  some, arith, ◌==◌, if◌then◌else◌, Bytes, bytes_eq, codes, length, take, drop, ◌-◌, le_or_lt, inl,
  inr, take-append-drop, length-drop,
}
use nntp_proxy.Framing.{terminator, tail_size, last_bytes, find_spanning_terminator, or_else}
use nntp_proxy.Framing.Scan.{scan, backwards}
use nntp_proxy.Framing.Scan.Window.{
  scan_window, starts, scan_first, scan_second, scan_third, scan_fourth,
}
use nntp_proxy.Framing.Scan.Find.{bytes_eq-take}

-- Two terminators share the boundary: the tail is all but the last byte of one, and the chunk goes
-- on so that its own last byte begins another.
abbrev pub overlaps : Bytes → Bytes → Bool
overlaps tail chunk = bytes_eq tail (codes "\r\n.\r") && starts (codes "\n.\r\n") chunk

starts-length : (x bs : Bytes) → starts x bs ≡ true → length x ≤ length bs
starts-length [] bs h = omega arith
starts-length (x ∷ xs) [] h = cc
starts-length (x ∷ xs) (b ∷ bs) h = ground (arith, starts-length xs bs)

spanning_four :
    (a b c d : ℕ) (chunk : Bytes)
    → overlaps (a ∷ b ∷ c ∷ d ∷ []) chunk ≡ false
    → or_else (find_spanning_terminator (a ∷ b ∷ c ∷ d ∷ []) chunk) (scan [] chunk)
      ≡ scan (d ∷ c ∷ b ∷ a ∷ []) chunk
unfolding find_spanning_terminator bytes_eq
spanning_four a b c d chunk h = ground (
  arith,
  scan_fourth d c b a chunk,
  scan_third d c b chunk,
  scan_second d c chunk,
  scan_first d chunk,
  bytes_eq-take (codes "\n.\r\n") chunk,
  bytes_eq-take (codes ".\r\n") chunk,
  bytes_eq-take (codes "\r\n") chunk,
  bytes_eq-take (codes "\n") chunk,
  starts-length (codes "\n.\r\n") chunk,
  starts-length (codes ".\r\n") chunk,
  starts-length (codes "\r\n") chunk,
  starts-length (codes "\n") chunk,
)

spanning_three :
    (a b c : ℕ) (chunk : Bytes)
    → or_else (find_spanning_terminator (a ∷ b ∷ c ∷ []) chunk) (scan [] chunk)
      ≡ scan (c ∷ b ∷ a ∷ []) chunk
unfolding find_spanning_terminator bytes_eq
spanning_three a b c chunk = ground (
  arith,
  scan_third c b a chunk,
  scan_second c b chunk,
  scan_first c chunk,
  bytes_eq-take (codes "\n.\r\n") chunk,
  bytes_eq-take (codes ".\r\n") chunk,
  bytes_eq-take (codes "\r\n") chunk,
  starts-length (codes "\n.\r\n") chunk,
  starts-length (codes ".\r\n") chunk,
  starts-length (codes "\r\n") chunk,
)

spanning_two :
    (a b : ℕ) (chunk : Bytes)
    → or_else (find_spanning_terminator (a ∷ b ∷ []) chunk) (scan [] chunk)
      ≡ scan (b ∷ a ∷ []) chunk
unfolding find_spanning_terminator bytes_eq
spanning_two a b chunk = ground (
  arith,
  scan_second b a chunk,
  scan_first b chunk,
  bytes_eq-take (codes "\n.\r\n") chunk,
  bytes_eq-take (codes ".\r\n") chunk,
  starts-length (codes "\n.\r\n") chunk,
  starts-length (codes ".\r\n") chunk,
)

spanning_one :
    (a : ℕ) (chunk : Bytes)
    → or_else (find_spanning_terminator (a ∷ []) chunk) (scan [] chunk) ≡ scan (a ∷ []) chunk
unfolding find_spanning_terminator bytes_eq
spanning_one a chunk = ground (
  arith,
  scan_first a chunk,
  bytes_eq-take (codes "\n.\r\n") chunk,
  starts-length (codes "\n.\r\n") chunk,
)

-- With a tail of at most four bytes, the tests of the boundary and the search of the chunk find
-- together what a scan that has seen the tail finds, unless two terminators share the boundary.
spanning_tail :
    (t chunk : Bytes)
    → length t ≤ tail_size
    → overlaps t chunk ≡ false
    → or_else (find_spanning_terminator t chunk) (scan [] chunk) ≡ scan (backwards t []) chunk
spanning_tail [] chunk h o = unfold find_spanning_terminator in refl
spanning_tail (a ∷ []) chunk h o = spanning_one a chunk
spanning_tail (a ∷ b ∷ []) chunk h o = spanning_two a b chunk
spanning_tail (a ∷ b ∷ c ∷ []) chunk h o = spanning_three a b c chunk
spanning_tail (a ∷ b ∷ c ∷ d ∷ []) chunk h o = spanning_four a b c d chunk o
spanning_tail (a ∷ b ∷ c ∷ d ∷ e ∷ t) chunk h o = absurd (omega arith)

-- When the tail is all but the last byte of a terminator and the chunk begins with the end of a
-- second one, the tests of the boundary find the second, four bytes into the chunk, although the
-- first ends with the first byte.
pub find_spanning_terminator_late :
    (tail rest : Bytes)
    → tail ≡ codes "\r\n.\r"
    → (find_spanning_terminator tail (codes "\n.\r\n" ++ rest) ≡ some 4)
      × (scan (backwards tail []) (codes "\n.\r\n" ++ rest) ≡ some 1)
unfolding find_spanning_terminator bytes_eq scan
find_spanning_terminator_late tail rest h = ground (arith, h)

pub backwards-append :
    (xs ys seen : Bytes) → backwards (xs ++ ys) seen ≡ backwards ys (backwards xs seen)
backwards-append [] ys seen = refl
backwards-append (x ∷ xs) ys seen = backwards-append xs ys (x ∷ seen)

scan_four :
    (t seen chunk : Bytes)
    → length t ≡ tail_size
    → scan (backwards t seen) chunk ≡ scan (backwards t []) chunk
scan_four (a ∷ b ∷ c ∷ d ∷ []) seen chunk h = scan_window d c b a seen [] chunk
scan_four (a ∷ b ∷ c ∷ d ∷ e ∷ t) seen chunk h = absurd (omega arith)
scan_four [] seen chunk h = absurd (omega arith)
scan_four (a ∷ []) seen chunk h = absurd (omega arith)
scan_four (a ∷ b ∷ []) seen chunk h = absurd (omega arith)
scan_four (a ∷ b ∷ c ∷ []) seen chunk h = absurd (omega arith)

-- The last four bytes of the stream are all that the scan of what follows depends on.
scan-last_bytes :
    (stream chunk : Bytes)
    → scan (backwards stream []) chunk ≡ scan (backwards (last_bytes tail_size stream) []) chunk
scan-last_bytes stream chunk = elim (le_or_lt tail_size (length stream)) [
  | inr h ↦
      let e : length stream - tail_size ≡ 0 = omega arith in
      ap (λ k. scan (backwards (drop k stream) []) chunk) (sym e)
  | inl h ↦
      let k = length stream - tail_size in
      let t = last_bytes tail_size stream in
      ap (λ s. scan (backwards s []) chunk) (sym (take-append-drop k stream))
      ∙ ap (λ s. scan s chunk) (backwards-append (take k stream) t [])
      ∙ scan_four t (backwards (take k stream) []) chunk (omega (arith, length-drop k stream))
]
