-- ===== src/Framing/Chunks/Bounds.antt =====
-- src/session/multiline_framing.rs: what is found in a chunk is a stretch of it.
use nntp_proxy.Base.{ℕ, ◌≤◌, ◌<◌, ◌≡◌, inl, inr, [], ◌∷◌, some, arith, Bytes, length, Option-cases}
use nntp_proxy.Memchr.{Memchr}
use nntp_proxy.Framing.{
  MultilineFramer, tail, find_spanning, find_spanning_terminator, next_terminator_end,
  advance_to_next_terminator_end,
}
use nntp_proxy.Framing.Scan.{scan}
use nntp_proxy.Framing.Chunks.Stream.{head?-terminator_ends_in_chunk}

scan-Consumed : (seen bs : Bytes) {n : ℕ} → scan seen bs ≡ some n → (0 < n) × (n ≤ length bs)
unfolding scan
scan-Consumed seen [] h = cc
scan-Consumed seen (b ∷ bs) {n} h = elim (Option-cases (scan (b ∷ seen) bs)) [
  | inl e ↦ ground arith
  | inr (k, e) ↦ let (p, q) = scan-Consumed (b ∷ seen) bs e in ground (arith, p, q, e)
]

find_spanning_terminator-Consumed :
    (t bs : Bytes) {n : ℕ} → find_spanning_terminator t bs ≡ some n → (0 < n) × (n ≤ length bs)
unfolding find_spanning_terminator
find_spanning_terminator-Consumed t bs {n} h = ground arith

module _ (m : Memchr) where
  next_terminator_end-Consumed :
      (f : MultilineFramer) (bs : Bytes) {n : ℕ}
      → next_terminator_end m f bs ≡ some n
      → (0 < n) × (n ≤ length bs)
  unfolding next_terminator_end find_spanning
  next_terminator_end-Consumed f bs {n} h = ground (
    arith,
    find_spanning_terminator-Consumed (tail f) bs {n = n},
    scan-Consumed [] bs {n = n},
    head?-terminator_ends_in_chunk m bs,
  )

  -- The end that a framer finds lies in the chunk, behind at least one byte of it.
  pub advance_to_next_terminator_end_bounds :
      (f g : MultilineFramer) (bs : Bytes) (n : ℕ)
      → advance_to_next_terminator_end m f bs ≡ (g, some n)
      → (0 < n) × (n ≤ length bs)
  unfolding advance_to_next_terminator_end
  advance_to_next_terminator_end_bounds f g bs n h =
      elim (Option-cases (next_terminator_end m f bs)) [
        | inl e ↦ ground arith
        | inr (k, e) ↦
            let (p, q) = next_terminator_end-Consumed f bs e in ground (arith, p, q, e, h)
      ]
