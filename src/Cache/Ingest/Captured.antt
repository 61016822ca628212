-- ===== src/Cache/Ingest/Captured.antt =====
-- src/session/multiline_framing.rs: sections of lines are found whole in a captured payload.
use nntp_proxy.Base.{
  suc, ◌+◌, ◌-◌, ◌≡◌, refl, ap, sym, ◌∙◌, inl, inr, false, List, [], ◌∷◌, ◌++◌, some, ltb, length,
  length-append, take, drop, drop-drop, take-length-append, drop-length-append, All, Bytes,
  bytes_eq, bytes_eq_iff, codes, arith, Bool-cases, ok,
}
use nntp_proxy.Memchr.{Memchr}
use nntp_proxy.Framing.{
  dot_terminator, default_framer, BytesPolicy, split_chunk, next_terminator_end, find_spanning,
}
use nntp_proxy.Framing.Scan.{plus}
use nntp_proxy.Framing.Scan.Find.{scan-find_first}
use nntp_proxy.Framing.Chunks.Stream.{head?-terminator_ends_in_chunk}
use nntp_proxy.Framing.Policy.{split_chunk_reject}
use nntp_proxy.Cache.Ingest.{captured_multiline_payload_body, captured_article_payload_sections}
use nntp_proxy.Cache.Ingest.Lines.{
  IsText, IsHeader, unlines, lines_end, length-wrapped, headers_end,
}

module _ (m : Memchr) where
  split_lines :
      (l : Bytes) (ls : List Bytes)
      → IsText l
      → All IsText ls
      → split_chunk m default_framer (unlines (l ∷ ls) ++ dot_terminator) BytesPolicy.reject
        ≡ ok (default_framer, some (length (unlines (l ∷ ls)) + 3))
  unfolding next_terminator_end find_spanning
  split_lines l ls h hs =
      let payload = unlines (l ∷ ls) ++ dot_terminator in
      let e : next_terminator_end m default_framer payload ≡ some (length payload) =
        head?-terminator_ends_in_chunk m payload
        ∙ scan-find_first payload
        ∙ ap (plus 5) (lines_end l ls h hs)
        ∙ ap some (omega (arith, length-wrapped l ls)) in
      split_chunk_reject m default_framer payload
      ∙ ground (arith, e, length-append (unlines (l ∷ ls)) dot_terminator)

  -- A payload of lines is captured as it was, without the dot behind it.
  pub captured_multiline_payload_body-unlines :
      (ls : List Bytes)
      → All IsText ls
      → captured_multiline_payload_body m (unlines ls ++ dot_terminator) ≡ some (unlines ls)
  unfolding captured_multiline_payload_body bytes_eq
  captured_multiline_payload_body-unlines [] h = refl
  captured_multiline_payload_body-unlines (l ∷ ls) (h, hs) =
      elim (Bool-cases (bytes_eq (unlines (l ∷ ls) ++ dot_terminator) dot_terminator)) [
        | inl e ↦
            let i : unlines (l ∷ ls) ++ dot_terminator ≡ dot_terminator =
              (bytes_eq_iff (unlines (l ∷ ls) ++ dot_terminator) dot_terminator).0 e in
            absurd (omega (arith, ap length i, length-wrapped l ls))
        | inr e ↦
            let k : length (unlines (l ∷ ls)) + 3 - 3 ≡ length (unlines (l ∷ ls)) = omega arith in
            let c : ltb (length (unlines (l ∷ ls)) + 3) 3 ≡ false = ground arith in
            rw
              (e, split_lines l ls h hs, c, k, take-length-append (unlines (l ∷ ls)) dot_terminator)
      ]

  -- The headers end at their blank line, and the body is what stands behind it.
  pub captured_article_payload_sections-unlines :
      (hs : List Bytes) (text : Bytes)
      → All IsHeader hs
      → captured_article_payload_sections m (unlines hs ++ (codes "\r\n" ++ text))
        ≡ some (unlines hs, text)
  unfolding captured_article_payload_sections bytes_eq
  captured_article_payload_sections-unlines [] text h = refl
  captured_article_payload_sections-unlines ([] ∷ hs) text (k, ks) = absurd k
  captured_article_payload_sections-unlines ((b ∷ h) ∷ hs) text (k, ks) =
      let headers = unlines ((b ∷ h) ∷ hs) in
      let n = suc (length h) + length (unlines hs) in
      let e : bytes_eq (take 2 (headers ++ (codes "\r\n" ++ text))) (codes "\r\n") ≡ false =
        ground (arith, k) in
      let f : m.find (codes "\r\n\r\n") (headers ++ (codes "\r\n" ++ text)) ≡ some n =
        m.find_lem (codes "\r\n\r\n") (headers ++ (codes "\r\n" ++ text))
        ∙ headers_end (b ∷ h) hs text k ks in
      let l : n + 2 ≡ length headers =
        omega (arith, length-append (b ∷ h) (b'\r' ∷ b'\n' ∷ unlines hs)) in
      let p : take (n + 2) (headers ++ (codes "\r\n" ++ text)) ≡ headers =
        ap (λ i. take i (headers ++ (codes "\r\n" ++ text))) l
        ∙ take-length-append headers (codes "\r\n" ++ text) in
      let l2 : n + 4 ≡ length headers + 2 = omega (arith, l) in
      let q : drop (n + 4) (headers ++ (codes "\r\n" ++ text)) ≡ text =
        ap (λ i. drop i (headers ++ (codes "\r\n" ++ text))) l2
        ∙ sym (drop-drop (length headers) 2 (headers ++ (codes "\r\n" ++ text)))
        ∙ ap (drop 2) (drop-length-append headers (codes "\r\n" ++ text)) in
      ground (arith, e, f, p, q)
