-- ===== src/Cache/Ingest/Taken.antt =====
-- src/cache/article.rs: the payload of a served response is taken apart.
use nntp_proxy.Base.{
  ℕ, ◌≡◌, refl, ap, sym, subst₂, ◌∙◌, false, List, [], ◌∷◌, ◌++◌, Option, some, ◌==◌, length,
  append_assoc, All, Bytes, bytes_eq, codes, is_empty,
}
use nntp_proxy.Memchr.{Memchr, find_first}
use nntp_proxy.Protocol.Kind.{RequestKind}
use nntp_proxy.Framing.{dot_terminator}
use nntp_proxy.Cache.Payload.{CachedPayload}
use nntp_proxy.Cache.Serve.{
  CachedResponseWirePayload, digits_of, article_separator, payload_bytes, sections_for,
}
use nntp_proxy.Cache.Ingest.{
  captured_payload_body_for_status, article_payload, payload_for_status, parsed,
  captured_article_payload_sections,
}
use nntp_proxy.Cache.Ingest.Lines.{IsText, IsHeader, unlines}
use nntp_proxy.Cache.Ingest.Captured.{
  captured_multiline_payload_body-unlines, captured_article_payload_sections-unlines,
}

-- The sections consist of lines.
abbrev pub HasLines : CachedPayload → Type 0
HasLines (CachedPayload.article n headers text) =
    (hs : List Bytes) × (ts : List Bytes) × (headers ≡ unlines hs)
    × (text ≡ unlines ts)
    × All IsHeader hs
    × All IsText ts
HasLines (CachedPayload.head n headers) = (hs : List Bytes) × (headers ≡ unlines hs) × All IsText hs
HasLines (CachedPayload.body n text) = (ts : List Bytes) × (text ≡ unlines ts) × All IsText ts
HasLines _ = Unit

-- What a request of the kind can be told of the payload.
abbrev pub served : RequestKind → ℕ → CachedPayload → CachedPayload
served RequestKind.article n (CachedPayload.article k h b) = CachedPayload.article (some n) h b
served RequestKind.head n (CachedPayload.article k h b) = CachedPayload.head (some n) h
served RequestKind.head n (CachedPayload.head k h) = CachedPayload.head (some n) h
served RequestKind.body n (CachedPayload.article k h b) = CachedPayload.body (some n) b
served RequestKind.body n (CachedPayload.body k b) = CachedPayload.body (some n) b
served _ n p = CachedPayload.stat (some n)

IsHeader-IsText : (hs : List Bytes) → All IsHeader hs → All IsText hs
IsHeader-IsText [] h = tt
IsHeader-IsText ([] ∷ hs) (h, k) = absurd h
IsHeader-IsText ((b ∷ l) ∷ hs) (h, k) = (h, IsHeader-IsText hs k)

All-append : (xs ys : List Bytes) → All IsText xs → All IsText ys → All IsText (xs ++ ys)
All-append [] ys h k = k
All-append (x ∷ xs) ys (h, hs) k = (h, All-append xs ys hs k)

unlines-append : (xs ys : List Bytes) → unlines (xs ++ ys) ≡ unlines xs ++ unlines ys
unlines-append [] ys = refl
unlines-append (x ∷ xs) ys =
    ap (λ t. x ++ (b'\r' ∷ b'\n' ∷ t)) (unlines-append xs ys)
    ∙ sym (append_assoc x (b'\r' ∷ b'\n' ∷ unlines xs) (unlines ys))

is_empty-line : (l : Bytes) (b : ℕ) (rest : Bytes) → is_empty (l ++ b ∷ rest) ≡ false
is_empty-line [] b rest = refl
is_empty-line (c ∷ l) b rest = refl

-- With a line on either side, the blank line is written.
separator_headers :
    (l rest text : Bytes) → article_separator (l ++ (b'\r' ∷ rest)) text ≡ codes "\r\n"
unfolding article_separator
separator_headers l rest text = rw (is_empty-line l b'\r' rest)

separator_body :
    (headers l rest : Bytes) → article_separator headers (l ++ (b'\r' ∷ rest)) ≡ codes "\r\n"
unfolding article_separator
separator_body [] l rest = rw (is_empty-line l b'\r' rest)
separator_body (b ∷ headers) l rest = refl

module _ (m : Memchr) where
  -- What the parser makes of the payload that the kind is served.
  unfoldable pub taken : ℕ → ℕ → Bytes → CachedPayload
  taken code number payload =
      parsed m code (some number) (captured_payload_body_for_status m code payload)

  -- Headers, a blank line and a body.
  taken_sections :
      (hs ts : List Bytes) (n : ℕ)
      → All IsHeader hs
      → All IsText ts
      → taken 220 n (unlines hs ++ (codes "\r\n" ++ (unlines ts ++ dot_terminator)))
        ≡ CachedPayload.article (some n) (unlines hs) (unlines ts)
  unfolding taken captured_payload_body_for_status parsed payload_for_status article_payload
  taken_sections hs ts n h k =
      let whole : unlines hs ++ (codes "\r\n" ++ (unlines ts ++ dot_terminator))
          ≡ unlines (hs ++ ([] ∷ ts)) ++ dot_terminator =
        sym (
          ap (λ t. t ++ dot_terminator) (unlines-append hs ([] ∷ ts))
          ∙ append_assoc (unlines hs) (codes "\r\n" ++ unlines ts) dot_terminator) in
      let e =
        captured_multiline_payload_body-unlines m (hs ++ ([] ∷ ts))
          (All-append hs ([] ∷ ts) (IsHeader-IsText hs h) ((refl, unfold bytes_eq in refl), k)) in
      let u = unlines-append hs ([] ∷ ts) in
      let s = captured_article_payload_sections-unlines m hs (unlines ts) h in rw (whole, e, u, s)

  taken-article :
      (hs ts : List Bytes) (n : ℕ)
      → All IsHeader hs
      → All IsText ts
      → taken 220 n (payload_bytes (CachedResponseWirePayload.article (unlines hs) (unlines ts)))
        ≡ CachedPayload.article (some n) (unlines hs) (unlines ts)
  unfolding payload_bytes
  taken-article [] [] n h k =
      unfold taken captured_payload_body_for_status parsed payload_for_status article_payload
        captured_article_payload_sections in
      rw (captured_multiline_payload_body-unlines m [] tt, m.find_lem (codes "\r\n\r\n") [])
        (unfold find_first bytes_eq in refl)
  taken-article [] (t ∷ ts) n h k =
      rw (separator_body [] t (b'\n' ∷ unlines ts)) (taken_sections [] (t ∷ ts) n h k)
  taken-article (l ∷ hs) ts n h k =
      rw (separator_headers l (b'\n' ∷ unlines hs) (unlines ts)) (taken_sections (l ∷ hs) ts n h k)

  taken-head :
      (hs : List Bytes) (n : ℕ)
      → All IsText hs
      → taken 221 n (payload_bytes (CachedResponseWirePayload.head (unlines hs)))
        ≡ CachedPayload.head (some n) (unlines hs)
  unfolding taken captured_payload_body_for_status parsed payload_for_status payload_bytes
  taken-head hs n h = rw (captured_multiline_payload_body-unlines m hs h)

  taken-body :
      (ts : List Bytes) (n : ℕ)
      → All IsText ts
      → taken 222 n (payload_bytes (CachedResponseWirePayload.body (unlines ts)))
        ≡ CachedPayload.body (some n) (unlines ts)
  unfolding taken captured_payload_body_for_status parsed payload_for_status payload_bytes
  taken-body ts n h = rw (captured_multiline_payload_body-unlines m ts h)

  abbrev pub TakenAs : CachedPayload → ℕ → ℕ → CachedResponseWirePayload → Type 0
  TakenAs made n code payload =
      (taken code n (payload_bytes payload) ≡ made)
      × (length (digits_of code) ≡ 3)
      × ((code == 430) ≡ false)

  carried :
      (made : CachedPayload) (n c code : ℕ) (w payload : CachedResponseWirePayload)
      → TakenAs made n c w
      → ◌≡◌ {A = Option (ℕ × CachedResponseWirePayload)} (some (c, w)) (some (code, payload))
      → TakenAs made n code payload
  carried made n c code w payload h e =
      let i : c ≡ code = cc in let j : w ≡ payload = cc in subst₂ (λ a b. TakenAs made n a b) i j h

  taken-stat :
      (n : ℕ)
      → taken 223 n (payload_bytes CachedResponseWirePayload.no_sections)
        ≡ CachedPayload.stat (some n)
  unfolding taken captured_payload_body_for_status parsed payload_for_status payload_bytes
  taken-stat n = refl

  parts_taken :
      (n : ℕ) (h b : Bytes) (hs ts : List Bytes)
      → h ≡ unlines hs
      → b ≡ unlines ts
      → All IsHeader hs
      → All IsText ts
      → taken 220 n (payload_bytes (CachedResponseWirePayload.article h b))
        ≡ CachedPayload.article (some n) h b
  parts_taken n h b hs ts i j k l = rw (i, j) (taken-article hs ts n k l)

  taken_head :
      (n : ℕ) (h : Bytes) (hs : List Bytes)
      → h ≡ unlines hs
      → All IsText hs
      → taken 221 n (payload_bytes (CachedResponseWirePayload.head h))
        ≡ CachedPayload.head (some n) h
  taken_head n h hs i k = rw i (taken-head hs n k)

  taken_body :
      (n : ℕ) (b : Bytes) (ts : List Bytes)
      → b ≡ unlines ts
      → All IsText ts
      → taken 222 n (payload_bytes (CachedResponseWirePayload.body b))
        ≡ CachedPayload.body (some n) b
  taken_body n b ts i k = rw i (taken-body ts n k)

  pub taken_served :
      (kind : RequestKind) (p : CachedPayload) (n code : ℕ) (payload : CachedResponseWirePayload)
      → HasLines p
      → sections_for kind p ≡ some (code, payload)
      → TakenAs (served kind n p) n code payload
  unfolding sections_for digits_of
  taken_served RequestKind.stat (CachedPayload.article k h b) n code payload l =
      carried _ n 223 code _ payload (taken-stat n, refl, refl)
  taken_served RequestKind.stat (CachedPayload.head k h) n code payload l =
      carried _ n 223 code _ payload (taken-stat n, refl, refl)
  taken_served RequestKind.stat (CachedPayload.body k b) n code payload l =
      carried _ n 223 code _ payload (taken-stat n, refl, refl)
  taken_served RequestKind.stat (CachedPayload.stat k) n code payload l =
      carried _ n 223 code _ payload (taken-stat n, refl, refl)
  taken_served RequestKind.article (CachedPayload.article k h b) n code payload
        (hs, ts, i, j, x, y) =
      carried _ n 220 code _ payload (parts_taken n h b hs ts i j x y, refl, refl)
  taken_served RequestKind.head (CachedPayload.article k h b) n code payload (hs, ts, i, j, x, y) =
      carried _ n 221 code _ payload (taken_head n h hs i (IsHeader-IsText hs x), refl, refl)
  taken_served RequestKind.head (CachedPayload.head k h) n code payload (hs, i, x) =
      carried _ n 221 code _ payload (taken_head n h hs i x, refl, refl)
  taken_served RequestKind.body (CachedPayload.article k h b) n code payload (hs, ts, i, j, x, y) =
      carried _ n 222 code _ payload (taken_body n b ts j y, refl, refl)
  taken_served RequestKind.body (CachedPayload.body k b) n code payload (ts, j, y) =
      carried _ n 222 code _ payload (taken_body n b ts j y, refl, refl)
  taken_served _ _ n code payload l = λ e. absurd (cc e)
