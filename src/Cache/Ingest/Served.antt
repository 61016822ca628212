-- ===== src/Cache/Ingest/Served.antt =====
-- src/cache/article.rs: a response that was served is taken apart into what it was made from.
use nntp_proxy.Base.{
  ℕ, ◌<◌, ◌^◌, ◌≡◌, ap, ◌∙◌, inl, inr, true, ◌++◌, some, append_assoc, Bytes, codes, arith,
  Option-cases,
}
use nntp_proxy.Memchr.{Memchr}
use nntp_proxy.Protocol.Kind.{RequestKind}
use nntp_proxy.Cache.Payload.{CachedPayload, article_number}
use nntp_proxy.Cache.Serve.{
  CachedResponseWire, CachedResponseWirePayload, status_line_new, payload_bytes, write_to,
  number_or_zero, sections_for, cached_response_for_payload,
}
use nntp_proxy.Cache.Ingest.{parse_payload}
use nntp_proxy.Cache.Ingest.Lines.{no_cr}
use nntp_proxy.Cache.Ingest.StatusLine.{line_of, line_text, parse_payload-line}
use nntp_proxy.Cache.Ingest.Taken.{HasLines, served, taken, taken_served}

-- What a response was made of.
record Made (p : CachedPayload) (kind : RequestKind) (message_id : Bytes) (w : CachedResponseWire)
    : Type 0 where
  pub code : ℕ
  pub payload : CachedResponseWirePayload
  pub line : Bytes
  pub sections : sections_for kind p ≡ some (code, payload)
  pub new : status_line_new code (number_or_zero (article_number p)) message_id ≡ some line
  pub wire : w ≡ record { status = record { value = code }; status_line = line; payload = payload }

served_inv :
    (p : CachedPayload) (kind : RequestKind) (message_id : Bytes) (w : CachedResponseWire)
    → cached_response_for_payload p kind message_id ≡ some w
    → Made p kind message_id w
unfolding cached_response_for_payload
served_inv p kind message_id w e = elim (Option-cases (sections_for kind p)) [
  | inl s ↦ absurd (ground (arith, e, s))
  | inr ((code, payload), s) ↦
      elim (Option-cases (status_line_new code (number_or_zero (article_number p)) message_id)) [
        | inl l ↦ absurd (ground (arith, e, s, l))
        | inr (line, l) ↦ record {
          code = code;
          payload = payload;
          line = line;
          sections = s;
          new = l;
          wire = ground (arith, e, s, l);
        }
      ]
]

module _ (m : Memchr) where
  -- A response that is served from a payload of lines is parsed again into the sections that it was
  -- served for, with the number that its status line shows. For a number that fits in a word and a
  -- message id without a carriage return.
  pub parse_payload-write_to :
      (p : CachedPayload) (kind : RequestKind) (message_id : Bytes) (w : CachedResponseWire)
      → HasLines p
      → number_or_zero (article_number p) < 2 ^ 64
      → no_cr message_id ≡ true
      → cached_response_for_payload p kind message_id ≡ some w
      → parse_payload m w.status (write_to w) ≡ served kind (number_or_zero (article_number p)) p
  parse_payload-write_to p kind message_id w l n h e =
      let number = number_or_zero (article_number p) in
      let c = served_inv p kind message_id w e in
      let (made, three, other) = taken_served m kind p number c.code c.payload l c.sections in
      let whole : write_to w
          ≡ line_of c.code number message_id ++ (codes "\r\n" ++ payload_bytes c.payload) =
        unfold write_to in
        ap (λ v. v.status_line ++ payload_bytes v.payload) c.wire
        ∙ ap (λ t. t ++ payload_bytes c.payload) (line_text c.code number message_id c.line c.new)
        ∙ simp append_assoc in
      ap (λ v. parse_payload m v.status (write_to w)) c.wire
      ∙ ap (parse_payload m (record { value = c.code })) whole
      ∙ parse_payload-line m c.code number message_id (payload_bytes c.payload) three other n h
      ∙ (unfold taken in made)
