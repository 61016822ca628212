-- ===== src/Cache/Serve/Length.antt =====
-- src/cache/article.rs: the announced length of a cached response.
use nntp_proxy.Base.{◌+◌, ◌≡◌, ◌++◌, ◌∙◌, ap, arith, length, length-append}
use nntp_proxy.Framing.{dot_terminator}
use nntp_proxy.Cache.Serve.{
  CachedResponseWirePayload, CachedResponseWire, article_separator, wire_payload_len, wire_len,
  payload_bytes, write_to,
}

length-payload_bytes :
    (p : CachedResponseWirePayload) → length (payload_bytes p) ≡ wire_payload_len p
unfolding payload_bytes wire_payload_len
length-payload_bytes CachedResponseWirePayload.no_sections = omega arith
length-payload_bytes (CachedResponseWirePayload.article headers text) =
    let s = article_separator headers text in
    let p = length-append headers (s ++ (text ++ dot_terminator)) in
    let q = length-append s (text ++ dot_terminator) in
    let r = length-append text dot_terminator in omega (arith, p, q, r)
length-payload_bytes (CachedResponseWirePayload.head headers) = length-append headers dot_terminator
length-payload_bytes (CachedResponseWirePayload.body text) = length-append text dot_terminator

-- The length that is announced for a cached response is the number of bytes that are written.
pub length-write_to : (w : CachedResponseWire) → length (write_to w) ≡ wire_len w
unfolding write_to wire_len
length-write_to w =
    length-append w.status_line (payload_bytes w.payload)
    ∙ ap (◌+◌ (length w.status_line)) (length-payload_bytes w.payload)
