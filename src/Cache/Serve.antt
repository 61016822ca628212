-- ===== src/Cache/Serve.antt =====
-- src/cache/article.rs: the response that is written from a cached payload.
pub mod Length
use nntp_proxy.Base.{
  ℕ, zero, suc, ◌+◌, ◌/◌, ◌%◌, Bool, true, false, ◌&&◌, [], ◌∷◌, ◌++◌, Option, none, some, ltb,
  ◌==◌, if◌then◌else◌, length, is_empty, Bytes, codes,
}
use nntp_proxy.Protocol.Status.{StatusCode}
use nntp_proxy.Protocol.Kind.{RequestKind}
use nntp_proxy.Framing.{dot_terminator}
use nntp_proxy.Cache.Payload.{CachedPayload, article_number}

-- The array of `StackStatusLine` has so many bytes.
abbrev pub status_line_max : ℕ
status_line_max = 1024

-- `push_slice` on the bytes that are in use.
unfoldable pub push_slice : Option Bytes → Bytes → Option Bytes
push_slice none part = none
push_slice (some line) part =
    if ltb status_line_max (length line + length part) then none else some (line ++ part)

-- The loop of `push_u64`, which writes the digits from the last to the first.
unfoldable pub digits_onto : ℕ → ℕ → Bytes → Bytes
digits_onto zero n written = written
digits_onto (suc rounds) n written =
    let digit = 48 + n % 10 in
    let rest = digits_onto rounds (n / 10) (digit ∷ written) in
    if n / 10 == 0 then digit ∷ written else rest

-- A word has at most 20 digits.
unfoldable pub digits_of : ℕ → Bytes
unfolding digits_onto
digits_of value = digits_onto 20 value []

unfoldable pub status_line_new : ℕ → ℕ → Bytes → Option Bytes
status_line_new code number message_id =
    push_slice
      (push_slice
        (push_slice
          (push_slice (push_slice (push_slice (some []) (digits_of code)) (codes " "))
            (digits_of number))
          (codes " "))
        message_id)
      (codes "\r\n")

pub data CachedResponseWirePayload : Type 0 where
  no_sections : CachedResponseWirePayload
  article : Bytes → Bytes → CachedResponseWirePayload
  head body : Bytes → CachedResponseWirePayload

pub record CachedResponseWire : Type 0 where
  pub status : StatusCode
  pub status_line : Bytes
  pub payload : CachedResponseWirePayload

unfoldable pub article_separator : Bytes → Bytes → Bytes
article_separator headers text = if is_empty headers && is_empty text then [] else codes "\r\n"

unfoldable pub wire_payload_len : CachedResponseWirePayload → ℕ
unfolding article_separator
wire_payload_len CachedResponseWirePayload.no_sections = 0
wire_payload_len (CachedResponseWirePayload.article headers text) =
    length headers + length (article_separator headers text) + length text + length dot_terminator
wire_payload_len (CachedResponseWirePayload.head headers) = length headers + length dot_terminator
wire_payload_len (CachedResponseWirePayload.body text) = length text + length dot_terminator

unfoldable pub wire_len : CachedResponseWire → ℕ
unfolding wire_payload_len
wire_len w = length w.status_line + wire_payload_len w.payload

-- The slices behind the status line.
unfoldable pub payload_bytes : CachedResponseWirePayload → Bytes
unfolding article_separator
payload_bytes CachedResponseWirePayload.no_sections = []
payload_bytes (CachedResponseWirePayload.article headers text) =
    headers ++ (article_separator headers text ++ (text ++ dot_terminator))
payload_bytes (CachedResponseWirePayload.head headers) = headers ++ dot_terminator
payload_bytes (CachedResponseWirePayload.body text) = text ++ dot_terminator

-- `write_to` a writer that takes all bytes.
unfoldable pub write_to : CachedResponseWire → Bytes
unfolding payload_bytes
write_to w = w.status_line ++ payload_bytes w.payload

abbrev pub number_or_zero : Option ℕ → ℕ
number_or_zero none = 0
number_or_zero (some n) = n

abbrev pub with_line : ℕ → CachedResponseWirePayload → Option Bytes → Option CachedResponseWire
with_line code payload none = none
with_line code payload (some line) =
    some (record { status = record { value = code }; status_line = line; payload = payload })

-- The sections for a request of the kind, with their status.
unfoldable pub sections_for : RequestKind → CachedPayload → Option (ℕ × CachedResponseWirePayload)
sections_for RequestKind.stat (CachedPayload.article n h b) =
    some (223, CachedResponseWirePayload.no_sections)
sections_for RequestKind.stat (CachedPayload.head n h) =
    some (223, CachedResponseWirePayload.no_sections)
sections_for RequestKind.stat (CachedPayload.body n b) =
    some (223, CachedResponseWirePayload.no_sections)
sections_for RequestKind.stat (CachedPayload.stat n) =
    some (223, CachedResponseWirePayload.no_sections)
sections_for RequestKind.article (CachedPayload.article n h b) =
    some (220, CachedResponseWirePayload.article h b)
sections_for RequestKind.head (CachedPayload.article n h b) =
    some (221, CachedResponseWirePayload.head h)
sections_for RequestKind.head (CachedPayload.head n h) =
    some (221, CachedResponseWirePayload.head h)
sections_for RequestKind.body (CachedPayload.article n h b) =
    some (222, CachedResponseWirePayload.body b)
sections_for RequestKind.body (CachedPayload.body n b) =
    some (222, CachedResponseWirePayload.body b)
sections_for _ _ = none

unfoldable pub cached_response_for_payload :
    CachedPayload → RequestKind → Bytes → Option CachedResponseWire
cached_response_for_payload p kind message_id = elim (sections_for kind p) [
  | none ↦ none
  | some (code, payload) ↦
      with_line code payload (status_line_new code (number_or_zero (article_number p)) message_id)
]
