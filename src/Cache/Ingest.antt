-- ===== src/Cache/Ingest.antt =====
-- src/cache/article.rs and src/session/multiline_framing.rs: a response is taken apart for the cache.
pub mod Number
pub mod Lines
pub mod Captured
pub mod StatusLine
pub mod Taken
pub mod Served
use nntp_proxy.Base.{
  ℕ, zero, suc, ◌+◌, ◌-◌, ◌*◌, ◌^◌, Bool, true, false, ◌&&◌, ◌||◌, [], ◌∷◌, ◌++◌, Option, none,
  some, ltb, leb, ◌==◌, if◌then◌else◌, length, is_empty, take, drop, Bytes, bytes_eq, codes, within,
  is_utf8, Result, ok, err,
}
use nntp_proxy.Memchr.{Memchr}
use nntp_proxy.Protocol.Status.{StatusCode}
use nntp_proxy.Framing.{default_framer, dot_terminator, BytesPolicy, split_chunk}
use nntp_proxy.Cache.Payload.{CachedPayload}

-- `str::parse::<u64>` behind its sign: the digits, checked against overflow.
unfoldable pub parse_digits : ℕ → Bytes → Option ℕ
parse_digits value [] = some value
parse_digits value (b ∷ bs) =
    let next = 10 * value + (b - 48) in
    if within b'0' b'9' b && ltb next (2 ^ 64) then parse_digits next bs else none

-- `str::parse::<u64>`: a plus sign may stand before the digits, of which there is at least one.
unfoldable pub parse_u64 : Bytes → Option ℕ
unfolding parse_digits
parse_u64 [] = none
parse_u64 (b ∷ bs) =
    if b == b'+' then (if is_empty bs then none else parse_digits 0 bs) else parse_digits 0 (b ∷ bs)

abbrev pub or_length : Option ℕ → Bytes → ℕ
or_length none bs = length bs
or_length (some n) bs = n

module _ (m : Memchr) where
  -- `status_line.get(4..)` is absent when the line is shorter.
  unfoldable pub parse_article_number : Bytes → Option ℕ
  unfolding parse_u64
  parse_article_number line =
      let rest = drop 4 line in
      let text = take (or_length (m.memchr b' ' rest) rest) rest in
      if leb 4 (length line) && is_utf8 text then parse_u64 text else none

  -- `captured_multiline_payload_body`: what stands before the dot of a payload that is complete.
  unfoldable pub captured_multiline_payload_body : Bytes → Option Bytes
  captured_multiline_payload_body payload =
      if bytes_eq payload dot_terminator
      then some []
      else elim (split_chunk m default_framer payload BytesPolicy.reject) [
        | ok (f, some end) ↦
            if ltb end (length dot_terminator)
            then none
            else some (take (end - length dot_terminator) payload)
        | _ ↦ none
      ]

  -- The headers and the body, as slices.
  unfoldable pub captured_article_payload_sections : Bytes → Option (Bytes × Bytes)
  captured_article_payload_sections payload =
      if bytes_eq (take 2 payload) (codes "\r\n")
      then some ([], drop 2 payload)
      else elim (m.find (codes "\r\n\r\n") payload) [
        | none ↦ none
        | some split ↦ some (take (split + 2) payload, drop (split + 4) payload)
      ]

  abbrev pub is_multiline_code : ℕ → Bool
  is_multiline_code code = within 220 222 code

  unfoldable pub captured_payload_body_for_status : ℕ → Bytes → Option Bytes
  captured_payload_body_for_status code payload =
      if is_multiline_code code then captured_multiline_payload_body payload else some payload

  abbrev pub article_of : Option ℕ → Bytes → Option (Bytes × Bytes) → CachedPayload
  article_of n payload none = CachedPayload.article n [] payload
  article_of n payload (some (headers, body)) = CachedPayload.article n headers body

  unfoldable pub article_payload : Option ℕ → Bytes → CachedPayload
  article_payload n payload = article_of n payload (captured_article_payload_sections payload)

  unfoldable pub payload_for_status : ℕ → Option ℕ → Bytes → CachedPayload
  payload_for_status code n payload =
      if code == 220
      then article_payload n payload
      else if code == 221
      then CachedPayload.head n payload
      else if code == 222
      then CachedPayload.body n payload
      else if code == 223
      then CachedPayload.stat n
      else CachedPayload.availability_only

  abbrev pub without_body : ℕ → Option ℕ → CachedPayload
  without_body code n =
      if code == 223 then CachedPayload.stat n else CachedPayload.availability_only

  -- The payload for the status, or what is known without one.
  unfoldable pub parsed : ℕ → Option ℕ → Option Bytes → CachedPayload
  parsed code n none = without_body code n
  parsed code n (some payload) = payload_for_status code n payload

  -- The response is split behind its first line.
  unfoldable pub parse_split : ℕ → Bytes → ℕ → CachedPayload
  parse_split code buffer status_end =
      parsed code (parse_article_number (take status_end buffer))
        (captured_payload_body_for_status code (drop status_end buffer))

  unfoldable pub parse_payload : StatusCode → Bytes → CachedPayload
  parse_payload status buffer =
      if status.value == 430 then CachedPayload.missing else elim (m.find (codes "\r\n") buffer) [
        | none ↦ CachedPayload.availability_only
        | some pos ↦ parse_split status.value buffer (pos + 2)
      ]

  -- `payload_for_status_owned` takes the same sections out of bytes that it owns.
  unfoldable pub payload_for_status_owned : ℕ → Option ℕ → Bytes → CachedPayload
  unfolding article_payload
  payload_for_status_owned code n payload =
      if code == 220
      then article_payload n payload
      else if code == 221
      then CachedPayload.head n payload
      else if code == 222
      then CachedPayload.body n payload
      else CachedPayload.availability_only
