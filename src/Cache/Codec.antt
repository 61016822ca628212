-- ===== src/Cache/Codec.antt =====
-- src/cache/hybrid_codec.rs: the bytes of a disk entry.
pub mod Words
pub mod Payloads
pub mod Layout
pub mod RoundTrip
pub mod Local
use nntp_proxy.Base.{
  ℕ, zero, suc, ◌+◌, ◌-◌, ◌*◌, ◌<◌, ◌^◌, Bool, true, false, not, ◌&&◌, ◌||◌, List, [], ◌∷◌, ◌++◌,
  Option, none, some, ltb, ◌==◌, if◌then◌else◌, length, take, drop, is_empty, Bytes, codes, Result,
  ok, err, ◌>>=◌,
}
use nntp_proxy.Types.{usize_bits}
use nntp_proxy.Router.Bitmap.{ArticleAvailability}
use nntp_proxy.Cache.Payload.{CachedPayload}
use Words.{CodecError, read_exact, to_le_bytes, read_word, read_words, words_to_le_bytes}

abbrev pub magic_v6 : ℕ
magic_v6 = 0x4e504336

abbrev pub magic_v7 : ℕ
magic_v7 = 0x4e504337

abbrev pub magic_v8 : ℕ
magic_v8 = 0x4e504338

abbrev pub magic_v9 : ℕ
magic_v9 = 0x4e504339

-- `NO_ARTICLE_NUMBER`
abbrev pub no_article_number : ℕ
no_article_number = 0xFFFFFFFFFFFFFFFF

-- `CachedSectionLen::MAX`
abbrev pub section_max : ℕ
section_max = 4194304

-- `MAX_BACKENDS`
abbrev pub max_backends : ℕ
max_backends = usize_bits

-- `CacheableStatusCode`
pub data CacheableStatusCode : Type 0 where
  article head body stat missing : CacheableStatusCode

unfoldable pub as_u16 : CacheableStatusCode → ℕ
as_u16 CacheableStatusCode.article = 220
as_u16 CacheableStatusCode.head = 221
as_u16 CacheableStatusCode.body = 222
as_u16 CacheableStatusCode.stat = 223
as_u16 CacheableStatusCode.missing = 430

unfoldable pub try_from : ℕ → Result ℕ CacheableStatusCode
try_from code =
    if code == 220
    then ok CacheableStatusCode.article
    else if code == 221
    then ok CacheableStatusCode.head
    else if code == 222
    then ok CacheableStatusCode.body
    else if code == 223
    then ok CacheableStatusCode.stat
    else if code == 430
    then ok CacheableStatusCode.missing
    else err code

pub record DiskCachedArticle : Type 0 where
  pub status_code : CacheableStatusCode
  pub availability_epoch : ℕ
  pub availability : ArticleAvailability
  pub negative_timestamps : List ℕ
  pub timestamp : ℕ
  pub tier : ℕ
  pub payload : CachedPayload

unfoldable pub write_article_number : Option ℕ → Bytes
write_article_number none = to_le_bytes 8 no_article_number
write_article_number (some n) = to_le_bytes 8 n

-- `CachedSectionLen::try_from_usize` and the bytes of the section.
unfoldable pub write_section : Bytes → Result CodecError Bytes
write_section bytes =
    if ltb section_max (length bytes)
    then err (CodecError.section_too_large (length bytes))
    else ok (to_le_bytes 4 (length bytes) ++ bytes)

unfoldable pub encode_payload : CachedPayload → Result CodecError Bytes
encode_payload CachedPayload.missing = ok (0 ∷ [])
encode_payload CachedPayload.availability_only = ok (1 ∷ [])
encode_payload (CachedPayload.stat n) = ok (5 ∷ write_article_number n)
encode_payload (CachedPayload.article n headers bytes) = do
  h ← write_section headers
  b ← write_section bytes
  ok (2 ∷ (write_article_number n ++ (h ++ b)))
encode_payload (CachedPayload.head n headers) = do
  h ← write_section headers
  ok (3 ∷ (write_article_number n ++ h))
encode_payload (CachedPayload.body n bytes) = do
  b ← write_section bytes
  ok (4 ∷ (write_article_number n ++ b))

-- `availability_bits_to_wire`: `usize` has at most 64 bits.
unfoldable pub availability_bits_to_wire : ℕ → Result CodecError ℕ
availability_bits_to_wire bits =
    if ltb bits (2 ^ usize_bits) then ok bits else err CodecError.bitmap_too_wide

pub availability_bits_from_wire : ℕ → Result CodecError ℕ
availability_bits_from_wire bits =
    if ltb bits (2 ^ usize_bits) then ok bits else err CodecError.bitmap_too_wide

-- The writer takes all bytes.
unfoldable pub encode : DiskCachedArticle → Result CodecError Bytes
unfolding encode_payload
encode e = do
  wire ← availability_bits_to_wire e.availability.missing
  payload ← encode_payload e.payload
  ok (
      to_le_bytes 4 magic_v9
      ++ (to_le_bytes 2 (as_u16 e.status_code)
          ++ (to_le_bytes 8 e.availability_epoch
              ++ (to_le_bytes 8 wire
                  ++ (words_to_le_bytes e.negative_timestamps
                      ++ (to_le_bytes 8 e.timestamp ++ (e.tier ∷ payload)))))))

pub read_article_number : Bytes → Result CodecError (Option ℕ × Bytes)
read_article_number reader = do
  (raw, rest) ← read_word 8 reader
  ok (if raw == no_article_number then none else some raw, rest)

pub read_section : Bytes → Result CodecError (Bytes × Bytes)
read_section reader = read_word 4 reader >>= λ (len, rest).
    if ltb section_max len
    then err (CodecError.section_too_large len)
    else if length (take len rest) == len
    then ok (take len rest, drop len rest)
    else err CodecError.unexpected_eof

abbrev pub normalize_section : Bytes → Bool → Bytes
normalize_section bytes legacy =
    if legacy && not (is_empty bytes) then bytes ++ codes "\r\n" else bytes

-- The payload of the kind that was read.
pub decode_kind : ℕ → Bool → Bytes → Result CodecError (CachedPayload × Bytes)
decode_kind kind legacy reader =
    if kind == 0
    then ok (CachedPayload.missing, reader)
    else if kind == 1
    then ok (CachedPayload.availability_only, reader)
    else if kind == 5
    then (read_article_number reader >>= λ (n, rest). ok (CachedPayload.stat n, rest))
    else if kind == 2
    then (read_article_number reader >>= λ (n, rest). read_section rest >>= λ (headers, rest).
        read_section rest >>= λ (bytes, rest). ok (
          CachedPayload.article n (normalize_section headers legacy)
              (normalize_section bytes legacy),
          rest,
        ))
    else if kind == 3
    then (read_article_number reader >>= λ (n, rest). read_section rest >>= λ (headers, rest).
        ok (CachedPayload.head n (normalize_section headers legacy), rest))
    else if kind == 4
    then (read_article_number reader >>= λ (n, rest). read_section rest >>= λ (bytes, rest).
        ok (CachedPayload.body n (normalize_section bytes legacy), rest))
    else err (CodecError.invalid_payload_kind kind)

pub decode_payload : Bytes → Bool → Result CodecError (CachedPayload × Bytes)
unfolding decode_kind
decode_payload reader legacy = read_word 1 reader >>= λ (kind, rest). decode_kind kind legacy rest

abbrev pub replicate : ℕ → ℕ → List ℕ
replicate zero x = []
replicate (suc n) x = x ∷ replicate n x

abbrev pub has_epoch : ℕ → Bool
has_epoch magic = magic == magic_v7 || magic == magic_v8 || magic == magic_v9

abbrev pub has_timestamps : ℕ → Bool
has_timestamps magic = magic == magic_v8 || magic == magic_v9

pub read_status : ℕ → Result CodecError CacheableStatusCode
unfolding try_from
read_status raw = elim (try_from raw) [
  | ok s ↦ ok s
  | err code ↦ err (CodecError.invalid_status code)
]

-- What follows the magic number.
pub decode_entry : ℕ → Bytes → Result CodecError (DiskCachedArticle × Bytes)
decode_entry magic reader = do
  (raw, reader) ← read_word 2 reader
  status_code ← read_status raw
  (epoch, reader) ← if has_epoch magic then read_word 8 reader else ok (0, reader)
  (bits, reader) ← read_word 8 reader
  missing_bits ← availability_bits_from_wire bits
  (stamps, reader) ←
      if has_timestamps magic
      then read_words max_backends reader
      else ok (replicate max_backends 0, reader)
  (timestamp, reader) ← read_word 8 reader
  (tier, reader) ← read_word 1 reader
  (payload, reader) ← decode_payload reader (not (magic == magic_v9))
  ok (
    record {
      status_code = status_code;
      availability_epoch = epoch;
      availability = record { missing = missing_bits };
      negative_timestamps =
          if has_timestamps magic then stamps else replicate max_backends timestamp;
      timestamp = timestamp;
      tier = tier;
      payload = payload;
    },
    reader,
  )

pub decode : Bytes → Result CodecError (DiskCachedArticle × Bytes)
unfolding decode_entry
decode reader = do
  (magic, rest) ← read_word 4 reader
  if magic == magic_v6 || has_epoch magic
      then decode_entry magic rest
      else err CodecError.old_format

pub encoded_payload_size : CachedPayload → ℕ
encoded_payload_size CachedPayload.missing = 1
encoded_payload_size CachedPayload.availability_only = 1
encoded_payload_size (CachedPayload.stat n) = 1 + 8
encoded_payload_size (CachedPayload.article n h b) = 1 + 8 + 4 + length h + 4 + length b
encoded_payload_size (CachedPayload.head n h) = 1 + 8 + 4 + length h
encoded_payload_size (CachedPayload.body n b) = 1 + 8 + 4 + length b

-- `DISK_ENTRY_FIXED_SIZE`
abbrev pub disk_entry_fixed_size : ℕ
disk_entry_fixed_size = 4 + 2 + 8 + 8 * max_backends + 8 + 8 + 1

pub encoded_len : DiskCachedArticle → ℕ
unfolding encoded_payload_size
encoded_len e = disk_entry_fixed_size + encoded_payload_size e.payload
