-- ===== src/Cache/Codec/RoundTrip.antt =====
-- src/cache/hybrid_codec.rs: what is encoded is decoded, and has the length that is estimated.
use nntp_proxy.Base.{
  ℕ, ◌+◌, ◌≡◌, refl, ap, ◌∙◌, inl, inr, false, ◌∷◌, ◌++◌, Option, none, some, length, length-append,
  Bytes, ok, arith, Result-cases,
}
use nntp_proxy.Cache.Payload.{CachedPayload}
use nntp_proxy.Cache.Codec.Words.{
  to_le_bytes, words_to_le_bytes, length-to_le_bytes, length-words_to_le_bytes,
}
use nntp_proxy.Cache.Codec.{
  magic_v9, no_article_number, max_backends, as_u16, DiskCachedArticle, write_article_number,
  write_section, encode_payload, encode, availability_bits_to_wire, decode, encoded_payload_size,
  encoded_len, disk_entry_fixed_size,
}
use nntp_proxy.Cache.Codec.Payloads.{normalized}
use nntp_proxy.Cache.Codec.Layout.{Version, layout, IsStored, decode-layout}

normalized-current : (p : CachedPayload) → normalized false p ≡ p
normalized-current CachedPayload.missing = refl
normalized-current CachedPayload.availability_only = refl
normalized-current (CachedPayload.article n h b) = refl
normalized-current (CachedPayload.head n h) = refl
normalized-current (CachedPayload.body n b) = refl
normalized-current (CachedPayload.stat n) = refl

wire_bits : (b w : ℕ) → availability_bits_to_wire b ≡ ok w → b ≡ w
unfolding availability_bits_to_wire
wire_bits b w h = ground (arith, h)

-- The encoder writes the layout of the current version.
pub encode-layout :
    (e : DiskCachedArticle) (bytes : Bytes)
    → encode e ≡ ok bytes
    → (p : Bytes) × (encode_payload e.payload ≡ ok p) × (bytes ≡ layout Version.v9 e p)
unfolding encode
encode-layout e bytes h = elim (Result-cases (availability_bits_to_wire e.availability.missing)) [
  | inr (c, f) ↦ ground (arith, f, h)
  | inl (w, f) ↦ elim (Result-cases (encode_payload e.payload)) [
    | inr (c, g) ↦ ground (arith, f, g, h)
    | inl (p, g) ↦ (p, g, ground (arith, f, g, h, wire_bits e.availability.missing w f))
  ]
]

length-write_article_number : (n : Option ℕ) → length (write_article_number n) ≡ 8
unfolding write_article_number
length-write_article_number none = length-to_le_bytes 8 no_article_number
length-write_article_number (some n) = length-to_le_bytes 8 n

length-write_section : (s bytes : Bytes) → write_section s ≡ ok bytes → length bytes ≡ 4 + length s
unfolding write_section
length-write_section s bytes h =
    ground (arith, h, length-append (to_le_bytes 4 (length s)) s, length-to_le_bytes 4 (length s))

length-encode_payload :
    (p : CachedPayload) (bytes : Bytes)
    → encode_payload p ≡ ok bytes
    → length bytes ≡ encoded_payload_size p
unfolding encode_payload encoded_payload_size
length-encode_payload CachedPayload.missing bytes h = ground (arith, h)
length-encode_payload CachedPayload.availability_only bytes h = ground (arith, h)
length-encode_payload (CachedPayload.stat n) bytes h =
    ground (arith, h, length-write_article_number n)
length-encode_payload (CachedPayload.head n hs) bytes h = elim (Result-cases (write_section hs)) [
  | inr (e, w) ↦ ground (arith, w, h)
  | inl (s, w) ↦ ground (
    arith,
    w,
    h,
    length-append (write_article_number n) s,
    length-write_article_number n,
    length-write_section hs s w,
  )
]
length-encode_payload (CachedPayload.body n bs) bytes h = elim (Result-cases (write_section bs)) [
  | inr (e, w) ↦ ground (arith, w, h)
  | inl (s, w) ↦ ground (
    arith,
    w,
    h,
    length-append (write_article_number n) s,
    length-write_article_number n,
    length-write_section bs s w,
  )
]
length-encode_payload (CachedPayload.article n hs bs) bytes h =
    elim (Result-cases (write_section hs)) [
      | inr (e, w) ↦ ground (arith, w, h)
      | inl (s, w) ↦ elim (Result-cases (write_section bs)) [
        | inr (e, v) ↦ ground (arith, w, v, h)
        | inl (t, v) ↦ ground (
          arith,
          w,
          v,
          h,
          length-append (write_article_number n) (s ++ t),
          length-append s t,
          length-write_article_number n,
          length-write_section hs s w,
          length-write_section bs t v,
        )
      ]
    ]

length-layout :
    (e : DiskCachedArticle) (p : Bytes)
    → length e.negative_timestamps ≡ max_backends
    → length (layout Version.v9 e p) ≡ disk_entry_fixed_size + length p
length-layout e p c =
    let t5 = to_le_bytes 8 e.timestamp ++ (e.tier ∷ p) in
    let t4 = words_to_le_bytes e.negative_timestamps ++ t5 in
    let t3 = to_le_bytes 8 e.availability.missing ++ t4 in
    let t2 = to_le_bytes 8 e.availability_epoch ++ t3 in
    omega (
      arith,
      c,
      length-append (to_le_bytes 4 magic_v9) (to_le_bytes 2 (as_u16 e.status_code) ++ t2),
      length-append (to_le_bytes 2 (as_u16 e.status_code)) t2,
      length-append (to_le_bytes 8 e.availability_epoch) t3,
      length-append (to_le_bytes 8 e.availability.missing) t4,
      length-append (words_to_le_bytes e.negative_timestamps) t5,
      length-append (to_le_bytes 8 e.timestamp) (e.tier ∷ p),
      length-to_le_bytes 4 magic_v9,
      length-to_le_bytes 2 (as_u16 e.status_code),
      length-to_le_bytes 8 e.availability_epoch,
      length-to_le_bytes 8 e.availability.missing,
      length-to_le_bytes 8 e.timestamp,
      length-words_to_le_bytes e.negative_timestamps,
    )

-- An entry that was encoded is decoded to the same entry, whatever follows its bytes, and their number
-- is the one that the store reckons with. For an entry whose fields fit their words and whose article
-- number is not the largest word.
pub decode-encode :
    (e : DiskCachedArticle) (bytes rest : Bytes)
    → IsStored e
    → encode e ≡ ok bytes
    → (decode (bytes ++ rest) ≡ ok (e, rest)) × (length bytes ≡ encoded_len e)
unfolding encoded_len
decode-encode e bytes rest s h =
    let (p, g, i) = encode-layout e bytes h in
    (
      ap (λ bs. decode (bs ++ rest)) i
          ∙ decode-layout Version.v9 e p rest s g
          ∙ ap (λ q. ok (record e { payload = q }, rest)) (normalized-current e.payload),
      ap length i
          ∙ length-layout e p s.count
          ∙ ap (λ n. disk_entry_fixed_size + n) (length-encode_payload e.payload p g),
    )
