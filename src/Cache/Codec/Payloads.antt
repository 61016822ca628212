-- ===== src/Cache/Codec/Payloads.antt =====
-- src/cache/hybrid_codec.rs: the encoded payload is read back.
use nntp_proxy.Base.{
  ℕ, ◌<◌, ◌^◌, ◌≡◌, inl, inr, Bool, [], ◌∷◌, ◌++◌, Option, none, some, ltb, length,
  take-length-append, drop-length-append, append_assoc, Bytes, ok, arith, Bool-cases, Result-cases,
}
use nntp_proxy.Cache.Payload.{CachedPayload}
use nntp_proxy.Cache.Codec.Words.{
  to_le_bytes, from_le_bytes, read_exact, read_word, read_word-to_le_bytes,
}
use nntp_proxy.Cache.Codec.{
  no_article_number, section_max, write_article_number, write_section, encode_payload,
  read_article_number, read_section, normalize_section, decode_payload,
}

-- The number fits its word and is not the one that stands for no number.
abbrev pub IsNumber : Option ℕ → Type 0
IsNumber none = Unit
IsNumber (some n) = n < no_article_number

abbrev pub number_of : CachedPayload → Option ℕ
number_of CachedPayload.missing = none
number_of CachedPayload.availability_only = none
number_of (CachedPayload.article n h b) = n
number_of (CachedPayload.head n h) = n
number_of (CachedPayload.body n b) = n
number_of (CachedPayload.stat n) = n

read_article_number-write :
    (n : Option ℕ) (rest : Bytes)
    → IsNumber n
    → read_article_number (write_article_number n ++ rest) ≡ ok (n, rest)
unfolding read_article_number write_article_number
read_article_number-write none rest h =
    rw (read_word-to_le_bytes 8 no_article_number rest (omega arith))
read_article_number-write (some n) rest h =
    rw (read_word-to_le_bytes 8 n rest (omega (arith, h))) (ground (arith, h))

read_section-write :
    (s bytes rest : Bytes)
    → write_section s ≡ ok bytes
    → read_section (bytes ++ rest) ≡ ok (s, rest)
unfolding read_section write_section
read_section-write s bytes rest h = elim (Bool-cases (ltb section_max (length s))) [
  | inl e ↦ ground (arith, e, h)
  | inr e ↦
      let f : bytes ≡ to_le_bytes 4 (length s) ++ s = ground (arith, e, h) in
      let l : length s < 256 ^ 4 = ground (arith, e) in
      rw
        (
          f,
          append_assoc (to_le_bytes 4 (length s)) s rest,
          read_word-to_le_bytes 4 (length s) (s ++ rest) l,
          e,
          take-length-append s rest,
          drop-length-append s rest,
        )
        (ground arith)
]

-- What an old version stored without the line end of a section is read with it.
abbrev pub normalized : Bool → CachedPayload → CachedPayload
normalized legacy CachedPayload.missing = CachedPayload.missing
normalized legacy CachedPayload.availability_only = CachedPayload.availability_only
normalized legacy (CachedPayload.article n h b) =
    CachedPayload.article n (normalize_section h legacy) (normalize_section b legacy)
normalized legacy (CachedPayload.head n h) = CachedPayload.head n (normalize_section h legacy)
normalized legacy (CachedPayload.body n b) = CachedPayload.body n (normalize_section b legacy)
normalized legacy (CachedPayload.stat n) = CachedPayload.stat n

pub read_byte : (b : ℕ) (rest : Bytes) → read_word 1 (b ∷ rest) ≡ ok (b, rest)
unfolding read_word read_exact from_le_bytes
read_byte b rest = ground arith

pub decode_payload-encode :
    (p : CachedPayload) (legacy : Bool) (bytes rest : Bytes)
    → IsNumber (number_of p)
    → encode_payload p ≡ ok bytes
    → decode_payload (bytes ++ rest) legacy ≡ ok (normalized legacy p, rest)
unfolding decode_payload encode_payload
decode_payload-encode CachedPayload.missing legacy bytes rest n h =
    let f : bytes ≡ 0 ∷ [] = cc in rw (f, read_byte 0 rest)
decode_payload-encode CachedPayload.availability_only legacy bytes rest n h =
    let f : bytes ≡ 1 ∷ [] = cc in rw (f, read_byte 1 rest)
decode_payload-encode (CachedPayload.stat k) legacy bytes rest n h =
    let f : bytes ≡ 5 ∷ write_article_number k = cc in
    rw (f, read_byte 5 (write_article_number k ++ rest), read_article_number-write k rest n)
decode_payload-encode (CachedPayload.head k hs) legacy bytes rest n h =
    elim (Result-cases (write_section hs)) [
      | inr (e, w) ↦ ground (arith, w, h)
      | inl (s, w) ↦
          let f : bytes ≡ 3 ∷ (write_article_number k ++ s) = ground (arith, w, h) in
          rw (
            f,
            append_assoc (write_article_number k) s rest,
            read_byte 3 (write_article_number k ++ (s ++ rest)),
            read_article_number-write k (s ++ rest) n,
            read_section-write hs s rest w,
          )
    ]
decode_payload-encode (CachedPayload.body k bs) legacy bytes rest n h =
    elim (Result-cases (write_section bs)) [
      | inr (e, w) ↦ ground (arith, w, h)
      | inl (s, w) ↦
          let f : bytes ≡ 4 ∷ (write_article_number k ++ s) = ground (arith, w, h) in
          rw (
            f,
            append_assoc (write_article_number k) s rest,
            read_byte 4 (write_article_number k ++ (s ++ rest)),
            read_article_number-write k (s ++ rest) n,
            read_section-write bs s rest w,
          )
    ]
decode_payload-encode (CachedPayload.article k hs bs) legacy bytes rest n h =
    elim (Result-cases (write_section hs)) [
      | inr (e, w) ↦ ground (arith, w, h)
      | inl (s, w) ↦ elim (Result-cases (write_section bs)) [
        | inr (e, v) ↦ ground (arith, w, v, h)
        | inl (t, v) ↦
            let f : bytes ≡ 2 ∷ (write_article_number k ++ (s ++ t)) = ground (arith, w, v, h) in
            rw (
              f,
              append_assoc (write_article_number k) (s ++ t) rest,
              append_assoc s t rest,
              read_byte 2 (write_article_number k ++ (s ++ (t ++ rest))),
              read_article_number-write k (s ++ (t ++ rest)) n,
              read_section-write hs s (t ++ rest) w,
              read_section-write bs t rest v,
            )
      ]
    ]
