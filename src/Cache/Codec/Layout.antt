-- ===== src/Cache/Codec/Layout.antt =====
-- src/cache/hybrid_codec.rs: entries of every version of the format are read back.
use nntp_proxy.Base.{
  ℕ, ◌<◌, ◌^◌, ◌≡◌, refl, ap, sym, ◌∙◌, Bool, true, false, not, List, [], ◌∷◌, ◌++◌, length,
  append_assoc, Bytes, All, ok, arith,
}
use nntp_proxy.Cache.Codec.Words.{
  to_le_bytes, read_words, words_to_le_bytes, read_word-to_le_bytes, read_words-words_to_le_bytes,
}
use nntp_proxy.Cache.Codec.{
  magic_v6, magic_v7, magic_v8, magic_v9, max_backends, CacheableStatusCode, as_u16,
  DiskCachedArticle, encode_payload, read_status, availability_bits_from_wire, decode, replicate,
}
use nntp_proxy.Cache.Codec.Payloads.{
  IsNumber, number_of, normalized, read_byte, decode_payload-encode,
}

-- The versions of the format, and what each stores.
pub data Version : Type 0 where
  v6 v7 v8 v9 : Version

abbrev pub magic_of : Version → ℕ
magic_of v6 = magic_v6
magic_of v7 = magic_v7
magic_of v8 = magic_v8
magic_of v9 = magic_v9

abbrev pub epoch_bytes : Version → ℕ → Bytes
epoch_bytes v6 epoch = []
epoch_bytes _ epoch = to_le_bytes 8 epoch

abbrev pub timestamp_bytes : Version → List ℕ → Bytes
timestamp_bytes v8 stamps = words_to_le_bytes stamps
timestamp_bytes v9 stamps = words_to_le_bytes stamps
timestamp_bytes _ stamps = []

-- The documented layout of a version, in front of the encoded payload.
abbrev pub layout : Version → DiskCachedArticle → Bytes → Bytes
layout v e payload =
    to_le_bytes 4 (magic_of v)
    ++ (to_le_bytes 2 (as_u16 e.status_code)
        ++ (epoch_bytes v e.availability_epoch
            ++ (to_le_bytes 8 e.availability.missing
                ++ (timestamp_bytes v e.negative_timestamps
                    ++ (to_le_bytes 8 e.timestamp ++ (e.tier ∷ payload))))))

abbrev pub is_v9 : Version → Bool
is_v9 v9 = true
is_v9 _ = false

-- What an entry of the version is read as.
abbrev pub upgraded : Version → DiskCachedArticle → DiskCachedArticle
upgraded v e = record e {
  availability_epoch = elim v [ v6 ↦ 0 | _ ↦ e.availability_epoch ];
  negative_timestamps = elim v [
    | v6 ↦ replicate max_backends e.timestamp
    | v7 ↦ replicate max_backends e.timestamp
    | _ ↦ e.negative_timestamps
  ];
  payload = normalized (not (is_v9 v)) e.payload;
}

-- The fields fit their words.
pub record IsStored (e : DiskCachedArticle) : Type 0 where
  pub epoch : e.availability_epoch < 2 ^ 64
  pub bits : e.availability.missing < 2 ^ 64
  pub stamps : All (λ t. t < 2 ^ 64) e.negative_timestamps
  pub count : length e.negative_timestamps ≡ max_backends
  pub time : e.timestamp < 2 ^ 64
  pub tier : e.tier < 256
  pub number : IsNumber (number_of e.payload)

read_status-as_u16 :
    (s : CacheableStatusCode) → (as_u16 s < 256 ^ 2) × (read_status (as_u16 s) ≡ ok s)
unfolding as_u16 read_status
read_status-as_u16 CacheableStatusCode.article = (omega arith, refl)
read_status-as_u16 CacheableStatusCode.head = (omega arith, refl)
read_status-as_u16 CacheableStatusCode.body = (omega arith, refl)
read_status-as_u16 CacheableStatusCode.stat = (omega arith, refl)
read_status-as_u16 CacheableStatusCode.missing = (omega arith, refl)

bits_from_wire : (b : ℕ) → b < 2 ^ 64 → availability_bits_from_wire b ≡ ok b
unfolding availability_bits_from_wire
bits_from_wire b h = ground (arith, h)

read_stamps :
    (ws : List ℕ) (rest : Bytes)
    → All (λ w. w < 2 ^ 64) ws
    → length ws ≡ max_backends
    → read_words max_backends (words_to_le_bytes ws ++ rest) ≡ ok (ws, rest)
read_stamps ws rest h c =
    ap (λ n. read_words n (words_to_le_bytes ws ++ rest)) (sym c)
    ∙ read_words-words_to_le_bytes ws rest h

layout-append :
    (v : Version) (e : DiskCachedArticle) (p rest : Bytes)
    → layout v e p ++ rest ≡ layout v e (p ++ rest)
layout-append v6 e p rest = simp append_assoc
layout-append v7 e p rest = simp append_assoc
layout-append v8 e p rest = simp append_assoc
layout-append v9 e p rest = simp append_assoc

decode_parts :
    (v : Version) (e : DiskCachedArticle) (p rest : Bytes)
    → IsStored e
    → encode_payload e.payload ≡ ok p
    → decode (layout v e (p ++ rest)) ≡ ok (upgraded v e, rest)
unfolding decode
decode_parts v6 e p rest s h =
    let (st, ss) = read_status-as_u16 e.status_code in
    rw (
      read_word-to_le_bytes 4 magic_v6 _ (omega arith),
      read_word-to_le_bytes 2 (as_u16 e.status_code) _ st,
      ss,
      read_word-to_le_bytes 8 e.availability.missing _ s.bits,
      bits_from_wire e.availability.missing s.bits,
      read_word-to_le_bytes 8 e.timestamp _ s.time,
      read_byte e.tier (p ++ rest),
      decode_payload-encode e.payload true p rest s.number h,
    )
decode_parts v7 e p rest s h =
    let (st, ss) = read_status-as_u16 e.status_code in
    rw (
      read_word-to_le_bytes 4 magic_v7 _ (omega arith),
      read_word-to_le_bytes 2 (as_u16 e.status_code) _ st,
      ss,
      read_word-to_le_bytes 8 e.availability_epoch _ s.epoch,
      read_word-to_le_bytes 8 e.availability.missing _ s.bits,
      bits_from_wire e.availability.missing s.bits,
      read_word-to_le_bytes 8 e.timestamp _ s.time,
      read_byte e.tier (p ++ rest),
      decode_payload-encode e.payload true p rest s.number h,
    )
decode_parts v8 e p rest s h =
    let (st, ss) = read_status-as_u16 e.status_code in
    rw (
      read_word-to_le_bytes 4 magic_v8 _ (omega arith),
      read_word-to_le_bytes 2 (as_u16 e.status_code) _ st,
      ss,
      read_word-to_le_bytes 8 e.availability_epoch _ s.epoch,
      read_word-to_le_bytes 8 e.availability.missing _ s.bits,
      bits_from_wire e.availability.missing s.bits,
      read_stamps e.negative_timestamps _ s.stamps s.count,
      read_word-to_le_bytes 8 e.timestamp _ s.time,
      read_byte e.tier (p ++ rest),
      decode_payload-encode e.payload true p rest s.number h,
    )
decode_parts v9 e p rest s h =
    let (st, ss) = read_status-as_u16 e.status_code in
    rw (
      read_word-to_le_bytes 4 magic_v9 _ (omega arith),
      read_word-to_le_bytes 2 (as_u16 e.status_code) _ st,
      ss,
      read_word-to_le_bytes 8 e.availability_epoch _ s.epoch,
      read_word-to_le_bytes 8 e.availability.missing _ s.bits,
      bits_from_wire e.availability.missing s.bits,
      read_stamps e.negative_timestamps _ s.stamps s.count,
      read_word-to_le_bytes 8 e.timestamp _ s.time,
      read_byte e.tier (p ++ rest),
      decode_payload-encode e.payload false p rest s.number h,
    )

-- An entry that a version of the format stored is read back as that version's readers promise: the
-- first version has no epoch, the first two give every slot the time of the entry, and all but the
-- last leave out the line end of a section. What follows the entry is left unread. For an entry whose
-- fields fit their words and whose article number is not the largest word.
pub decode-layout :
    (v : Version) (e : DiskCachedArticle) (p rest : Bytes)
    → IsStored e
    → encode_payload e.payload ≡ ok p
    → decode (layout v e p ++ rest) ≡ ok (upgraded v e, rest)
decode-layout v e p rest s h = ap decode (layout-append v e p rest) ∙ decode_parts v e p rest s h
