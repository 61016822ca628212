-- ===== src/Tests/Store.antt =====
-- src/cache/article.rs, src/cache/hybrid.rs and src/cache/hybrid_codec.rs at concrete values.
use nntp_proxy.Base.{
  ℕ, zero, suc, ◌+◌, Bool, true, false, Option, none, ◌<◌, ◌^◌, ◌≡◌, refl, not, ◌&&◌, if◌then◌else◌,
  [], ◌∷◌, ◌++◌, some, length, All, Bytes, bytes_eq, codes, ok, err, arith,
}
use nntp_proxy.Memchr.{plain}
use nntp_proxy.Protocol.Kind.{RequestKind}
use nntp_proxy.Router.Bitmap.{is_missing_slot, clear_slot, record_missing_slot}
use nntp_proxy.Cache.Ttl
use nntp_proxy.Cache.Payload.{CachedPayload, article_number}
use nntp_proxy.Cache.Codec.Words.{CodecError, to_le_bytes, words_to_le_bytes}
use nntp_proxy.Cache.Codec.{
  CacheableStatusCode, try_from, DiskCachedArticle, write_article_number, write_section,
  encode_payload, encode, availability_bits_to_wire, encoded_len, decode, replicate,
}
use nntp_proxy.Cache.Codec.Layout.{Version, layout, upgraded, IsStored, decode-layout}
use nntp_proxy.Cache.Codec.RoundTrip.{decode-encode}
use nntp_proxy.Cache.Codec.Local.{decode-cut}
use nntp_proxy.Protocol.Status.{StatusCode}
use nntp_proxy.Cache.Serve.{
  CachedResponseWire, CachedResponseWirePayload, cached_response_for_payload, sections_for,
  status_line_new, push_slice, digits_of, write_to,
}
use nntp_proxy.Cache.Ingest.{parse_payload}
use nntp_proxy.Cache.Ingest.Served.{parse_payload-write_to}
use nntp_proxy.Cache.Article
use nntp_proxy.Cache.Article.{CachedArticle}
use nntp_proxy.Cache.Merge
use nntp_proxy.Cache.Merge.{
  fresh_entry_for_mutation, merge_ingest_entry, merge_backend_has_status_entry,
  merge_backend_stat_entry, merge_availability_missing_entry,
}
use nntp_proxy.Cache.Merge.Keeps.{Keeps, merge_ingest_entry-Keeps}
use nntp_proxy.Cache.Disk.{expire_from, expire_stale_availability, into_cached_article}
use nntp_proxy.Cache.Hybrid.{
  get_by_cache_key, upsert_entry_for_slot, record_has_status_for_slot, record_stat_for_slot,
  record_missing_for_slot,
}
use nntp_proxy.Cache.Hybrid.Views.{in_memory}
use nntp_proxy.Cache.Hybrid.Lookups.{Seen, after, seen_in_disk, seen_in_memory}
use nntp_proxy.Cache.Hybrid.Agrees.{upsert_entry_for_slot-merge_ingest_entry}
use nntp_proxy.Cache.Hybrid.Records.{SeenAlike, records_agree}
use nntp_proxy.Cache.Disk.Expiry.{time_at, is_old, expire_stale_availability_lem}

replicate-All : (P : ℕ → Type 0) (n v : ℕ) → P v → All P (replicate n v)
replicate-All P zero v p = tt
replicate-All P (suc n) v p = (p, replicate-All P n v p)

abbrev entry : DiskCachedArticle
entry = record {
  status_code = CacheableStatusCode.head;
  availability_epoch = 5;
  availability = record { missing = 2 };
  negative_timestamps = replicate 64 700;
  timestamp = 900;
  tier = 1;
  payload = CachedPayload.head (some 7) (codes "From: a\r\n");
}

entry-IsStored : IsStored entry
entry-IsStored = record {
  epoch = omega arith;
  bits = omega arith;
  stamps = replicate-All (λ t. t < 2 ^ 64) 64 700 (omega arith);
  count = refl;
  time = omega arith;
  tier = omega arith;
  number = omega arith;
}

abbrev payload_code : Bytes
payload_code = 3 ∷ (to_le_bytes 8 7 ++ (to_le_bytes 4 9 ++ codes "From: a\r\n"))

payload_encodes : encode_payload entry.payload ≡ ok payload_code
unfolding encode_payload write_article_number write_section to_le_bytes
payload_encodes = refl

decode-layout_example :
    decode (layout Version.v7 entry payload_code ++ codes "more")
    ≡ ok (upgraded Version.v7 entry, codes "more")
decode-layout_example =
    decode-layout Version.v7 entry payload_code (codes "more") entry-IsStored payload_encodes

encodes : encode entry ≡ ok (layout Version.v9 entry payload_code)
unfolding encode availability_bits_to_wire write_section write_article_number to_le_bytes
encodes = refl

decode-encode_example :
    (decode (layout Version.v9 entry payload_code ++ codes "more") ≡ ok (entry, codes "more"))
    × (length (layout Version.v9 entry payload_code) ≡ encoded_len entry)
decode-encode_example =
    decode-encode entry (layout Version.v9 entry payload_code) (codes "more") entry-IsStored encodes

abbrev cut : Bytes
cut = layout Version.v9 entry (3 ∷ (to_le_bytes 8 7 ++ (to_le_bytes 4 9 ++ codes "From: a\r")))

decode-cut_example : (c : CodecError) × (decode cut ≡ err c)
unfolding to_le_bytes words_to_le_bytes
decode-cut_example = decode-cut entry cut 10 [] entry-IsStored encodes

expire_stale_availability_lem_example :
    (is_missing_slot (expire_stale_availability 5000 1000 entry).availability 1
      ≡ (is_missing_slot entry.availability 1 && not (is_old 5000 1000 entry 1)))
    × (time_at (expire_stale_availability 5000 1000 entry).negative_timestamps 1 ≡ (
        if is_missing_slot entry.availability 1 && is_old 5000 1000 entry 1
        then 0
        else time_at entry.negative_timestamps 1))
expire_stale_availability_lem_example =
    expire_stale_availability_lem 5000 1000 entry 1 (omega arith) (omega arith)

abbrev lines_text : Bytes
lines_text = codes "From: a\r\n"

abbrev wire_line : Bytes
wire_line = codes "221 7 <a@b>\r\n"

abbrev wire : CachedResponseWire
wire = record {
  status = record { value = 221 };
  status_line = wire_line;
  payload = CachedResponseWirePayload.head lines_text;
}

head_served : cached_response_for_payload entry.payload RequestKind.head (codes "<a@b>") ≡ some wire
unfolding cached_response_for_payload sections_for status_line_new article_number push_slice
    digits_of
head_served = refl

parse_payload-write_to_example :
    parse_payload plain (record { value = 221 }) (write_to wire)
    ≡ CachedPayload.head (some 7) lines_text
unfolding bytes_eq article_number
parse_payload-write_to_example =
    parse_payload-write_to plain entry.payload RequestKind.head (codes "<a@b>") wire
      (codes "From: a" ∷ [], refl, ((refl, refl), tt)) (omega arith) refl head_served

abbrev held : CachedArticle
held = record {
  backend_availability = record { missing = 2 };
  negative_timestamps = (1, 700) ∷ [];
  status_code = record { value = 221 };
  payload = CachedPayload.head (some 7) lines_text;
  tier = 1;
  inserted_at = 900;
}

abbrev fetched : CachedArticle
fetched = record {
  backend_availability = record { missing = 0 };
  negative_timestamps = [];
  status_code = record { value = 222 };
  payload = CachedPayload.body (some 7) (codes "text\r\n");
  tier = 0;
  inserted_at = 1000;
}

held_fresh : fresh_entry_for_mutation 1000 5000 (some held) ≡ some held
unfolding fresh_entry_for_mutation Ttl.is_expired
held_fresh = refl

merge_ingest_entry-Keeps_example : Keeps held (merge_ingest_entry 1000 5000 (some held) fetched 0)
merge_ingest_entry-Keeps_example =
    merge_ingest_entry-Keeps 1000 5000 0 (some held) held fetched held_fresh refl refl tt

abbrev fetched_entry : DiskCachedArticle
fetched_entry = record {
  status_code = CacheableStatusCode.body;
  availability_epoch = 0;
  availability = record { missing = 0 };
  negative_timestamps = replicate 64 0;
  timestamp = 1000;
  tier = 0;
  payload = CachedPayload.body (some 7) (codes "text\r\n");
}

-- The backend of slot 1 is known to miss the article, so that nothing is inserted; the miss is out of
-- date at the later lookup.
upsert_entry_for_slot-merge_ingest_entry_example :
    seen_in_disk (
      get_by_cache_key
        (1000 + 5000)
        5000
        5
        (after (upsert_entry_for_slot 1000 5000 5 (some entry) fetched_entry 1) (some entry)))
    ≡ seen_in_memory (
        Merge.get_by_cache_key (1000 + 5000) 5000 (
          some (
            merge_ingest_entry 1000 5000
              (in_memory 5 (some entry))
              (into_cached_article fetched_entry)
              1)))
upsert_entry_for_slot-merge_ingest_entry_example =
    upsert_entry_for_slot-merge_ingest_entry 1000 5000 5 (some entry) fetched_entry 1 5000
      (omega arith) refl refl

head_status : try_from 221 ≡ ok CacheableStatusCode.head
unfolding try_from
head_status = refl

records_agree_example :
    let status : StatusCode = record { value = 221 } in
    SeenAlike 1000 5000 5 4999
      (record_has_status_for_slot 1000 5000 5 (some entry) status 0 2)
      (some entry)
      (merge_backend_has_status_entry 1000 5000
        (in_memory 5 (some entry))
        (Article.availability_only 1000 status 2)
        status
        0
        2)
    × SeenAlike 1000 5000 5 4999
        (record_stat_for_slot 1000 5000 5 (some entry) 0 2)
        (some entry)
        (merge_backend_stat_entry 1000 5000 (in_memory 5 (some entry)) (Article.stat 1000 2) 0)
    × SeenAlike 1000 5000 5 4999
        (record_missing_for_slot 1000 5000 5 (some entry) 0)
        (some entry)
        (merge_availability_missing_entry 1000 5000 (in_memory 5 (some entry)) 0)
records_agree_example =
    records_agree 1000 5000 5 0 2 4999 (some entry) (record { value = 221 })
      CacheableStatusCode.head head_status (omega arith) (omega arith) refl

abbrev missing_slot : ℕ → Option Seen → Option Bool
missing_slot k none = none
missing_slot k (some s) = some (s.is_missing k)

abbrev seen_after : ℕ → Option Seen
seen_after time = seen_in_disk (
    get_by_cache_key time 5000 5
      (after (record_missing_for_slot 1000 5000 5 (some entry) 0) (some entry)))

-- The recorded miss of slot 0 outlives that of slot 1, up to its own end.
misses_end :
    (missing_slot 0 (seen_after 5699) ≡ some true)
    × (missing_slot 1 (seen_after 5699) ≡ some true)
    × (missing_slot 0 (seen_after 5700) ≡ some true)
    × (missing_slot 1 (seen_after 5700) ≡ some false)
    × (missing_slot 0 (seen_after 6000) ≡ some false)
unfolding get_by_cache_key record_missing_for_slot expire_from is_missing_slot clear_slot
    record_missing_slot Ttl.is_expired
misses_end = (refl, refl, refl, refl, refl)
