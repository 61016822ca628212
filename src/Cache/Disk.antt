-- ===== src/Cache/Disk.antt =====
-- src/cache/hybrid_codec.rs: the operations on an entry of the disk cache. The time of a call is an
-- argument.
pub mod Expiry
use nntp_proxy.Base.{
  ℕ, zero, suc, ◌+◌, max, Bool, true, false, not, ◌&&◌, List, [], ◌∷◌, Option, none, some, ◌==◌,
  if◌then◌else◌, Result, ok, err,
}
use nntp_proxy.Protocol.Status.{StatusCode}
use nntp_proxy.Router.Bitmap.{ArticleAvailability, record_missing_slot, is_missing_slot, clear_slot}
use nntp_proxy.Cache.Ttl
use nntp_proxy.Cache.Payload.{CachedPayload, payload_len, keep_same_completeness, merged_sections}
use nntp_proxy.Cache.Codec.{
  CacheableStatusCode, as_u16, try_from, DiskCachedArticle, max_backends, replicate,
}
use nntp_proxy.Cache.Article.{CachedArticle, no_availability, article_is_complete}
use nntp_proxy.Cache.Merge.{has_no_section}

-- `negative_timestamps[slot.index()] = now`
abbrev pub set : List ℕ → ℕ → ℕ → List ℕ
set [] slot now = []
set (t ∷ ts) zero now = now ∷ ts
set (t ∷ ts) (suc slot) now = t ∷ set ts slot now

unfoldable pub availability_only : ℕ → CacheableStatusCode → ℕ → DiskCachedArticle
availability_only now status_code tier = record {
  status_code = status_code;
  availability_epoch = 0;
  availability = no_availability;
  negative_timestamps = replicate max_backends 0;
  timestamp = now;
  tier = tier;
  payload = CachedPayload.availability_only;
}

unfoldable pub stat : ℕ → ℕ → DiskCachedArticle
stat now tier = record {
  status_code = CacheableStatusCode.stat;
  availability_epoch = 0;
  availability = no_availability;
  negative_timestamps = replicate max_backends 0;
  timestamp = now;
  tier = tier;
  payload = CachedPayload.stat none;
}

unfoldable pub missing : ℕ → ℕ → DiskCachedArticle
missing now tier = record {
  status_code = CacheableStatusCode.missing;
  availability_epoch = 0;
  availability = no_availability;
  negative_timestamps = replicate max_backends 0;
  timestamp = now;
  tier = tier;
  payload = CachedPayload.missing;
}

unfoldable pub record_availability_missing : ℕ → ℕ → DiskCachedArticle → DiskCachedArticle
record_availability_missing now slot e = record e {
  availability = record_missing_slot e.availability slot;
  negative_timestamps = set e.negative_timestamps slot now;
}

unfoldable pub clear_availability : DiskCachedArticle → DiskCachedArticle
clear_availability e = record e {
  availability = no_availability;
  negative_timestamps = replicate max_backends 0;
}

-- The loop over the slots from `index` on; the test reads the bits from before the loop.
unfoldable pub expire_from : ℕ → ℕ → ℕ → ℕ → List ℕ → ℕ → ℕ × List ℕ
expire_from now base_ttl before index [] bits = (bits, [])
expire_from now base_ttl before index (t ∷ ts) bits =
    let stale =
      is_missing_slot (record { missing = before }) index && Ttl.is_expired now t base_ttl 0 in
    let rest =
      expire_from now base_ttl before (index + 1) ts
        (if stale then clear_slot bits index else bits) in
    (rest.0, (if stale then 0 else t) ∷ rest.1)

unfoldable pub expire_stale_availability : ℕ → ℕ → DiskCachedArticle → DiskCachedArticle
unfolding expire_from
expire_stale_availability now base_ttl e =
    let (bits, stamps) =
      expire_from now base_ttl e.availability.missing 0 e.negative_timestamps
        e.availability.missing in
    record e { availability = record { missing = bits }; negative_timestamps = stamps }

unfoldable pub is_complete_article : DiskCachedArticle → Bool
unfolding as_u16
is_complete_article e = article_is_complete (as_u16 e.status_code) e.payload

unfoldable pub is_expired : ℕ → ℕ → DiskCachedArticle → Bool
is_expired now base_ttl e = Ttl.is_expired now e.timestamp base_ttl e.tier

unfoldable pub keep_over_same_completeness : DiskCachedArticle → DiskCachedArticle → Bool
keep_over_same_completeness e new =
    keep_same_completeness (payload_len e.payload) (payload_len new.payload) e.payload new.payload

unfoldable pub merge_compatible_sections :
    ℕ → DiskCachedArticle → DiskCachedArticle → Option DiskCachedArticle
merge_compatible_sections now e other = elim (merged_sections e.payload other.payload) [
  | none ↦ none
  | some payload ↦ some (record e {
    status_code = CacheableStatusCode.article;
    tier = max e.tier other.tier;
    payload = payload;
    timestamp = now;
  })
]

unfoldable pub record_backend_has_status :
    ℕ → CacheableStatusCode → ℕ → DiskCachedArticle → DiskCachedArticle
record_backend_has_status now status_code tier e =
    if has_no_section e.payload
    then record e {
      status_code = status_code;
      payload = CachedPayload.availability_only;
      tier = tier;
      timestamp = now;
    }
    else record e { timestamp = now }

unfoldable pub record_backend_stat : ℕ → ℕ → DiskCachedArticle → DiskCachedArticle
record_backend_stat now tier e =
    if has_no_section e.payload
    then record e {
      status_code = CacheableStatusCode.stat;
      payload = CachedPayload.stat none;
      tier = tier;
      timestamp = now;
    }
    else record e { timestamp = now }

-- The slots that are missing, from `index` on, with their times.
unfoldable pub stamps_of : ArticleAvailability → ℕ → List ℕ → List (ℕ × ℕ)
stamps_of a index [] = []
stamps_of a index (t ∷ ts) =
    let rest = stamps_of a (index + 1) ts in
    if is_missing_slot a index then (index, t) ∷ rest else rest

unfoldable pub into_cached_article : DiskCachedArticle → CachedArticle
unfolding stamps_of
into_cached_article e = record {
  backend_availability = e.availability;
  negative_timestamps = stamps_of e.availability 0 e.negative_timestamps;
  status_code = record { value = as_u16 e.status_code };
  payload = e.payload;
  tier = e.tier;
  inserted_at = e.timestamp;
}
