-- ===== src/Cache/Merge.antt =====
-- src/cache/article.rs: the operations of the memory cache. The time of a call is an argument, and so is the
-- entry that the store holds for a key.
pub mod Keeps
use nntp_proxy.Base.{
  ℕ, zero, suc, ◌+◌, max, Bool, true, false, not, ◌&&◌, ◌||◌, List, [], ◌∷◌, ◌++◌, Option, none,
  some, ltb, ◌==◌, if◌then◌else◌, is_empty,
}
use nntp_proxy.Types.{usize_bits}
use nntp_proxy.Protocol.Status.{StatusCode}
use nntp_proxy.Router.Bitmap.{
  ArticleAvailability, record_missing_slot, is_missing_slot, should_try_slot, all_exhausted,
  clear_slot,
}
use nntp_proxy.Cache.Ttl
use nntp_proxy.Cache.Payload.{CachedPayload, payload_len, keep_same_completeness, merged_sections}
use nntp_proxy.Cache.Article.{
  CachedArticle, expire_stale_availability, missing, is_expired, record_availability_missing,
  is_complete_article, merge_compatible_sections,
}

unfoldable pub fresh_entry_for_mutation : ℕ → ℕ → Option CachedArticle → Option CachedArticle
unfolding is_expired expire_stale_availability
fresh_entry_for_mutation now ttl none = none
fresh_entry_for_mutation now ttl (some stored) =
    let entry = expire_stale_availability now ttl stored in
    if not (is_expired now ttl entry) then some entry else none

-- `should_replace`
abbrev pub should_replace : Bool → Bool → Bool → Bool
should_replace false true keep = true
should_replace true false keep = false
should_replace true true keep = not keep
should_replace false false keep = not keep

-- The merge with an entry that is fresh and whose backend is not known to miss the article.
unfoldable pub ingest_over : ℕ → CachedArticle → CachedArticle → CachedArticle
unfolding merge_compatible_sections is_complete_article
ingest_over now entry new = elim (merge_compatible_sections now entry new) [
  | some merged ↦ merged
  | none ↦
      if should_replace (is_complete_article entry) (is_complete_article new) (
        keep_same_completeness (payload_len entry.payload) (payload_len new.payload) entry.payload
          new.payload)
      then record entry {
        status_code = new.status_code;
        payload = new.payload;
        tier = new.tier;
        inserted_at = now;
      }
      else entry
]

-- The merge with the fresh entry, if there is one.
unfoldable pub ingest_fresh : ℕ → Option CachedArticle → CachedArticle → ℕ → CachedArticle
ingest_fresh now none new slot = new
ingest_fresh now (some entry) new slot =
    if is_missing_slot entry.backend_availability slot then entry else ingest_over now entry new

unfoldable pub merge_ingest_entry : ℕ → ℕ → Option CachedArticle → CachedArticle → ℕ → CachedArticle
unfolding fresh_entry_for_mutation ingest_fresh
merge_ingest_entry now ttl stored new slot =
    ingest_fresh now (fresh_entry_for_mutation now ttl stored) new slot

-- Whether no section is retained.
abbrev pub has_no_section : CachedPayload → Bool
has_no_section CachedPayload.missing = true
has_no_section CachedPayload.availability_only = true
has_no_section _ = false

abbrev pub or_entry : Option CachedArticle → CachedArticle → CachedArticle
or_entry none new = new
or_entry (some e) new = e

unfoldable pub merge_backend_has_status_entry :
    ℕ → ℕ → Option CachedArticle → CachedArticle → StatusCode → ℕ → ℕ → CachedArticle
unfolding fresh_entry_for_mutation
merge_backend_has_status_entry now ttl stored new status_code slot tier =
    let entry = or_entry (fresh_entry_for_mutation now ttl stored) new in
    if is_missing_slot entry.backend_availability slot
    then entry
    else if has_no_section entry.payload
    then record entry {
      status_code = status_code;
      tier = tier;
      payload = CachedPayload.availability_only;
      inserted_at = now;
    }
    else record entry { inserted_at = now }

unfoldable pub merge_backend_stat_entry :
    ℕ → ℕ → Option CachedArticle → CachedArticle → ℕ → CachedArticle
unfolding fresh_entry_for_mutation
merge_backend_stat_entry now ttl stored new slot =
    let entry = or_entry (fresh_entry_for_mutation now ttl stored) new in
    if is_missing_slot entry.backend_availability slot
    then entry
    else if has_no_section entry.payload
    then record entry {
      status_code = new.status_code;
      payload = new.payload;
      tier = new.tier;
      inserted_at = now;
    }
    else record entry { inserted_at = now }

unfoldable pub merge_availability_missing_entry : ℕ → ℕ → Option CachedArticle → ℕ → CachedArticle
unfolding fresh_entry_for_mutation record_availability_missing missing
merge_availability_missing_entry now ttl stored slot =
    elim (fresh_entry_for_mutation now ttl stored) [
      | some entry ↦ record_availability_missing now slot entry
      | none ↦ record_availability_missing now slot (missing now 0)
    ]

-- What a lookup gives, and whether it drops the stored entry.
pub data Lookup : Type 0 where
  hit : CachedArticle → Lookup
  expired absent : Lookup

unfoldable pub get_by_cache_key : ℕ → ℕ → Option CachedArticle → Lookup
unfolding is_expired expire_stale_availability
get_by_cache_key now ttl none = absent
get_by_cache_key now ttl (some entry) =
    if not (is_expired now ttl entry)
    then hit (expire_stale_availability now ttl entry)
    else expired
