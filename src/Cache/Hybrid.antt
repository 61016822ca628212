-- ===== src/Cache/Hybrid.antt =====
-- src/cache/hybrid.rs: the operations of the disk cache. The time of a call is an argument, and so is the
-- entry that the store returns for a key.
pub mod Agrees
pub mod Records
pub mod Misses
pub mod MemoryMisses
pub mod DiskMisses
pub mod Views
pub mod Lookups
pub mod Fresh
pub mod Answers
use nntp_proxy.Base.{
  ℕ, zero, suc, ◌+◌, max, Bool, true, false, not, ◌&&◌, List, [], ◌∷◌, Option, none, some, ◌==◌,
  if◌then◌else◌, Result, ok, err,
}
use nntp_proxy.Protocol.Status.{StatusCode}
use nntp_proxy.Router.Bitmap.{ArticleAvailability, record_missing_slot, is_missing_slot, clear_slot}
use nntp_proxy.Cache.Ttl
use nntp_proxy.Cache.Payload.{CachedPayload, payload_len, keep_same_completeness, merged_sections}
use nntp_proxy.Cache.Codec.{
  CacheableStatusCode, as_u16, try_from, DiskCachedArticle, max_backends, replicate,
}
use nntp_proxy.Cache.Article.{CachedArticle, no_availability, article_is_complete}
use nntp_proxy.Cache.Merge.{has_no_section}
use nntp_proxy.Cache.Disk.{
  availability_only, stat, missing, record_availability_missing, clear_availability,
  expire_stale_availability, is_complete_article, is_expired, keep_over_same_completeness,
  merge_compatible_sections, record_backend_has_status, record_backend_stat,
}

-- The bits of another layout of the providers mean nothing.
unfoldable pub in_layout : ℕ → DiskCachedArticle → DiskCachedArticle
unfolding clear_availability
in_layout epoch e = if e.availability_epoch == epoch then e else clear_availability e

unfoldable pub get_fresh_entry_for_mutation :
    ℕ → ℕ → ℕ → Option DiskCachedArticle → Option DiskCachedArticle
unfolding in_layout expire_stale_availability is_expired
get_fresh_entry_for_mutation now ttl epoch none = none
get_fresh_entry_for_mutation now ttl epoch (some stored) =
    let entry = expire_stale_availability now ttl (in_layout epoch stored) in
    if not (is_expired now ttl entry) then some entry else none

-- A lookup gives the entry or counts a miss; the store keeps what it has.
unfoldable pub get_by_cache_key : ℕ → ℕ → ℕ → Option DiskCachedArticle → Option DiskCachedArticle
unfolding in_layout expire_stale_availability is_expired
get_by_cache_key now ttl epoch none = none
get_by_cache_key now ttl epoch (some stored) =
    let entry = expire_stale_availability now ttl (in_layout epoch stored) in
    if is_expired now ttl entry then none else some entry

-- `keep_existing`
abbrev pub keeps_existing : Bool → Bool → Bool → Bool
keeps_existing true false same = true
keeps_existing false true same = false
keeps_existing true true same = same
keeps_existing false false same = same

-- What is inserted over a fresh entry, or nothing.
unfoldable pub upsert_over :
    ℕ → ℕ → DiskCachedArticle → DiskCachedArticle → Option DiskCachedArticle
unfolding merge_compatible_sections is_complete_article keep_over_same_completeness
upsert_over now epoch existing entry = elim (merge_compatible_sections now existing entry) [
  | some merged ↦ some (record merged { availability_epoch = epoch })
  | none ↦
      if keeps_existing (is_complete_article existing) (is_complete_article entry)
        (keep_over_same_completeness existing entry)
      then none
      else some (record entry {
        availability = existing.availability;
        negative_timestamps = existing.negative_timestamps;
        availability_epoch = epoch;
      })
]

-- The same for the fresh entry, if there is one.
unfoldable pub upsert_fresh :
    ℕ → ℕ → Option DiskCachedArticle → DiskCachedArticle → ℕ → Option DiskCachedArticle
upsert_fresh now epoch none entry slot = some (record entry { availability_epoch = epoch })
upsert_fresh now epoch (some existing) entry slot =
    if is_missing_slot existing.availability slot
    then none
    else upsert_over now epoch existing entry

unfoldable pub upsert_entry_for_slot :
    ℕ → ℕ → ℕ → Option DiskCachedArticle → DiskCachedArticle → ℕ → Option DiskCachedArticle
unfolding get_fresh_entry_for_mutation upsert_fresh
upsert_entry_for_slot now ttl epoch stored entry slot =
    upsert_fresh now epoch (get_fresh_entry_for_mutation now ttl epoch stored) entry slot

unfoldable pub record_missing_for_slot :
    ℕ → ℕ → ℕ → Option DiskCachedArticle → ℕ → Option DiskCachedArticle
unfolding get_fresh_entry_for_mutation record_availability_missing missing
record_missing_for_slot now ttl epoch stored slot =
    elim (get_fresh_entry_for_mutation now ttl epoch stored) [
      | some existing ↦
          some
            (record (record_availability_missing now slot existing) { availability_epoch = epoch })
      | none ↦ some (record (record_availability_missing now slot (missing now 0)) {
        availability_epoch = epoch;
      })
    ]

-- A status that no entry can have is refused.
unfoldable pub record_has_status_for_slot :
    ℕ → ℕ → ℕ → Option DiskCachedArticle → StatusCode → ℕ → ℕ → Option DiskCachedArticle
unfolding get_fresh_entry_for_mutation record_backend_has_status availability_only try_from
record_has_status_for_slot now ttl epoch stored status slot tier = elim (try_from status.value) [
  | err code ↦ none
  | ok cacheable ↦ elim (get_fresh_entry_for_mutation now ttl epoch stored) [
    | none ↦ some (record (availability_only now cacheable tier) { availability_epoch = epoch })
    | some existing ↦
        if is_missing_slot existing.availability slot
        then none
        else some (record (record_backend_has_status now cacheable tier existing) {
          availability_epoch = epoch;
        })
  ]
]

unfoldable pub record_stat_for_slot :
    ℕ → ℕ → ℕ → Option DiskCachedArticle → ℕ → ℕ → Option DiskCachedArticle
unfolding get_fresh_entry_for_mutation record_backend_stat stat
record_stat_for_slot now ttl epoch stored slot tier =
    elim (get_fresh_entry_for_mutation now ttl epoch stored) [
      | none ↦ some (record (stat now tier) { availability_epoch = epoch })
      | some existing ↦
          if is_missing_slot existing.availability slot
          then none
          else some (record (record_backend_stat now tier existing) { availability_epoch = epoch })
    ]
