-- ===== src/Cache/Hybrid/Answers.antt =====
-- src/cache/hybrid.rs and src/cache/article.rs: the entries that a status, a STAT and a miss leave.
use nntp_proxy.Base.{
  ℕ, Bool, [], ◌<◌, refl, ◌≡◌, inl, inr, false, Option, none, some, if◌then◌else◌, arith,
  Option-cases, bit_and-power, bit_at-nothing, ok,
}
use nntp_proxy.Protocol.Status.{StatusCode}
use nntp_proxy.Router.Bitmap.{record_missing_slot, is_missing_slot}
use nntp_proxy.Cache.Payload.{CachedPayload}
use nntp_proxy.Types.{usize_bits}
use nntp_proxy.Cache.Codec.{
  replicate, max_backends, CacheableStatusCode, as_u16, try_from, DiskCachedArticle,
}
use nntp_proxy.Cache.Article
use nntp_proxy.Cache.Article.{CachedArticle}
use nntp_proxy.Cache.Merge.{
  has_no_section, fresh_entry_for_mutation, merge_backend_has_status_entry,
  merge_backend_stat_entry, merge_availability_missing_entry,
}
use nntp_proxy.Cache.Disk.{
  availability_only, stat, missing, record_availability_missing, record_backend_has_status,
  record_backend_stat,
}
use nntp_proxy.Cache.Hybrid.{
  get_fresh_entry_for_mutation, record_missing_for_slot, record_has_status_for_slot,
  record_stat_for_slot,
}
use nntp_proxy.Cache.Hybrid.Misses.{memory_misses, marked}
use nntp_proxy.Cache.Hybrid.DiskMisses.{misses_none, disk_misses-set}
use nntp_proxy.Cache.Hybrid.MemoryMisses.{memory_misses-stamp}
use nntp_proxy.Cache.Hybrid.Fresh.{fresh-HasSlots, fresh-stamps}
use nntp_proxy.Cache.Hybrid.Views.{
  View, memory_view, in_memory, AllSlots, disk_views, memory_views, or_fresh,
}

-- The specification, for either cache: what a backend's status leaves of the fresh entry. A backend
-- that is known to miss the article changes nothing, and sections stay with their status.
abbrev pub has_over : (ℕ → ℕ → Bool) → ℕ → ℕ → ℕ → ℕ → CachedPayload → Option View → View
has_over nothing now slot code tier p none = record {
  bits = 0;
  misses = nothing;
  status = code;
  payload = p;
  tier = tier;
  time = now;
}
has_over nothing now slot code tier p (some v) =
    if is_missing_slot (record { missing = v.bits }) slot
    then v
    else if has_no_section v.payload
    then record v { status = code; payload = p; tier = tier; time = now }
    else record v { time = now }

-- The same for a miss, which counts from the time of the call on.
abbrev pub missing_over : (ℕ → ℕ → Bool) → ℕ → ℕ → ℕ → Option View → View
missing_over nothing now ttl slot none = record {
  bits = (record_missing_slot (record { missing = 0 }) slot).missing;
  misses = marked now ttl slot nothing;
  status = 430;
  payload = CachedPayload.missing;
  tier = 0;
  time = now;
}
missing_over nothing now ttl slot (some v) = record v {
  bits = (record_missing_slot (record { missing = v.bits }) slot).missing;
  misses = marked now ttl slot v.misses;
}

nothing_missing : (slot : ℕ) → is_missing_slot (record { missing = 0 }) slot ≡ false
unfolding is_missing_slot
nothing_missing slot =
    let (p, q) = bit_and-power slot 0 in let e = bit_at-nothing slot in ground (arith, p, q, e)

-- The view of no misses.
abbrev pub no_misses : ℕ → ℕ → ℕ → ℕ → Bool
no_misses now ttl = memory_misses now ttl [] 0

module _ (now ttl epoch slot : ℕ) where
  pub disk_status :
      (tier : ℕ) (stored : Option DiskCachedArticle) (status : StatusCode) (c : CacheableStatusCode)
      → try_from status.value ≡ ok c
      → or_fresh now ttl epoch
          (record_has_status_for_slot now ttl epoch stored status slot tier)
          (get_fresh_entry_for_mutation now ttl epoch stored)
        ≡ some (
            has_over
              (no_misses now ttl)
              now
              slot
              (as_u16 c)
              tier
              CachedPayload.availability_only
              (disk_views now ttl epoch (get_fresh_entry_for_mutation now ttl epoch stored)))
  unfolding record_has_status_for_slot record_backend_has_status availability_only as_u16
  disk_status tier stored status c h =
      let n = misses_none now ttl in
      elim (Option-cases (get_fresh_entry_for_mutation now ttl epoch stored)) [
        | inl f ↦ ground (arith, h, f, n)
        | inr (d, f) ↦ ground (arith, h, f)
      ]

  pub memory_status :
      (tier : ℕ) (stored : Option CachedArticle) (status : StatusCode)
      → memory_view now ttl (
          merge_backend_has_status_entry now ttl stored
            (Article.availability_only now status tier)
            status
            slot
            tier)
        ≡ has_over
            (no_misses now ttl)
            now
            slot
            status.value
            tier
            CachedPayload.availability_only
            (memory_views now ttl epoch (fresh_entry_for_mutation now ttl stored))
  unfolding merge_backend_has_status_entry Article.availability_only
  memory_status tier stored status = elim (Option-cases (fresh_entry_for_mutation now ttl stored)) [
    | inl f ↦ let n = nothing_missing slot in ground (arith, n, f)
    | inr (d, f) ↦ ground (arith, f)
  ]

  pub disk_stat :
      (tier : ℕ) (stored : Option DiskCachedArticle)
      → or_fresh now ttl epoch
          (record_stat_for_slot now ttl epoch stored slot tier)
          (get_fresh_entry_for_mutation now ttl epoch stored)
        ≡ some (
            has_over
              (no_misses now ttl)
              now
              slot
              223
              tier
              (CachedPayload.stat none)
              (disk_views now ttl epoch (get_fresh_entry_for_mutation now ttl epoch stored)))
  unfolding record_stat_for_slot record_backend_stat stat as_u16
  disk_stat tier stored =
      let n = misses_none now ttl in
      elim (Option-cases (get_fresh_entry_for_mutation now ttl epoch stored)) [
        | inl f ↦ ground (arith, f, n)
        | inr (d, f) ↦ ground (arith, f)
      ]

  pub memory_stat :
      (tier : ℕ) (stored : Option CachedArticle)
      → memory_view now ttl (merge_backend_stat_entry now ttl stored (Article.stat now tier) slot)
        ≡ has_over
            (no_misses now ttl)
            now
            slot
            223
            tier
            (CachedPayload.stat none)
            (memory_views now ttl epoch (fresh_entry_for_mutation now ttl stored))
  unfolding merge_backend_stat_entry Article.stat
  memory_stat tier stored = elim (Option-cases (fresh_entry_for_mutation now ttl stored)) [
    | inl f ↦ let n = nothing_missing slot in ground (arith, n, f)
    | inr (d, f) ↦ ground (arith, f)
  ]

  pub disk_missing :
      (stored : Option DiskCachedArticle)
      → AllSlots stored
      → or_fresh now ttl epoch
          (record_missing_for_slot now ttl epoch stored slot)
          (get_fresh_entry_for_mutation now ttl epoch stored)
        ≡ some (
            missing_over
              (no_misses now ttl)
              now
              ttl
              slot
              (disk_views now ttl epoch (get_fresh_entry_for_mutation now ttl epoch stored)))
  unfolding record_missing_for_slot record_availability_missing missing as_u16
  disk_missing stored h = elim (Option-cases (get_fresh_entry_for_mutation now ttl epoch stored)) [
    | inl f ↦
        let n = misses_none now ttl in
        let m = disk_misses-set ttl now (replicate max_backends 0) 0 slot refl in
        ground (arith, f, m, n)
    | inr (d, f) ↦
        let m =
          disk_misses-set ttl now d.negative_timestamps d.availability.missing slot
            (fresh-HasSlots now ttl epoch stored d h f) in
        ground (arith, f, m)
  ]

  pub memory_missing :
      (stored : Option DiskCachedArticle)
      → slot < usize_bits
      → AllSlots stored
      → memory_view now ttl (merge_availability_missing_entry now ttl (in_memory epoch stored) slot)
        ≡ missing_over
            (no_misses now ttl)
            now
            ttl
            slot
            (memory_views now ttl epoch (fresh_entry_for_mutation now ttl (in_memory epoch stored)))
  unfolding merge_availability_missing_entry Article.record_availability_missing Article.missing
  memory_missing stored l h =
      elim (Option-cases (fresh_entry_for_mutation now ttl (in_memory epoch stored))) [
        | inl f ↦ let m = memory_misses-stamp ttl now [] 0 slot l tt tt in ground (arith, f, m)
        | inr (e, f) ↦
            let (w, o) = fresh-stamps now ttl epoch stored e h f in
            let m =
              memory_misses-stamp ttl now e.negative_timestamps e.backend_availability.missing slot
                l w o in
            ground (arith, f, m)
      ]

pub as_u16-try_from : (code : ℕ) (c : CacheableStatusCode) → try_from code ≡ ok c → as_u16 c ≡ code
unfolding try_from as_u16
as_u16-try_from code c h = ground (arith, h)
