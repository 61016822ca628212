-- ===== src/Cache/Hybrid/Records.antt =====
-- src/cache/hybrid.rs and src/cache/article.rs: lookups after a status, a STAT or a miss of a
-- backend was recorded.
use nntp_proxy.Base.{
  ℕ, ◌+◌, ◌^◌, ◌<◌, refl, ◌≡◌, ap, sym, ◌∙◌, inl, inr, Option, none, some, Option-cases, if_intro,
  ok,
}
use nntp_proxy.Protocol.Status.{StatusCode}
use nntp_proxy.Router.Bitmap.{is_missing_slot}
use nntp_proxy.Cache.Payload.{CachedPayload}
use nntp_proxy.Types.{usize_bits}
use nntp_proxy.Cache.Codec.{CacheableStatusCode, try_from, DiskCachedArticle}
use nntp_proxy.Cache.Article
use nntp_proxy.Cache.Article.{CachedArticle}
use nntp_proxy.Cache.Merge
use nntp_proxy.Cache.Merge.{
  has_no_section, fresh_entry_for_mutation, merge_backend_has_status_entry,
  merge_backend_stat_entry, merge_availability_missing_entry,
}
use nntp_proxy.Cache.Hybrid.{
  get_by_cache_key, get_fresh_entry_for_mutation, record_missing_for_slot,
  record_has_status_for_slot, record_stat_for_slot,
}
use nntp_proxy.Cache.Hybrid.Lookups.{after, LaidOut, seen_in_disk, seen_in_memory, later_agree}
use nntp_proxy.Cache.Hybrid.Views.{in_memory, AllSlots, fresh_agree}
use nntp_proxy.Cache.Hybrid.Answers.{
  has_over, missing_over, no_misses, disk_status, memory_status, disk_stat, memory_stat,
  disk_missing, memory_missing, as_u16-try_from,
}

module _ (now ttl epoch : ℕ) where
  -- A lookup after so much time sees the same in the two caches, of which one holds the stored entry or
  -- what was inserted over it, and the other the merged entry.
  abbrev pub SeenAlike :
      ℕ → Option DiskCachedArticle → Option DiskCachedArticle → CachedArticle → Type 0
  SeenAlike delay inserted stored merged =
      seen_in_disk (get_by_cache_key (now + delay) ttl epoch (after inserted stored))
      ≡ seen_in_memory (Merge.get_by_cache_key (now + delay) ttl (some merged))

module _ (now ttl epoch slot : ℕ) where
  status-LaidOut :
      (tier : ℕ) (stored : Option DiskCachedArticle) (status : StatusCode) (c : CacheableStatusCode)
      → try_from status.value ≡ ok c
      → LaidOut epoch (record_has_status_for_slot now ttl epoch stored status slot tier)
  unfolding record_has_status_for_slot
  status-LaidOut tier stored status c h =
      elim (Option-cases (get_fresh_entry_for_mutation now ttl epoch stored)) [
        | inl f ↦ rw (record_has_status_for_slot, h, f) refl
        | inr (d, f) ↦
            rw (record_has_status_for_slot, h, f)
              (if_intro (LaidOut epoch) (is_missing_slot d.availability slot) tt refl)
      ]

  stat-LaidOut :
      (tier : ℕ) (stored : Option DiskCachedArticle)
      → LaidOut epoch (record_stat_for_slot now ttl epoch stored slot tier)
  unfolding record_stat_for_slot
  stat-LaidOut tier stored =
      elim (Option-cases (get_fresh_entry_for_mutation now ttl epoch stored)) [
        | inl f ↦ rw (record_stat_for_slot, f) refl
        | inr (d, f) ↦
            rw (record_stat_for_slot, f)
              (if_intro (LaidOut epoch) (is_missing_slot d.availability slot) tt refl)
      ]

  missing-LaidOut :
      (stored : Option DiskCachedArticle)
      → LaidOut epoch (record_missing_for_slot now ttl epoch stored slot)
  unfolding record_missing_for_slot
  missing-LaidOut stored = elim (Option-cases (get_fresh_entry_for_mutation now ttl epoch stored)) [
    | inl f ↦ rw (record_missing_for_slot, f) refl
    | inr (d, f) ↦ rw (record_missing_for_slot, f) refl
  ]

  -- After a backend's answer was recorded in the two caches (a status that an entry can have, a
  -- STAT, or a miss), a lookup at the time of the call or at any later time sees the same in both,
  -- whatever entry they held before: the same payload, status, tier and time and the same missing
  -- slots, or no entry. For a slot of the bitmap, a lifetime of 64 bits, a stored entry with a
  -- time for each of the 64 slots, and a memory cache that held what the disk cache had stored.
  pub records_agree :
      (tier delay : ℕ) (stored : Option DiskCachedArticle) (status : StatusCode)
      (c : CacheableStatusCode)
      → try_from status.value ≡ ok c
      → slot < usize_bits
      → ttl < 2 ^ 64
      → AllSlots stored
      → SeenAlike now ttl epoch delay
          (record_has_status_for_slot now ttl epoch stored status slot tier)
          stored
          (merge_backend_has_status_entry now ttl
            (in_memory epoch stored)
            (Article.availability_only now status tier)
            status
            slot
            tier)
        × SeenAlike now ttl epoch delay
            (record_stat_for_slot now ttl epoch stored slot tier)
            stored
            (merge_backend_stat_entry now ttl (in_memory epoch stored) (Article.stat now tier) slot)
        × SeenAlike now ttl epoch delay
            (record_missing_for_slot now ttl epoch stored slot)
            stored
            (merge_availability_missing_entry now ttl (in_memory epoch stored) slot)
  records_agree tier delay stored status c h l b a =
      let memory = in_memory epoch stored in
      let f = fresh_agree now ttl epoch stored b a in
      let p = disk_status now ttl epoch slot tier stored status c h in
      let q = memory_status now ttl epoch slot tier memory status in
      let e = as_u16-try_from status.value c h in
      (
        later_agree now ttl epoch _ stored _ delay b a (status-LaidOut tier stored status c h) cc,
        later_agree now ttl epoch _ stored _ delay b a (stat-LaidOut tier stored) (
            disk_stat now ttl epoch slot tier stored
            ∙ ap
                (λ v.
                  some (has_over (no_misses now ttl) now slot 223 tier (CachedPayload.stat none) v))
                f
            ∙ sym (ap some (memory_stat now ttl epoch slot tier memory))),
        later_agree now ttl epoch _ stored _ delay b a (missing-LaidOut stored) (
            disk_missing now ttl epoch slot stored a
            ∙ ap (λ v. some (missing_over (no_misses now ttl) now ttl slot v)) f
            ∙ sym (ap some (memory_missing now ttl epoch slot stored l a))),
      )
