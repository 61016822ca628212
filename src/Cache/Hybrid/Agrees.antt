-- ===== src/Cache/Hybrid/Agrees.antt =====
-- src/cache/hybrid.rs and src/cache/article.rs: the two caches store the same response.
use nntp_proxy.Base.{
  ℕ, ◌+◌, ◌^◌, ◌<◌, max, ◌≡◌, refl, ap, sym, ◌∙◌, inl, inr, Bool, true, false, not, Option, none,
  some, if◌then◌else◌, arith, Bool-cases, Option-cases, if_intro,
}
use nntp_proxy.Router.Bitmap.{is_missing_slot}
use nntp_proxy.Cache.Payload.{payload_len, keep_same_completeness, merged_sections}
use nntp_proxy.Cache.Codec.{as_u16, DiskCachedArticle}
use nntp_proxy.Cache.Article
use nntp_proxy.Cache.Article.{CachedArticle, article_is_complete}
use nntp_proxy.Cache.Merge
use nntp_proxy.Cache.Merge.{
  should_replace, fresh_entry_for_mutation, ingest_over, ingest_fresh, merge_ingest_entry,
}
use nntp_proxy.Cache.Disk.{
  is_complete_article, keep_over_same_completeness, merge_compatible_sections, into_cached_article,
}
use nntp_proxy.Cache.Hybrid.{
  get_fresh_entry_for_mutation, get_by_cache_key, keeps_existing, upsert_over, upsert_fresh,
  upsert_entry_for_slot,
}
use nntp_proxy.Cache.Hybrid.Lookups.{after, LaidOut, seen_in_disk, seen_in_memory, later_agree}
use nntp_proxy.Cache.Hybrid.Views.{
  View, memory_view, disk_view, in_memory, AllSlots, disk_views, memory_views, or_fresh,
  into-misses, fresh_agree,
}

-- The specification of storing a response over an entry, for either cache.
abbrev pub ingest : ℕ → View → View → View
ingest now v w = elim (merged_sections v.payload w.payload) [
  | some p ↦ record v { status = 220; tier = max v.tier w.tier; payload = p; time = now }
  | none ↦
      if should_replace (article_is_complete v.status v.payload)
        (article_is_complete w.status w.payload)
        (keep_same_completeness (payload_len v.payload) (payload_len w.payload) v.payload w.payload)
      then record w { bits = v.bits; misses = v.misses; time = now }
      else v
]

-- The entry as it is after the call: what was inserted, or the fresh entry.
abbrev pub or_existing : Option DiskCachedArticle → DiskCachedArticle → DiskCachedArticle
or_existing (some inserted) existing = inserted
or_existing none existing = existing

keeps-should_replace : (p q k : Bool) → keeps_existing p q k ≡ not (should_replace p q k)
keeps-should_replace p q k = ground arith

module _ (now ttl epoch : ℕ) where
  ingest_over-ingest :
      (e new : CachedArticle)
      → memory_view now ttl (ingest_over now e new)
        ≡ ingest now (memory_view now ttl e) (memory_view now ttl new)
  unfolding ingest_over Article.merge_compatible_sections Article.is_complete_article
  ingest_over-ingest e new = ground arith

  upsert_over-ingest :
      (d entry : DiskCachedArticle)
      → entry.timestamp ≡ now
      → disk_view now ttl (or_existing (upsert_over now epoch d entry) d)
        ≡ ingest now (disk_view now ttl d) (disk_view now ttl entry)
  unfolding upsert_over merge_compatible_sections is_complete_article keep_over_same_completeness
      as_u16
  upsert_over-ingest d entry t = elim (Option-cases (merged_sections d.payload entry.payload)) [
    | inr (p, m) ↦ ground (arith, m, t)
    | inl m ↦ ground (arith, m, t)
  ]

  or_fresh-or_existing :
      (o : Option DiskCachedArticle) (d : DiskCachedArticle)
      → or_fresh now ttl epoch o (some d) ≡ some (disk_view now ttl (or_existing o d))
  or_fresh-or_existing none d = refl
  or_fresh-or_existing (some r) d = refl

  stored_agree :
      (f : Option DiskCachedArticle) (g : Option CachedArticle) (entry : DiskCachedArticle)
      (slot : ℕ)
      → entry.timestamp ≡ now
      → disk_views now ttl epoch f ≡ memory_views now ttl epoch g
      → or_fresh now ttl epoch (upsert_fresh now epoch f entry slot) f
        ≡ some (memory_view now ttl (ingest_fresh now g (into_cached_article entry) slot))
  unfolding upsert_fresh ingest_fresh into_cached_article
  stored_agree none none entry slot t v =
      ap (λ m. some (record (disk_view now ttl entry) { misses = m }))
        (into-misses now ttl epoch entry)
  stored_agree none (some e) entry slot t v = absurd (ground (arith, v))
  stored_agree (some d) none entry slot t v = absurd (ground (arith, v))
  stored_agree (some d) (some e) entry slot t v =
      let w : disk_view now ttl d ≡ memory_view now ttl e = cc in
      let same : is_missing_slot d.availability slot ≡ is_missing_slot e.backend_availability slot =
        ap (λ (u : View). is_missing_slot (record { missing = u.bits }) slot) w in
      elim (Bool-cases (is_missing_slot d.availability slot)) [
        | inl m ↦
            let n : is_missing_slot e.backend_availability slot ≡ true = sym same ∙ m in
            rw (m, n) (ap some w)
        | inr m ↦
            let n : is_missing_slot e.backend_availability slot ≡ false = sym same ∙ m in
            rw (m, n)
              (or_fresh-or_existing (upsert_over now epoch d entry) d
                ∙ ap some (
                    upsert_over-ingest d entry t
                    ∙ ap (λ u. ingest now u (disk_view now ttl entry)) w
                    ∙ sym (ingest_over-ingest e (into_cached_article entry))))
      ]

  upsert_over-LaidOut :
      (d entry : DiskCachedArticle) → LaidOut epoch (upsert_over now epoch d entry)
  unfolding upsert_over merge_compatible_sections
  upsert_over-LaidOut d entry = elim (Option-cases (merged_sections d.payload entry.payload)) [
    | inr (p, m) ↦ rw (upsert_over, merge_compatible_sections, m) refl
    | inl m ↦
        rw (upsert_over, merge_compatible_sections, m)
          (if_intro (LaidOut epoch)
            (keeps_existing (is_complete_article d) (is_complete_article entry)
              (keep_over_same_completeness d entry))
            tt refl)
  ]

  upsert_fresh-LaidOut :
      (f : Option DiskCachedArticle) (entry : DiskCachedArticle) (slot : ℕ)
      → LaidOut epoch (upsert_fresh now epoch f entry slot)
  unfolding upsert_fresh
  upsert_fresh-LaidOut none entry slot = refl
  upsert_fresh-LaidOut (some d) entry slot =
      if_intro (LaidOut epoch) (is_missing_slot d.availability slot) tt
        (upsert_over-LaidOut d entry)

  -- After a response was stored in the two caches, a lookup at the time of the call or at any
  -- later time sees the same in both, whatever entry they held before: the same payload, status,
  -- tier and time and the same missing slots, or no entry. For a new entry that has the time of
  -- the call, a lifetime of 64 bits, a stored entry with a time for each of the 64 slots, and a
  -- memory cache that held what the disk cache had stored.
  pub upsert_entry_for_slot-merge_ingest_entry :
      (stored : Option DiskCachedArticle) (entry : DiskCachedArticle) (slot delay : ℕ)
      → ttl < 2 ^ 64
      → AllSlots stored
      → entry.timestamp ≡ now
      → seen_in_disk (
          get_by_cache_key
            (now + delay)
            ttl
            epoch
            (after (upsert_entry_for_slot now ttl epoch stored entry slot) stored))
        ≡ seen_in_memory (
            Merge.get_by_cache_key (now + delay) ttl (
              some (
                merge_ingest_entry now ttl
                  (in_memory epoch stored)
                  (into_cached_article entry)
                  slot)))
  unfolding upsert_entry_for_slot merge_ingest_entry
  upsert_entry_for_slot-merge_ingest_entry stored entry slot delay b h t =
      let f = get_fresh_entry_for_mutation now ttl epoch stored in
      let g = fresh_entry_for_mutation now ttl (in_memory epoch stored) in
      later_agree now ttl epoch (upsert_fresh now epoch f entry slot) stored
        (ingest_fresh now g (into_cached_article entry) slot) delay b h
        (upsert_fresh-LaidOut f entry slot)
        (stored_agree f g entry slot t (fresh_agree now ttl epoch stored b h))
