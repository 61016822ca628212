-- ===== src/Cache/Hybrid/Views.antt =====
-- src/cache/hybrid.rs and src/cache/article.rs: what lookups of the two caches see.
use mathlib.Core.Path.{fun_ext}
use nntp_proxy.Base.{
  ℕ, ◌^◌, ◌<◌, ◌≡◌, ◌==◌, refl, ap, sym, ◌∙◌, inl, inr, Bool, not, Option, none, some,
  if◌then◌else◌, arith, Bool-cases, length,
}
use nntp_proxy.Types.{usize_bits}
use nntp_proxy.Cache.Ttl
use nntp_proxy.Cache.Payload.{CachedPayload}
use nntp_proxy.Cache.Codec.{as_u16, DiskCachedArticle}
use nntp_proxy.Cache.Article
use nntp_proxy.Cache.Article.{CachedArticle, retain_fresh}
use nntp_proxy.Cache.Merge.{fresh_entry_for_mutation}
use nntp_proxy.Cache.Disk.{
  expire_stale_availability, clear_availability, stamps_of, into_cached_article,
}
use nntp_proxy.Cache.Hybrid.{in_layout, get_fresh_entry_for_mutation}
use nntp_proxy.Cache.Hybrid.Misses.{memory_misses, disk_misses}
use nntp_proxy.Cache.Hybrid.MemoryMisses.{memory_misses-retain_fresh, stamps_of-InWord}
use nntp_proxy.Cache.Hybrid.DiskMisses.{
  disk_misses-expire_from, expire_from-retain_fresh, misses_alike,
}

-- An entry as lookups see it: the bits now, the slots that are missing by the time that has passed,
-- and the other fields.
pub record View : Type 0 where
  pub bits : ℕ
  pub misses : ℕ → ℕ → Bool
  pub status : ℕ
  pub payload : CachedPayload
  pub tier : ℕ
  pub time : ℕ

abbrev pub memory_view : ℕ → ℕ → CachedArticle → View
memory_view now ttl e = record {
  bits = e.backend_availability.missing;
  misses = memory_misses now ttl e.negative_timestamps e.backend_availability.missing;
  status = e.status_code.value;
  payload = e.payload;
  tier = e.tier;
  time = e.inserted_at;
}

abbrev pub disk_view : ℕ → ℕ → DiskCachedArticle → View
disk_view now ttl e = record {
  bits = e.availability.missing;
  misses = disk_misses now ttl e.negative_timestamps e.availability.missing;
  status = as_u16 e.status_code;
  payload = e.payload;
  tier = e.tier;
  time = e.timestamp;
}

-- The entry of the memory cache that the disk's entry stands for.
abbrev pub in_memory : ℕ → Option DiskCachedArticle → Option CachedArticle
in_memory epoch none = none
in_memory epoch (some d) = some (into_cached_article (in_layout epoch d))

-- The entry has a time for each slot, as the array of the code.
abbrev pub HasSlots : DiskCachedArticle → Type 0
HasSlots d = length d.negative_timestamps ≡ usize_bits

abbrev pub AllSlots : Option DiskCachedArticle → Type 0
AllSlots none = Unit
AllSlots (some d) = HasSlots d

pub in_layout-HasSlots :
    (epoch : ℕ) (d : DiskCachedArticle) → HasSlots d → HasSlots (in_layout epoch d)
unfolding in_layout clear_availability
in_layout-HasSlots epoch d h = elim (Bool-cases (d.availability_epoch == epoch)) [
  | inl e ↦ rw e h
  | inr e ↦ rw e refl
]

module _ (now ttl epoch : ℕ) where
  abbrev pub disk_views : Option DiskCachedArticle → Option View
  disk_views none = none
  disk_views (some d) = some (disk_view now ttl d)

  abbrev pub memory_views : Option CachedArticle → Option View
  memory_views none = none
  memory_views (some e) = some (memory_view now ttl e)

  -- What was inserted, or the fresh entry.
  abbrev pub or_fresh : Option DiskCachedArticle → Option DiskCachedArticle → Option View
  or_fresh (some inserted) fresh = some (disk_view now ttl inserted)
  or_fresh none fresh = disk_views fresh

  -- The fresh entries of the two caches.
  abbrev pub disk_fresh : DiskCachedArticle → DiskCachedArticle
  disk_fresh d = expire_stale_availability now ttl (in_layout epoch d)

  abbrev pub memory_fresh : DiskCachedArticle → CachedArticle
  memory_fresh d =
      Article.expire_stale_availability now ttl (into_cached_article (in_layout epoch d))

  pub disk_fresh-view :
      (d : DiskCachedArticle)
      → ttl < 2 ^ 64
      → HasSlots d
      → (disk_view now ttl (disk_fresh d)).misses ≡ (disk_view now ttl (in_layout epoch d)).misses
  unfolding expire_stale_availability
  disk_fresh-view d b h =
      let l = in_layout epoch d in
      fun_ext (λ delay. fun_ext (λ k.
        disk_misses-expire_from ttl now l.negative_timestamps l.availability.missing delay k b
          (in_layout-HasSlots epoch d h)))

  memory_fresh-view :
      (d : DiskCachedArticle)
      → ttl < 2 ^ 64
      → HasSlots d
      → (memory_view now ttl (memory_fresh d)).misses
        ≡ (memory_view now ttl (into_cached_article (in_layout epoch d))).misses
  unfolding Article.expire_stale_availability into_cached_article
  memory_fresh-view d b h =
      let l = in_layout epoch d in
      fun_ext (λ delay. fun_ext (λ k.
        memory_misses-retain_fresh ttl now (stamps_of l.availability 0 l.negative_timestamps)
          l.availability.missing delay k b
          (stamps_of-InWord l.availability.missing 0 l.negative_timestamps
            (omega (arith, in_layout-HasSlots epoch d h)))))

  pub into-misses :
      (d : DiskCachedArticle)
      → (disk_view now ttl d).misses ≡ (memory_view now ttl (into_cached_article d)).misses
  unfolding into_cached_article
  into-misses d = fun_ext (λ delay.
      fun_ext (λ k. misses_alike now ttl d.negative_timestamps d.availability.missing delay k))

  fresh_views :
      (d : DiskCachedArticle)
      → ttl < 2 ^ 64
      → HasSlots d
      → disk_view now ttl (disk_fresh d) ≡ memory_view now ttl (memory_fresh d)
  unfolding expire_stale_availability Article.expire_stale_availability into_cached_article
  fresh_views d s h =
      let l = in_layout epoch d in
      ap (λ b. record (disk_view now ttl (disk_fresh d)) { bits = b })
        (expire_from-retain_fresh now ttl l.availability.missing 0 l.negative_timestamps
          l.availability.missing)
      ∙ ap (λ m. record (memory_view now ttl (memory_fresh d)) { misses = m })
          (disk_fresh-view d s h ∙ into-misses l ∙ sym (memory_fresh-view d s h))

  abbrev pub is_old : DiskCachedArticle → Bool
  is_old d = Ttl.is_expired now (in_layout epoch d).timestamp ttl (in_layout epoch d).tier

  pub disk_fresh_entry :
      (d : DiskCachedArticle)
      → get_fresh_entry_for_mutation now ttl epoch (some d)
        ≡ (if not (is_old d) then some (disk_fresh d) else none)
  unfolding get_fresh_entry_for_mutation
  disk_fresh_entry d = refl

  pub memory_fresh_entry :
      (d : DiskCachedArticle)
      → fresh_entry_for_mutation now ttl (in_memory epoch (some d))
        ≡ (if not (is_old d) then some (memory_fresh d) else none)
  unfolding fresh_entry_for_mutation Article.expire_stale_availability Article.is_expired
      into_cached_article
  memory_fresh_entry d = refl

  pub fresh_agree :
      (stored : Option DiskCachedArticle)
      → ttl < 2 ^ 64
      → AllSlots stored
      → disk_views (get_fresh_entry_for_mutation now ttl epoch stored)
        ≡ memory_views (fresh_entry_for_mutation now ttl (in_memory epoch stored))
  unfolding get_fresh_entry_for_mutation fresh_entry_for_mutation
  fresh_agree none b h = refl
  fresh_agree (some d) b h = elim (Bool-cases (is_old d)) [
    | inl o ↦
        let p : get_fresh_entry_for_mutation now ttl epoch (some d) ≡ none =
          disk_fresh_entry d ∙ (rw o refl) in
        let q : fresh_entry_for_mutation now ttl (in_memory epoch (some d)) ≡ none =
          memory_fresh_entry d ∙ (rw o refl) in
        ap disk_views p ∙ sym (ap memory_views q)
    | inr o ↦
        let p : get_fresh_entry_for_mutation now ttl epoch (some d) ≡ some (disk_fresh d) =
          disk_fresh_entry d ∙ (rw o refl) in
        let q : fresh_entry_for_mutation now ttl (in_memory epoch (some d))
            ≡ some (memory_fresh d) =
          memory_fresh_entry d ∙ (rw o refl) in
        ap disk_views p ∙ ap some (fresh_views d b h) ∙ sym (ap memory_views q)
  ]
