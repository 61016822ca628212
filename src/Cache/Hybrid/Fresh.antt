-- ===== src/Cache/Hybrid/Fresh.antt =====
-- src/cache/hybrid.rs and src/cache/article.rs: the stamps of the fresh entries.
use nntp_proxy.Base.{ℕ, ◌≡◌, refl, subst, ◌∙◌, inl, inr, Option, none, some, arith, Bool-cases}
use nntp_proxy.Cache.Codec.{DiskCachedArticle}
use nntp_proxy.Cache.Article
use nntp_proxy.Cache.Article.{CachedArticle, retain_fresh}
use nntp_proxy.Cache.Merge.{fresh_entry_for_mutation}
use nntp_proxy.Cache.Disk.{expire_stale_availability, stamps_of, into_cached_article}
use nntp_proxy.Cache.Hybrid.{in_layout, get_fresh_entry_for_mutation}
use nntp_proxy.Cache.Hybrid.Misses.{InWord, Once}
use nntp_proxy.Cache.Hybrid.MemoryMisses.{
  stamps_of-InWord, stamps_of-Once, retain_fresh-InWord, retain_fresh-Once,
}
use nntp_proxy.Cache.Hybrid.DiskMisses.{expire_from-length}
use nntp_proxy.Cache.Hybrid.Views.{
  in_memory, HasSlots, AllSlots, in_layout-HasSlots, disk_fresh, memory_fresh, is_old,
  disk_fresh_entry, memory_fresh_entry,
}

module _ (now ttl epoch : ℕ) where
  -- The array of a fresh entry is as long as the stored one.
  pub fresh-HasSlots :
      (stored : Option DiskCachedArticle) (f : DiskCachedArticle)
      → AllSlots stored
      → get_fresh_entry_for_mutation now ttl epoch stored ≡ some f
      → HasSlots f
  unfolding get_fresh_entry_for_mutation expire_stale_availability
  fresh-HasSlots none f h e = absurd (ground (arith, e))
  fresh-HasSlots (some d) f h e =
      let l = in_layout epoch d in
      elim (Bool-cases (is_old now ttl epoch d)) [
        | inl o ↦
            let p : get_fresh_entry_for_mutation now ttl epoch (some d) ≡ none =
              disk_fresh_entry now ttl epoch d ∙ (rw o refl) in
            absurd (ground (arith, p, e))
        | inr o ↦
            let p : get_fresh_entry_for_mutation now ttl epoch (some d)
                ≡ some (disk_fresh now ttl epoch d) =
              disk_fresh_entry now ttl epoch d ∙ (rw o refl) in
            let q : disk_fresh now ttl epoch d ≡ f = cc in
            subst HasSlots q (
              expire_from-length ttl now l.availability.missing 0 l.negative_timestamps
                l.availability.missing
              ∙ in_layout-HasSlots epoch d h)
      ]

  -- A fresh entry of the memory cache has a stamp for each slot at most.
  pub fresh-stamps :
      (stored : Option DiskCachedArticle) (g : CachedArticle)
      → AllSlots stored
      → fresh_entry_for_mutation now ttl (in_memory epoch stored) ≡ some g
      → InWord g.negative_timestamps × Once g.negative_timestamps
  unfolding fresh_entry_for_mutation Article.expire_stale_availability into_cached_article
  fresh-stamps none g h e = absurd (ground (arith, e))
  fresh-stamps (some d) g h e =
      let l = in_layout epoch d in
      let ts = stamps_of l.availability 0 l.negative_timestamps in
      elim (Bool-cases (is_old now ttl epoch d)) [
        | inl o ↦
            let p : fresh_entry_for_mutation now ttl (in_memory epoch (some d)) ≡ none =
              memory_fresh_entry now ttl epoch d ∙ (rw o refl) in
            absurd (ground (arith, p, e))
        | inr o ↦
            let p : fresh_entry_for_mutation now ttl (in_memory epoch (some d))
                ≡ some (memory_fresh now ttl epoch d) =
              memory_fresh_entry now ttl epoch d ∙ (rw o refl) in
            let q : memory_fresh now ttl epoch d ≡ g = cc in
            subst (λ (x : CachedArticle). InWord x.negative_timestamps × Once x.negative_timestamps)
              q
              (
                retain_fresh-InWord ttl now ts l.availability.missing (
                    stamps_of-InWord l.availability.missing 0 l.negative_timestamps
                      (omega (arith, in_layout-HasSlots epoch d h))),
                retain_fresh-Once ttl now ts l.availability.missing
                    (stamps_of-Once l.availability.missing 0 l.negative_timestamps),
              )
      ]
