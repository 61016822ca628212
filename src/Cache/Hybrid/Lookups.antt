-- ===== src/Cache/Hybrid/Lookups.antt =====
-- src/cache/hybrid.rs and src/cache/article.rs: lookups of the two caches after a call.
use nntp_proxy.Base.{
  ℕ, ◌+◌, ◌^◌, ◌<◌, ◌≡◌, refl, ap, sym, ◌∙◌, inl, inr, Bool, ◌&&◌, Option, none, some,
  if◌then◌else◌, arith, Bool-cases, Option-cases, ltb,
}
use nntp_proxy.Types.{usize_bits}
use nntp_proxy.Router.Bitmap.{is_missing_slot}
use nntp_proxy.Cache.Ttl
use nntp_proxy.Cache.Payload.{CachedPayload}
use nntp_proxy.Cache.Codec.{as_u16, DiskCachedArticle}
use nntp_proxy.Cache.Article
use nntp_proxy.Cache.Article.{CachedArticle, retain_fresh}
use nntp_proxy.Cache.Merge
use nntp_proxy.Cache.Merge.{Lookup, fresh_entry_for_mutation}
use nntp_proxy.Cache.Disk.{expire_stale_availability}
use nntp_proxy.Cache.Hybrid.{in_layout, get_fresh_entry_for_mutation, get_by_cache_key}
use nntp_proxy.Cache.Hybrid.Misses.{memory_misses, disk_misses}
use nntp_proxy.Cache.Hybrid.Views.{
  View, memory_view, disk_view, HasSlots, AllSlots, or_fresh, disk_fresh, is_old, disk_fresh_entry,
  disk_fresh-view,
}

-- What is stored for the key after a call that inserts something or nothing.
abbrev pub after : Option DiskCachedArticle → Option DiskCachedArticle → Option DiskCachedArticle
after (some inserted) stored = some inserted
after none stored = stored

-- The inserted entry has the current layout.
abbrev pub LaidOut : ℕ → Option DiskCachedArticle → Type 0
LaidOut epoch none = Unit
LaidOut epoch (some d) = d.availability_epoch ≡ epoch

-- What a lookup gives its caller: which of the slots are missing, and the other fields.
pub record Seen : Type 0 where
  pub is_missing : ℕ → Bool
  pub status : ℕ
  pub payload : CachedPayload
  pub tier : ℕ
  pub time : ℕ

abbrev pub seen_in_disk : Option DiskCachedArticle → Option Seen
seen_in_disk none = none
seen_in_disk (some d) = some (record {
  is_missing = λ k. ltb k usize_bits && is_missing_slot d.availability k;
  status = as_u16 d.status_code;
  payload = d.payload;
  tier = d.tier;
  time = d.timestamp;
})

abbrev pub seen_in_memory : Lookup → Option Seen
seen_in_memory Lookup.expired = none
seen_in_memory Lookup.absent = none
seen_in_memory (Lookup.hit e) = some (record {
  is_missing = λ k. ltb k usize_bits && is_missing_slot e.backend_availability k;
  status = e.status_code.value;
  payload = e.payload;
  tier = e.tier;
  time = e.inserted_at;
})

module _ (now ttl epoch : ℕ) where
  -- What a lookup after so much time sees of an entry with the view.
  abbrev glimpse : ℕ → View → Option Seen
  glimpse delay v =
      if Ttl.is_expired (now + delay) v.time ttl v.tier
      then none
      else some (record {
        is_missing = v.misses delay;
        status = v.status;
        payload = v.payload;
        tier = v.tier;
        time = v.time;
      })

  disk_glimpse :
      (d : DiskCachedArticle) (delay : ℕ)
      → seen_in_disk (get_by_cache_key (now + delay) ttl epoch (some d))
        ≡ glimpse delay (disk_view now ttl (in_layout epoch d))
  unfolding get_by_cache_key disk_misses
  disk_glimpse d delay =
      let l = in_layout epoch d in
      elim (Bool-cases (Ttl.is_expired (now + delay) l.timestamp ttl l.tier)) [
        | inl e ↦ rw (get_by_cache_key, e) refl
        | inr e ↦ rw (get_by_cache_key, e) refl
      ]

  memory_glimpse :
      (e : CachedArticle) (delay : ℕ)
      → seen_in_memory (Merge.get_by_cache_key (now + delay) ttl (some e))
        ≡ glimpse delay (memory_view now ttl e)
  unfolding Merge.get_by_cache_key Article.expire_stale_availability Article.is_expired
      memory_misses
  memory_glimpse e delay =
      elim (Bool-cases (Ttl.is_expired (now + delay) e.inserted_at ttl e.tier)) [
        | inl x ↦ rw (Merge.get_by_cache_key, x) refl
        | inr x ↦ rw (Merge.get_by_cache_key, x) refl
      ]

  fresh-kept :
      (d f : DiskCachedArticle)
      → ttl < 2 ^ 64
      → HasSlots d
      → get_fresh_entry_for_mutation now ttl epoch (some d) ≡ some f
      → (delay : ℕ)
      → glimpse delay (disk_view now ttl (in_layout epoch d)) ≡ glimpse delay (disk_view now ttl f)
  unfolding expire_stale_availability
  fresh-kept d f b h e delay = elim (Bool-cases (is_old now ttl epoch d)) [
    | inl o ↦
        let p : get_fresh_entry_for_mutation now ttl epoch (some d) ≡ none =
          disk_fresh_entry now ttl epoch d ∙ (rw o refl) in
        absurd (ground (arith, p, e))
    | inr o ↦
        let p : get_fresh_entry_for_mutation now ttl epoch (some d)
            ≡ some (disk_fresh now ttl epoch d) =
          disk_fresh_entry now ttl epoch d ∙ (rw o refl) in
        let q : disk_fresh now ttl epoch d ≡ f = cc in
        ap
          (λ m.
            glimpse delay (record (disk_view now ttl (disk_fresh now ttl epoch d)) { misses = m }))
          (sym (disk_fresh-view now ttl epoch d b h))
        ∙ ap (λ x. glimpse delay (disk_view now ttl x)) q
  ]

  -- If a call leaves the views of the two caches alike, so are all later lookups.
  pub later_agree :
      (inserted stored : Option DiskCachedArticle) (e : CachedArticle) (delay : ℕ)
      → ttl < 2 ^ 64
      → AllSlots stored
      → LaidOut epoch inserted
      → or_fresh now ttl epoch inserted (get_fresh_entry_for_mutation now ttl epoch stored)
        ≡ some (memory_view now ttl e)
      → seen_in_disk (get_by_cache_key (now + delay) ttl epoch (after inserted stored))
        ≡ seen_in_memory (Merge.get_by_cache_key (now + delay) ttl (some e))
  unfolding in_layout
  later_agree (some d) stored e delay b h l v =
      let i : in_layout epoch d ≡ d = ground (arith, l) in
      let w : disk_view now ttl d ≡ memory_view now ttl e = cc in
      disk_glimpse d delay
      ∙ ap (λ x. glimpse delay (disk_view now ttl x)) i
      ∙ ap (glimpse delay) w
      ∙ sym (memory_glimpse e delay)
  later_agree none none e delay b h l v =
      let n : get_fresh_entry_for_mutation now ttl epoch none ≡ none =
        unfold get_fresh_entry_for_mutation in refl in
      absurd (ground (arith, v, n))
  later_agree none (some d) e delay b h l v =
      elim (Option-cases (get_fresh_entry_for_mutation now ttl epoch (some d))) [
        | inl n ↦ absurd (ground (arith, v, n))
        | inr (f, m) ↦
            let w : disk_view now ttl f ≡ memory_view now ttl e = cc in
            disk_glimpse d delay
            ∙ fresh-kept d f b h m delay
            ∙ ap (glimpse delay) w
            ∙ sym (memory_glimpse e delay)
      ]
