-- ===== src/Cache/Merge/Keeps.antt =====
-- src/cache/article.rs: what a merge keeps of the entry that was stored.
use nntp_proxy.Base.{
  ℕ, ◌+◌, ◌<◌, ◌≡◌, refl, sym, inl, inr, Bool, true, false, Option, none, some, length, subst,
  arith, max, if◌then◌else◌, if_split, Option-cases,
}
use nntp_proxy.Protocol.Kind.{RequestKind}
use nntp_proxy.Router.Bitmap.{is_missing_slot}
use nntp_proxy.Cache.Payload.{
  CachedPayload, payload_len, keep_same_completeness, merged_sections, retained_article_number,
}
use nntp_proxy.Cache.Serve.{sections_for}
use nntp_proxy.Cache.Article.{CachedArticle, article_is_complete, is_complete_article}
use nntp_proxy.Cache.Merge.{
  ingest_over, ingest_fresh, merge_ingest_entry, fresh_entry_for_mutation, should_replace,
}

-- Whether a request of the kind is answered.
abbrev pub answers : RequestKind → CachedPayload → Bool
answers kind p = elim (sections_for kind p) [ none ↦ false | some s ↦ true ]

-- The first payload answers every kind of request that the second does.
abbrev richer : CachedPayload → CachedPayload → Bool
richer q CachedPayload.missing = true
richer q CachedPayload.availability_only = true
richer (CachedPayload.article n h b) p = true
richer (CachedPayload.head n h) (CachedPayload.stat k) = true
richer (CachedPayload.body n b) (CachedPayload.stat k) = true
richer (CachedPayload.stat n) (CachedPayload.stat k) = true
richer (CachedPayload.head n h) (CachedPayload.head k g) = true
richer (CachedPayload.body n b) (CachedPayload.body k c) = true
richer _ _ = false

richer-answers :
    (kind : RequestKind) (q p : CachedPayload)
    → richer q p ≡ true
    → answers kind p ≡ true
    → answers kind q ≡ true
unfolding sections_for
richer-answers RequestKind.stat q p r e = ground (arith, r, e)
richer-answers RequestKind.article q p r e = ground (arith, r, e)
richer-answers RequestKind.head q p r e = ground (arith, r, e)
richer-answers RequestKind.body q p r e = ground (arith, r, e)
richer-answers _ q p r e = ground (arith, r, e)

-- The status belongs to the payload.
abbrev pub Matches : ℕ → CachedPayload → Type 0
Matches code CachedPayload.missing = code ≡ 430
Matches code CachedPayload.availability_only = Unit
Matches code (CachedPayload.article n h b) = code ≡ 220
Matches code (CachedPayload.head n h) = code ≡ 221
Matches code (CachedPayload.body n b) = code ≡ 222
Matches code (CachedPayload.stat n) = code ≡ 223

abbrev pub IsConsistent : CachedArticle → Type 0
IsConsistent e = Matches e.status_code.value e.payload

-- An article has a section.
abbrev pub IsFilled : CachedPayload → Type 0
IsFilled (CachedPayload.article n h b) = 0 < length h + length b
IsFilled _ = Unit

-- Where the payloads do not combine, what replaces a payload answers as much.
replaced-richer :
    (c d : ℕ) (p q : CachedPayload)
    → Matches c p
    → Matches d q
    → IsFilled p
    → merged_sections p q ≡ none
    → should_replace
        (article_is_complete c p)
        (article_is_complete d q)
        (keep_same_completeness (payload_len p) (payload_len q) p q)
      ≡ true
    → richer q p ≡ true
unfolding article_is_complete keep_same_completeness payload_len merged_sections
replaced-richer c d CachedPayload.missing q x y f m s = refl
replaced-richer c d CachedPayload.availability_only q x y f m s = refl
replaced-richer c d p (CachedPayload.article n h b) x y f m s = refl
replaced-richer c d p q x y f m s = ground (arith, x, y, f, m, s)

merged-richer :
    (p q r : CachedPayload) → merged_sections p q ≡ some r → (richer r p ≡ true) × Matches 220 r
unfolding merged_sections
merged-richer (CachedPayload.head k h) (CachedPayload.body l b) r m =
    let i : CachedPayload.article (retained_article_number k l) h b ≡ r = cc in
    subst (λ t. (richer t (CachedPayload.head k h) ≡ true) × Matches 220 t) i (refl, refl)
merged-richer (CachedPayload.body k b) (CachedPayload.head l h) r m =
    let i : CachedPayload.article (retained_article_number k l) h b ≡ r = cc in
    subst (λ t. (richer t (CachedPayload.body k b) ≡ true) × Matches 220 t) i (refl, refl)
merged-richer _ _ r m = absurd (ground (arith, m))

-- What a merge leaves of a stored entry.
pub record Keeps (e r : CachedArticle) : Type 0 where
  pub availability : r.backend_availability ≡ e.backend_availability
  pub timestamps : r.negative_timestamps ≡ e.negative_timestamps
  pub consistent : IsConsistent r
  pub answers_all :
      (kind : RequestKind) → answers kind e.payload ≡ true → answers kind r.payload ≡ true

ingest_merged :
    (now : ℕ) (e new : CachedArticle) (r : CachedPayload)
    → merged_sections e.payload new.payload ≡ some r
    → ingest_over now e new ≡ record e {
      status_code = record { value = 220 };
      tier = max e.tier new.tier;
      payload = r;
      inserted_at = now;
    }
unfolding ingest_over
ingest_merged now e new r m = ground (arith, m)

replaces : CachedArticle → CachedArticle → Bool
unfolding article_is_complete
replaces e new =
    should_replace (article_is_complete e.status_code.value e.payload)
      (article_is_complete new.status_code.value new.payload)
      (keep_same_completeness (payload_len e.payload) (payload_len new.payload) e.payload
        new.payload)

ingest_apart :
    (now : ℕ) (e new : CachedArticle)
    → merged_sections e.payload new.payload ≡ none
    → ingest_over now e new ≡ (
        if replaces e new
        then record e {
          status_code = new.status_code;
          payload = new.payload;
          tier = new.tier;
          inserted_at = now;
        }
        else e)
unfolding ingest_over is_complete_article replaces
ingest_apart now e new m = ground (arith, m)

ingest_over-Keeps :
    (now : ℕ) (e new : CachedArticle)
    → IsConsistent e
    → IsConsistent new
    → IsFilled e.payload
    → Keeps e (ingest_over now e new)
ingest_over-Keeps now e new x y f = elim (Option-cases (merged_sections e.payload new.payload)) [
  | inr (r, m) ↦
      let (rich, match) = merged-richer e.payload new.payload r m in
      subst (Keeps e) (sym (ingest_merged now e new r m)) (record {
        availability = refl;
        timestamps = refl;
        consistent = match;
        answers_all = λ kind. richer-answers kind r e.payload rich;
      })
  | inl m ↦ subst (Keeps e) (sym (ingest_apart now e new m)) (
      if_split (Keeps e) (replaces e new)
        (λ s. record {
          availability = refl;
          timestamps = refl;
          consistent = y;
          answers_all = λ kind. richer-answers kind new.payload e.payload (
              replaced-richer e.status_code.value new.status_code.value e.payload new.payload x y f
                m (unfold replaces in s));
        })
        (λ s. record {
          availability = refl;
          timestamps = refl;
          consistent = x;
          answers_all = λ kind h. h;
        }))
]

-- A response that is stored over a fresh entry takes no answer away: every kind of request that
-- the entry answered is still answered, the recorded misses and their times stay, and the status
-- still belongs to the payload. For entries whose status belongs to their payload, and a fresh entry
-- that is no article without any section.
pub merge_ingest_entry-Keeps :
    (now ttl slot : ℕ) (stored : Option CachedArticle) (e new : CachedArticle)
    → fresh_entry_for_mutation now ttl stored ≡ some e
    → IsConsistent e
    → IsConsistent new
    → IsFilled e.payload
    → Keeps e (merge_ingest_entry now ttl stored new slot)
unfolding merge_ingest_entry ingest_fresh
merge_ingest_entry-Keeps now ttl slot stored e new h x y f =
    rw (h, merge_ingest_entry)
      (if_split (Keeps e) (is_missing_slot e.backend_availability slot)
        (λ s. record {
          availability = refl;
          timestamps = refl;
          consistent = x;
          answers_all = λ kind k. k;
        })
        (λ s. ingest_over-Keeps now e new x y f))
