-- ===== src/Cache/Article.antt =====
-- src/cache/article.rs: entries of the memory cache. The time of a call is an argument.
use nntp_proxy.Base.{
  ℕ, zero, suc, ◌+◌, max, Bool, false, not, ◌&&◌, ◌||◌, List, [], ◌∷◌, Option, none, some, ◌==◌,
  if◌then◌else◌, is_empty,
}
use nntp_proxy.Types.{usize_bits}
use nntp_proxy.Protocol.Status.{StatusCode}
use nntp_proxy.Router.Bitmap.{ArticleAvailability, record_missing_slot, is_missing_slot, clear_slot}
use nntp_proxy.Cache.Ttl
use nntp_proxy.Cache.Payload.{CachedPayload, merged_sections}

pub record CachedArticle : Type 0 where
  pub backend_availability : ArticleAvailability
  pub negative_timestamps : List (ℕ × ℕ)
  pub status_code : StatusCode
  pub payload : CachedPayload
  pub tier : ℕ
  pub inserted_at : ℕ

-- `ArticleAvailability::new`
abbrev pub no_availability : ArticleAvailability
no_availability = record { missing = 0 }

-- The slots from `slot` on, for so many rounds.
stamps_for : ℕ → ℕ → ℕ → ℕ → List (ℕ × ℕ)
stamps_for zero slot bits timestamp = []
stamps_for (suc rounds) slot bits timestamp =
    let rest = stamps_for rounds (slot + 1) bits timestamp in
    if is_missing_slot (record { missing = bits }) slot then (slot, timestamp) ∷ rest else rest

unfoldable pub negative_timestamps_for_bits : ℕ → ℕ → List (ℕ × ℕ)
unfolding stamps_for
negative_timestamps_for_bits bits timestamp = stamps_for usize_bits 0 bits timestamp

-- `retain` with the bits that its closure clears.
unfoldable pub retain_fresh : ℕ → ℕ → List (ℕ × ℕ) → ℕ → ℕ × List (ℕ × ℕ)
retain_fresh now base_ttl [] bits = (bits, [])
retain_fresh now base_ttl ((slot, timestamp) ∷ stamps) bits =
    if Ttl.is_expired now timestamp base_ttl 0
    then retain_fresh now base_ttl stamps (clear_slot bits slot)
    else (
      (retain_fresh now base_ttl stamps bits).0,
      (slot, timestamp) ∷ (retain_fresh now base_ttl stamps bits).1,
    )

unfoldable pub expire_stale_availability : ℕ → ℕ → CachedArticle → CachedArticle
unfolding retain_fresh
expire_stale_availability now base_ttl e =
    let (bits, stamps) =
      retain_fresh now base_ttl e.negative_timestamps e.backend_availability.missing in
    record e { negative_timestamps = stamps; backend_availability = record { missing = bits } }

unfoldable pub availability_only : ℕ → StatusCode → ℕ → CachedArticle
availability_only now status_code tier = record {
  backend_availability = no_availability;
  negative_timestamps = [];
  status_code = status_code;
  payload = CachedPayload.availability_only;
  tier = tier;
  inserted_at = now;
}

unfoldable pub stat : ℕ → ℕ → CachedArticle
stat now tier = record {
  backend_availability = no_availability;
  negative_timestamps = [];
  status_code = record { value = 223 };
  payload = CachedPayload.stat none;
  tier = tier;
  inserted_at = now;
}

unfoldable pub missing : ℕ → ℕ → CachedArticle
missing now tier = record {
  backend_availability = no_availability;
  negative_timestamps = [];
  status_code = record { value = 430 };
  payload = CachedPayload.missing;
  tier = tier;
  inserted_at = now;
}

unfoldable pub negative_only : ℕ → ℕ → CachedArticle
unfolding negative_timestamps_for_bits
negative_only now bits = record {
  backend_availability = record { missing = bits };
  negative_timestamps = negative_timestamps_for_bits bits now;
  status_code = record { value = 430 };
  payload = CachedPayload.missing;
  tier = 0;
  inserted_at = now;
}

unfoldable pub is_expired : ℕ → ℕ → CachedArticle → Bool
is_expired now base_ttl e = Ttl.is_expired now e.inserted_at base_ttl e.tier

-- The timestamp of the slot is replaced, or a new one is put at the end.
unfoldable pub stamp : ℕ → ℕ → List (ℕ × ℕ) → List (ℕ × ℕ)
stamp now slot [] = (slot, now) ∷ []
stamp now slot ((recorded, timestamp) ∷ stamps) =
    if recorded == slot
    then (recorded, now) ∷ stamps
    else (recorded, timestamp) ∷ stamp now slot stamps

unfoldable pub record_availability_missing : ℕ → ℕ → CachedArticle → CachedArticle
unfolding stamp
record_availability_missing now slot e = record e {
  backend_availability = record_missing_slot e.backend_availability slot;
  negative_timestamps = stamp now slot e.negative_timestamps;
}

unfoldable pub article_is_complete : ℕ → CachedPayload → Bool
article_is_complete code (CachedPayload.article n headers body) =
    code == 220 && (not (is_empty headers) || not (is_empty body))
article_is_complete code _ = false

unfoldable pub is_complete_article : CachedArticle → Bool
unfolding article_is_complete
is_complete_article e = article_is_complete e.status_code.value e.payload

-- The entry with the sections of both, or nothing.
unfoldable pub merge_compatible_sections : ℕ → CachedArticle → CachedArticle → Option CachedArticle
merge_compatible_sections now e other = elim (merged_sections e.payload other.payload) [
  | none ↦ none
  | some payload ↦ some (record e {
    status_code = record { value = 220 };
    tier = max e.tier other.tier;
    payload = payload;
    inserted_at = now;
  })
]
