-- ===== src/Cache/Payload.antt =====
-- src/cache/article.rs: the semantic payload of a cache entry.
use Prim.Native.Nat.{bit_and, bit_or}
use nntp_proxy.Base.{
  ℕ, ◌+◌, Bool, not, ◌&&◌, ◌||◌, Option, none, some, ltb, ◌==◌, if◌then◌else◌, length, Bytes,
}

-- A `CachedArticleNumber` is a number, and an `Arc<[u8]>` the bytes that it shares.
pub data CachedPayload : Type 0 where
  missing availability_only : CachedPayload
  article : Option ℕ → Bytes → Bytes → CachedPayload
  head body : Option ℕ → Bytes → CachedPayload
  stat : Option ℕ → CachedPayload

abbrev article_bit : ℕ
article_bit = 1

abbrev head_bit : ℕ
head_bit = 2

abbrev body_bit : ℕ
body_bit = 4

abbrev stat_bit : ℕ
stat_bit = 8

pub answer_bits : CachedPayload → ℕ
answer_bits (CachedPayload.article n h b) =
    bit_or (bit_or (bit_or article_bit head_bit) body_bit) stat_bit
answer_bits (CachedPayload.head n h) = bit_or head_bit stat_bit
answer_bits (CachedPayload.body n b) = bit_or body_bit stat_bit
answer_bits (CachedPayload.stat n) = stat_bit
answer_bits CachedPayload.missing = 0
answer_bits CachedPayload.availability_only = 0

pub strictly_more_useful_than : CachedPayload → CachedPayload → Bool
unfolding answer_bits
strictly_more_useful_than new existing =
    let new_bits = answer_bits new in
    let existing_bits = answer_bits existing in
    bit_and new_bits existing_bits == existing_bits && not (new_bits == existing_bits)

unfoldable pub payload_len : CachedPayload → ℕ
payload_len CachedPayload.missing = 0
payload_len CachedPayload.availability_only = 0
payload_len (CachedPayload.stat n) = 0
payload_len (CachedPayload.article n h b) = length h + length b
payload_len (CachedPayload.head n h) = length h
payload_len (CachedPayload.body n b) = length b

unfoldable pub article_number : CachedPayload → Option ℕ
article_number CachedPayload.missing = none
article_number CachedPayload.availability_only = none
article_number (CachedPayload.article n h b) = n
article_number (CachedPayload.head n h) = n
article_number (CachedPayload.body n b) = n
article_number (CachedPayload.stat n) = n

unfoldable pub keep_same_completeness : ℕ → ℕ → CachedPayload → CachedPayload → Bool
unfolding strictly_more_useful_than
keep_same_completeness existing_len new_len existing new =
    ltb new_len existing_len
    || (existing_len == new_len && not (strictly_more_useful_than new existing))

unfoldable pub retained_article_number : Option ℕ → Option ℕ → Option ℕ
retained_article_number (some l) (some r) = if l == r then some l else none
retained_article_number (some n) none = some n
retained_article_number none (some n) = some n
retained_article_number none none = none

-- The payload of `merge_compatible_sections`, of the memory entry and of the disk entry alike.
unfoldable pub merged_sections : CachedPayload → CachedPayload → Option CachedPayload
unfolding retained_article_number
merged_sections (CachedPayload.head l h) (CachedPayload.body r b) =
    some (CachedPayload.article (retained_article_number l r) h b)
merged_sections (CachedPayload.body l b) (CachedPayload.head r h) =
    some (CachedPayload.article (retained_article_number l r) h b)
merged_sections _ _ = none
