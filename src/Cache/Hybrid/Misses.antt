-- ===== src/Cache/Hybrid/Misses.antt =====
-- src/cache/article.rs and src/cache/hybrid_codec.rs: the misses that a lookup sees as time goes on.
use nntp_proxy.Base.{
  ℕ, ◌+◌, ◌^◌, ◌<◌, ◌≡◌, refl, ap, inl, inr, Bool, true, false, not, ◌&&◌, ◌||◌, List, [], ◌∷◌,
  arith, any, ltb, ◌==◌, if◌then◌else◌, Bool-cases, bit_or-power,
}
use nntp_proxy.Types.{usize_bits}
use nntp_proxy.Router.Bitmap.{is_missing_slot, record_missing_slot}
use nntp_proxy.Cache.Ttl
use nntp_proxy.Cache.Ttl.{is_expired_mono}
use nntp_proxy.Cache.Article.{retain_fresh}
use nntp_proxy.Cache.Disk.{expire_from}

abbrev pub missing_in : ℕ → ℕ → Bool
missing_in bits k = is_missing_slot (record { missing = bits }) k

-- The slots that a lookup of the memory cache sees as missing, by the time that has passed.
unfoldable pub memory_misses : ℕ → ℕ → List (ℕ × ℕ) → ℕ → ℕ → ℕ → Bool
memory_misses now ttl stamps bits delay k =
    ltb k usize_bits && missing_in (retain_fresh (now + delay) ttl stamps bits).0 k

-- The same for the disk cache.
unfoldable pub disk_misses : ℕ → ℕ → List ℕ → ℕ → ℕ → ℕ → Bool
disk_misses now ttl stamps bits delay k =
    ltb k usize_bits && missing_in (expire_from (now + delay) ttl bits 0 stamps bits).0 k

-- A slot is recorded as missing at the time of the call.
unfoldable pub marked : ℕ → ℕ → ℕ → (ℕ → ℕ → Bool) → ℕ → ℕ → Bool
marked now ttl slot misses delay k =
    if slot == k
    then ltb k usize_bits && not (Ttl.is_expired (now + delay) now ttl 0)
    else misses delay k

abbrev pub InWord : List (ℕ × ℕ) → Type 0
InWord [] = Unit
InWord (s ∷ stamps) = (s.0 < usize_bits) × InWord stamps

abbrev pub has_stamp : ℕ → List (ℕ × ℕ) → Bool
has_stamp k stamps = any (λ (s : ℕ × ℕ). s.0 == k) stamps

-- No slot has two stamps.
abbrev pub Once : List (ℕ × ℕ) → Type 0
Once [] = Unit
Once (s ∷ stamps) = (has_stamp s.0 stamps ≡ false) × Once stamps

pub in_range :
    (p q : Bool) (k : ℕ)
    → (k < usize_bits → p ≡ q)
    → (ltb k usize_bits && p) ≡ (ltb k usize_bits && q)
in_range p q k h = elim (Bool-cases (ltb k usize_bits)) [
  | inl e ↦ let l : k < usize_bits = ground (arith, e) in ap (λ b. ltb k usize_bits && b) (h l)
  | inr e ↦ rw e refl
]

pub marks :
    (bits slot k : ℕ)
    → missing_in (record_missing_slot (record { missing = bits }) slot).missing k
      ≡ ((slot == k) || missing_in bits k)
unfolding record_missing_slot is_missing_slot
marks bits slot k = bit_or-power bits slot k

module _ (ttl : ℕ) where
  pub stale-later :
      (now delay t : ℕ)
      → ttl < 2 ^ 64
      → Ttl.is_expired now t ttl 0 ≡ true
      → Ttl.is_expired (now + delay) t ttl 0 ≡ true
  stale-later now delay t b e =
      (is_expired_mono now (now + delay) t ttl 0 0 b (omega arith) (omega arith) e).1
