-- ===== src/Cache/Ttl.antt =====
-- src/cache/ttl.rs: how long a cache entry lives, by the tier of its backend.
use native.Mathlib.Nat.{mul-le-mul_left, pow-le-pow_right}
use nntp_proxy.Base.{
  ℕ, ◌-◌, ◌*◌, ◌^◌, ◌≤◌, ◌<◌, min, ◌≡◌, Bool, true, arith, ltb, leb, if◌then◌else◌,
}

-- `MAX_TTL_TIER`
abbrev pub max_ttl_tier : ℕ
max_ttl_tier = 63

abbrev u64_max : ℕ
u64_max = 0xFFFFFFFFFFFFFFFF

abbrev capped : ℕ → ℕ
capped tier = if ltb max_ttl_tier tier then max_ttl_tier else tier

pub effective_ttl : ℕ → ℕ → ℕ
effective_ttl base_ttl tier = min (base_ttl * 2 ^ capped tier) u64_max

-- The time of the call is the first argument.
unfoldable pub is_expired : ℕ → ℕ → ℕ → ℕ → Bool
unfolding effective_ttl
is_expired now inserted_at base_ttl tier = leb (effective_ttl base_ttl tier) (now - inserted_at)

-- `ttl_multiplier`
pub ttl_multiplier : ℕ → ℕ
ttl_multiplier tier = 2 ^ capped tier

capped_le : (s t : ℕ) → s ≤ t → capped s ≤ capped t
capped_le s t h = ground arith

effective_ttl_le : (base s t : ℕ) → s ≤ t → effective_ttl base s ≤ effective_ttl base t
unfolding effective_ttl
effective_ttl_le base s t h =
    let p : 2 ^ capped s ≤ 2 ^ capped t =
      pow-le-pow_right {n = 2} (omega arith) (capped_le s t h) in
    let q : base * 2 ^ capped s ≤ base * 2 ^ capped t = mul-le-mul_left base p in omega (arith, q)

base_le : (base t : ℕ) → base < 2 ^ 64 → base ≤ effective_ttl base t
unfolding effective_ttl
base_le base t h =
    let p : 2 ^ 0 ≤ 2 ^ capped t = pow-le-pow_right {n = 2} (omega arith) {i = 0} (omega arith) in
    let q : base * 2 ^ 0 ≤ base * 2 ^ capped t = mul-le-mul_left base p in omega (arith, q, h)

-- An entry that has expired for a tier has expired for every lower tier, it has lived at least for
-- the base time, and it stays expired as time goes on.
pub is_expired_mono :
    (now later inserted_at base s t : ℕ)
    → base < 2 ^ 64
    → now ≤ later
    → s ≤ t
    → is_expired now inserted_at base t ≡ true
    → (base ≤ now - inserted_at) × (is_expired later inserted_at base s ≡ true)
unfolding is_expired
is_expired_mono now later inserted_at base s t b l h e =
    let p = effective_ttl_le base s t h in
    let q = base_le base t b in (ground (arith, p, q, e), ground (arith, p, q, e, l))
