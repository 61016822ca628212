-- ===== src/Cache/Hybrid/DiskMisses.antt =====
-- src/cache/hybrid_codec.rs: what expiry and a recorded miss change of the misses in the disk cache.
use mathlib.Core.Path.{fun_ext}
use nntp_proxy.Base.{
  ℕ, zero, suc, ◌+◌, ◌^◌, ◌<◌, ◌≡◌, refl, ap, ◌∙◌, inl, inr, not, ◌&&◌, List, [], ◌∷◌, arith,
  length, ltb, ◌==◌, if◌then◌else◌, Bool-cases,
}
use nntp_proxy.Types.{usize_bits}
use nntp_proxy.Router.Bitmap.{is_missing_slot, clear_slot, record_missing_slot}
use nntp_proxy.Cache.Ttl
use nntp_proxy.Cache.Ttl.{is_expired_mono}
use nntp_proxy.Cache.Codec.{replicate, max_backends}
use nntp_proxy.Cache.Article.{retain_fresh}
use nntp_proxy.Cache.Disk.{expire_from, stamps_of, set}
use nntp_proxy.Cache.Disk.Expiry.{time_at, expire_from-at}
use nntp_proxy.Cache.Hybrid.Misses.{
  missing_in, memory_misses, disk_misses, marked, in_range, marks, stale-later,
}

module _ (ttl : ℕ) where
  pub expire_from-length :
      (now before index : ℕ) (ts : List ℕ) (bits : ℕ)
      → length (expire_from now ttl before index ts bits).1 ≡ length ts
  unfolding expire_from
  expire_from-length now before index [] bits = refl
  expire_from-length now before index (t ∷ ts) bits =
      omega (arith, expire_from-length now before (index + 1) ts _)

  -- What a lookup of the disk cache sees of a slot.
  disk_misses-at :
      (now : ℕ) (ts : List ℕ) (bits delay k : ℕ)
      → length ts ≡ usize_bits
      → k < usize_bits
      → missing_in (expire_from (now + delay) ttl bits 0 ts bits).0 k
        ≡ (missing_in bits k && not (Ttl.is_expired (now + delay) (time_at ts k) ttl 0))
  disk_misses-at now ts bits delay k n l =
      (expire_from-at (now + delay) ttl bits ts 0 bits k k (omega arith) (omega (arith, n, l))
        (omega (arith, n))).0
      ∙ ground arith

  pub disk_misses-expire_from :
      (now : ℕ) (ts : List ℕ) (bits delay k : ℕ)
      → ttl < 2 ^ 64
      → length ts ≡ usize_bits
      → disk_misses now ttl
          (expire_from now ttl bits 0 ts bits).1
          (expire_from now ttl bits 0 ts bits).0
          delay
          k
        ≡ disk_misses now ttl ts bits delay k
  unfolding disk_misses
  disk_misses-expire_from now ts bits delay k b n = in_range _ _ k (λ l.
      let r = expire_from now ttl bits 0 ts bits in
      let (p, q) =
        expire_from-at now ttl bits ts 0 bits k k (omega arith) (omega (arith, n, l))
          (omega (arith, n)) in
      let s = disk_misses-at now r.1 r.0 delay k (expire_from-length now bits 0 ts bits ∙ n) l in
      let t = disk_misses-at now ts bits delay k n l in
      let f = stale-later ttl now delay (time_at ts k) b in ground (arith, p, q, s, t, f))

  time_at-set :
      (ts : List ℕ) (slot now k : ℕ)
      → k < length ts
      → time_at (set ts slot now) k ≡ (if slot == k then now else time_at ts k)
  time_at-set [] slot now k l = absurd (omega (arith, l))
  time_at-set (t ∷ ts) zero now zero l = ground arith
  time_at-set (t ∷ ts) zero now (suc k) l = ground arith
  time_at-set (t ∷ ts) (suc slot) now zero l = ground arith
  time_at-set (t ∷ ts) (suc slot) now (suc k) l =
      time_at-set ts slot now k (omega (arith, l)) ∙ ground arith

  length-set : (ts : List ℕ) (slot now : ℕ) → length (set ts slot now) ≡ length ts
  length-set [] slot now = refl
  length-set (t ∷ ts) zero now = refl
  length-set (t ∷ ts) (suc slot) now = omega (arith, length-set ts slot now)

  disk_misses-set_at :
      (now : ℕ) (ts : List ℕ) (bits slot delay k : ℕ)
      → length ts ≡ usize_bits
      → disk_misses now ttl
          (set ts slot now)
          (record_missing_slot (record { missing = bits }) slot).missing
          delay
          k
        ≡ marked now ttl slot (disk_misses now ttl ts bits) delay k
  unfolding disk_misses marked
  disk_misses-set_at now ts bits slot delay k n = elim (Bool-cases (ltb k usize_bits)) [
    | inr e ↦ ground (arith, e)
    | inl e ↦
        let l : k < usize_bits = ground (arith, e) in
        let p =
          disk_misses-at now (set ts slot now)
            (record_missing_slot (record { missing = bits }) slot).missing delay k
            (length-set ts slot now ∙ n) l in
        let q = disk_misses-at now ts bits delay k n l in
        let m = marks bits slot k in
        let t = time_at-set ts slot now k (omega (arith, n, l)) in
        elim (Bool-cases (slot == k)) [
          | inl f ↦
              let t' : time_at (set ts slot now) k ≡ now = ground (arith, t, f) in
              rw (e, f, p, m, t') (ground (arith, f))
          | inr f ↦
              let t' : time_at (set ts slot now) k ≡ time_at ts k = ground (arith, t, f) in
              rw (e, f, p, m, t', q) (ground (arith, f))
        ]
  ]

  -- What a recorded miss adds to what lookups of the disk cache see.
  pub disk_misses-set :
      (now : ℕ) (ts : List ℕ) (bits slot : ℕ)
      → length ts ≡ usize_bits
      → disk_misses now ttl
          (set ts slot now)
          (record_missing_slot (record { missing = bits }) slot).missing
        ≡ marked now ttl slot (disk_misses now ttl ts bits)
  disk_misses-set now ts bits slot n =
      fun_ext (λ delay. fun_ext (λ k. disk_misses-set_at now ts bits slot delay k n))

-- The misses that are out of date are cleared alike.
pub expire_from-retain_fresh :
    (now ttl before index : ℕ) (ts : List ℕ) (bits : ℕ)
    → (expire_from now ttl before index ts bits).0
      ≡ (retain_fresh now ttl (stamps_of (record { missing = before }) index ts) bits).0
unfolding expire_from retain_fresh stamps_of
expire_from-retain_fresh now ttl before index [] bits = refl
expire_from-retain_fresh now ttl before index (t ∷ ts) bits =
    elim (Bool-cases (is_missing_slot (record { missing = before }) index)) [
      | inr e ↦ rw e (expire_from-retain_fresh now ttl before (index + 1) ts bits)
      | inl e ↦ elim (Bool-cases (Ttl.is_expired now t ttl 0)) [
        | inl f ↦
            rw (e, f)
              (expire_from-retain_fresh now ttl before (index + 1) ts (clear_slot bits index))
        | inr f ↦ rw (e, f) (expire_from-retain_fresh now ttl before (index + 1) ts bits)
      ]
    ]

pub misses_alike :
    (now ttl : ℕ) (ts : List ℕ) (bits delay k : ℕ)
    → disk_misses now ttl ts bits delay k
      ≡ memory_misses now ttl (stamps_of (record { missing = bits }) 0 ts) bits delay k
unfolding disk_misses memory_misses
misses_alike now ttl ts bits delay k =
    ap (λ b. ltb k usize_bits && is_missing_slot (record { missing = b }) k)
      (expire_from-retain_fresh (now + delay) ttl bits 0 ts bits)

misses_alike-none :
    (now ttl delay k : ℕ)
    → disk_misses now ttl (replicate max_backends 0) 0 delay k ≡ memory_misses now ttl [] 0 delay k
unfolding disk_misses memory_misses expire_from retain_fresh is_missing_slot
misses_alike-none now ttl delay k = refl

-- An entry without misses has none in either cache.
pub misses_none :
    (now ttl : ℕ) → disk_misses now ttl (replicate max_backends 0) 0 ≡ memory_misses now ttl [] 0
misses_none now ttl = fun_ext (λ delay. fun_ext (λ k. misses_alike-none now ttl delay k))
