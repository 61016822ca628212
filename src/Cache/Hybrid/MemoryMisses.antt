-- ===== src/Cache/Hybrid/MemoryMisses.antt =====
-- src/cache/article.rs: what expiry and a recorded miss change of the misses in the memory cache.
use mathlib.Core.Path.{fun_ext}
use nntp_proxy.Base.{
  ℕ, ◌+◌, ◌^◌, ◌≤◌, ◌<◌, ◌≡◌, refl, ◌∙◌, inl, inr, Bool, false, not, ◌&&◌, ◌||◌, List, [], ◌∷◌,
  arith, any, length, ltb, ◌==◌, if◌then◌else◌, Bool-cases,
}
use nntp_proxy.Types.{usize_bits}
use nntp_proxy.Router.Bitmap.{clear_slot, record_missing_slot}
use nntp_proxy.Router.Bitmap.Clear.{is_missing_slot-clear_slot}
use nntp_proxy.Cache.Ttl
use nntp_proxy.Cache.Ttl.{is_expired_mono}
use nntp_proxy.Cache.Article.{retain_fresh, stamp}
use nntp_proxy.Cache.Disk.{stamps_of}
use nntp_proxy.Cache.Hybrid.Misses.{
  missing_in, memory_misses, marked, InWord, has_stamp, Once, in_range, marks, stale-later,
}

module _ (ttl : ℕ) where
  abbrev is_stale : ℕ → ℕ → ℕ × ℕ → Bool
  is_stale now k s = (s.0 == k) && Ttl.is_expired now s.1 ttl 0

  retain_fresh-missing :
      (now k : ℕ) (stamps : List (ℕ × ℕ)) (bits : ℕ)
      → k < usize_bits
      → InWord stamps
      → missing_in (retain_fresh now ttl stamps bits).0 k
        ≡ (missing_in bits k && not (any (is_stale now k) stamps))
  unfolding retain_fresh
  retain_fresh-missing now k [] bits l w = ground arith
  retain_fresh-missing now k ((slot, t) ∷ stamps) bits l (w, ws) =
      elim (Bool-cases (Ttl.is_expired now t ttl 0)) [
        | inl e ↦
            let i = retain_fresh-missing now k stamps (clear_slot bits slot) l ws in
            let c = is_missing_slot-clear_slot bits slot k w l in rw e (i ∙ rw c (ground arith))
        | inr e ↦ let i = retain_fresh-missing now k stamps bits l ws in rw e (i ∙ ground arith)
      ]

  retain_fresh-stale :
      (now delay k : ℕ) (stamps : List (ℕ × ℕ)) (bits : ℕ)
      → ttl < 2 ^ 64
      → (any (is_stale now k) stamps
          || any (is_stale (now + delay) k) (retain_fresh now ttl stamps bits).1)
        ≡ any (is_stale (now + delay) k) stamps
  unfolding retain_fresh
  retain_fresh-stale now delay k [] bits b = refl
  retain_fresh-stale now delay k ((slot, t) ∷ stamps) bits b =
      elim (Bool-cases (Ttl.is_expired now t ttl 0)) [
        | inl e ↦
            let i = retain_fresh-stale now delay k stamps (clear_slot bits slot) b in
            let f = stale-later ttl now delay t b e in rw (e, f) (ground (arith, i))
        | inr e ↦ let i = retain_fresh-stale now delay k stamps bits b in rw e (ground (arith, i))
      ]

  pub retain_fresh-InWord :
      (now : ℕ) (stamps : List (ℕ × ℕ)) (bits : ℕ)
      → InWord stamps
      → InWord (retain_fresh now ttl stamps bits).1
  unfolding retain_fresh
  retain_fresh-InWord now [] bits w = tt
  retain_fresh-InWord now ((slot, t) ∷ stamps) bits (w, ws) =
      elim (Bool-cases (Ttl.is_expired now t ttl 0)) [
        | inl e ↦ rw e (retain_fresh-InWord now stamps (clear_slot bits slot) ws)
        | inr e ↦ rw e (w, retain_fresh-InWord now stamps bits ws)
      ]

  retain_fresh-has_stamp :
      (now k : ℕ) (stamps : List (ℕ × ℕ)) (bits : ℕ)
      → has_stamp k stamps ≡ false
      → has_stamp k (retain_fresh now ttl stamps bits).1 ≡ false
  unfolding retain_fresh
  retain_fresh-has_stamp now k [] bits h = refl
  retain_fresh-has_stamp now k ((slot, t) ∷ stamps) bits h =
      elim (Bool-cases (Ttl.is_expired now t ttl 0)) [
        | inl e ↦
            rw e (retain_fresh-has_stamp now k stamps (clear_slot bits slot) (ground (arith, h)))
        | inr e ↦
            let i = retain_fresh-has_stamp now k stamps bits (ground (arith, h)) in
            rw e (ground (arith, h, i))
      ]

  pub retain_fresh-Once :
      (now : ℕ) (stamps : List (ℕ × ℕ)) (bits : ℕ)
      → Once stamps
      → Once (retain_fresh now ttl stamps bits).1
  unfolding retain_fresh
  retain_fresh-Once now [] bits o = tt
  retain_fresh-Once now ((slot, t) ∷ stamps) bits (o, os) =
      elim (Bool-cases (Ttl.is_expired now t ttl 0)) [
        | inl e ↦ rw e (retain_fresh-Once now stamps (clear_slot bits slot) os)
        | inr e ↦
            rw e
              (retain_fresh-has_stamp now slot stamps bits o, retain_fresh-Once now stamps bits os)
      ]

  -- Forgetting the misses that are out of date does not change what later lookups see.
  pub memory_misses-retain_fresh :
      (now : ℕ) (stamps : List (ℕ × ℕ)) (bits delay k : ℕ)
      → ttl < 2 ^ 64
      → InWord stamps
      → memory_misses now ttl
          (retain_fresh now ttl stamps bits).1
          (retain_fresh now ttl stamps bits).0
          delay
          k
        ≡ memory_misses now ttl stamps bits delay k
  unfolding memory_misses
  memory_misses-retain_fresh now stamps bits delay k b w = in_range _ _ k (λ l.
      let r = retain_fresh now ttl stamps bits in
      let p =
        retain_fresh-missing (now + delay) k r.1 r.0 l (retain_fresh-InWord now stamps bits w) in
      let q = retain_fresh-missing now k stamps bits l w in
      let s = retain_fresh-missing (now + delay) k stamps bits l w in
      let t = retain_fresh-stale now delay k stamps bits b in ground (arith, p, q, s, t))

  no_stale :
      (now r k : ℕ) (stamps : List (ℕ × ℕ))
      → r ≡ k
      → has_stamp r stamps ≡ false
      → any (is_stale now k) stamps ≡ false
  no_stale now r k [] e h = refl
  no_stale now r k ((s, t) ∷ stamps) e h =
      let i = no_stale now r k stamps e (ground (arith, h)) in ground (arith, e, h, i)

  stale-stamp :
      (now later slot k : ℕ) (stamps : List (ℕ × ℕ))
      → Once stamps
      → any (is_stale later k) (stamp now slot stamps)
        ≡ (if slot == k then Ttl.is_expired later now ttl 0 else any (is_stale later k) stamps)
  unfolding stamp
  stale-stamp now later slot k [] o = ground arith
  stale-stamp now later slot k ((r, t) ∷ stamps) (o, os) =
      let i = stale-stamp now later slot k stamps os in
      elim (Bool-cases (r == slot)) [
        | inr e ↦ ground (arith, e, i)
        | inl e ↦
            let n = no_stale later r k stamps in
            elim (Bool-cases (slot == k)) [
              | inl f ↦ let m = n (ground (arith, e, f)) o in ground (arith, e, f, m)
              | inr f ↦ ground (arith, e, f)
            ]
      ]

  stamp-InWord :
      (now slot : ℕ) (stamps : List (ℕ × ℕ))
      → slot < usize_bits
      → InWord stamps
      → InWord (stamp now slot stamps)
  unfolding stamp
  stamp-InWord now slot [] l w = (l, tt)
  stamp-InWord now slot ((r, t) ∷ stamps) l (w, ws) = elim (Bool-cases (r == slot)) [
    | inl e ↦ rw e (w, ws)
    | inr e ↦ rw e (w, stamp-InWord now slot stamps l ws)
  ]

  memory_misses-stamp_at :
      (now : ℕ) (stamps : List (ℕ × ℕ)) (bits slot delay k : ℕ)
      → slot < usize_bits
      → InWord stamps
      → Once stamps
      → memory_misses now ttl
          (stamp now slot stamps)
          (record_missing_slot (record { missing = bits }) slot).missing
          delay
          k
        ≡ marked now ttl slot (memory_misses now ttl stamps bits) delay k
  unfolding memory_misses marked
  memory_misses-stamp_at now stamps bits slot delay k h w o = elim (Bool-cases (ltb k usize_bits)) [
    | inr e ↦ ground (arith, e)
    | inl e ↦
        let l : k < usize_bits = ground (arith, e) in
        let p =
          retain_fresh-missing (now + delay) k (stamp now slot stamps)
            (record_missing_slot (record { missing = bits }) slot).missing l
            (stamp-InWord now slot stamps h w) in
        let q = retain_fresh-missing (now + delay) k stamps bits l w in
        let m = marks bits slot k in
        let t = stale-stamp now (now + delay) slot k stamps o in
        elim (Bool-cases (slot == k)) [
          | inl f ↦ rw (e, f, p, m, t) (ground (arith, f))
          | inr f ↦ rw (e, f, p, m, t, q) (ground (arith, f))
        ]
  ]

  -- The same for the memory cache.
  pub memory_misses-stamp :
      (now : ℕ) (stamps : List (ℕ × ℕ)) (bits slot : ℕ)
      → slot < usize_bits
      → InWord stamps
      → Once stamps
      → memory_misses now ttl
          (stamp now slot stamps)
          (record_missing_slot (record { missing = bits }) slot).missing
        ≡ marked now ttl slot (memory_misses now ttl stamps bits)
  memory_misses-stamp now stamps bits slot h w o =
      fun_ext (λ delay. fun_ext (λ k. memory_misses-stamp_at now stamps bits slot delay k h w o))

stamps_of-has_stamp :
    (before i : ℕ) (ts : List ℕ) (k : ℕ)
    → k < i
    → has_stamp k (stamps_of (record { missing = before }) i ts) ≡ false
unfolding stamps_of
stamps_of-has_stamp before i [] k l = refl
stamps_of-has_stamp before i (t ∷ ts) k l =
    let r = stamps_of-has_stamp before (i + 1) ts k (omega (arith, l)) in
    elim (Bool-cases (missing_in before i)) [ inl e ↦ rw e (ground (arith, l, r)) | inr e ↦ rw e r ]

pub stamps_of-Once :
    (before i : ℕ) (ts : List ℕ) → Once (stamps_of (record { missing = before }) i ts)
unfolding stamps_of
stamps_of-Once before i [] = tt
stamps_of-Once before i (t ∷ ts) =
    let r = stamps_of-Once before (i + 1) ts in
    elim (Bool-cases (missing_in before i)) [
      | inl e ↦ rw e (stamps_of-has_stamp before (i + 1) ts i (omega arith), r)
      | inr e ↦ rw e r
    ]

pub stamps_of-InWord :
    (before i : ℕ) (ts : List ℕ)
    → i + length ts ≤ usize_bits
    → InWord (stamps_of (record { missing = before }) i ts)
unfolding stamps_of
stamps_of-InWord before i [] l = tt
stamps_of-InWord before i (t ∷ ts) l =
    let r = stamps_of-InWord before (i + 1) ts (omega (arith, l)) in
    elim (Bool-cases (missing_in before i)) [ inl e ↦ rw e (omega (arith, l), r) | inr e ↦ rw e r ]
