-- ===== src/Cache/Disk/Expiry.antt =====
-- src/cache/hybrid_codec.rs: the misses that `expire_stale_availability` forgets.
use nntp_proxy.Base.{
  ℕ, zero, suc, ◌+◌, ◌≤◌, ◌<◌, ◌≡◌, ◌≢◌, refl, subst, ap, sym, ◌∙◌, Bool, true, false, not, ◌&&◌,
  List, [], ◌∷◌, ◌==◌, if◌then◌else◌, arith, length,
}
use nntp_proxy.Types.{usize_bits}
use nntp_proxy.Router.Bitmap.{is_missing_slot, clear_slot}
use nntp_proxy.Router.Bitmap.Clear.{is_missing_slot-clear_slot}
use nntp_proxy.Cache.Ttl
use nntp_proxy.Cache.Codec.{DiskCachedArticle}
use nntp_proxy.Cache.Disk.{expire_from, expire_stale_availability}

-- The time at which a slot was found missing.
abbrev pub time_at : List ℕ → ℕ → ℕ
time_at [] k = 0
time_at (t ∷ ts) zero = t
time_at (t ∷ ts) (suc k) = time_at ts k

abbrev missing_in : ℕ → ℕ → Bool
missing_in bits k = is_missing_slot (record { missing = bits }) k

-- Clearing a slot leaves the others.
other :
    (bits s k : ℕ) (b : Bool)
    → s < usize_bits
    → k < usize_bits
    → s ≢ k
    → missing_in (if b then clear_slot bits s else bits) k ≡ missing_in bits k
other bits s k true h l n =
    let e : (s == k) ≡ false = ground (arith, n) in
    is_missing_slot-clear_slot bits s k h l ∙ rw e refl
other bits s k false h l n = refl

itself :
    (bits s : ℕ) (b : Bool)
    → s < usize_bits
    → missing_in (if b then clear_slot bits s else bits) s ≡ (not b && missing_in bits s)
itself bits s true h =
    let e : (s == s) ≡ true = ground arith in is_missing_slot-clear_slot bits s s h h ∙ rw e refl
itself bits s false h = refl

module _ (now ttl before : ℕ) where
  abbrev stale : ℕ → ℕ → Bool
  stale k t = missing_in before k && Ttl.is_expired now t ttl 0

  -- The bits below the index stay.
  expire_from-below :
      (ts : List ℕ) (index bits k : ℕ)
      → k < index
      → index + length ts ≤ usize_bits
      → missing_in (expire_from now ttl before index ts bits).0 k ≡ missing_in bits k
  unfolding expire_from
  expire_from-below [] index bits k h l = refl
  expire_from-below (t ∷ ts) index bits k h l =
      expire_from-below ts (index + 1) (if stale index t then clear_slot bits index else bits) k
        (omega (arith, h)) (omega (arith, l))
      ∙ other bits index k (stale index t) (omega (arith, l)) (omega (arith, h, l))
          (omega (arith, h))

  -- The slot at the place `j` of the list.
  pub expire_from-at :
      (ts : List ℕ) (index bits j k : ℕ)
      → k ≡ index + j
      → j < length ts
      → index + length ts ≤ usize_bits
      → (missing_in (expire_from now ttl before index ts bits).0 k
          ≡ (not (stale k (time_at ts j)) && missing_in bits k))
        × (time_at (expire_from now ttl before index ts bits).1 j
            ≡ (if stale k (time_at ts j) then 0 else time_at ts j))
  unfolding expire_from
  expire_from-at [] index bits j k e h l = absurd (omega (arith, h))
  expire_from-at (t ∷ ts) index bits zero k e h l =
      let same : k ≡ index = omega (arith, e) in
      subst
        (λ i.
          (missing_in (expire_from now ttl before index (t ∷ ts) bits).0 i
            ≡ (not (stale i t) && missing_in bits i))
          × ((if stale index t then 0 else t) ≡ (if stale i t then 0 else t)))
        (sym same)
        (
          expire_from-below ts (index + 1) (if stale index t then clear_slot bits index else bits)
                index (omega arith) (omega (arith, l))
              ∙ itself bits index (stale index t) (omega (arith, l)),
          refl,
        )
  expire_from-at (t ∷ ts) index bits (suc j) k e h l =
      let (p, q) =
        expire_from-at ts (index + 1) (if stale index t then clear_slot bits index else bits) j k
          (omega (arith, e)) (omega (arith, h)) (omega (arith, l)) in
      let c =
        other bits index k (stale index t) (omega (arith, l)) (omega (arith, e, h, l))
          (omega (arith, e)) in
      (p ∙ ap (λ b. not (stale k (time_at ts j)) && b) c, q)

-- Whether the record of a slot is out of date.
abbrev pub is_old : ℕ → ℕ → DiskCachedArticle → ℕ → Bool
is_old now ttl e k = Ttl.is_expired now (time_at e.negative_timestamps k) ttl 0

-- After the expiry a backend is recorded as missing the article exactly when it was before and the
-- record is not out of date. The time of a record that is out of date is set to zero, and no other
-- time changes. For the slots of the list, which is not longer than a word is wide.
pub expire_stale_availability_lem :
    (now ttl : ℕ) (e : DiskCachedArticle) (k : ℕ)
    → length e.negative_timestamps ≤ usize_bits
    → k < length e.negative_timestamps
    → (is_missing_slot (expire_stale_availability now ttl e).availability k
        ≡ (is_missing_slot e.availability k && not (is_old now ttl e k)))
      × (time_at (expire_stale_availability now ttl e).negative_timestamps k ≡ (
          if is_missing_slot e.availability k && is_old now ttl e k
          then 0
          else time_at e.negative_timestamps k))
unfolding expire_stale_availability
expire_stale_availability_lem now ttl e k l h =
    let (p, q) =
      expire_from-at now ttl e.availability.missing e.negative_timestamps 0 e.availability.missing k
        k (omega arith) h (omega (arith, l)) in
    (p ∙ ground arith, q)
