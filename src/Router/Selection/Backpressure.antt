-- ===== src/Router/Selection/Backpressure.antt =====
-- src/router/mod.rs: when an article request is held back.
use mathlib.Core.List.{Memᴰ}
use mathlib.Core.List.Memᴰ
use nntp_proxy.Base.{
  ℕ, ltb, ◌/◌, ◌<◌, ◌+◌, ◌-◌, ◌*◌, ◌≤◌, ◌≡◌, ◌≢◌, ◌↔◌, refl, ap, subst, ◌∙◌, inl, inr, Bool, true,
  false, not, ◌&&◌, List, [], ◌∷◌, ◌++◌, some, min, max, arith, any, All, Bool-cases, ◌==◌,
}
use nntp_proxy.Router.Bitmap.{
  SuppressedBackends, ArticleAvailability, contains, is_missing_slot, should_try_slot,
}
use nntp_proxy.Router.Weights.{usize_max}
use nntp_proxy.Router.{
  BackendInfo, BackendSelector, over_hard, exceeds_hard_queue_depth, queue_depth_for_score,
  queue_depth_limit, active_for_score, checked_out,
}
use nntp_proxy.Router.Selection.{candidate, delay_in_tiers, queue_backpressure_delay_for_article}

-- The requests that wait for a connection of the backend: the pending ones, or the connections in use
-- and their waiters if those are more, less the connections in use.
abbrev pub queued : BackendInfo → ℕ
queued b = max b.pending (min (b.size - b.available + b.waiting) usize_max) - (b.size - b.available)

-- The queue is longer than the percentage of the connections, rounded up.
abbrev pub ExceedsLimit : ℕ → BackendInfo → Type 0
ExceedsLimit percent b =
    (b.max_size ≢ 0) × (min (b.max_size * percent) usize_max + 100 ≤ 100 * queued b)

above-div_ceil : (m q : ℕ) → (ltb ((m + 99) / 100) q ≡ true) ↔ (m + 100 ≤ 100 * q)
above-div_ceil m q = (
  λ h. let l : (m + 99) / 100 < q = ground (arith, h) in omega (arith, l),
  λ h. let l : (m + 99) / 100 < q = omega (arith, h) in ground (arith, l),
)

queue_depth-queued :
    (b : BackendInfo) → queue_depth_for_score b.pending (checked_out b) b.waiting ≡ queued b
unfolding queue_depth_for_score active_for_score
queue_depth-queued b = ground arith

any-Mem :
    (p : BackendInfo → Bool) (bs : List BackendInfo)
    → any p bs ≡ true
    → (b : BackendInfo) × Memᴰ b bs × (p b ≡ true)
any-Mem p [] h = absurd (ground (arith, h))
any-Mem p (b ∷ bs) h = elim (Bool-cases (p b)) [
  | inl e ↦ (b, Memᴰ.head refl, e)
  | inr e ↦ let (c, m, k) = any-Mem p bs (ground (arith, h, e)) in (c, Memᴰ.tail m, k)
]

Mem-any :
    (p : BackendInfo → Bool) {b : BackendInfo} (bs : List BackendInfo)
    → Memᴰ b bs
    → p b ≡ true
    → any p bs ≡ true
Mem-any p [] m e = absurd (Memᴰ.not-nil m)
Mem-any p (c ∷ bs) m e = elim (Memᴰ.cases_cons m) [
  | inl i ↦ let k : p c ≡ true = subst (λ d. p d ≡ true) i e in ground (arith, k)
  | inr k ↦ let r = Mem-any p bs k e in ground (arith, r)
]

module _ (s : BackendSelector) (a : ArticleAvailability) (x : SuppressedBackends) where
  -- A backend of the tier that could be given the request.
  pub record Eligible (tier : ℕ) (b : BackendInfo) : Type 0 where
    pub listed : Memᴰ b s.backends
    pub in_tier : b.tier ≡ tier
    pub not_suppressed : contains x b.id ≡ false
    pub not_missing : is_missing_slot a b.availability_slot ≡ false

  -- The first of the tiers with an eligible backend has none whose queue is within the limit.
  pub record Saturated (tiers : List ℕ) : Type 0 where
    pub before : List ℕ
    pub tier : ℕ
    pub after : List ℕ
    pub splits : tiers ≡ before ++ tier ∷ after
    pub none_before : All (λ t. (b : BackendInfo) → ¬ (Eligible t b)) before
    pub backend : BackendInfo
    pub eligible : Eligible tier backend
    pub all_busy : (b : BackendInfo) → Eligible tier b → ExceedsLimit s.hard_percent b

  over_hard_iff :
      (b : BackendInfo)
      → s.queue_backpressure_enabled ≡ true
      → (over_hard s b ≡ true) ↔ ExceedsLimit s.hard_percent b
  unfolding over_hard exceeds_hard_queue_depth queue_depth_limit
  over_hard_iff b e =
      let d = queue_depth-queued b in
      let (to, from) = above-div_ceil (min (b.max_size * s.hard_percent) usize_max) (queued b) in
      (
        λ h. elim (Bool-cases (b.max_size == 0)) [
          | inl z ↦ absurd (ground (arith, e, z, h))
          | inr z ↦ (λ i. absurd (ground (arith, z, i)), to (rw (e, z, d) at h))
        ],
        λ h. let z : (b.max_size == 0) ≡ false = ground (arith, h.0) in rw (e, z, d) (from h.1),
      )

  candidate_iff :
      (tier : ℕ) (b : BackendInfo)
      → Memᴰ b s.backends
      → (candidate a x tier b ≡ true) ↔ Eligible tier b
  unfolding should_try_slot
  candidate_iff tier b m = (
    λ h. record {
      listed = m;
      in_tier = ground (arith, h);
      not_suppressed = ground (arith, h);
      not_missing = ground (arith, h);
    },
    λ e. ground (arith, e.in_tier, e.not_suppressed, e.not_missing),
  )

  abbrev has_room : ℕ → BackendInfo → Bool
  has_room tier b = candidate a x tier b && not (over_hard s b)

  not_served :
      (tier : ℕ)
      → any (candidate a x tier) s.backends ≡ false
      → (b : BackendInfo) → ¬ (Eligible tier b)
  not_served tier e b h =
      let c = (candidate_iff tier b h.listed).1 h in
      let m = Mem-any (candidate a x tier) s.backends h.listed c in absurd (ground (arith, m, e))

  no_room_iff :
      (tier : ℕ)
      → s.queue_backpressure_enabled ≡ true
      → (any (has_room tier) s.backends ≡ false)
        ↔ ((b : BackendInfo) → Eligible tier b → ExceedsLimit s.hard_percent b)
  no_room_iff tier e = (
    λ h b g. elim (Bool-cases (over_hard s b)) [
      | inl o ↦ (over_hard_iff b e).0 o
      | inr o ↦
          let c = (candidate_iff tier b g.listed).1 g in
          let m = Mem-any (has_room tier) s.backends g.listed (ground (arith, c, o)) in
          absurd (ground (arith, m, h))
    ],
    λ h. elim (Bool-cases (any (has_room tier) s.backends)) [
      | inr r ↦ r
      | inl r ↦
          let (b, m, k) = any-Mem (has_room tier) s.backends r in
          let g = (candidate_iff tier b m).0 (ground (arith, k)) in
          let o = (over_hard_iff b e).1 (h b g) in absurd (ground (arith, k, o))
    ],
  )

  delays-Saturated :
      (tiers : List ℕ) (ms : ℕ)
      → s.queue_backpressure_enabled ≡ true
      → delay_in_tiers s a x tiers ≡ some ms
      → Saturated tiers × (ms ≡ s.queue_backpressure_all_busy_sleep_ms)
  unfolding delay_in_tiers
  delays-Saturated [] ms e h = absurd (ground (arith, h))
  delays-Saturated (tier ∷ tiers) ms e h = elim (Bool-cases (any (candidate a x tier) s.backends)) [
    | inr c ↦
        let (t, m) = delays-Saturated tiers ms e (ground (arith, h, c)) in
        (
          record {
            before = tier ∷ t.before;
            tier = t.tier;
            after = t.after;
            splits = ap (◌∷◌ tier) t.splits;
            none_before = (not_served tier c, t.none_before);
            backend = t.backend;
            eligible = t.eligible;
            all_busy = t.all_busy;
          },
          m,
        )
    | inl c ↦
        let (b, m, k) = any-Mem (candidate a x tier) s.backends c in
        elim (Bool-cases (any (has_room tier) s.backends)) [
          | inl r ↦ absurd (ground (arith, h, c, r))
          | inr r ↦ (
            record {
              before = [];
              tier = tier;
              after = tiers;
              splits = refl;
              none_before = tt;
              backend = b;
              eligible = (candidate_iff tier b m).0 k;
              all_busy = (no_room_iff tier e).0 r;
            },
            ground (arith, h, c, r),
          )
        ]
  ]

  Saturated-delays :
      (before after : List ℕ) (tier : ℕ) (b : BackendInfo)
      → s.queue_backpressure_enabled ≡ true
      → All (λ t. (b : BackendInfo) → ¬ (Eligible t b)) before
      → Eligible tier b
      → ((b : BackendInfo) → Eligible tier b → ExceedsLimit s.hard_percent b)
      → delay_in_tiers s a x (before ++ tier ∷ after) ≡ some s.queue_backpressure_all_busy_sleep_ms
  unfolding delay_in_tiers
  Saturated-delays [] after tier b e n g f =
      let c =
        Mem-any (candidate a x tier) s.backends g.listed ((candidate_iff tier b g.listed).1 g) in
      let r = (no_room_iff tier e).1 f in ground (arith, c, r)
  Saturated-delays (t ∷ before) after tier b e (n, ns) g f =
      let i = Saturated-delays before after tier b e ns g f in
      elim (Bool-cases (any (candidate a x t) s.backends)) [
        | inr c ↦ ground (arith, c, i)
        | inl c ↦
            let (d, m, k) = any-Mem (candidate a x t) s.backends c in
            absurd (n d ((candidate_iff t d m).0 k))
      ]

  -- An article request is held back exactly when backpressure is enabled with a time to sleep, and
  -- in the first tier that has a backend which is not suppressed and not known to miss the
  -- article, every such backend has connections and more requests queued than the hard percentage
  -- of them, rounded up. The delay is the time to sleep.
  pub queue_backpressure_delay_iff :
      (ms : ℕ)
      → (queue_backpressure_delay_for_article s a x ≡ some ms) ↔ (
          (s.queue_backpressure_enabled ≡ true)
          × (s.queue_backpressure_all_busy_sleep_ms ≢ 0)
          × Saturated s.sorted_tiers
          × (ms ≡ s.queue_backpressure_all_busy_sleep_ms))
  unfolding queue_backpressure_delay_for_article
  queue_backpressure_delay_iff ms = (
    λ h.
        let e : s.queue_backpressure_enabled ≡ true = ground (arith, h) in
        let n : s.queue_backpressure_all_busy_sleep_ms ≢ 0 = λ i. absurd (ground (arith, h, i)) in
        let (t, m) = delays-Saturated s.sorted_tiers ms e (ground (arith, h, e, n)) in (e, n, t, m),
    λ (e, n, t, m).
        let d : delay_in_tiers s a x s.sorted_tiers ≡ some s.queue_backpressure_all_busy_sleep_ms =
          ap (delay_in_tiers s a x) t.splits
          ∙ Saturated-delays t.before t.after t.tier t.backend e t.none_before t.eligible
              t.all_busy in
        ground (arith, d, e, n, m),
  )
