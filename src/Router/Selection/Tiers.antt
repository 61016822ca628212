-- ===== src/Router/Selection/Tiers.antt =====
-- src/router/mod.rs: which backend a selection may end with.
use mathlib.Core.List.{Memᴰ}
use nntp_proxy.Base.{
  ℕ, ◌≡◌, refl, ap, sym, subst, ◌∙◌, inl, inr, Bool, true, false, List, [], ◌∷◌, ◌++◌, Option, none,
  some, arith, Bool-cases, Option-cases, All, if_intro, is_empty,
}
use nntp_proxy.Router.Bitmap.{SuppressedBackends, ArticleAvailability, contains}
use nntp_proxy.Router.{
  BackendInfo, BackendSelector, SelectedBackend, SelectionStrategy, tries, is_available, over_hard,
  tier_filter, tier_has_non_over_hard_backend, exceeds_hard_queue_depth, select_capacity_weighted,
}
use nntp_proxy.Router.Owner.{
  Passing, Setup, select_capacity_weighted-Passing, select_capacity_weighted-Setup,
  snapshotless-some,
}
use nntp_proxy.Router.Loads.{Ratios}
use nntp_proxy.Router.Loads.Least.{select_weighted-Passing, select_weighted-Setup}
use nntp_proxy.Router.Selection.{
  select_missing, probes_by_capacity, select_in_tier, select_in_tiers, select_backend, tier_is_open,
}

module _ (r : Ratios) where
  select_missing-Passing :
      (strategy : SelectionStrategy) (s : BackendSelector) (p : BackendInfo → Bool)
      (sel : SelectedBackend)
      → (select_missing r strategy s p).1 ≡ some sel
      → Passing p s.backends sel.backend
  unfolding select_missing
  select_missing-Passing (SelectionStrategy.weighted_round_robin counter) s p sel h =
      select_capacity_weighted-Passing s p sel.backend
        (snapshotless-some (select_capacity_weighted s p).1 h)
  select_missing-Passing (SelectionStrategy.least_loaded t) s p sel h =
      select_weighted-Passing r s p sel h

  select_missing-Setup :
      (strategy : SelectionStrategy) (s : BackendSelector) (p : BackendInfo → Bool)
      → Setup s (select_missing r strategy s p).0
  unfolding select_missing
  select_missing-Setup (SelectionStrategy.weighted_round_robin counter) s p =
      select_capacity_weighted-Setup s p
  select_missing-Setup (SelectionStrategy.least_loaded t) s p = select_weighted-Setup r s p

  module _ (a : Option ArticleAvailability) (x : SuppressedBackends) where
    select_in_tier-Passing :
        (s : BackendSelector) (tier : ℕ) (sel : SelectedBackend)
        → (select_in_tier r s a x tier).1 ≡ some sel
        → Passing (tier_filter s a x tier) s.backends sel.backend
    unfolding select_in_tier
    select_in_tier-Passing s tier sel =
        if_intro
          (λ (res : BackendSelector × Option SelectedBackend).
            res.1 ≡ some sel → Passing (tier_filter s a x tier) s.backends sel.backend)
          (probes_by_capacity r s a tier)
          (select_missing-Passing s.strategy s (tier_filter s a x tier) sel)
          (select_weighted-Passing r s (tier_filter s a x tier) sel)

    select_in_tier-Setup :
        (s : BackendSelector) (tier : ℕ) → Setup s (select_in_tier r s a x tier).0
    unfolding select_in_tier
    select_in_tier-Setup s tier =
        if_intro (λ (res : BackendSelector × Option SelectedBackend). Setup s res.0)
          (probes_by_capacity r s a tier)
          (select_missing-Setup s.strategy s (tier_filter s a x tier))
          (select_weighted-Setup r s (tier_filter s a x tier))

    -- A backend that a selection may end with: one of the tier that is not suppressed and has not
    -- answered that the article is missing, with a queue below the hard limit if the tier has one,
    -- when the tiers before have no backend left that may have the article.
    pub record Chosen (s : BackendSelector) (tiers : List ℕ) (b : BackendInfo) : Type 0 where
      pub before : List ℕ
      pub after : List ℕ
      pub splits : tiers ≡ before ++ b.tier ∷ after
      pub member : Memᴰ b s.backends
      pub not_suppressed : contains x b.id ≡ false
      pub may_have : tries a b ≡ true
      pub below_limit : tier_has_non_over_hard_backend s a x b.tier ≡ true → over_hard s b ≡ false
      pub tiers_closed : All (λ t. tier_is_open r s a t ≡ false) before

    over_hard-Setup :
        {s t : BackendSelector} (b : BackendInfo) → Setup s t → over_hard t b ≡ over_hard s b
    unfolding over_hard exceeds_hard_queue_depth
    over_hard-Setup b k = rw (k.enabled, k.hard) refl

    tier_has_non_over_hard_backend-Setup :
        {s t : BackendSelector} (tier : ℕ)
        → Setup s t
        → tier_has_non_over_hard_backend t a x tier ≡ tier_has_non_over_hard_backend s a x tier
    unfolding tier_has_non_over_hard_backend over_hard exceeds_hard_queue_depth
    tier_has_non_over_hard_backend-Setup tier k = rw (k.backends, k.enabled, k.hard) refl

    tier_is_open-Setup :
        (s t : BackendSelector) (o : Option ArticleAvailability) (tier : ℕ)
        → Setup s t
        → tier_is_open r t o tier ≡ tier_is_open r s o tier
    tier_is_open-Setup s t none tier k = refl
    tier_is_open-Setup s t (some a) tier k = rw k.backends refl

    tiers_closed-Setup :
        {s t : BackendSelector} (tiers : List ℕ)
        → Setup s t
        → All (λ u. tier_is_open r t a u ≡ false) tiers
        → All (λ u. tier_is_open r s a u ≡ false) tiers
    tiers_closed-Setup [] k h = tt
    tiers_closed-Setup {s = s} {t = t} (u ∷ tiers) k (h, hs) =
        (sym (tier_is_open-Setup s t a u k) ∙ h, tiers_closed-Setup tiers k hs)

    Chosen-first :
        (s : BackendSelector) (tier : ℕ) (tiers : List ℕ) (b : BackendInfo)
        → Passing (tier_filter s a x tier) s.backends b
        → Chosen s (tier ∷ tiers) b
    unfolding tier_filter is_available
    Chosen-first s tier tiers b (m, p) =
        let e : b.tier ≡ tier = ground (arith, p) in
        record {
          before = [];
          after = tiers;
          splits = ap (λ t. t ∷ tiers) (sym e);
          member = m;
          not_suppressed = ground (arith, p);
          may_have = ground (arith, p);
          below_limit = λ k. ground (arith, p, e, k);
          tiers_closed = tt;
        }

    Chosen-later :
        {s t : BackendSelector} {tier : ℕ} {tiers : List ℕ} {b : BackendInfo}
        → Setup s t
        → tier_is_open r s a tier ≡ false
        → Chosen t tiers b
        → Chosen s (tier ∷ tiers) b
    Chosen-later {tier = tier} {b = b} k closed c = record {
      before = tier ∷ c.before;
      after = c.after;
      splits = ap (◌∷◌ tier) c.splits;
      member = subst (Memᴰ b) k.backends c.member;
      not_suppressed = c.not_suppressed;
      may_have = c.may_have;
      below_limit = λ h.
          sym (over_hard-Setup b k)
          ∙ c.below_limit (tier_has_non_over_hard_backend-Setup b.tier k ∙ h);
      tiers_closed = (closed, tiers_closed-Setup c.before k c.tiers_closed);
    }

    select_in_tiers-Chosen :
        (tiers : List ℕ) (s : BackendSelector) (sel : SelectedBackend)
        → (select_in_tiers r s a x tiers).1 ≡ some sel
        → Chosen s tiers sel.backend
    unfolding select_in_tiers
    select_in_tiers-Chosen [] s sel h = cc
    select_in_tiers-Chosen (tier ∷ tiers) s sel h =
        let res = select_in_tier r s a x tier in
        elim (Option-cases res.1) [
          | inr (b, e) ↦
              Chosen-first s tier tiers sel.backend
                (select_in_tier-Passing s tier sel (e ∙ ground (arith, e, h)))
          | inl e ↦ elim (Bool-cases (tier_is_open r s a tier)) [
            | inl o ↦ ground (arith, e, o, h)
            | inr o ↦
                Chosen-later (select_in_tier-Setup s tier) o
                  (select_in_tiers-Chosen tiers res.0 sel (ground (arith, e, o, h)))
          ]
        ]

    -- A selected backend is one of the selector's, is not suppressed and has not answered that
    -- the article is missing; its queue is within the hard limit if its tier has an available
    -- backend of which that holds; and when an availability is given, every backend of a tier
    -- before its own has answered that the article is missing.
    pub select_backend-Chosen :
        (s : BackendSelector) (sel : SelectedBackend)
        → (select_backend r s a x).1 ≡ some sel
        → Chosen s s.sorted_tiers sel.backend
    unfolding select_backend
    select_backend-Chosen s sel h = elim (Bool-cases (is_empty s.backends)) [
      | inl e ↦ ground (arith, e, h)
      | inr e ↦ select_in_tiers-Chosen s.sorted_tiers s sel (ground (arith, e, h))
    ]
