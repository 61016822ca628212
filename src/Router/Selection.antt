-- ===== src/Router/Selection.antt =====
-- src/router/mod.rs: the tiers, one after the other, and the requests that are pending.

pub mod Tiers
pub mod Backpressure
use nntp_proxy.Base.{
  ℕ, ◌+◌, ◌-◌, ◌%◌, ◌^◌, Bool, true, false, not, ◌&&◌, ◌||◌, List, [], ◌∷◌, Option, none, some,
  ◌==◌, if◌then◌else◌, any, is_empty, map,
}
use nntp_proxy.Types.{usize_bits}
use nntp_proxy.Router.Bitmap.{SuppressedBackends, ArticleAvailability, contains, should_try_slot}
use nntp_proxy.Router.Weights.{wrapping_succ}
use nntp_proxy.Router.{
  BackendInfo, BackendSelector, SelectionStrategy, SelectedBackend, filter, tries, tier_filter,
  over_hard, availability_missing_in_tier, select_capacity_weighted, snapshotless,
}
use nntp_proxy.Router.Loads.{Ratios, select_weighted}

module _ (r : Ratios) where
  pub select_missing :
      SelectionStrategy
      → BackendSelector
      → (BackendInfo → Bool)
      → BackendSelector × Option SelectedBackend
  select_missing (SelectionStrategy.weighted_round_robin counter) s p =
      let (next, found) = select_capacity_weighted s p in (next, snapshotless found)
  select_missing (SelectionStrategy.least_loaded tie_breaker) s p = select_weighted r s p

  abbrev pub probes_by_capacity : BackendSelector → Option ArticleAvailability → ℕ → Bool
  probes_by_capacity s none tier = false
  probes_by_capacity s (some a) tier = not (availability_missing_in_tier s a tier)

  pub select_in_tier :
      BackendSelector
      → Option ArticleAvailability
      → SuppressedBackends
      → ℕ
      → BackendSelector × Option SelectedBackend
  unfolding select_missing
  select_in_tier s availability suppressed tier =
      if probes_by_capacity s availability tier
      then select_missing s.strategy s (tier_filter s availability suppressed tier)
      else select_weighted r s (tier_filter s availability suppressed tier)

  -- A backend of the tier may still have the article.
  abbrev pub tier_is_open : BackendSelector → Option ArticleAvailability → ℕ → Bool
  tier_is_open s none tier = false
  tier_is_open s (some a) tier =
      any (λ b. b.tier == tier && should_try_slot a b.availability_slot) s.backends

  pub select_in_tiers :
      BackendSelector
      → Option ArticleAvailability
      → SuppressedBackends
      → List ℕ
      → BackendSelector × Option SelectedBackend
  unfolding select_in_tier
  select_in_tiers s availability suppressed [] = (s, none)
  select_in_tiers s availability suppressed (tier ∷ tiers) =
      let (next, selected) = select_in_tier s availability suppressed tier in
      let later = select_in_tiers next availability suppressed tiers in
      elim selected [
        | some b ↦ (next, some b)
        | none ↦ if tier_is_open s availability tier then (next, none) else later
      ]

  unfoldable pub select_backend :
      BackendSelector
      → Option ArticleAvailability
      → SuppressedBackends
      → BackendSelector × Option SelectedBackend
  unfolding select_in_tiers
  select_backend s availability suppressed =
      if is_empty s.backends
      then (s, none)
      else select_in_tiers s availability suppressed s.sorted_tiers

-- `queue_backpressure_delay_for_article`: the round for one tier.
abbrev pub candidate : ArticleAvailability → SuppressedBackends → ℕ → BackendInfo → Bool
candidate a suppressed tier b =
    b.tier == tier && not (contains suppressed b.id || not (should_try_slot a b.availability_slot))

pub delay_in_tiers : BackendSelector → ArticleAvailability → SuppressedBackends → List ℕ → Option ℕ
delay_in_tiers s a suppressed [] = none
delay_in_tiers s a suppressed (tier ∷ tiers) =
    let later = delay_in_tiers s a suppressed tiers in
    if any (candidate a suppressed tier) s.backends
    then (if any (λ b. candidate a suppressed tier b && not (over_hard s b)) s.backends
        then none
        else some s.queue_backpressure_all_busy_sleep_ms)
    else later

unfoldable pub queue_backpressure_delay_for_article :
    BackendSelector → ArticleAvailability → SuppressedBackends → Option ℕ
unfolding delay_in_tiers
queue_backpressure_delay_for_article s a suppressed =
    if not s.queue_backpressure_enabled || s.queue_backpressure_all_busy_sleep_ms == 0
    then none
    else delay_in_tiers s a suppressed s.sorted_tiers
