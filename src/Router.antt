-- ===== src/Router.antt =====
-- src/router/mod.rs, src/router/strategies.rs and src/router/backend_info.rs: the choice of a backend.
pub mod Bitmap
pub mod Weights
pub mod Owner
pub mod Loads
pub mod Selection
pub mod Slots
pub mod Routing
pub mod Tiers
use nntp_proxy.Base.{
  ℕ, zero, suc, ◌+◌, ◌-◌, ◌*◌, ◌/◌, ◌%◌, ◌^◌, min, Bool, true, false, not, ◌&&◌, ◌||◌, List, [],
  ◌∷◌, Option, none, some, ltb, leb, ◌==◌, if◌then◌else◌, any, length, is_empty,
}
use nntp_proxy.Router.Bitmap.{
  SuppressedBackends, ArticleAvailability, contains, should_try_slot, is_missing_slot,
}
use nntp_proxy.Router.Weights.{usize_max, saturating_add, saturating_mul, wrapping_succ}

-- A backend as the selector reads it: its place, the counts of its pool and its pending requests.
pub record BackendInfo : Type 0 where
  pub id : ℕ
  pub tier : ℕ
  pub availability_slot : ℕ
  pub size : ℕ
  pub available : ℕ
  pub waiting : ℕ
  pub max_size : ℕ
  pub pending : ℕ

-- `WeightedRoundRobin` with its counter and `LeastLoaded` with its tie breaker.
pub data SelectionStrategy : Type 0 where
  weighted_round_robin least_loaded : ℕ → SelectionStrategy

pub record BackendSelector : Type 0 where
  pub backends : List BackendInfo
  pub sorted_tiers : List ℕ
  pub strategy : SelectionStrategy
  pub initial_article_probe_counter : ℕ
  pub availability_mask : ℕ
  pub queue_backpressure_enabled : Bool
  pub soft_percent : ℕ
  pub hard_percent : ℕ
  pub queue_backpressure_all_busy_sleep_ms : ℕ

pub record SelectedBackend : Type 0 where
  pub backend : BackendInfo
  pub pending_snapshot : Option ℕ

abbrev pub filter : (BackendInfo → Bool) → List BackendInfo → List BackendInfo
filter p [] = []
filter p (b ∷ bs) = if p b then b ∷ filter p bs else filter p bs

abbrev pub find : (BackendInfo → Bool) → List BackendInfo → Option BackendInfo
find p [] = none
find p (b ∷ bs) = if p b then some b else find p bs

-- `map(max_size).sum()`
abbrev pub total_weight : List BackendInfo → ℕ
total_weight [] = 0
total_weight (b ∷ bs) = b.max_size + total_weight bs

-- `scan` and `find`: the first backend whose cumulative weight exceeds the position.
pub owner_from : ℕ → ℕ → List BackendInfo → Option BackendInfo
owner_from position cumulative [] = none
owner_from position cumulative (b ∷ bs) =
    let later = owner_from position (cumulative + b.max_size) bs in
    if ltb position (cumulative + b.max_size) then some b else later

pub owner : ℕ → List BackendInfo → Option BackendInfo
unfolding owner_from
owner position bs = owner_from position 0 bs

abbrev pub or_backend : Option BackendInfo → Option BackendInfo → Option BackendInfo
or_backend (some b) other = some b
or_backend none other = other

abbrev pub checked_out : BackendInfo → ℕ
checked_out b = b.size - b.available

unfoldable pub active_for_score : ℕ → ℕ → ℕ → ℕ
active_for_score pending checked_out waiting =
    let checked_out_with_waiters = saturating_add checked_out waiting in
    if ltb checked_out_with_waiters pending then pending else checked_out_with_waiters

pub queue_depth_for_score : ℕ → ℕ → ℕ → ℕ
unfolding active_for_score
queue_depth_for_score pending checked_out waiting =
    active_for_score pending checked_out waiting - checked_out

-- `div_ceil(100)` of the saturated product.
pub queue_depth_limit : ℕ → ℕ → ℕ
queue_depth_limit max_connections percent = (saturating_mul max_connections percent + 99) / 100

unfoldable pub exceeds_hard_queue_depth : BackendSelector → ℕ → ℕ → ℕ → ℕ → Bool
unfolding queue_depth_for_score queue_depth_limit
exceeds_hard_queue_depth s pending checked_out waiting max_connections =
    if not s.queue_backpressure_enabled || max_connections == 0
    then false
    else ltb (queue_depth_limit max_connections s.hard_percent)
        (queue_depth_for_score pending checked_out waiting)

unfoldable pub queue_soft_pressure_penalty : BackendSelector → ℕ → ℕ → ℕ → ℕ → ℕ
unfolding queue_depth_for_score queue_depth_limit
queue_soft_pressure_penalty s pending checked_out waiting max_connections =
    if not s.queue_backpressure_enabled || max_connections == 0
    then 0
    else queue_depth_for_score pending checked_out waiting
      - queue_depth_limit max_connections s.soft_percent

-- The test that the closures of `select_backend` repeat.
unfoldable pub over_hard : BackendSelector → BackendInfo → Bool
unfolding exceeds_hard_queue_depth
over_hard s b = exceeds_hard_queue_depth s b.pending (checked_out b) b.waiting b.max_size

abbrev pub tries : Option ArticleAvailability → BackendInfo → Bool
tries none b = true
tries (some a) b = should_try_slot a b.availability_slot

pub is_available : Option ArticleAvailability → SuppressedBackends → BackendInfo → Bool
is_available availability suppressed b = not (contains suppressed b.id) && tries availability b

pub tier_has_non_over_hard_backend :
    BackendSelector → Option ArticleAvailability → SuppressedBackends → ℕ → Bool
unfolding over_hard is_available
tier_has_non_over_hard_backend s availability suppressed tier =
    s.queue_backpressure_enabled
    && any
        (λ b.
          if not (b.tier == tier) || not (is_available availability suppressed b)
          then false
          else not (over_hard s b))
        s.backends

unfoldable pub tier_filter :
    BackendSelector → Option ArticleAvailability → SuppressedBackends → ℕ → BackendInfo → Bool
unfolding tier_has_non_over_hard_backend
tier_filter s availability suppressed tier b =
    if not (b.tier == tier) || not (is_available availability suppressed b)
    then false
    else if not (tier_has_non_over_hard_backend s availability suppressed tier)
    then true
    else not (over_hard s b)

unfoldable pub availability_missing_in_tier : BackendSelector → ArticleAvailability → ℕ → Bool
availability_missing_in_tier s availability tier =
    any (λ b. b.tier == tier && is_missing_slot availability b.availability_slot) s.backends

abbrev pub snapshotless : Option BackendInfo → Option SelectedBackend
snapshotless none = none
snapshotless (some b) = some (record { backend = b; pending_snapshot = none })

-- The position is drawn from the probe counter, which goes on by one.
unfoldable pub select_capacity_weighted :
    BackendSelector → (BackendInfo → Bool) → BackendSelector × Option BackendInfo
unfolding owner
select_capacity_weighted s p =
    let weight = total_weight (filter p s.backends) in
    if weight == 0 then (s, none) else (
      record s { initial_article_probe_counter = wrapping_succ s.initial_article_probe_counter },
      or_backend (owner (s.initial_article_probe_counter % weight) (filter p s.backends))
          (find p s.backends),
    )

-- `WeightedRoundRobin::select_with_weight`
pub select_with_weight : ℕ → ℕ → ℕ × Option ℕ
select_with_weight counter weight =
    if weight == 0 then (counter, none) else (wrapping_succ counter, some (counter % weight))

-- The arm of `select_weighted` for the weighted round robin.
unfoldable pub select_round_robin :
    ℕ → BackendSelector → (BackendInfo → Bool) → BackendSelector × Option SelectedBackend
unfolding owner select_with_weight
select_round_robin counter s p =
    let weight = total_weight (filter p s.backends) in
    let (next, drawn) = select_with_weight counter weight in
    elim drawn [
      | none ↦ (s, none)
      | some position ↦ (
        record s { strategy = SelectionStrategy.weighted_round_robin next },
        snapshotless (or_backend (owner position (filter p s.backends)) (find p s.backends)),
      )
    ]
