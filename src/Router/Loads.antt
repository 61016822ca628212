-- ===== src/Router/Loads.antt =====
-- src/router/strategies.rs and src/router/mod.rs: the least loaded backend.
pub mod Least
use Prim.Native.Nat.{bit_xor}
use nntp_proxy.Base.{
  ℕ, ◌+◌, ◌-◌, ◌*◌, ◌/◌, ◌%◌, ◌^◌, ◌<◌, Bool, true, false, not, List, [], ◌∷◌, Option, none, some,
  ltb, leb, ◌==◌, if◌then◌else◌,
}
use nntp_proxy.Types.{usize_bits}
use nntp_proxy.Router.Weights.{saturating_add, wrapping_mul}
use nntp_proxy.Router.{
  BackendInfo, BackendSelector, SelectionStrategy, SelectedBackend, filter, checked_out,
  active_for_score, queue_soft_pressure_penalty, select_round_robin,
}

-- A load is an `f64` that is not negative, which compares as its bits do: `ratio` is the quotient of
-- two counts and `max_ratio` is `f64::MAX`, which no quotient of counts reaches.
pub record Ratios : Type 0 where
  pub ratio : ℕ → ℕ → ℕ
  pub max_ratio : ℕ
  pub ratio_lt : (a b : ℕ) → ratio a b < max_ratio

-- `LeastLoaded::mix`
pub mix : ℕ → ℕ
mix value =
    let a = bit_xor value (value / 2 ^ 16) in
    let b = wrapping_mul a 0x7FEB352D in
    let c = bit_xor b (b / 2 ^ 15) in let d = wrapping_mul c 0x846CA68B in bit_xor d (d / 2 ^ 16)

-- The tie breaker moves on only for a real tie.
pub should_replace_tie : ℕ → ℕ → ℕ × Bool
unfolding mix
should_replace_tie tie_breaker tie_count =
    if leb tie_count 1
    then (tie_breaker, false)
    else ((tie_breaker + 0x9E3779B97F4A7C15) % 2 ^ usize_bits, mix tie_breaker % tie_count == 0)

-- What the loop over the backends carries.
pub record Leader : Type 0 where
  pub selected : Option SelectedBackend
  pub selected_load : ℕ
  pub ties : ℕ
  pub tie_breaker : ℕ

module _ (r : Ratios) where
  pub backend_load_ratio_with_pending : BackendSelector → BackendInfo → ℕ → ℕ
  backend_load_ratio_with_pending s b pending =
      if b.max_size == 0
      then r.max_ratio
      else (let penalty =
            queue_soft_pressure_penalty s pending (checked_out b) b.waiting b.max_size in
          r.ratio (active_for_score pending (checked_out b) (saturating_add b.waiting penalty))
            b.max_size)

  abbrev pub load : BackendSelector → BackendInfo → ℕ
  load s b = backend_load_ratio_with_pending s b b.pending

  abbrev pub taken : BackendInfo → Option SelectedBackend
  taken b = some (record { backend = b; pending_snapshot = some b.pending })

  -- One round of the loop: a smaller load, an equal one, a larger one.
  pub consider : BackendSelector → Leader → BackendInfo → Leader
  unfolding backend_load_ratio_with_pending should_replace_tie
  consider s l b =
      let (next, replace) = should_replace_tie l.tie_breaker (l.ties + 1) in
      if ltb (load s b) l.selected_load
      then record {
        selected = taken b;
        selected_load = load s b;
        ties = 1;
        tie_breaker = l.tie_breaker;
      }
      else if load s b == l.selected_load
      then record {
        selected = if replace then taken b else l.selected;
        selected_load = l.selected_load;
        ties = l.ties + 1;
        tie_breaker = next;
      }
      else l

  pub consider_all : BackendSelector → Leader → List BackendInfo → Leader
  unfolding consider
  consider_all s l [] = l
  consider_all s l (b ∷ bs) = consider_all s (consider s l b) bs

  -- The arm of `select_weighted` for the least loaded backend.
  unfoldable pub select_least_loaded :
      ℕ → BackendSelector → (BackendInfo → Bool) → BackendSelector × Option SelectedBackend
  unfolding consider_all
  select_least_loaded tie_breaker s p =
      let start : Leader = record {
        selected = none;
        selected_load = r.max_ratio;
        ties = 0;
        tie_breaker = tie_breaker;
      } in
      let l = consider_all s start (filter p s.backends) in
      (record s { strategy = SelectionStrategy.least_loaded l.tie_breaker }, l.selected)

  pub select_by :
      SelectionStrategy
      → BackendSelector
      → (BackendInfo → Bool)
      → BackendSelector × Option SelectedBackend
  unfolding select_least_loaded
  select_by (SelectionStrategy.weighted_round_robin counter) s p = select_round_robin counter s p
  select_by (SelectionStrategy.least_loaded tie_breaker) s p = select_least_loaded tie_breaker s p

  unfoldable pub select_weighted :
      BackendSelector → (BackendInfo → Bool) → BackendSelector × Option SelectedBackend
  unfolding select_by
  select_weighted s p = select_by s.strategy s p
