-- ===== src/Tests/Router.antt =====
-- src/router/mod.rs and src/router/backend_info.rs at concrete backends.
use mathlib.Core.List.{Memᴰ}
use nntp_proxy.Base.{
  ℕ, List, min, length, ◌+◌, ◌<◌, ◌≡◌, ◌≢◌, ◌↔◌, refl, Bool, true, false, [], ◌∷◌, Option, none,
  some, arith,
}
use nntp_proxy.Types.{usize_bits, try_from_index}
use nntp_proxy.Router.Bitmap.{
  SuppressedBackends, ArticleAvailability, contains, should_try_slot, slot_new, mask_insert,
}
use nntp_proxy.Router.{
  BackendInfo, BackendSelector, SelectionStrategy, over_hard, filter, owner, tier_filter,
  active_for_score, queue_soft_pressure_penalty, select_round_robin, select_capacity_weighted,
  availability_missing_in_tier,
}
use nntp_proxy.Router.Owner.{Owns, Passing, owner-Owns}
use nntp_proxy.Router.Loads.{Ratios, load, select_least_loaded, select_weighted}
use nntp_proxy.Router.Loads.Least.{AtLeast, select_least_loaded_lem}
use nntp_proxy.Router.Selection.{select_backend, queue_backpressure_delay_for_article}
use nntp_proxy.Router.Selection.Backpressure.{Saturated, queue_backpressure_delay_iff}
use nntp_proxy.Router.Selection.Tiers.{Chosen, select_backend-Chosen}
use nntp_proxy.Router.Routing.{
  RouteError, Routed, RouteRound, route_round, reserved, reserve, output, from_availability_slot,
  mark_backend_pending, at_backend,
}
use nntp_proxy.Router.Routing.Guards.{Balanced, route_round_lem}
use nntp_proxy.Router.Tiers.{NewBackend, add_backends, sort_unstable, insert_tier}
use nntp_proxy.Router.Tiers.Ranked.{Ranked, add_backends-Ranked}
use nntp_proxy.Router.Tiers.Lowest.{select_backend_lowest}
use nntp_proxy.Router.Slots.{
  Task, Slots, Step, Steps, IsCounted, try_acquire_round, holders, Steps-IsCounted,
}

abbrev near : BackendInfo
near = record {
  id = 0;
  tier = 0;
  availability_slot = 0;
  size = 2;
  available = 1;
  waiting = 0;
  max_size = 2;
  pending = 0;
}

abbrev far : BackendInfo
far = record {
  id = 1;
  tier = 1;
  availability_slot = 1;
  size = 3;
  available = 3;
  waiting = 0;
  max_size = 3;
  pending = 0;
}

abbrev selector : SelectionStrategy → BackendSelector
selector strategy = record {
  backends = near ∷ far ∷ [];
  sorted_tiers = 0 ∷ 1 ∷ [];
  strategy = strategy;
  initial_article_probe_counter = 4;
  availability_mask = 3;
  queue_backpressure_enabled = false;
  soft_percent = 100;
  hard_percent = 200;
  queue_backpressure_all_busy_sleep_ms = 5;
}

-- The near backend has answered that the article is missing.
abbrev missing_near : Option ArticleAvailability
missing_near = some (record { missing = 1 })

abbrev none_suppressed : SuppressedBackends
none_suppressed = record { bits = 0 }

-- Quotients below a bound stand for the floating point numbers.
abbrev ratios : Ratios
ratios = record { ratio = λ a b. min a 9; max_ratio = 10; ratio_lt = λ a b. omega arith }

abbrev round_robin : BackendSelector
round_robin = selector (SelectionStrategy.weighted_round_robin 0)

selects_far :
    (select_backend ratios round_robin missing_near none_suppressed).1
    ≡ some (record { backend = far; pending_snapshot = none })
unfolding select_backend select_weighted select_round_robin contains should_try_slot tier_filter
    availability_missing_in_tier select_capacity_weighted
selects_far = refl

select_backend-Chosen_example :
    Chosen ratios missing_near none_suppressed round_robin round_robin.sorted_tiers far
select_backend-Chosen_example =
    select_backend-Chosen ratios missing_near none_suppressed round_robin
      (record { backend = far; pending_snapshot = none }) selects_far

owner-Owns_example : Owns (near ∷ far ∷ []) 0 3 (owner 3 (near ∷ far ∷ []))
owner-Owns_example = owner-Owns (near ∷ far ∷ []) 3 (omega arith)

abbrev any_backend : BackendInfo → Bool
any_backend b = true

abbrev least : BackendSelector
least = selector (SelectionStrategy.least_loaded 0)

least-far :
    (select_least_loaded ratios 0 least any_backend).1
    ≡ some (record { backend = far; pending_snapshot = some 0 })
unfolding select_least_loaded active_for_score queue_soft_pressure_penalty
least-far = refl

select_least_loaded_lem_example :
    Passing any_backend least.backends far
    × AtLeast ratios least (load ratios least far) (filter any_backend least.backends)
select_least_loaded_lem_example =
    select_least_loaded_lem ratios least 0 any_backend
      (record { backend = far; pending_snapshot = some 0 }) least-far

-- Two tasks race for the one slot of a pool of two connections.
abbrev racing : Slots
racing = record { count = 0; tasks = Task.outside ∷ Task.outside ∷ [] }

abbrev one_in : Slots
one_in = record { count = 1; tasks = Task.holding ∷ Task.outside ∷ [] }

race : Steps 2 racing one_in
unfolding try_acquire_round
race =
    Steps.step (Step.reads 0 [] (Task.outside ∷ []))
      (Steps.step (Step.tries 0 0 false [] (Task.outside ∷ [])) (Steps.done one_in))

Steps-IsCounted_example : IsCounted 2 one_in × (0 < 2 → holders one_in.tasks < 2)
Steps-IsCounted_example = Steps-IsCounted 2 race (record { exact = refl; bounded = omega arith })

route_round_lem_example :
    ((e : RouteError)
      → route_round ratios round_robin round_robin missing_near none_suppressed
        ≡ RouteRound.failed e
      → (select_backend ratios round_robin missing_near none_suppressed).1 ≡ none)
    × ((next : BackendSelector) (out : Routed)
        → route_round ratios round_robin round_robin missing_near none_suppressed
          ≡ RouteRound.routed next out
        → Balanced ratios round_robin round_robin missing_near none_suppressed next out)
route_round_lem_example =
    route_round_lem ratios round_robin round_robin missing_near none_suppressed
      (omega arith, (omega arith, tt))

routes_far :
    route_round ratios round_robin round_robin missing_near none_suppressed
    ≡ RouteRound.routed
        (mark_backend_pending round_robin 1)
        (record { backend_id = 1; availability_slot = some 1 })
unfolding route_round select_backend select_weighted select_round_robin contains should_try_slot
    tier_filter availability_missing_in_tier select_capacity_weighted reserved reserve output
    from_availability_slot mark_backend_pending at_backend
routes_far = refl

-- The far backend has forty requests for its three connections.
abbrev busy : BackendSelector
busy = record round_robin {
  queue_backpressure_enabled = true;
  backends = near ∷ record far { pending = 40 } ∷ [];
}

held_back :
    (queue_backpressure_delay_for_article busy (record { missing = 1 }) none_suppressed ≡ some 5)
    × (queue_backpressure_delay_for_article busy (record { missing = 0 }) none_suppressed ≡ none)
unfolding queue_backpressure_delay_for_article contains should_try_slot active_for_score over_hard
held_back = (refl, refl)

queue_backpressure_delay_iff_example :
    (queue_backpressure_delay_for_article busy (record { missing = 1 }) none_suppressed ≡ some 5)
    ↔ ((busy.queue_backpressure_enabled ≡ true)
        × (busy.queue_backpressure_all_busy_sleep_ms ≢ 0)
        × Saturated busy (record { missing = 1 }) none_suppressed busy.sorted_tiers
        × (5 ≡ busy.queue_backpressure_all_busy_sleep_ms))
queue_backpressure_delay_iff_example =
    queue_backpressure_delay_iff busy (record { missing = 1 }) none_suppressed 5

abbrev no_backends : BackendSelector
no_backends = record (selector (SelectionStrategy.weighted_round_robin 0)) {
  backends = [];
  availability_mask = 0;
  sorted_tiers = [];
}

abbrev at_tier : ℕ → NewBackend
at_tier tier = record { tier = tier; size = 1; available = 1; waiting = 0; max_size = 4 }

abbrev three_added : List NewBackend
three_added = at_tier 5 ∷ at_tier 2 ∷ at_tier 5 ∷ []

abbrev tiers_and_mask : Option BackendSelector → Option (List ℕ × ℕ)
tiers_and_mask none = none
tiers_and_mask (some s) = some (s.sorted_tiers, s.availability_mask)

tiers_of_three : tiers_and_mask (add_backends no_backends three_added) ≡ some (2 ∷ 5 ∷ [], 7)
unfolding add_backends sort_unstable insert_tier slot_new try_from_index mask_insert
tiers_of_three = refl

add_backends-Ranked_example :
    ((t : BackendSelector)
      → add_backends no_backends three_added ≡ some t
      → Ranked t × (length t.backends ≡ length no_backends.backends + length three_added))
    × ((add_backends no_backends three_added ≡ none)
        ↔ (usize_bits < length no_backends.backends + length three_added))
add_backends-Ranked_example =
    add_backends-Ranked no_backends three_added
      (record { ascending = tt; covers = tt; numbered = tt }) (omega arith)

select_backend_lowest_example :
    should_try_slot (record { missing = 1 }) near.availability_slot ≡ false
select_backend_lowest_example =
    select_backend_lowest ratios (record { missing = 1 }) none_suppressed round_robin
      (record { backend = far; pending_snapshot = none })
      (record {
        ascending = ((omega arith, tt), (tt, tt));
        covers = (refl, (refl, tt));
        numbered = (refl, (refl, tt));
      })
      selects_far near (Memᴰ.head refl) (omega arith)
