-- ===== src/Router/Routing.antt =====
-- src/router/mod.rs: a request is routed, and its place among the pending ones is given back.
pub mod Guards
use nntp_proxy.Base.{
  ℕ, ◌+◌, ◌-◌, ◌%◌, ◌^◌, Bool, true, false, List, [], ◌∷◌, Option, none, some, ◌==◌, if◌then◌else◌,
  length, Result, ok, err,
}
use nntp_proxy.Types.{usize_bits}
use nntp_proxy.Router.Bitmap.{SuppressedBackends, ArticleAvailability, should_try_slot}
use nntp_proxy.Router.Weights.{wrapping_succ}
use nntp_proxy.Router.{BackendInfo, BackendSelector, SelectedBackend}
use nntp_proxy.Router.Loads.{Ratios}
use nntp_proxy.Router.Selection.{select_backend}

pub data RouteError : Type 0 where
  no_backends_available no_longer_eligible : ℕ → RouteError

-- `RouteMode::output`: the backend, and for an article its slot.
pub record Routed : Type 0 where
  pub backend_id : ℕ
  pub availability_slot : Option ℕ

-- `ArticleBackend::from_availability_slot`
unfoldable pub from_availability_slot : ℕ → ℕ → ArticleAvailability → Option Routed
from_availability_slot id slot availability =
    if should_try_slot availability slot
    then some (record { backend_id = id; availability_slot = some slot })
    else none

unfoldable pub output : Option ArticleAvailability → BackendInfo → Result RouteError Routed
unfolding from_availability_slot
output none b = ok (record { backend_id = b.id; availability_slot = none })
output (some availability) b = elim (from_availability_slot b.id b.availability_slot availability) [
  | none ↦ err (RouteError.no_longer_eligible b.id)
  | some r ↦ ok r
]

-- `find_backend` and an operation on the pending count of the backend that it finds.
unfoldable pub at_backend : (ℕ → ℕ) → ℕ → List BackendInfo → List BackendInfo
at_backend f id [] = []
at_backend f id (b ∷ bs) =
    let rest = at_backend f id bs in
    if b.id == id then (record b { pending = f b.pending }) ∷ bs else b ∷ rest

-- `fetch_sub(1)` wraps.
abbrev pub wrapping_pred : ℕ → ℕ
wrapping_pred n = (n + (2 ^ usize_bits - 1)) % 2 ^ usize_bits

unfoldable pub complete_command : BackendSelector → ℕ → BackendSelector
unfolding at_backend
complete_command s id = record s { backends = at_backend wrapping_pred id s.backends }

unfoldable pub mark_backend_pending : BackendSelector → ℕ → BackendSelector
unfolding at_backend
mark_backend_pending s id = record s { backends = at_backend wrapping_succ id s.backends }

abbrev pub pending_of : ℕ → List BackendInfo → Option ℕ
pending_of id [] = none
pending_of id (b ∷ bs) = if b.id == id then some b.pending else pending_of id bs

-- The reservation: unconditional without a snapshot, and otherwise only if the count is still the
-- one that was observed.
unfoldable pub reserve : BackendSelector → SelectedBackend → BackendSelector × Bool
unfolding mark_backend_pending
reserve s selected = elim selected.pending_snapshot [
  | none ↦ (mark_backend_pending s selected.backend.id, true)
  | some observed ↦ elim (pending_of selected.backend.id s.backends) [
    | none ↦ (s, false)
    | some current ↦
        if current == observed
        then (mark_backend_pending s selected.backend.id, true)
        else (s, false)
  ]
]

-- How one round of the loop of `route_selected_backend` ends.
pub data RouteRound : Type 0 where
  failed : RouteError → RouteRound
  again : BackendSelector → RouteRound
  routed : BackendSelector → Routed → RouteRound

module _ (r : Ratios) where
  unfoldable pub reserved : BackendSelector → SelectedBackend → Routed → RouteRound
  unfolding reserve
  reserved s selected out =
      let (next, success) = reserve s selected in
      if success then RouteRound.routed next out else RouteRound.again next

  -- `changed` is the state when the reservation is tried, after what other tasks did.
  unfoldable pub route_round :
      BackendSelector
      → BackendSelector
      → Option ArticleAvailability
      → SuppressedBackends
      → RouteRound
  unfolding reserved output
  route_round s changed availability suppressed =
      elim (select_backend r s availability suppressed).1 [
        | none ↦ RouteRound.failed (RouteError.no_backends_available (length s.backends))
        | some selected ↦ elim (output availability selected.backend) [
          | err e ↦ RouteRound.failed e
          | ok out ↦ reserved changed selected out
        ]
      ]

-- `CommandGuard`
pub record CommandGuard : Type 0 where
  pub backend_id : ℕ
  pub completed : Bool

unfoldable pub new_guard : ℕ → CommandGuard
new_guard id = record { backend_id = id; completed = false }

-- `Drop::drop`
pub guard_drop : BackendSelector → CommandGuard → BackendSelector
unfolding complete_command
guard_drop s g = if g.completed then s else complete_command s g.backend_id

-- `CommandGuard::complete` consumes the guard, which is dropped at its end.
pub guard_complete : BackendSelector → CommandGuard → BackendSelector
unfolding complete_command guard_drop
guard_complete s g =
    guard_drop (complete_command s g.backend_id)
      (record { backend_id = g.backend_id; completed = true })
