-- ===== src/Session/Mode.antt =====
-- src/session/mode_state.rs: the routing mode of a session and its one transition.
use nntp_proxy.Base.{ℕ, zero, suc, ◌≡◌, refl, Bool, true, false, not, ◌||◌, arith}
use nntp_proxy.Command.{RoutingMode}

pub data SessionMode : Type 0 where
  per_command stateful : SessionMode

-- `RuntimeRoutingState`, which is all that `ModeState` holds.
pub data ModeState : Type 0 where
  stateful per_command hybrid_per_command hybrid_stateful : ModeState

pub data ModeTransition : Type 0 where
  switched already_stateful not_hybrid : ModeTransition

pub new : RoutingMode → ModeState
new RoutingMode.stateful = ModeState.stateful
new RoutingMode.per_command = ModeState.per_command
new RoutingMode.hybrid = ModeState.hybrid_per_command

pub mode : ModeState → SessionMode
mode ModeState.stateful = SessionMode.stateful
mode ModeState.hybrid_stateful = SessionMode.stateful
mode ModeState.per_command = SessionMode.per_command
mode ModeState.hybrid_per_command = SessionMode.per_command

pub routing_mode : ModeState → RoutingMode
routing_mode ModeState.stateful = RoutingMode.stateful
routing_mode ModeState.per_command = RoutingMode.per_command
routing_mode ModeState.hybrid_per_command = RoutingMode.hybrid
routing_mode ModeState.hybrid_stateful = RoutingMode.hybrid

is_stateful_mode : SessionMode → Bool
is_stateful_mode SessionMode.stateful = true
is_stateful_mode SessionMode.per_command = false

pub is_stateful : ModeState → Bool
unfolding mode is_stateful_mode
is_stateful s = is_stateful_mode (mode s)

pub is_per_command : ModeState → Bool
unfolding mode is_stateful_mode
is_per_command s = not (is_stateful_mode (mode s))

pub can_switch_mode : ModeState → Bool
can_switch_mode ModeState.hybrid_per_command = true
can_switch_mode _ = false

uses_per_command : RoutingMode → Bool
uses_per_command RoutingMode.stateful = false
uses_per_command _ = true

pub is_per_command_routing : ModeState → Bool
unfolding routing_mode uses_per_command
is_per_command_routing s = uses_per_command (routing_mode s)

pub switch_to_stateful : ModeState → ModeState × ModeTransition
switch_to_stateful ModeState.hybrid_per_command =
    (ModeState.hybrid_stateful, ModeTransition.switched)
switch_to_stateful ModeState.hybrid_stateful =
    (ModeState.hybrid_stateful, ModeTransition.already_stateful)
switch_to_stateful ModeState.stateful = (ModeState.stateful, ModeTransition.already_stateful)
switch_to_stateful ModeState.per_command = (ModeState.per_command, ModeTransition.not_hybrid)

-- A number of calls of `switch_to_stateful`.
pub switches : ℕ → ModeState → ModeState
unfolding switch_to_stateful
switches zero s = s
switches (suc n) s = switches n (switch_to_stateful s).0

switch_lem :
    (s : ModeState)
    → (routing_mode (switch_to_stateful s).0 ≡ routing_mode s)
      × (is_stateful (switch_to_stateful s).0 ≡ (is_stateful s || can_switch_mode s))
      × (can_switch_mode (switch_to_stateful s).0 ≡ false)
unfolding switch_to_stateful routing_mode is_stateful can_switch_mode
switch_lem ModeState.stateful = (refl, refl, refl)
switch_lem ModeState.per_command = (refl, refl, refl)
switch_lem ModeState.hybrid_per_command = (refl, refl, refl)
switch_lem ModeState.hybrid_stateful = (refl, refl, refl)

-- However often a session is switched, its configured routing stays, it is stateful once it was
-- or could be, and no second switch is left.
pub switches_lem :
    (n : ℕ) (s : ModeState)
    → (routing_mode (switches (suc n) s) ≡ routing_mode s)
      × (is_stateful (switches (suc n) s) ≡ (is_stateful s || can_switch_mode s))
      × (can_switch_mode (switches (suc n) s) ≡ false)
unfolding switches
switches_lem zero s = switch_lem s
switches_lem (suc n) s =
    let (p, q, r) = switch_lem s in
    let (t, u, v) = switches_lem n (switch_to_stateful s).0 in ground (arith, p, q, r, t, u, v)
