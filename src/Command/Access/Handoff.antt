-- ===== src/Command/Access/Handoff.antt =====
-- src/command/handler.rs: when a session is handed to a stateful loop, and what is rejected.
use nntp_proxy.Base.{◌≡◌, ◌↔◌, refl, true, arith}
use nntp_proxy.Protocol.Status.{is_error}
use nntp_proxy.Protocol.Kind.{RequestKind, RequestRouteClass, route_class}
use nntp_proxy.Protocol.Request.{RequestContext}
use nntp_proxy.Protocol.Context.{class_of, is_some}
use nntp_proxy.Command.{
  RoutingMode, AuthenticationAccess, can_access_backend, plan_for_class, plan_for_kind,
  classify_request, rejection_for, wire_status, rejection_for_kind, rejection_for_class,
  prepare_stateful_handoff, is_handoff,
}
use nntp_proxy.Command.Access.{KindView, kind_view}

-- When the plan for a class is a handoff.
abbrev pub HandsOff : RequestRouteClass → AuthenticationAccess → RoutingMode → Type 0
HandsOff c a mode =
    (c ≡ RequestRouteClass.stateful) × (mode ≡ RoutingMode.hybrid) × (can_access_backend a ≡ true)

handoff_class :
    (c : RequestRouteClass) (r : RequestContext) (a : AuthenticationAccess) (mode : RoutingMode)
    → (is_handoff (plan_for_class c r a mode) ≡ true) ↔ HandsOff c a mode
unfolding plan_for_class is_handoff
handoff_class RequestRouteClass.article_by_message_id r a mode = ground arith
handoff_class RequestRouteClass.stateless r a mode = ground arith
handoff_class RequestRouteClass.stateful r a RoutingMode.hybrid = ground arith
handoff_class RequestRouteClass.stateful r a RoutingMode.stateful = ground arith
handoff_class RequestRouteClass.stateful r a RoutingMode.per_command = ground arith
handoff_class RequestRouteClass.reject r a mode = ground arith
handoff_class RequestRouteClass.local r a RoutingMode.hybrid = ground arith
handoff_class RequestRouteClass.local r a RoutingMode.stateful = ground arith
handoff_class RequestRouteClass.local r a RoutingMode.per_command = ground arith

handoff_plan :
    (k : RequestKind) (r : RequestContext) (a : AuthenticationAccess) (mode : RoutingMode)
    → KindView k
    → class_of r ≡ route_class k (is_some r.message_id)
    → (is_handoff (plan_for_kind k r a mode) ≡ true) ↔ HandsOff (class_of r) a mode
unfolding plan_for_kind route_class is_handoff
handoff_plan _ r a mode KindView.auth_info e = ground (arith, e)
handoff_plan _ r a mode KindView.capabilities e = ground (arith, e)
handoff_plan _ r a mode KindView.quit e = ground (arith, e)
handoff_plan k r a mode (KindView.other _ plan no_local) e =
    rw (plan r a mode) (handoff_class (class_of r) r a mode)

-- A session is handed to the stateful loop exactly when it is a hybrid one, the client may reach
-- the backend and the request needs the state of a connection; the handoff holds the request.
pub prepare_stateful_handoff_iff :
    (r : RequestContext) (a : AuthenticationAccess) (mode : RoutingMode)
    → ((prepare_stateful_handoff r a mode).0 ≡ true ↔ HandsOff (class_of r) a mode)
      × ((prepare_stateful_handoff r a mode).1 ≡ r)
unfolding prepare_stateful_handoff classify_request class_of
prepare_stateful_handoff_iff r a mode = (handoff_plan r.kind r a mode (kind_view r.kind) refl, refl)

reject_kind :
    (k : RequestKind) (c : RequestRouteClass)
    → (wire_status (rejection_for_kind k c).wire ≡ (rejection_for_kind k c).status.value)
      × (is_error (rejection_for_kind k c).status ≡ true)
unfolding rejection_for_kind rejection_for_class wire_status is_error
reject_kind k c = ground arith

-- Every request that is rejected gets an error whose text begins with the announced status.
pub rejection_for_announced :
    (r : RequestContext)
    → (wire_status (rejection_for r).wire ≡ (rejection_for r).status.value)
      × (is_error (rejection_for r).status ≡ true)
unfolding rejection_for
rejection_for_announced r = reject_kind r.kind (class_of r)
