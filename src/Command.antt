-- ===== src/Command.antt =====
-- src/command/handler.rs: what is done with a parsed request.
pub mod Access
pub mod Arguments
use nntp_proxy.Base.{
  ℕ, ◌+◌, ◌-◌, ◌*◌, Bool, true, false, not, ◌&&◌, ◌||◌, List, [], ◌∷◌, Option, none, some, ltb,
  ◌==◌, if◌then◌else◌, Bytes, codes, length, take, drop, position, rposition, is_ascii_whitespace,
  is_utf8, wrapping_sub,
}
use nntp_proxy.Protocol.Status.{StatusCode}
use nntp_proxy.Protocol.Kind.{RequestKind, RequestRouteClass, eq_ignore_ascii_case_const}
use nntp_proxy.Protocol.Request.{RequestContext, unwrap_or}
use nntp_proxy.Protocol.Context.{class_of}

-- `config::RoutingMode`
pub data RoutingMode : Type 0 where
  stateful per_command hybrid : RoutingMode

pub data AuthenticationAccess : Type 0 where
  required authenticated unrestricted : AuthenticationAccess

pub from_auth_enabled : Bool → AuthenticationAccess
from_auth_enabled true = AuthenticationAccess.required
from_auth_enabled false = AuthenticationAccess.unrestricted

pub can_access_backend : AuthenticationAccess → Bool
can_access_backend AuthenticationAccess.required = false
can_access_backend _ = true

pub auth_enabled : AuthenticationAccess → Bool
auth_enabled AuthenticationAccess.unrestricted = false
auth_enabled _ = true

pub after_success : AuthenticationAccess → AuthenticationAccess
after_success AuthenticationAccess.required = AuthenticationAccess.authenticated
after_success access = access

pub record RejectResponse : Type 0 where
  pub status : StatusCode
  pub wire : Bytes

pub data AuthAction : Type 0 where
  request_password validate_and_respond : Bytes → AuthAction
  unknown_subcommand : AuthAction

pub data CommandPlan : Type 0 where
  intercept_auth : AuthAction → CommandPlan
  reject : RejectResponse → CommandPlan
  forward require_auth intercept_capabilities : CommandPlan
  switch_to_stateful : RequestContext → CommandPlan

abbrev post_reject : RejectResponse
post_reject = record {
  status = record { value = 440 };
  wire = codes "440 Posting not permitted\r\n";
}

abbrev transit_reject : RejectResponse
transit_reject = record {
  status = record { value = 503 };
  wire = codes "503 Feature not supported in per-command routing mode\r\n";
}

abbrev stateful_reject : RejectResponse
stateful_reject = record {
  status = record { value = 503 };
  wire = codes "503 Feature not supported in stateless proxy mode\r\n";
}

abbrev transport_reject : RejectResponse
transport_reject = record {
  status = record { value = 503 };
  wire = codes "503 Transport-changing command not supported\r\n";
}

-- The three digits that a response begins with, or 0.
pub wire_status : Bytes → ℕ
wire_status (a ∷ b ∷ c ∷ rest) =
    let d0 = wrapping_sub a b'0' in
    let d1 = wrapping_sub b b'0' in
    let d2 = wrapping_sub c b'0' in
    if ltb 9 d0 || ltb 9 d1 || ltb 9 d2 then 0 else d0 * 100 + d1 * 10 + d2
wire_status _ = 0

pub rejection_for_class : RequestRouteClass → RejectResponse
rejection_for_class RequestRouteClass.stateful = stateful_reject
rejection_for_class _ = transit_reject

pub rejection_for_kind : RequestKind → RequestRouteClass → RejectResponse
unfolding rejection_for_class
rejection_for_kind RequestKind.post class = post_reject
rejection_for_kind RequestKind.ihave class = transit_reject
rejection_for_kind RequestKind.compress class = transport_reject
rejection_for_kind RequestKind.start_tls class = transport_reject
rejection_for_kind _ class = rejection_for_class class

pub rejection_for : RequestContext → RejectResponse
unfolding rejection_for_kind
rejection_for request = rejection_for_kind request.kind (class_of request)

pub trim_ascii : Bytes → Bytes
trim_ascii bytes =
    let start = unwrap_or (position (λ b. not (is_ascii_whitespace b)) bytes) (length bytes) in
    let end : ℕ = elim (rposition (λ b. not (is_ascii_whitespace b)) bytes) [
      | none ↦ start
      | some index ↦ index + 1
    ] in
    take (end - start) (drop start bytes)

pub strip_authinfo_arg : Bytes → Bytes → Option Bytes
strip_authinfo_arg args subcommand =
    let args = trim_ascii args in
    let split = unwrap_or (position is_ascii_whitespace args) (length args) in
    let head = take split args in
    let tail = trim_ascii (drop split args) in
    if eq_ignore_ascii_case_const head subcommand && is_utf8 tail then some tail else none

pub classify_auth : Bytes → AuthAction
unfolding strip_authinfo_arg
classify_auth args = elim (strip_authinfo_arg args (codes "USER")) [
  | some username ↦ AuthAction.request_password username
  | none ↦ elim (strip_authinfo_arg args (codes "PASS")) [
    | some password ↦ AuthAction.validate_and_respond password
    | none ↦ AuthAction.unknown_subcommand
  ]
]

-- The arms of the match on the route class.
pub plan_for_class :
    RequestRouteClass → RequestContext → AuthenticationAccess → RoutingMode → CommandPlan
unfolding can_access_backend rejection_for
plan_for_class RequestRouteClass.article_by_message_id request access mode =
    if can_access_backend access then CommandPlan.forward else CommandPlan.require_auth
plan_for_class RequestRouteClass.stateless request access mode =
    if can_access_backend access then CommandPlan.forward else CommandPlan.require_auth
plan_for_class RequestRouteClass.stateful request access RoutingMode.hybrid =
    if can_access_backend access
    then CommandPlan.switch_to_stateful request
    else CommandPlan.require_auth
plan_for_class RequestRouteClass.stateful request access mode =
    if not (can_access_backend access)
    then CommandPlan.require_auth
    else CommandPlan.reject (rejection_for request)
plan_for_class RequestRouteClass.reject request access mode =
    if not (can_access_backend access)
    then CommandPlan.require_auth
    else CommandPlan.reject (rejection_for request)
plan_for_class RequestRouteClass.local request access RoutingMode.stateful = CommandPlan.forward
plan_for_class RequestRouteClass.local request access mode = CommandPlan.reject transit_reject

pub plan_for_kind : RequestKind → RequestContext → AuthenticationAccess → RoutingMode → CommandPlan
unfolding plan_for_class classify_auth
plan_for_kind RequestKind.auth_info request access mode =
    CommandPlan.intercept_auth (classify_auth request.args)
plan_for_kind RequestKind.capabilities request access mode = CommandPlan.intercept_capabilities
plan_for_kind RequestKind.quit request access mode = CommandPlan.forward
plan_for_kind _ request access mode = plan_for_class (class_of request) request access mode

pub classify_request : RequestContext → AuthenticationAccess → RoutingMode → CommandPlan
unfolding plan_for_kind
classify_request request access mode = plan_for_kind request.kind request access mode

-- `prepare_stateful_handoff`: the handoff holds the request; otherwise it is given back.
pub is_handoff : CommandPlan → Bool
is_handoff (CommandPlan.switch_to_stateful request) = true
is_handoff _ = false

pub prepare_stateful_handoff :
    RequestContext → AuthenticationAccess → RoutingMode → Bool × RequestContext
unfolding classify_request is_handoff
prepare_stateful_handoff request access mode =
    (is_handoff (classify_request request access mode), request)
