-- ===== src/Command/Access.antt =====
-- src/command/handler.rs: who gets to a backend.
pub mod Handoff
use nntp_proxy.Base.{
  ℕ, ◌≡◌, ◌≢◌, ◌⊎◌, ◌↔◌, refl, inl, inr, ap, sym, ◌∙◌, Bool, true, false, ◌&&◌, Option, none, some,
  arith, if◌then◌else◌,
}
use nntp_proxy.Protocol.Status.{StatusCode}
use nntp_proxy.Protocol.Kind.{RequestKind, RequestRouteClass, route_class}
use nntp_proxy.Protocol.Request.{RequestContext}
use nntp_proxy.Protocol.Context.{class_of, is_some}
use nntp_proxy.Command.{
  RoutingMode, AuthAction, AuthenticationAccess, CommandPlan, can_access_backend, plan_for_class,
  plan_for_kind, classify_request, rejection_for, wire_status, rejection_for_kind,
  rejection_for_class,
}

-- Three kinds have arms of their own; the others go by their class, which is never the local one.
pub data KindView : RequestKind → Type 0 where
  auth_info : KindView RequestKind.auth_info
  capabilities : KindView RequestKind.capabilities
  quit : KindView RequestKind.quit
  other :
      (k : RequestKind)
      → ((r : RequestContext) (a : AuthenticationAccess) (mode : RoutingMode)
          → plan_for_kind k r a mode ≡ plan_for_class (class_of r) r a mode)
      → ((id : Bool) → route_class k id ≢ RequestRouteClass.local)
      → KindView k

pub kind_view : (k : RequestKind) → KindView k
unfolding plan_for_kind route_class
kind_view RequestKind.auth_info = KindView.auth_info
kind_view RequestKind.capabilities = KindView.capabilities
kind_view RequestKind.quit = KindView.quit
kind_view RequestKind.article =
    KindView.other RequestKind.article (λ r a mode. refl) (λ id e. ground arith)
kind_view RequestKind.body =
    KindView.other RequestKind.body (λ r a mode. refl) (λ id e. ground arith)
kind_view RequestKind.head =
    KindView.other RequestKind.head (λ r a mode. refl) (λ id e. ground arith)
kind_view RequestKind.stat =
    KindView.other RequestKind.stat (λ r a mode. refl) (λ id e. ground arith)
kind_view RequestKind.group =
    KindView.other RequestKind.group (λ r a mode. refl) (λ id e. ground arith)
kind_view RequestKind.list_group =
    KindView.other RequestKind.list_group (λ r a mode. refl) (λ id e. ground arith)
kind_view RequestKind.last =
    KindView.other RequestKind.last (λ r a mode. refl) (λ id e. ground arith)
kind_view RequestKind.next =
    KindView.other RequestKind.next (λ r a mode. refl) (λ id e. ground arith)
kind_view RequestKind.list =
    KindView.other RequestKind.list (λ r a mode. refl) (λ id e. ground arith)
kind_view RequestKind.date =
    KindView.other RequestKind.date (λ r a mode. refl) (λ id e. ground arith)
kind_view RequestKind.help =
    KindView.other RequestKind.help (λ r a mode. refl) (λ id e. ground arith)
kind_view RequestKind.mode =
    KindView.other RequestKind.mode (λ r a mode. refl) (λ id e. ground arith)
kind_view RequestKind.over =
    KindView.other RequestKind.over (λ r a mode. refl) (λ id e. ground arith)
kind_view RequestKind.xover =
    KindView.other RequestKind.xover (λ r a mode. refl) (λ id e. ground arith)
kind_view RequestKind.hdr = KindView.other RequestKind.hdr (λ r a mode. refl) (λ id e. ground arith)
kind_view RequestKind.xhdr =
    KindView.other RequestKind.xhdr (λ r a mode. refl) (λ id e. ground arith)
kind_view RequestKind.new_groups =
    KindView.other RequestKind.new_groups (λ r a mode. refl) (λ id e. ground arith)
kind_view RequestKind.new_news =
    KindView.other RequestKind.new_news (λ r a mode. refl) (λ id e. ground arith)
kind_view RequestKind.post =
    KindView.other RequestKind.post (λ r a mode. refl) (λ id e. ground arith)
kind_view RequestKind.ihave =
    KindView.other RequestKind.ihave (λ r a mode. refl) (λ id e. ground arith)
kind_view RequestKind.check =
    KindView.other RequestKind.check (λ r a mode. refl) (λ id e. ground arith)
kind_view RequestKind.take_this =
    KindView.other RequestKind.take_this (λ r a mode. refl) (λ id e. ground arith)
kind_view RequestKind.start_tls =
    KindView.other RequestKind.start_tls (λ r a mode. refl) (λ id e. ground arith)
kind_view RequestKind.compress =
    KindView.other RequestKind.compress (λ r a mode. refl) (λ id e. ground arith)
kind_view RequestKind.unknown =
    KindView.other RequestKind.unknown (λ r a mode. refl) (λ id e. ground arith)

-- What a client that has not authenticated gets.
pub data IsHarmless : RequestKind → CommandPlan → Type 0 where
  asks_for_auth : (k : RequestKind) → IsHarmless k CommandPlan.require_auth
  answers_auth : (a : AuthAction) → IsHarmless RequestKind.auth_info (CommandPlan.intercept_auth a)
  answers_capabilities : IsHarmless RequestKind.capabilities CommandPlan.intercept_capabilities
  quits : IsHarmless RequestKind.quit CommandPlan.forward

required_class :
    (c : RequestRouteClass) (r : RequestContext) (mode : RoutingMode)
    → c ≢ RequestRouteClass.local
    → plan_for_class c r AuthenticationAccess.required mode ≡ CommandPlan.require_auth
unfolding plan_for_class can_access_backend
required_class RequestRouteClass.article_by_message_id r mode h = refl
required_class RequestRouteClass.stateless r mode h = refl
required_class RequestRouteClass.stateful r RoutingMode.hybrid h = refl
required_class RequestRouteClass.stateful r RoutingMode.stateful h = refl
required_class RequestRouteClass.stateful r RoutingMode.per_command h = refl
required_class RequestRouteClass.reject r mode h = refl
required_class RequestRouteClass.local r mode h = absurd (h refl)

plan_required :
    (k : RequestKind) (r : RequestContext) (mode : RoutingMode)
    → KindView k
    → class_of r ≡ route_class k (is_some r.message_id)
    → IsHarmless k (plan_for_kind k r AuthenticationAccess.required mode)
unfolding plan_for_kind
plan_required _ r mode KindView.auth_info e = IsHarmless.answers_auth _
plan_required _ r mode KindView.capabilities e = IsHarmless.answers_capabilities
plan_required _ r mode KindView.quit e = IsHarmless.quits
plan_required k r mode (KindView.other _ plan no_local) e =
    rw
      (
        plan r AuthenticationAccess.required mode,
        required_class (class_of r) r mode (λ l. no_local (is_some r.message_id) (sym e ∙ l)),
      )
      (IsHarmless.asks_for_auth k)

-- Before authentication nothing but QUIT is forwarded: AUTHINFO and CAPABILITIES are answered by
-- the proxy, and every other request is answered with the demand to authenticate.
pub classify_request_required :
    (r : RequestContext) (mode : RoutingMode)
    → IsHarmless r.kind (classify_request r AuthenticationAccess.required mode)
unfolding classify_request class_of
classify_request_required r mode = plan_required r.kind r mode (kind_view r.kind) refl

abbrev pub ForwardsClass : RequestRouteClass → AuthenticationAccess → Type 0
ForwardsClass c a =
    (can_access_backend a ≡ true)
    × ((c ≡ RequestRouteClass.stateless) ⊎ (c ≡ RequestRouteClass.article_by_message_id))

forward_class :
    (c : RequestRouteClass) (r : RequestContext) (a : AuthenticationAccess) (mode : RoutingMode)
    → c ≢ RequestRouteClass.local
    → (plan_for_class c r a mode ≡ CommandPlan.forward) ↔ ForwardsClass c a
unfolding plan_for_class
forward_class RequestRouteClass.article_by_message_id r a mode h = ground arith
forward_class RequestRouteClass.stateless r a mode h = ground arith
forward_class RequestRouteClass.stateful r a RoutingMode.hybrid h = ground arith
forward_class RequestRouteClass.stateful r a RoutingMode.stateful h = ground arith
forward_class RequestRouteClass.stateful r a RoutingMode.per_command h = ground arith
forward_class RequestRouteClass.reject r a mode h = ground arith
forward_class RequestRouteClass.local r a mode h = absurd (h refl)

forward_plan :
    (k : RequestKind) (r : RequestContext) (a : AuthenticationAccess) (mode : RoutingMode)
    → KindView k
    → class_of r ≡ route_class k (is_some r.message_id)
    → (plan_for_kind k r a mode ≡ CommandPlan.forward)
      ↔ ((k ≡ RequestKind.quit) ⊎ ForwardsClass (class_of r) a)
unfolding plan_for_kind route_class
forward_plan _ r a mode KindView.auth_info e = ground (arith, e)
forward_plan _ r a mode KindView.capabilities e = ground (arith, e)
forward_plan _ r a mode KindView.quit e = ground arith
forward_plan k r a mode (KindView.other _ plan no_local) e =
    let (to, from) =
      forward_class (class_of r) r a mode (λ l. no_local (is_some r.message_id) (sym e ∙ l)) in
    let not_quit : k ≢ RequestKind.quit = λ q. no_local true (ap (λ k. route_class k true) q) in
    ground (arith, plan r a mode, to, from, not_quit)

-- A request is forwarded exactly when it is QUIT, or the client may reach the backend and the
-- request is stateless or names an article by message id; the routing mode has no say.
pub classify_request_forward :
    (r : RequestContext) (a : AuthenticationAccess) (mode : RoutingMode)
    → (classify_request r a mode ≡ CommandPlan.forward)
      ↔ ((r.kind ≡ RequestKind.quit) ⊎ ForwardsClass (class_of r) a)
unfolding classify_request class_of
classify_request_forward r a mode = forward_plan r.kind r a mode (kind_view r.kind) refl
