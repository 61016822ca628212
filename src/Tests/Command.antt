-- ===== src/Tests/Command.antt =====
-- src/command/handler.rs at concrete requests.
use nntp_proxy.Base.{◌≡◌, ◌↔◌, ◌⊎◌, refl, true, codes}
use nntp_proxy.Protocol.Kind.{RequestKind}
use nntp_proxy.Protocol.Request.{RequestContext, from_verb_args}
use nntp_proxy.Protocol.Context.{class_of}
use nntp_proxy.Command.{
  RoutingMode, AuthenticationAccess, CommandPlan, classify_request, prepare_stateful_handoff,
}
use nntp_proxy.Command.Access.{
  IsHarmless, ForwardsClass, classify_request_required, classify_request_forward,
}
use nntp_proxy.Command.Access.Handoff.{HandsOff, prepare_stateful_handoff_iff}
use nntp_proxy.Command.Arguments.{Argument, IsArgument}

abbrev group : RequestContext
group = from_verb_args (codes "GROUP") (codes "alt.test")

classify_request_required_example :
    IsHarmless group.kind (classify_request group AuthenticationAccess.required RoutingMode.hybrid)
classify_request_required_example = classify_request_required group RoutingMode.hybrid

classify_request_forward_example :
    (classify_request group AuthenticationAccess.authenticated RoutingMode.hybrid
      ≡ CommandPlan.forward)
    ↔ ((group.kind ≡ RequestKind.quit)
        ⊎ ForwardsClass (class_of group) AuthenticationAccess.authenticated)
classify_request_forward_example =
    classify_request_forward group AuthenticationAccess.authenticated RoutingMode.hybrid

prepare_stateful_handoff_iff_example :
    ((prepare_stateful_handoff group AuthenticationAccess.authenticated RoutingMode.hybrid).0 ≡ true
      ↔ HandsOff (class_of group) AuthenticationAccess.authenticated RoutingMode.hybrid)
    × ((prepare_stateful_handoff group AuthenticationAccess.authenticated RoutingMode.hybrid).1
        ≡ group)
prepare_stateful_handoff_iff_example =
    prepare_stateful_handoff_iff group AuthenticationAccess.authenticated RoutingMode.hybrid

abbrev user : Argument
user = record {
  before = codes " ";
  word = codes "uSer";
  gap = codes "\t ";
  value = codes "a l";
  after = codes " ";
}

user-IsArgument : IsArgument user
user-IsArgument = record {
  blank_before = refl;
  blank_after = refl;
  blank_gap = refl;
  gap_first = b'\t';
  gap_others = codes " ";
  gap_begins = refl;
  gap_blank = refl;
  word_core = record {
    first = b'u';
    others = codes "Ser";
    begins = refl;
    first_solid = refl;
    last = b'r';
    ends = refl;
    last_solid = refl;
  };
  word_solid = refl;
  value_core = record {
    first = b'a';
    others = codes " l";
    begins = refl;
    first_solid = refl;
    last = b'l';
    ends = refl;
    last_solid = refl;
  };
}
