-- ===== src/Session/Policy.antt =====
-- src/session/routing/cache_policy.rs and metrics_policy.rs: what a backend's response is recorded as.
use nntp_proxy.Base.{
  ◌≡◌, refl, inl, inr, ◌↔◌, ◌⊎◌, Bool, true, false, not, ◌&&◌, ◌||◌, Option, none, some, leb, ltb,
  ◌==◌, if◌then◌else◌, arith, ℕ,
}
use nntp_proxy.Protocol.Status.{StatusCode}
use nntp_proxy.Protocol.Kind.{RequestKind, RequestRouteClass}
use nntp_proxy.Protocol.Request.{RequestContext}
use nntp_proxy.Protocol.Context.{is_some, class_of, has_response_body}
use nntp_proxy.Protocol.Status.{is_error}
use nntp_proxy.Protocol.Kind.{route_class, request_kind_has_response_body}

pub data CachePayloadPolicy : Type 0 where
  availability_only store_bodies : CachePayloadPolicy

abbrev pub stores_payloads : CachePayloadPolicy → Bool
stores_payloads CachePayloadPolicy.store_bodies = true
stores_payloads CachePayloadPolicy.availability_only = false

pub data CacheAction : Type 0 where
  capture_article track_availability track_stat nothing : CacheAction

pub data MetricsAction : Type 0 where
  error_4xx error_5xx article nothing : MetricsAction

abbrev pub in_class : RequestRouteClass → Bool
in_class RequestRouteClass.article_by_message_id = true
in_class _ = false

-- `ArticleLookupRequest::new`
unfoldable pub article_lookup_request : RequestContext → Option RequestContext
article_lookup_request r = if in_class (class_of r) then some r else none

unfoldable pub should_capture_article_response :
    RequestContext → StatusCode → CachePayloadPolicy → Bool
unfolding has_response_body
should_capture_article_response r response_code policy =
    stores_payloads policy
    && has_response_body r response_code
    && (response_code.value == 220 || response_code.value == 222)

unfoldable pub should_track_availability : StatusCode → Bool
should_track_availability response_code = leb 220 response_code.value && leb response_code.value 223

unfoldable pub determine_cache_action_for_request :
    Option RequestContext → StatusCode → CachePayloadPolicy → CacheAction
unfolding should_capture_article_response should_track_availability
determine_cache_action_for_request none response_code policy = CacheAction.nothing
determine_cache_action_for_request (some r) response_code policy =
    if should_capture_article_response r response_code policy
    then CacheAction.capture_article
    else if has_response_body r response_code && should_track_availability response_code
    then CacheAction.track_availability
    else if response_code.value == 223
    then CacheAction.track_stat
    else CacheAction.nothing

unfoldable pub determine_metrics_action_for_request : RequestContext → StatusCode → MetricsAction
unfolding has_response_body
determine_metrics_action_for_request r status_code =
    let code = status_code.value in
    if leb 400 code && ltb code 500 && not (code == 423) && not (code == 430)
    then MetricsAction.error_4xx
    else if leb 500 code
    then MetricsAction.error_5xx
    else if has_response_body r status_code && (leb 220 code && leb code 222)
    then MetricsAction.article
    else MetricsAction.nothing

-- The responses whose payload the cache keeps.
abbrev pub IsKept : RequestKind → ℕ → Type 0
IsKept RequestKind.article code = code ≡ 220
IsKept RequestKind.body code = code ≡ 222
IsKept _ code = ⊥

-- A response that the cache captures or tracks is counted as an article, a STAT is not.
abbrev pub is_counted : CacheAction → MetricsAction → Bool
is_counted CacheAction.capture_article MetricsAction.article = true
is_counted CacheAction.track_availability MetricsAction.article = true
is_counted CacheAction.track_stat MetricsAction.nothing = true
is_counted CacheAction.nothing _ = true
is_counted _ _ = false

-- The class of a request by kind.
by_kind :
    (r : RequestContext)
    → (in_class (class_of r) ≡ false)
      ⊎ ((class_of r ≡ RequestRouteClass.article_by_message_id)
          × ((r.kind ≡ RequestKind.article)
              ⊎ (r.kind ≡ RequestKind.body)
              ⊎ (r.kind ≡ RequestKind.head)
              ⊎ (r.kind ≡ RequestKind.stat)))
unfolding class_of route_class
by_kind r = go r.kind (is_some r.message_id)
  where
    go :
        (kind : RequestKind) (m : Bool)
        → (in_class (route_class kind m) ≡ false)
          ⊎ ((route_class kind m ≡ RequestRouteClass.article_by_message_id)
              × ((kind ≡ RequestKind.article)
                  ⊎ (kind ≡ RequestKind.body)
                  ⊎ (kind ≡ RequestKind.head)
                  ⊎ (kind ≡ RequestKind.stat)))
    go RequestKind.article true = inr (refl, inl refl)
    go RequestKind.body true = inr (refl, inr (inl refl))
    go RequestKind.head true = inr (refl, inr (inr (inl refl)))
    go RequestKind.stat true = inr (refl, inr (inr (inr refl)))
    go _ m = ground arith

-- The payload of a response is captured for the cache exactly when the cache stores payloads and the
-- response is the success of an ARTICLE or BODY request by message id. Of the responses to requests by
-- message id, those that the cache captures or tracks are counted as articles, and a STAT is not.
pub cache_action_lem :
    (r : RequestContext) (code : StatusCode) (policy : CachePayloadPolicy)
    → ((determine_cache_action_for_request (article_lookup_request r) code policy
          ≡ CacheAction.capture_article)
        ↔ ((policy ≡ CachePayloadPolicy.store_bodies)
            × (class_of r ≡ RequestRouteClass.article_by_message_id)
            × IsKept r.kind code.value))
      × (is_counted
            (determine_cache_action_for_request (article_lookup_request r) code policy)
            (determine_metrics_action_for_request r code)
          ≡ true)
unfolding determine_cache_action_for_request determine_metrics_action_for_request
    article_lookup_request request_kind_has_response_body is_error
cache_action_lem r code policy = elim (by_kind r) [
  | inl n ↦ ground (arith, n)
  | inr (c, inl k) ↦ ground (arith, c, k)
  | inr (c, inr (inl k)) ↦ ground (arith, c, k)
  | inr (c, inr (inr (inl k))) ↦ ground (arith, c, k)
  | inr (c, inr (inr (inr k))) ↦ ground (arith, c, k)
]
