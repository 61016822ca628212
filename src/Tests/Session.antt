-- ===== src/Tests/Session.antt =====
-- src/session/state.rs and src/session/routing at concrete values.
use nntp_proxy.Base.{◌+◌, ◌≡◌, ◌↔◌, true, List, [], ◌∷◌, codes, arith}
use nntp_proxy.Protocol.Status.{StatusCode}
use nntp_proxy.Protocol.Kind.{RequestKind, RequestRouteClass}
use nntp_proxy.Protocol.Request.{RequestContext, from_verb_args}
use nntp_proxy.Protocol.Context.{class_of}
use nntp_proxy.Session.State.{
  AuthHandlerResult, bytes_written, from_initial_bytes, flush_byte_deltas, into_metrics,
}
use nntp_proxy.Session.State.Reported.{Event, run, sent_in, received_in, flush_byte_deltas_lem}
use nntp_proxy.Session.Policy.{
  CachePayloadPolicy, CacheAction, IsKept, is_counted, determine_cache_action_for_request,
  determine_metrics_action_for_request, article_lookup_request, cache_action_lem,
}

abbrev events : List Event
events =
    Event.sent 40
    ∷ Event.replied (AuthHandlerResult.authenticated 23)
    ∷ Event.flushed
    ∷ Event.forwarded RequestKind.body
    ∷ Event.received 900
    ∷ []

flush_byte_deltas_lem_example :
    let (u, (cs, bs)) = run (from_initial_bytes 10 20 true) events in
    (cs + (flush_byte_deltas u).1.0 ≡ sent_in events)
    × (bs + (flush_byte_deltas u).1.1 ≡ received_in events)
    × (into_metrics u ≡ (10 + sent_in events, 20 + received_in events))
unfolding bytes_written
flush_byte_deltas_lem_example = flush_byte_deltas_lem 10 20 true events (omega arith) (omega arith)

abbrev body : RequestContext
body = from_verb_args (codes "BODY") (codes "<a@b>")

abbrev sends_body : StatusCode
sends_body = record { value = 222 }

cache_action_lem_example :
    ((determine_cache_action_for_request
          (article_lookup_request body)
          sends_body
          CachePayloadPolicy.store_bodies
        ≡ CacheAction.capture_article)
      ↔ ((CachePayloadPolicy.store_bodies ≡ CachePayloadPolicy.store_bodies)
          × (class_of body ≡ RequestRouteClass.article_by_message_id)
          × IsKept body.kind 222))
    × (is_counted
          (determine_cache_action_for_request
            (article_lookup_request body)
            sends_body
            CachePayloadPolicy.store_bodies)
          (determine_metrics_action_for_request body sends_body)
        ≡ true)
cache_action_lem_example = cache_action_lem body sends_body CachePayloadPolicy.store_bodies
