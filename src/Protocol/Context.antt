-- ===== src/Protocol/Context.antt =====
-- src/protocol/request.rs: what is read from a request context and what is recorded in it.
pub mod Article
pub mod Recording
use nntp_proxy.Base.{
  ℕ, Bool, true, false, ◌&&◌, Option, none, some, Bytes, if◌then◌else◌, is_utf8, Result, ok, err,
}
use nntp_proxy.Types.{BackendId}
use nntp_proxy.Protocol.Status.{StatusCode}
use nntp_proxy.Protocol.Kind.{
  RequestKind, RequestRouteClass, route_class, request_kind_has_response_body,
}
use nntp_proxy.Protocol.MessageId.{MessageId, from_borrowed}
use nntp_proxy.Protocol.Metadata.{
  CacheStatus, ResponseMetadata, CacheAvailability, CacheEntryMetadata, Completion,
  backend_has_article,
}
use nntp_proxy.Protocol.Request.{RequestContext, slice}

abbrev pub is_some {ℓ} : {A : Type ℓ} → Option A → Bool
is_some none = false
is_some (some a) = true

backend_id_of : Option Completion → Option BackendId
backend_id_of (some (Completion.backend id response)) = some id
backend_id_of _ = none

unfoldable pub backend_id : RequestContext → Option BackendId
unfolding backend_id_of
backend_id r = backend_id_of r.completion

unfoldable pub cache_availability : RequestContext → Option CacheAvailability
cache_availability r = elim r.cache_entry [ none ↦ none | some entry ↦ some entry.availability ]

unfoldable pub cache_records_backend_has_article : RequestContext → BackendId → Bool
unfolding cache_availability
cache_records_backend_has_article r id = elim (cache_availability r) [
  | none ↦ false
  | some a ↦ backend_has_article a id
]

unfoldable pub cache_entry_status : RequestContext → Option StatusCode
cache_entry_status r = elim r.cache_entry [ none ↦ none | some entry ↦ some entry.status ]

unfoldable pub record_cache_status : RequestContext → CacheStatus → RequestContext
record_cache_status r status = record r { cache_status = some status }

unfoldable pub record_cache_entry_metadata : RequestContext → CacheEntryMetadata → RequestContext
record_cache_entry_metadata r metadata = record r { cache_entry = some metadata }

response_of : Option Completion → Option ResponseMetadata
response_of none = none
response_of (some (Completion.local response)) = some response
response_of (some (Completion.cache response)) = some response
response_of (some (Completion.backend id response)) = some response

unfoldable pub response_metadata : RequestContext → Option ResponseMetadata
unfolding response_of
response_metadata r = response_of r.completion

unfoldable pub response_status : RequestContext → Option StatusCode
unfolding response_metadata
response_status r = elim (response_metadata r) [ none ↦ none | some m ↦ some m.status ]

unfoldable pub response_wire_len : RequestContext → Option ℕ
unfolding response_metadata
response_wire_len r = elim (response_metadata r) [ none ↦ none | some m ↦ some m.wire_len ]

unfoldable pub record_backend_response :
    RequestContext → BackendId → ResponseMetadata → RequestContext
record_backend_response r id response = record r {
  completion = some (Completion.backend id response);
}

unfoldable pub record_cache_response : RequestContext → ResponseMetadata → RequestContext
record_cache_response r response = record r {
  cache_status = some CacheStatus.hit;
  completion = some (Completion.cache response);
}

unfoldable pub record_local_response : RequestContext → ResponseMetadata → RequestContext
record_local_response r response = record r { completion = some (Completion.local response) }

-- The copy that a background probe takes; it holds no completion.
unfoldable pub clone_for_background_probe : RequestContext → RequestContext
clone_for_background_probe r = record r { completion = none }

text_at : Bytes → Option (ℕ × ℕ) → Option Bytes
text_at args none = none
text_at args (some (start, end)) =
    if is_utf8 (slice args start end) then some (slice args start end) else none

unfoldable pub message_id : RequestContext → Option Bytes
unfolding text_at
message_id r = text_at r.args r.message_id

ok? {ℓ} : {E : Type ℓ} {A : Type 0} → Result E A → Option A
ok? (ok a) = some a
ok? (err e) = none

unfoldable pub message_id_value : RequestContext → Option MessageId
unfolding message_id ok?
message_id_value r = elim (message_id r) [ none ↦ none | some s ↦ ok? (from_borrowed s) ]

unfoldable pub has_message_id : RequestContext → Bool
has_message_id r = is_some r.message_id

unfoldable pub class_of : RequestContext → RequestRouteClass
class_of r = route_class r.kind (is_some r.message_id)

is_article_class : RequestRouteClass → Bool
is_article_class RequestRouteClass.article_by_message_id = true
is_article_class _ = false

unfoldable pub is_pipelineable : RequestContext → Bool
unfolding class_of is_article_class
is_pipelineable r = is_article_class (class_of r)

is_article_or_body : RequestKind → Bool
is_article_or_body RequestKind.article = true
is_article_or_body RequestKind.body = true
is_article_or_body _ = false

unfoldable pub is_large_transfer : RequestContext → Bool
unfolding is_article_or_body
is_large_transfer r = is_article_or_body r.kind && is_some r.message_id

unfoldable pub has_response_body : RequestContext → StatusCode → Bool
has_response_body r status = request_kind_has_response_body r.kind status
