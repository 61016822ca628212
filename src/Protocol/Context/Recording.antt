-- ===== src/Protocol/Context/Recording.antt =====
-- src/protocol/request.rs: recording a response or a cache result leaves the request as it was read.
use nntp_proxy.Base.{◌≡◌, refl, ◌∙◌, List, [], ◌∷◌, Option, none, some}
use nntp_proxy.Types.{BackendId}
use nntp_proxy.Protocol.Metadata.{CacheStatus, ResponseMetadata, CacheEntryMetadata}
use nntp_proxy.Protocol.Request.{RequestContext, wire}
use nntp_proxy.Protocol.Context.{
  record_cache_status, record_cache_entry_metadata, record_backend_response, record_cache_response,
  record_local_response, response_metadata, backend_id, class_of,
}

-- The calls that write to a request context.
pub data Recording : Type 0 where
  status : CacheStatus → Recording
  entry : CacheEntryMetadata → Recording
  from_backend : BackendId → ResponseMetadata → Recording
  from_cache : ResponseMetadata → Recording
  locally : ResponseMetadata → Recording

pub perform : RequestContext → Recording → RequestContext
perform r (status s) = record_cache_status r s
perform r (entry e) = record_cache_entry_metadata r e
perform r (from_backend id m) = record_backend_response r id m
perform r (from_cache m) = record_cache_response r m
perform r (locally m) = record_local_response r m

pub perform_all : RequestContext → List Recording → RequestContext
perform_all r [] = r
perform_all r (c ∷ cs) = perform_all (perform r c) cs

-- The response and the backend that the last completing call among these recorded.
abbrev pub Completed : Type 0
Completed = Option ResponseMetadata × Option BackendId

abbrev pub completed : Completed → List Recording → Completed
completed now [] = now
completed now (status s ∷ cs) = completed now cs
completed now (entry e ∷ cs) = completed now cs
completed now (from_backend id m ∷ cs) = completed (some m, some id) cs
completed now (from_cache m ∷ cs) = completed (some m, none) cs
completed now (locally m ∷ cs) = completed (some m, none) cs

abbrev Kept : RequestContext → RequestContext → Type 0
Kept r q = (wire q ≡ wire r) × (class_of q ≡ class_of r)

perform-Kept : (r : RequestContext) (c : Recording) → Kept r (perform r c)
unfolding perform wire class_of record_cache_status record_cache_entry_metadata
    record_backend_response record_cache_response record_local_response
perform-Kept r (status s) = (refl, refl)
perform-Kept r _ = (refl, refl)

abbrev report : RequestContext → Completed
report r = (response_metadata r, backend_id r)

completed-perform :
    (r : RequestContext) (c : Recording) (cs : List Recording)
    → completed (report (perform r c)) cs ≡ completed (report r) (c ∷ cs)
unfolding perform response_metadata backend_id record_cache_status record_cache_entry_metadata
    record_backend_response record_cache_response record_local_response
completed-perform r (status s) cs = refl
completed-perform r _ cs = refl

-- Whatever is recorded, the request goes out on the wire as it was and keeps its routing class,
-- and the response and the backend that it reports are those of the last completing call.
pub perform_all_lem :
    (r : RequestContext) (cs : List Recording)
    → (wire (perform_all r cs) ≡ wire r)
      × (class_of (perform_all r cs) ≡ class_of r)
      × ((response_metadata (perform_all r cs), backend_id (perform_all r cs))
          ≡ completed (response_metadata r, backend_id r) cs)
unfolding perform_all
perform_all_lem r [] = (refl, refl, refl)
perform_all_lem r (c ∷ cs) =
    let (w, k, p) = perform_all_lem (perform r c) cs in
    let (v, l) = perform-Kept r c in (w ∙ v, k ∙ l, p ∙ completed-perform r c cs)
