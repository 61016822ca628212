-- ===== src/Protocol/Metadata.antt =====
-- src/protocol/request.rs: what a request records of its cache lookup and of its response.
use nntp_proxy.Base.{ℕ, Bool, not, ◌&&◌, Option, ◌==◌}
use nntp_proxy.Protocol.Status.{StatusCode}
use nntp_proxy.Types.{BackendId, availability_bit}
use Prim.Native.Nat.{bit_and}

-- `RequestCacheStatus`
pub data CacheStatus : Type 0 where
  hit partial_hit miss : CacheStatus

-- `RequestResponseMetadata`
pub record ResponseMetadata : Type 0 where
  pub status : StatusCode
  pub wire_len : ℕ

-- `RequestCacheAvailability`
pub record CacheAvailability : Type 0 where
  pub checked : ℕ
  pub missing : ℕ

unfoldable pub backend_has_article : CacheAvailability → BackendId → Bool
backend_has_article a id =
    let mask = availability_bit id in
    not (bit_and a.checked mask == 0) && bit_and a.missing mask == 0

-- `RequestCachePayloadKind`
pub data PayloadKind : Type 0 where
  missing availability_only article head body stat : PayloadKind

-- `RequestCacheEntryMetadata`; tier, time and article number are the numbers in their wrappers.
pub record CacheEntryMetadata : Type 0 where
  pub status : StatusCode
  pub availability : CacheAvailability
  pub tier : ℕ
  pub timestamp : ℕ
  pub payload_kind : PayloadKind
  pub article_number : Option ℕ

-- `RequestCompletion`. The payload of a backend response is set in tests only, and left out.
pub data Completion : Type 0 where
  local : ResponseMetadata → Completion
  cache : ResponseMetadata → Completion
  backend : BackendId → ResponseMetadata → Completion
