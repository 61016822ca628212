-- ===== src/Session/State.antt =====
-- src/session/state.rs: the state of a session loop. A flush returns what it reports to the metrics.
pub mod Reported
use nntp_proxy.Base.{ℕ, ◌+◌, ◌-◌, ◌%◌, ◌^◌, Bool, true, false, leb, if◌then◌else◌, Bytes, List, []}
use nntp_proxy.Protocol.Kind.{RequestKind}
use nntp_proxy.Command.{AuthenticationAccess, from_auth_enabled, after_success}
use nntp_proxy.Auth.{ClientAuthState}
use nntp_proxy.Memchr.{Memchr}
use nntp_proxy.Replies.{
  BackendResponseOrder, push_request, push_deferred_reply, has_pending_backend_replies,
  has_deferred_replies, should_drain_backend_replies, take_ready_deferred_replies,
  client_writes_for_backend_read,
}

abbrev pub metrics_flush_interval : ℕ
metrics_flush_interval = 100

pub data StatefulReadMode : Type 0 where
  bidirectional drain_backend_replies : StatefulReadMode

pub record SessionLoopState : Type 0 where
  pub client_to_backend : ℕ
  pub backend_to_client : ℕ
  pub last_reported_c2b : ℕ
  pub last_reported_b2c : ℕ
  pub iteration_count : ℕ
  pub auth_username : ClientAuthState
  pub auth_access : AuthenticationAccess
  pub backend_replies : BackendResponseOrder

pub data AuthHandlerResult : Type 0 where
  authenticated : ℕ → AuthHandlerResult
  not_authenticated : ℕ → AuthHandlerResult
  rejected : ℕ → AuthHandlerResult

unfoldable pub bytes_written : AuthHandlerResult → ℕ
bytes_written (AuthHandlerResult.authenticated n) = n
bytes_written (AuthHandlerResult.not_authenticated n) = n
bytes_written (AuthHandlerResult.rejected n) = n

unfoldable pub should_skip_further_checks : AuthHandlerResult → Bool
should_skip_further_checks (AuthHandlerResult.authenticated n) = true
should_skip_further_checks _ = false

-- `ByteCounter::add`, which wraps in a release build.
abbrev pub add_bytes : ℕ → ℕ → ℕ
add_bytes counter n = (counter + n) % 2 ^ 64

unfoldable pub new : Bool → SessionLoopState
new auth_enabled = record {
  client_to_backend = 0;
  backend_to_client = 0;
  last_reported_c2b = 0;
  last_reported_b2c = 0;
  iteration_count = 0;
  auth_username = ClientAuthState.anonymous;
  auth_access = from_auth_enabled auth_enabled;
  backend_replies = record { inner = []; ordered = [] };
}

unfoldable pub with_initial_bytes : SessionLoopState → ℕ → ℕ → SessionLoopState
with_initial_bytes s c2b b2c = record s {
  client_to_backend = c2b;
  backend_to_client = b2c;
  last_reported_c2b = c2b;
  last_reported_b2c = b2c;
}

unfoldable pub from_initial_bytes : ℕ → ℕ → Bool → SessionLoopState
unfolding new with_initial_bytes
from_initial_bytes c2b b2c auth_enabled = with_initial_bytes (new auth_enabled) c2b b2c

unfoldable pub check_and_maybe_flush_metrics : SessionLoopState → SessionLoopState × Bool
check_and_maybe_flush_metrics s =
    if leb metrics_flush_interval (s.iteration_count + 1)
    then (record s { iteration_count = 0 }, true)
    else (record s { iteration_count = s.iteration_count + 1 }, false)

unfoldable pub add_client_to_backend : SessionLoopState → ℕ → SessionLoopState
add_client_to_backend s n = record s { client_to_backend = add_bytes s.client_to_backend n }

unfoldable pub add_backend_to_client : SessionLoopState → ℕ → SessionLoopState
add_backend_to_client s n = record s { backend_to_client = add_bytes s.backend_to_client n }

-- The deltas that are recorded; zero is not.
unfoldable pub flush_byte_deltas : SessionLoopState → SessionLoopState × (ℕ × ℕ)
flush_byte_deltas s = (
  record s { last_reported_c2b = s.client_to_backend; last_reported_b2c = s.backend_to_client },
  (s.client_to_backend - s.last_reported_c2b, s.backend_to_client - s.last_reported_b2c),
)

-- `TransferMetrics`
unfoldable pub into_metrics : SessionLoopState → ℕ × ℕ
into_metrics s = (s.client_to_backend, s.backend_to_client)

unfoldable pub mark_authenticated : SessionLoopState → SessionLoopState
mark_authenticated s = record s { auth_access = after_success s.auth_access }

unfoldable pub apply_auth_result : SessionLoopState → AuthHandlerResult → SessionLoopState × ℕ
unfolding add_backend_to_client mark_authenticated bytes_written should_skip_further_checks
apply_auth_result s result =
    let n = bytes_written result in
    let added = add_backend_to_client s n in
    (if should_skip_further_checks result then mark_authenticated added else added, n)

unfoldable pub mark_backend_request_sent : SessionLoopState → RequestKind → SessionLoopState
mark_backend_request_sent s kind = record s {
  backend_replies = push_request s.backend_replies kind;
}

unfoldable pub push_deferred : SessionLoopState → Bytes → SessionLoopState
push_deferred s reply = record s { backend_replies = push_deferred_reply s.backend_replies reply }

unfoldable pub read_mode : SessionLoopState → StatefulReadMode
read_mode s =
    if should_drain_backend_replies s.backend_replies
    then StatefulReadMode.drain_backend_replies
    else StatefulReadMode.bidirectional

unfoldable pub client_writes : Memchr → SessionLoopState → Bytes → SessionLoopState × List Bytes
client_writes m s backend_read =
    let (replies, writes) = client_writes_for_backend_read m s.backend_replies backend_read in
    (record s { backend_replies = replies }, writes)

unfoldable pub take_ready : SessionLoopState → SessionLoopState × List Bytes
take_ready s =
    let (ordered, replies) = take_ready_deferred_replies s.backend_replies.ordered in
    (record s { backend_replies = record (s.backend_replies) { ordered = ordered } }, replies)
