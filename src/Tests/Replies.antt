-- ===== src/Tests/Replies.antt =====
-- src/session/multiline_framing.rs: the order of replies at a concrete read.
use nntp_proxy.Base.{◌≡◌, refl, List, [], ◌∷◌, map, arith, Bytes, codes}
use nntp_proxy.Memchr.{plain}
use nntp_proxy.Protocol.Kind.{RequestKind}
use nntp_proxy.Replies.{
  PendingRequestFrame, FrameState, BackendResponseOrder, OrderedResponse, consume,
  accept_backend_bytes, client_writes_for_backend_read,
}
use nntp_proxy.Replies.Bounds.{AllIn, consume_bounds}
use nntp_proxy.Replies.Tracker.{Passes, accept_backend_bytes-Passes}
use nntp_proxy.Replies.Serves.{ClientWrite, Serves, text, backend_text}
use nntp_proxy.Replies.Order.{IsOrder, client_writes-Serves}

abbrev stat : PendingRequestFrame
stat = record { kind = RequestKind.stat; state = FrameState.awaiting_status_line; status_line = [] }

-- Two requests are with the backend, and a reply of the proxy waits between them.
abbrev waiting : BackendResponseOrder
waiting = record {
  inner = stat ∷ stat ∷ [];
  ordered =
      OrderedResponse.backend
      ∷ OrderedResponse.local (codes "480 auth\r\n")
      ∷ OrderedResponse.backend
      ∷ [];
}

waiting_IsOrder : IsOrder waiting
waiting_IsOrder = record { one_each = refl }

abbrev read : Bytes
read = codes "223 0\r\n430"

client_writes-Serves_example :
    (ws : List ClientWrite) × (map text ws ≡ (client_writes_for_backend_read plain waiting read).1)
    × Serves waiting.ordered ws (client_writes_for_backend_read plain waiting read).0.ordered
    × (backend_text ws ≡ read)
    × IsOrder (client_writes_for_backend_read plain waiting read).0
client_writes-Serves_example = client_writes-Serves plain waiting read waiting_IsOrder

accept_backend_bytes-Passes_example :
    Passes (stat ∷ stat ∷ []) read (accept_backend_bytes plain (stat ∷ stat ∷ []) read)
accept_backend_bytes-Passes_example = accept_backend_bytes-Passes plain (stat ∷ stat ∷ []) read

consume_bounds_example : AllIn read 0 (consume plain stat read 0).1
consume_bounds_example = consume_bounds plain stat read 0 (omega arith)
