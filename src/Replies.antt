-- ===== src/Replies.antt =====
-- src/session/multiline_framing.rs: replies of a backend and of the proxy in the order of the
-- requests (`PendingRequestFrame`, `BackendReplyTracker`, `BackendResponseOrder`).
pub mod Bounds
pub mod Tracker
pub mod Serves
pub mod Order
use nntp_proxy.Base.{
  ℕ, zero, suc, ◌+◌, ◌-◌, Bool, true, false, not, ◌&&◌, List, [], ◌∷◌, ◌++◌, Option, none, some,
  ltb, if◌then◌else◌, Bytes, length, take, drop, any,
}
use nntp_proxy.Memchr.{Memchr}
use nntp_proxy.Protocol.Status
use nntp_proxy.Protocol.Kind.{RequestKind, request_kind_has_response_body}
use nntp_proxy.Framing.{MultilineFramer, default_framer, update, advance_to_next_terminator_end}

-- `constants::buffer::COMMAND`
abbrev pub command_octets : ℕ
command_octets = 512

pub data FrameState : Type 0 where
  awaiting_status_line discarding_overlong_status_line : FrameState
  reading_multiline : MultilineFramer → FrameState

pub record PendingRequestFrame : Type 0 where
  pub kind : RequestKind
  pub state : FrameState
  pub status_line : Bytes

-- `BackendChunkRange`, from the offset in the chunk.
pub record Framed : Type 0 where
  pub start : ℕ
  pub end : ℕ

-- The range from `offset` of what was consumed behind it, if anything was.
pub framed_from : ℕ → ℕ → Option ℕ → Option Framed
framed_from offset base none = none
framed_from offset base (some consumed) = some (record { start = offset; end = base + consumed })

module _ (m : Memchr) where
  -- The status line is complete: a body is looked for behind it.
  pub consume_body : PendingRequestFrame → Bytes → ℕ → ℕ → PendingRequestFrame × Option Framed
  unfolding framed_from
  consume_body p chunk offset end =
      let (framer, found) =
        advance_to_next_terminator_end m (update default_framer p.status_line) (drop end chunk) in
      elim found [
        | some consumed ↦ (
          record { kind = p.kind; state = p.state; status_line = [] },
          framed_from offset end (some consumed),
        )
        | none ↦ (
          record { kind = p.kind; state = FrameState.reading_multiline framer; status_line = [] },
          none,
        )
      ]

  -- The line feed is at `pos` behind the offset.
  pub consume_line : PendingRequestFrame → Bytes → ℕ → ℕ → PendingRequestFrame × Option Framed
  unfolding consume_body
  consume_line p chunk offset pos =
      let end = offset + (pos + 1) in
      let complete : Option Framed = some (record { start = offset; end = end }) in
      let line = p.status_line ++ take (end - offset) (drop offset chunk) in
      let read : PendingRequestFrame = record {
        kind = p.kind;
        state = p.state;
        status_line = line;
      } in
      if ltb command_octets (length p.status_line + end - offset)
      then (p, complete)
      else elim (Status.parse line) [
        | none ↦ (read, complete)
        | some status ↦
            if not (request_kind_has_response_body p.kind status)
            then (read, complete)
            else consume_body read chunk offset end
      ]

  -- The chunk holds no line feed behind the offset.
  pub consume_partial : PendingRequestFrame → Bytes → PendingRequestFrame
  consume_partial p offset_bytes =
      if ltb command_octets (length p.status_line + length offset_bytes)
      then record {
        kind = p.kind;
        state = FrameState.discarding_overlong_status_line;
        status_line = [];
      }
      else record { kind = p.kind; state = p.state; status_line = p.status_line ++ offset_bytes }

  -- One arm of the match on the state each.
  pub consume_in :
      FrameState → PendingRequestFrame → Bytes → ℕ → PendingRequestFrame × Option Framed
  unfolding framed_from consume_line consume_partial
  consume_in FrameState.awaiting_status_line p chunk offset =
      elim (m.memchr b'\n' (drop offset chunk)) [
        | none ↦ (consume_partial p (drop offset chunk), none)
        | some pos ↦ consume_line p chunk offset pos
      ]
  consume_in FrameState.discarding_overlong_status_line p chunk offset =
      elim (m.memchr b'\n' (drop offset chunk)) [
        | none ↦ (p, none)
        | some pos ↦ (p, framed_from offset offset (some (pos + 1)))
      ]
  consume_in (FrameState.reading_multiline framer) p chunk offset =
      let (next, found) = advance_to_next_terminator_end m framer (drop offset chunk) in
      (
        record {
          kind = p.kind;
          state = FrameState.reading_multiline next;
          status_line = p.status_line;
        },
        framed_from offset offset found,
      )

  pub consume : PendingRequestFrame → Bytes → ℕ → PendingRequestFrame × Option Framed
  unfolding consume_in
  consume p chunk offset = consume_in p.state p chunk offset

pub data ReplyBytes : Type 0 where
  completed_tracked_reply forward_untracked : Bytes → ReplyBytes

-- `BackendReplyTracker.pending`
abbrev pub Pending : Type 0
Pending = List PendingRequestFrame

-- `BackendReplyTracker::push_request`
pub track_request : Pending → RequestKind → Pending
track_request pending kind =
    pending
    ++ (record { kind = kind; state = FrameState.awaiting_status_line; status_line = [] } ∷ [])

module _ (m : Memchr) where
  -- The loop of `accept_backend_bytes`; each completed reply moves the offset on, so the length of
  -- the chunk is fuel enough.
  pub accept_from : ℕ → Pending → Bytes → ℕ → Pending × List ReplyBytes
  unfolding consume
  accept_from zero pending chunk offset = (pending, [])
  accept_from (suc fuel) [] chunk offset =
      if ltb offset (length chunk)
      then ([], ReplyBytes.forward_untracked (drop offset chunk) ∷ [])
      else ([], [])
  accept_from (suc fuel) (front ∷ rest) chunk offset =
      let (next, framed) = consume m front chunk offset in
      if not (ltb offset (length chunk)) then (front ∷ rest, []) else elim framed [
        | none ↦ (next ∷ rest, ReplyBytes.forward_untracked (drop offset chunk) ∷ [])
        | some f ↦
            let (pending, output) = accept_from fuel rest chunk f.end in
            (
              pending,
              ReplyBytes.completed_tracked_reply (take (f.end - f.start) (drop f.start chunk))
                  ∷ output,
            )
      ]

  pub accept_backend_bytes : Pending → Bytes → Pending × List ReplyBytes
  unfolding accept_from
  accept_backend_bytes pending chunk = accept_from (suc (length chunk)) pending chunk 0

pub data OrderedResponse : Type 0 where
  backend : OrderedResponse
  local : Bytes → OrderedResponse

pub record BackendResponseOrder : Type 0 where
  pub inner : Pending
  pub ordered : List OrderedResponse

pub push_request : BackendResponseOrder → RequestKind → BackendResponseOrder
unfolding track_request
push_request s kind = record {
  inner = track_request s.inner kind;
  ordered = s.ordered ++ (OrderedResponse.backend ∷ []);
}

pub push_deferred_reply : BackendResponseOrder → Bytes → BackendResponseOrder
push_deferred_reply s reply = record {
  inner = s.inner;
  ordered = s.ordered ++ (OrderedResponse.local reply ∷ []);
}

abbrev pub is_backend : OrderedResponse → Bool
is_backend OrderedResponse.backend = true
is_backend (OrderedResponse.local r) = false

abbrev pub is_local : OrderedResponse → Bool
is_local OrderedResponse.backend = false
is_local (OrderedResponse.local r) = true

pub has_pending_backend_replies : BackendResponseOrder → Bool
has_pending_backend_replies s = any is_backend s.ordered

pub has_deferred_replies : BackendResponseOrder → Bool
has_deferred_replies s = any is_local s.ordered

abbrev pub front_is_backend : List OrderedResponse → Bool
front_is_backend [] = false
front_is_backend (r ∷ rs) = is_backend r

pub should_drain_backend_replies : BackendResponseOrder → Bool
should_drain_backend_replies s = front_is_backend s.ordered && any is_local (drop 1 s.ordered)

pub take_ready_deferred_replies : List OrderedResponse → List OrderedResponse × List Bytes
take_ready_deferred_replies [] = ([], [])
take_ready_deferred_replies (OrderedResponse.backend ∷ rest) = (OrderedResponse.backend ∷ rest, [])
take_ready_deferred_replies (OrderedResponse.local reply ∷ rest) =
    let (ordered, replies) = take_ready_deferred_replies rest in (ordered, reply ∷ replies)

-- `if matches!(self.ordered.front(), Some(Backend)) { pop_front }`
abbrev pub pop_backend : List OrderedResponse → List OrderedResponse
pop_backend (OrderedResponse.backend ∷ rest) = rest
pop_backend ordered = ordered

-- The loop of `client_writes_for_backend_read` over the tracker's output.
pub deliver : List OrderedResponse → List ReplyBytes → List OrderedResponse × List Bytes
unfolding take_ready_deferred_replies
deliver ordered [] = (ordered, [])
deliver ordered (ReplyBytes.completed_tracked_reply bytes ∷ output) =
    let (ready, replies) = take_ready_deferred_replies (pop_backend ordered) in
    let (after, writes) = deliver ready output in (after, bytes ∷ (replies ++ writes))
deliver ordered (ReplyBytes.forward_untracked bytes ∷ output) =
    let (after, writes) = deliver ordered output in (after, bytes ∷ writes)

pub client_writes_for_backend_read :
    Memchr → BackendResponseOrder → Bytes → BackendResponseOrder × List Bytes
unfolding take_ready_deferred_replies accept_backend_bytes deliver
client_writes_for_backend_read m s backend_read =
    let (ready, replies) = take_ready_deferred_replies s.ordered in
    let (pending, output) = accept_backend_bytes m s.inner backend_read in
    let (after, writes) = deliver ready output in
    (record { inner = pending; ordered = after }, replies ++ writes)
