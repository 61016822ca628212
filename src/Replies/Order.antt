-- ===== src/Replies/Order.antt =====
-- src/session/multiline_framing.rs: what the client reads is in the order of the requests.
use nntp_proxy.Base.{
  ℕ, ◌+◌, ◌≤◌, ◌≡◌, refl, ap, ◌∙◌, Bool, true, ◌&&◌, List, [], ◌∷◌, ◌++◌, arith, Bytes, length, any,
  length-append, drop, map,
}
use mathlib.Core.List.{map-append}
use nntp_proxy.Memchr.{Memchr}
use nntp_proxy.Protocol.Kind.{RequestKind}
use nntp_proxy.Replies.{
  ReplyBytes, OrderedResponse, BackendResponseOrder, is_backend, is_local, front_is_backend,
  take_ready_deferred_replies, deliver, client_writes_for_backend_read, accept_backend_bytes,
  push_request, push_deferred_reply, track_request, has_deferred_replies,
  should_drain_backend_replies,
}
use nntp_proxy.Replies.Serves.{
  ClientWrite, text, backend_text, Serves, Serves-append, backends, backends-append,
}
use nntp_proxy.Replies.Tracker.{payload, completed_replies, accept_backend_bytes-Passes}

-- The queue holds one entry for each pending request.
pub record IsOrder (s : BackendResponseOrder) : Type 0 where
  pub one_each : backends s.ordered ≡ length s.inner

abbrev local_writes : List Bytes → List ClientWrite
local_writes rs = map ClientWrite.local_reply rs

abbrev pub no_local_front : List OrderedResponse → Bool
no_local_front [] = true
no_local_front (r ∷ q) = is_backend r

-- What `take_ready_deferred_replies` does to the queue.
record Ready (q : List OrderedResponse) : Type 0 where
  serves :
      Serves q (local_writes (take_ready_deferred_replies q).1) (take_ready_deferred_replies q).0
  backends_kept : backends (take_ready_deferred_replies q).0 ≡ backends q
  cleared : no_local_front (take_ready_deferred_replies q).0 ≡ true

ready : (q : List OrderedResponse) → Ready q
unfolding take_ready_deferred_replies
ready [] = record { serves = Serves.rest []; backends_kept = refl; cleared = refl }
ready (OrderedResponse.backend ∷ q) = record {
  serves = Serves.rest (OrderedResponse.backend ∷ q);
  backends_kept = refl;
  cleared = refl;
}
ready (OrderedResponse.local r ∷ q) =
    let k = ready q in
    record {
      serves = Serves.deferred r k.serves;
      backends_kept = k.backends_kept;
      cleared = k.cleared;
    }

map_text-local_writes : (rs : List Bytes) → map text (local_writes rs) ≡ rs
map_text-local_writes [] = refl
map_text-local_writes (r ∷ rs) = ap (◌∷◌ r) (map_text-local_writes rs)

backend_text-local_writes :
    (rs : List Bytes) (ws : List ClientWrite)
    → backend_text (local_writes rs ++ ws) ≡ backend_text ws
backend_text-local_writes [] ws = refl
backend_text-local_writes (r ∷ rs) ws = backend_text-local_writes rs ws

-- The writes for a queue and the tracker's output, with what each of them is.
pub record Delivered (q : List OrderedResponse) (bytes : Bytes) (answered : ℕ)
    (r : List OrderedResponse × List Bytes) : Type 0 where
  pub writes : List ClientWrite
  pub texts : map text writes ≡ r.1
  pub serves : Serves q writes r.0
  pub backend_bytes : backend_text writes ≡ bytes
  pub one_each : backends r.0 + answered ≡ backends q
  pub cleared : no_local_front r.0 ≡ true

-- Local replies that are ready go before the rest.
deliver_ready :
    (q : List OrderedResponse) {bytes : Bytes} {answered : ℕ}
    (r : List OrderedResponse × List Bytes)
    → Delivered (take_ready_deferred_replies q).0 bytes answered r
    → Delivered q bytes answered (r.0, (take_ready_deferred_replies q).1 ++ r.1)
deliver_ready q r d =
    let k = ready q in
    let locals = local_writes (take_ready_deferred_replies q).1 in
    record {
      writes = locals ++ d.writes;
      texts =
          map-append text locals d.writes
          ∙ ap (λ ts. ts ++ map text d.writes)
              (map_text-local_writes (take_ready_deferred_replies q).1)
          ∙ ap (λ ts. (take_ready_deferred_replies q).1 ++ ts) d.texts;
      serves = Serves-append k.serves d.serves;
      backend_bytes =
          backend_text-local_writes (take_ready_deferred_replies q).1 d.writes ∙ d.backend_bytes;
      one_each = d.one_each ∙ k.backends_kept;
      cleared = d.cleared;
    }

deliver-Delivered :
    (q : List OrderedResponse) (output : List ReplyBytes)
    → no_local_front q ≡ true
    → completed_replies output ≤ backends q
    → Delivered q (payload output) (completed_replies output) (deliver q output)
unfolding deliver
deliver-Delivered q [] h k = record {
  writes = [];
  texts = refl;
  serves = Serves.rest q;
  backend_bytes = refl;
  one_each = omega arith;
  cleared = h;
}
deliver-Delivered q (ReplyBytes.forward_untracked bs ∷ output) h k =
    let d = deliver-Delivered q output h k in
    record {
      writes = ClientWrite.part bs ∷ d.writes;
      texts = ap (◌∷◌ bs) d.texts;
      serves = Serves.began bs d.serves;
      backend_bytes = ap (λ rest. bs ++ rest) d.backend_bytes;
      one_each = d.one_each;
      cleared = d.cleared;
    }
deliver-Delivered [] (ReplyBytes.completed_tracked_reply bs ∷ output) h k = absurd (omega arith)
deliver-Delivered (OrderedResponse.local r ∷ q) (ReplyBytes.completed_tracked_reply bs ∷ output) h
      k =
    cc
deliver-Delivered (OrderedResponse.backend ∷ q) (ReplyBytes.completed_tracked_reply bs ∷ output) h
      k =
    let next = ready q in
    let d = deliver_ready q (deliver (take_ready_deferred_replies q).0 output) (
      deliver-Delivered (take_ready_deferred_replies q).0 output next.cleared
        (omega (arith, k, next.backends_kept))) in
    record {
      writes = ClientWrite.reply bs ∷ d.writes;
      texts = ap (◌∷◌ bs) d.texts;
      serves = Serves.answered bs d.serves;
      backend_bytes = ap (λ rest. bs ++ rest) d.backend_bytes;
      one_each = omega (arith, d.one_each);
      cleared = d.cleared;
    }

pub push_request-IsOrder :
    (s : BackendResponseOrder) (kind : RequestKind) → IsOrder s → IsOrder (push_request s kind)
unfolding push_request track_request
push_request-IsOrder s kind h = record {
  one_each = omega (
    arith,
    backends-append s.ordered (OrderedResponse.backend ∷ []),
    length-append s.inner (_ ∷ []),
    h.one_each,
  );
}

pub push_deferred_reply-IsOrder :
    (s : BackendResponseOrder) (r : Bytes) → IsOrder s → IsOrder (push_deferred_reply s r)
unfolding push_deferred_reply
push_deferred_reply-IsOrder s r h = record {
  one_each = omega (arith, backends-append s.ordered (OrderedResponse.local r ∷ []), h.one_each);
}

-- When the queue has one entry for each pending request, a read of the backend is written to the
-- client as a service of the queue: all bytes of the read once and in order, a backend's entry
-- taken with the end of its reply, and a local reply only when it has come to the front; and the
-- queue still has one entry for each pending request.
pub client_writes-Serves :
    (m : Memchr) (s : BackendResponseOrder) (read : Bytes)
    → IsOrder s
    → (ws : List ClientWrite) × (map text ws ≡ (client_writes_for_backend_read m s read).1)
      × Serves s.ordered ws (client_writes_for_backend_read m s read).0.ordered
      × (backend_text ws ≡ read)
      × IsOrder (client_writes_for_backend_read m s read).0
unfolding client_writes_for_backend_read
client_writes-Serves m s read h =
    let p = accept_backend_bytes-Passes m s.inner read in
    let r = accept_backend_bytes m s.inner read in
    let k = ready s.ordered in
    let d = deliver_ready s.ordered (deliver (take_ready_deferred_replies s.ordered).0 r.1) (
      deliver-Delivered (take_ready_deferred_replies s.ordered).0 r.1 k.cleared
        (omega (arith, p.one_each, k.backends_kept, h.one_each))) in
    (
      d.writes,
      d.texts,
      d.serves,
      d.backend_bytes ∙ p.all_bytes,
      record { one_each = omega (arith, d.one_each, p.one_each, h.one_each) },
    )

-- When the queue has one entry for each pending request, a local reply that still waits after a
-- read waits behind a backend's reply: there are deferred replies exactly if the session should
-- drain the backend.
pub client_writes-should_drain :
    (m : Memchr) (s : BackendResponseOrder) (read : Bytes)
    → IsOrder s
    → has_deferred_replies (client_writes_for_backend_read m s read).0
      ≡ should_drain_backend_replies (client_writes_for_backend_read m s read).0
unfolding client_writes_for_backend_read has_deferred_replies should_drain_backend_replies
client_writes-should_drain m s read h =
    let p = accept_backend_bytes-Passes m s.inner read in
    let r = accept_backend_bytes m s.inner read in
    let k = ready s.ordered in
    let d =
      deliver-Delivered (take_ready_deferred_replies s.ordered).0 r.1 k.cleared
        (omega (arith, p.one_each, k.backends_kept, h.one_each)) in
    go (deliver (take_ready_deferred_replies s.ordered).0 r.1).0 d.cleared
  where
    go :
        (q : List OrderedResponse)
        → no_local_front q ≡ true
        → any is_local q ≡ (front_is_backend q && any is_local (drop 1 q))
    go [] e = refl
    go (OrderedResponse.backend ∷ q) e = refl
    go (OrderedResponse.local b ∷ q) e = cc
