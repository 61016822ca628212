-- ===== src/Replies/Tracker.antt =====
-- src/session/multiline_framing.rs: the tracker passes every byte of a read on, in order.
use nntp_proxy.Base.{
  ℕ, zero, suc, ◌+◌, ◌-◌, ◌≤◌, ◌<◌, ◌≡◌, ap, sym, ◌∙◌, not, List, [], ◌∷◌, ◌++◌, Option, none, some,
  arith, ltb, Bytes, length, take, drop, drop-drop, drop_of_le, take-append-drop, append-nil,
  if_split,
}
use nntp_proxy.Memchr.{Memchr}
use nntp_proxy.Replies.{
  PendingRequestFrame, Framed, ReplyBytes, Pending, consume, accept_from, accept_backend_bytes,
}
use nntp_proxy.Replies.Bounds.{InChunk, AllIn, consume_bounds}

abbrev pub payload : List ReplyBytes → Bytes
payload [] = []
payload (ReplyBytes.completed_tracked_reply bs ∷ rest) = bs ++ payload rest
payload (ReplyBytes.forward_untracked bs ∷ rest) = bs ++ payload rest

abbrev pub completed_replies : List ReplyBytes → ℕ
completed_replies [] = 0
completed_replies (ReplyBytes.completed_tracked_reply bs ∷ rest) = suc (completed_replies rest)
completed_replies (ReplyBytes.forward_untracked bs ∷ rest) = completed_replies rest

-- A range and the bytes behind it are the bytes from its start.
range-append :
    (chunk : Bytes) (start end : ℕ)
    → start ≤ end
    → take (end - start) (drop start chunk) ++ drop end chunk ≡ drop start chunk
range-append chunk start end h =
    let e : start + (end - start) ≡ end = omega arith in
    ap (λ k. take (end - start) (drop start chunk) ++ drop k chunk) (sym e)
    ∙ ap (λ bs. take (end - start) (drop start chunk) ++ bs)
        (sym (drop-drop start (end - start) chunk))
    ∙ take-append-drop (end - start) (drop start chunk)

-- What the tracker returns for the bytes from an offset.
pub record Passes (pending : Pending) (bs : Bytes) (r : Pending × List ReplyBytes) : Type 0 where
  pub all_bytes : payload r.1 ≡ bs
  pub one_each : completed_replies r.1 + length r.0 ≡ length pending

module _ (m : Memchr) where
  accept_from-Passes :
      (fuel : ℕ) (pending : Pending) (chunk : Bytes) (offset : ℕ)
      → offset ≤ length chunk
      → length chunk < fuel + offset
      → Passes pending (drop offset chunk) (accept_from m fuel pending chunk offset)
  unfolding accept_from
  accept_from-Passes zero pending chunk offset h k = absurd (omega arith)
  accept_from-Passes (suc fuel) [] chunk offset h k =
      if_split (Passes [] (drop offset chunk)) (ltb offset (length chunk))
        (λ _. record { all_bytes = append-nil (drop offset chunk); one_each = omega arith })
        (λ e. record {
          all_bytes = sym (drop_of_le offset chunk (ground arith));
          one_each = omega arith;
        })
  accept_from-Passes (suc fuel) (front ∷ rest) chunk offset h k =
      if_split (Passes (front ∷ rest) (drop offset chunk)) (not (ltb offset (length chunk)))
        (λ e. record {
          all_bytes = sym (drop_of_le offset chunk (ground arith));
          one_each = omega arith;
        })
        (λ e.
          go (consume m front chunk offset).0 (consume m front chunk offset).1
            (consume_bounds m front chunk offset h)
            (λ f g.
              accept_from-Passes fuel rest chunk f.end g.in_chunk (omega (arith, g.moves_on))))
    where
      go :
          (next : PendingRequestFrame) (o : Option Framed)
          → AllIn chunk offset o
          → ((f : Framed)
              → InChunk chunk offset f
              → Passes rest (drop f.end chunk) (accept_from m fuel rest chunk f.end))
          → Passes (front ∷ rest) (drop offset chunk) (elim o as (λ _. Pending × List ReplyBytes) [
            | none ↦ (next ∷ rest, ReplyBytes.forward_untracked (drop offset chunk) ∷ [])
            | some f ↦ (
              (accept_from m fuel rest chunk f.end).0,
              ReplyBytes.completed_tracked_reply (take (f.end - f.start) (drop f.start chunk))
                  ∷ (accept_from m fuel rest chunk f.end).1,
            )
          ])
      go next none g later = record {
        all_bytes = append-nil (drop offset chunk);
        one_each = omega arith;
      }
      go next (some f) g later =
          let behind = later f g in
          record {
            all_bytes =
                ap (λ bs. take (f.end - f.start) (drop f.start chunk) ++ bs) behind.all_bytes
                ∙ range-append chunk f.start f.end (omega (arith, g.from_offset, g.moves_on))
                ∙ ap (λ k. drop k chunk) g.from_offset;
            one_each = omega (arith, behind.one_each);
          }

  -- Every byte of a read is passed on once and in order, and as many requests stop pending as
  -- replies are completed.
  pub accept_backend_bytes-Passes :
      (pending : Pending) (chunk : Bytes)
      → Passes pending chunk (accept_backend_bytes m pending chunk)
  unfolding accept_backend_bytes
  accept_backend_bytes-Passes pending chunk =
      accept_from-Passes (suc (length chunk)) pending chunk 0 (omega arith) (omega arith)
