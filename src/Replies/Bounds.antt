-- ===== src/Replies/Bounds.antt =====
-- src/session/multiline_framing.rs: a framed reply is a stretch of the chunk.
use nntp_proxy.Base.{
  ℕ, ◌+◌, ◌-◌, ◌≤◌, ◌<◌, ◌≡◌, refl, ap, sym, ◌∙◌, inl, inr, Option, none, some, arith, ◌==◌, Bytes,
  length, drop, length-drop, Option-cases, take, not, ltb, ◌++◌, if_intro, position_split,
  FirstAt-lt,
}
use nntp_proxy.Memchr.{Memchr}
use nntp_proxy.Framing.{default_framer, update, advance_to_next_terminator_end}
use nntp_proxy.Framing.Chunks.Bounds.{advance_to_next_terminator_end_bounds}
use nntp_proxy.Protocol.Status
use nntp_proxy.Protocol.Kind.{request_kind_has_response_body}
use nntp_proxy.Replies.{
  command_octets, PendingRequestFrame, FrameState, Framed, framed_from, consume, consume_in,
  consume_line, consume_body,
}

-- A range that begins at the offset and ends behind it, inside the chunk.
pub record InChunk (chunk : Bytes) (offset : ℕ) (f : Framed) : Type 0 where
  pub from_offset : f.start ≡ offset
  pub moves_on : offset < f.end
  pub in_chunk : f.end ≤ length chunk

abbrev pub AllIn : Bytes → ℕ → Option Framed → Type 0
AllIn chunk offset none = Unit
AllIn chunk offset (some f) = InChunk chunk offset f

framed_from-InChunk :
    (chunk : Bytes) (offset base : ℕ) (o : Option ℕ)
    → offset ≤ base
    → ((n : ℕ) → o ≡ some n → (0 < n) × (base + n ≤ length chunk))
    → AllIn chunk offset (framed_from offset base o)
unfolding framed_from
framed_from-InChunk chunk offset base none h k = tt
framed_from-InChunk chunk offset base (some n) h k =
    let (p, q) = k n refl in record { from_offset = refl; moves_on = omega arith; in_chunk = q }

module _ (m : Memchr) where
  consume_body-InChunk :
      (p : PendingRequestFrame) (chunk : Bytes) (offset end : ℕ)
      → offset < end
      → end ≤ length chunk
      → AllIn chunk offset (consume_body m p chunk offset end).1
  unfolding consume_body
  consume_body-InChunk p chunk offset end h k =
      let r =
        advance_to_next_terminator_end m (update default_framer p.status_line) (drop end chunk) in
      go _ _ r.1 (
        framed_from-InChunk chunk offset end r.1 (omega arith) (λ n e.
          let (a, b) =
            advance_to_next_terminator_end_bounds m (update default_framer p.status_line) r.0
              (drop end chunk) n (ap (λ o. (r.0, o)) e) in
          (a, omega (arith, b, length-drop end chunk, k))))
    where
      go :
          (a b : PendingRequestFrame) (o : Option ℕ)
          → AllIn chunk offset (framed_from offset end o)
          → AllIn chunk offset
              (elim o as (λ _. PendingRequestFrame × Option Framed) [
                | some n ↦ (a, framed_from offset end (some n))
                | none ↦ (b, none)
              ]).1
      go a b none g = tt
      go a b (some n) g = g

  consume_line-InChunk :
      (p : PendingRequestFrame) (chunk : Bytes) (offset pos : ℕ)
      → offset + pos + 1 ≤ length chunk
      → AllIn chunk offset (consume_line m p chunk offset pos).1
  unfolding consume_line
  consume_line-InChunk p chunk offset pos h =
      let end = offset + (pos + 1) in
      let whole : AllIn chunk offset (some (record { start = offset; end = end })) = record {
        from_offset = refl;
        moves_on = omega arith;
        in_chunk = omega (arith, h);
      } in
      let line = p.status_line ++ take (end - offset) (drop offset chunk) in
      let read : PendingRequestFrame = record {
        kind = p.kind;
        state = p.state;
        status_line = line;
      } in
      if_intro (λ (r : PendingRequestFrame × Option Framed). AllIn chunk offset r.1)
        (ltb command_octets (length p.status_line + end - offset)) whole
        (status (Status.parse line) _ _ whole (λ s.
          if_intro (λ (r : PendingRequestFrame × Option Framed). AllIn chunk offset r.1)
            (not (request_kind_has_response_body p.kind s)) whole
            (consume_body-InChunk read chunk offset end (omega arith) (omega (arith, h)))))
    where
      status :
          (o : Option Status.StatusCode) (a : PendingRequestFrame × Option Framed)
          (f : Status.StatusCode → PendingRequestFrame × Option Framed)
          → AllIn chunk offset a.1
          → ((s : Status.StatusCode) → AllIn chunk offset (f s).1)
          → AllIn chunk offset
              (elim o as (λ _. PendingRequestFrame × Option Framed) [ none ↦ a | some s ↦ f s ]).1
      status none a f x y = x
      status (some s) a f x y = y s

  memchr_lt : (b : ℕ) (bs : Bytes) {n : ℕ} → m.memchr b bs ≡ some n → n < length bs
  memchr_lt b bs {n} h =
      FirstAt-lt (λ x. x == b) (position_split (λ x. x == b) bs (sym (m.memchr_lem b bs) ∙ h))

  consume_in-InChunk :
      (s : FrameState) (p : PendingRequestFrame) (chunk : Bytes) (offset : ℕ)
      → offset ≤ length chunk
      → AllIn chunk offset (consume_in m s p chunk offset).1
  unfolding consume_in framed_from
  consume_in-InChunk FrameState.awaiting_status_line p chunk offset h =
      elim (Option-cases (m.memchr b'\n' (drop offset chunk))) [
        | inl e ↦ rw (AllIn, e) tt
        | inr (pos, e) ↦
            rw (AllIn, e)
              (consume_line-InChunk p chunk offset pos
                (omega (arith, memchr_lt b'\n' (drop offset chunk) e, length-drop offset chunk, h)))
      ]
  consume_in-InChunk FrameState.discarding_overlong_status_line p chunk offset h =
      elim (Option-cases (m.memchr b'\n' (drop offset chunk))) [
        | inl e ↦ rw (AllIn, e) tt
        | inr (pos, e) ↦
            let k = memchr_lt b'\n' (drop offset chunk) e in
            rw (AllIn, e)
              (record {
                from_offset = refl;
                moves_on = omega arith;
                in_chunk = omega (arith, k, length-drop offset chunk, h);
              })
      ]
  consume_in-InChunk (FrameState.reading_multiline framer) p chunk offset h =
      let r = advance_to_next_terminator_end m framer (drop offset chunk) in
      framed_from-InChunk chunk offset offset r.1 (omega arith) (λ n e.
        let (a, b) =
          advance_to_next_terminator_end_bounds m framer r.0 (drop offset chunk) n
            (ap (λ o. (r.0, o)) e) in
        (a, omega (arith, b, length-drop offset chunk, h)))

  -- For an offset in the chunk, a reply that is complete is a range of the chunk that begins at
  -- the offset and holds at least one byte.
  pub consume_bounds :
      (p : PendingRequestFrame) (chunk : Bytes) (offset : ℕ)
      → offset ≤ length chunk
      → AllIn chunk offset (consume m p chunk offset).1
  unfolding consume
  consume_bounds p chunk offset h = consume_in-InChunk p.state p chunk offset h
