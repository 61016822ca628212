-- ===== src/Protocol/Context/Article.antt =====
-- src/protocol/request.rs and src/command/handler.rs: a request that is routed by message id has one.
use nntp_proxy.Base.{ℕ, ◌≡◌, sym, subst, inl, inr, true, some, arith, Option-cases, Bytes}
use nntp_proxy.Memchr.{Memchr}
use nntp_proxy.Protocol.Kind.{RequestRouteClass}
use nntp_proxy.Protocol.Kind.Bodies.{AddressesArticle, article_class}
use nntp_proxy.Protocol.MessageId.{MessageId, IsMessageId}
use nntp_proxy.Protocol.MessageId.Valid.{from_borrowed-valid}
use nntp_proxy.Protocol.Request.{RequestContext, parse, slice, from_verb_args, find_message_id}
use nntp_proxy.Protocol.Request.Span.{
  IsSpan, find_message_id_sound, slice-append, is_utf8-IsMessageId,
}
use nntp_proxy.Protocol.Request.RoundTrip.{parse-from_verb_args}
use nntp_proxy.Protocol.Context.{message_id_value, class_of, is_some}

slice-IsSpan : (args : Bytes) {s e : ℕ} (p : IsSpan args s e) → slice args s e ≡ p.id
slice-IsSpan args p = rw (← p.ends, ← p.starts, p.splits) (slice-append p.before p.id p.after)

message_id_value_of_span :
    (verb args : Bytes)
    → is_some (from_verb_args verb args).message_id ≡ true
    → (id : MessageId) × (message_id_value (from_verb_args verb args) ≡ some id)
      × IsMessageId id.text
unfolding from_verb_args message_id_value
message_id_value_of_span verb args h = elim (Option-cases (find_message_id args)) [
  | inl e ↦ ground arith
  | inr ((s, e), f) ↦
      let p = find_message_id_sound args f in
      (
        record { text = p.id },
        ground (
          arith,
          slice-IsSpan args p,
          is_utf8-IsMessageId p.valid,
          from_borrowed-valid p.id p.valid,
        ),
        p.valid,
      )
]

module _ (m : Memchr) where
  -- A parsed request that is routed by message id is an ARTICLE, BODY, HEAD or STAT, and its
  -- message id can be read back as a valid one.
  pub parse_article :
      (line : Bytes) {c : RequestContext}
      → parse m line ≡ some c
      → class_of c ≡ RequestRouteClass.article_by_message_id
      → AddressesArticle c.kind
        × ((id : MessageId) × (message_id_value c ≡ some id) × IsMessageId id.text)
  unfolding class_of
  parse_article line {c} h e =
      let (k, s) = article_class c.kind (is_some c.message_id) e in
      let made = parse-from_verb_args m line h in
      (
        k,
        subst (λ x. (id : MessageId) × (message_id_value x ≡ some id) × IsMessageId id.text)
            (sym made)
            (message_id_value_of_span c.verb c.args
              (subst (λ (x : RequestContext). is_some x.message_id ≡ true) made s)),
      )
