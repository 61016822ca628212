-- ===== src/Tests/Protocol.antt =====
-- src/protocol/request.rs, src/protocol/response.rs and src/types/protocol.rs at concrete inputs.
use nntp_proxy.Base.{
  ℕ, ◌≡◌, ◌↔◌, ◌≤◌, ◌≢◌, refl, List, [], ◌∷◌, some, arith, Bytes, codes, ok, is_utf8, position,
  rposition,
}
use nntp_proxy.Memchr.{plain}
use nntp_proxy.Protocol.Status
use nntp_proxy.Protocol.MessageId.{MessageId, IsMessageId, IsPrintable, validate, from_borrowed}
use nntp_proxy.Protocol.MessageId.Valid.{validate_iff}
use nntp_proxy.Protocol.Kind.{RequestKind, RequestRouteClass, classify_verb, route_class}
use nntp_proxy.Protocol.Kind.Verbs.{upper, keyword, classify_verb_iff}
use nntp_proxy.Protocol.Kind.Bodies.{AddressesArticle}
use nntp_proxy.Protocol.Metadata.{CacheStatus}
use nntp_proxy.Protocol.Request
use nntp_proxy.Protocol.Request.{
  RequestContext, is_not_space, ends_in_eol, trim_line_end, find_message_id, from_verb_args, wire,
  request_wire_len,
}
use nntp_proxy.Protocol.Request.Span.{IsSpan, find_message_id_iff}
use nntp_proxy.Protocol.Request.RoundTrip.{IsRequest, parse-wire, parse-wire-parse}
use nntp_proxy.Protocol.Context.{message_id_value, class_of}
use nntp_proxy.Protocol.Context.Article.{parse_article}
use nntp_proxy.Protocol.Context.Recording.{Recording}

abbrev id : Bytes
id = codes "<a@b>"

printable_lem : (c : ℕ) → 0x21 ≤ c → c ≤ 0x7E → c ≢ b'>' → IsPrintable c
printable_lem c a b n = record { above = a; below = b; open_ended = n }

id_valid : IsMessageId id
id_valid = record {
  body = codes "a@b";
  encloses = refl;
  printable = (
    printable_lem b'a' (omega arith) (omega arith) (λ e. omega (arith, e)),
    (
      printable_lem b'@' (omega arith) (omega arith) (λ e. omega (arith, e)),
      (printable_lem b'b' (omega arith) (omega arith) (λ e. omega (arith, e)), tt),
    ),
  );
  nonempty = omega arith;
  short = omega arith;
}

abbrev article : RequestContext
article = from_verb_args (codes "article") id

article_IsRequest : IsRequest (codes "article") id
article_IsRequest = record { nonempty = refl; solid = refl; clean = unfold ends_in_eol in refl }

article_fits : request_wire_len article ≤ 512
article_fits = unfold request_wire_len in (unfold from_verb_args in omega arith)

parse-wire_example : Request.parse plain (wire article) ≡ some article
parse-wire_example = parse-wire plain (codes "article") id article_IsRequest article_fits

article_line_parsed : Request.parse plain (codes "article <a@b>\r\n") ≡ some article
unfolding Request.parse trim_line_end position from_verb_args ends_in_eol
article_line_parsed = refl

parse-wire-parse_example : Request.parse plain (wire article) ≡ some article
parse-wire-parse_example =
    parse-wire-parse plain (codes "article <a@b>\r\n") article_line_parsed
      (unfold from_verb_args in (unfold ends_in_eol in refl)) article_fits

article_class : class_of article ≡ RequestRouteClass.article_by_message_id
unfolding class_of route_class from_verb_args find_message_id classify_verb position rposition
    from_borrowed validate is_utf8
article_class = refl

parse_article_example :
    AddressesArticle article.kind
    × ((i : MessageId) × (message_id_value article ≡ some i) × IsMessageId i.text)
parse_article_example =
    parse_article plain (codes "article <a@b>\r\n") article_line_parsed article_class

found_id : find_message_id (codes " <a@b>\t") ≡ some (1, 6)
unfolding find_message_id position rposition from_borrowed validate is_utf8
found_id = refl

find_message_id_iff_example :
    find_message_id (codes " <a@b>\t") ≡ some (1, 6) ↔ IsSpan (codes " <a@b>\t") 1 6
find_message_id_iff_example = find_message_id_iff (codes " <a@b>\t") 1 6

classify_verb_iff_example :
    (classify_verb (codes "bOdY") ≡ RequestKind.body)
    ↔ (upper (codes "bOdY") ≡ keyword RequestKind.body)
classify_verb_iff_example = classify_verb_iff (codes "bOdY") RequestKind.body (λ e. cc)

validate_iff_example : (validate id ≡ ok tt) ↔ IsMessageId id
validate_iff_example = validate_iff id

status_430 : Status.parse (codes "430") ≡ some (record { value = 430 })
unfolding Status.parse
status_430 = refl

abbrev recordings : List Recording
recordings =
    Recording.status CacheStatus.miss
    ∷ Recording.from_backend (record { index = 2 })
        (record { status = record { value = 220 }; wire_len = 900 })
    ∷ []
