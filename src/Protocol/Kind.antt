-- ===== src/Protocol/Kind.antt =====
-- src/protocol/request.rs: command verbs, their routing classes, and which responses have a body.
pub mod Verbs
pub mod Bodies
use nntp_proxy.Base.{
  ℕ, ◌-◌, Bool, true, false, not, ◌&&◌, ◌||◌, List, [], ◌∷◌, ◌==◌, if◌then◌else◌, Bytes, codes,
  within, length, map,
}
use nntp_proxy.Protocol.Status.{StatusCode, is_error}

pub data RequestKind : Type 0 where
  article body head stat group list_group last next list date help capabilities mode quit :
      RequestKind
  over xover hdr xhdr new_groups new_news post ihave check take_this auth_info : RequestKind
  start_tls compress unknown : RequestKind

pub data RequestRouteClass : Type 0 where
  article_by_message_id stateless stateful local reject : RequestRouteClass

unfoldable pub ascii_upper : ℕ → ℕ
ascii_upper byte = if within b'a' b'z' byte then byte - 32 else byte

-- The loop over the two slices; the lengths were compared before it.
eq_ignore_case_from : Bytes → Bytes → Bool
unfolding ascii_upper
eq_ignore_case_from [] right = true
eq_ignore_case_from (l ∷ left) [] = true
eq_ignore_case_from (l ∷ left) (r ∷ right) =
    if not (ascii_upper l == ascii_upper r) then false else eq_ignore_case_from left right

unfoldable pub eq_ignore_ascii_case_const : Bytes → Bytes → Bool
unfolding eq_ignore_case_from
eq_ignore_ascii_case_const left right =
    if not (length left == length right) then false else eq_ignore_case_from left right

-- The tests of one arm of `classify_verbs!`, in order.
classify_in : Bytes → List (Bytes × RequestKind) → RequestKind
unfolding eq_ignore_ascii_case_const
classify_in verb [] = RequestKind.unknown
classify_in verb ((lit, kind) ∷ rest) =
    if eq_ignore_ascii_case_const verb lit then kind else classify_in verb rest

abbrev verbs_3 : List (Bytes × RequestKind)
verbs_3 = (codes "HDR", RequestKind.hdr) ∷ []

abbrev verbs_4 : List (Bytes × RequestKind)
verbs_4 =
    (codes "BODY", RequestKind.body)
    ∷ (codes "DATE", RequestKind.date)
    ∷ (codes "HEAD", RequestKind.head)
    ∷ (codes "HELP", RequestKind.help)
    ∷ (codes "LAST", RequestKind.last)
    ∷ (codes "LIST", RequestKind.list)
    ∷ (codes "MODE", RequestKind.mode)
    ∷ (codes "NEXT", RequestKind.next)
    ∷ (codes "OVER", RequestKind.over)
    ∷ (codes "POST", RequestKind.post)
    ∷ (codes "QUIT", RequestKind.quit)
    ∷ (codes "STAT", RequestKind.stat)
    ∷ (codes "XHDR", RequestKind.xhdr)
    ∷ []

abbrev verbs_5 : List (Bytes × RequestKind)
verbs_5 =
    (codes "CHECK", RequestKind.check)
    ∷ (codes "GROUP", RequestKind.group)
    ∷ (codes "IHAVE", RequestKind.ihave)
    ∷ (codes "XOVER", RequestKind.xover)
    ∷ []

abbrev verbs_7 : List (Bytes × RequestKind)
verbs_7 = (codes "ARTICLE", RequestKind.article) ∷ (codes "NEWNEWS", RequestKind.new_news) ∷ []

abbrev verbs_8 : List (Bytes × RequestKind)
verbs_8 =
    (codes "AUTHINFO", RequestKind.auth_info)
    ∷ (codes "COMPRESS", RequestKind.compress)
    ∷ (codes "STARTTLS", RequestKind.start_tls)
    ∷ (codes "TAKETHIS", RequestKind.take_this)
    ∷ []

abbrev verbs_9 : List (Bytes × RequestKind)
verbs_9 =
    (codes "LISTGROUP", RequestKind.list_group) ∷ (codes "NEWGROUPS", RequestKind.new_groups) ∷ []

abbrev verbs_12 : List (Bytes × RequestKind)
verbs_12 = (codes "CAPABILITIES", RequestKind.capabilities) ∷ []

-- The arm of `classify_verbs!` for a length.
abbrev verbs_of_length : ℕ → List (Bytes × RequestKind)
verbs_of_length n =
    if n == 3
    then verbs_3
    else if n == 4
    then verbs_4
    else if n == 5
    then verbs_5
    else if n == 7
    then verbs_7
    else if n == 8
    then verbs_8
    else if n == 9
    then verbs_9
    else if n == 12
    then verbs_12
    else []

unfoldable pub classify_verb : Bytes → RequestKind
unfolding classify_in
classify_verb verb = classify_in verb (verbs_of_length (length verb))

-- The flag is `has_message_id`.
unfoldable pub route_class : RequestKind → Bool → RequestRouteClass
route_class RequestKind.capabilities _ = RequestRouteClass.local
route_class RequestKind.quit _ = RequestRouteClass.local
route_class RequestKind.auth_info _ = RequestRouteClass.local
route_class RequestKind.post _ = RequestRouteClass.reject
route_class RequestKind.ihave _ = RequestRouteClass.reject
route_class RequestKind.check _ = RequestRouteClass.reject
route_class RequestKind.take_this _ = RequestRouteClass.reject
route_class RequestKind.start_tls _ = RequestRouteClass.reject
route_class RequestKind.compress _ = RequestRouteClass.reject
route_class RequestKind.article true = RequestRouteClass.article_by_message_id
route_class RequestKind.body true = RequestRouteClass.article_by_message_id
route_class RequestKind.head true = RequestRouteClass.article_by_message_id
route_class RequestKind.stat true = RequestRouteClass.article_by_message_id
route_class RequestKind.list _ = RequestRouteClass.stateless
route_class RequestKind.date _ = RequestRouteClass.stateless
route_class RequestKind.help _ = RequestRouteClass.stateless
route_class RequestKind.mode _ = RequestRouteClass.stateless
route_class RequestKind.new_groups _ = RequestRouteClass.stateless
route_class RequestKind.new_news _ = RequestRouteClass.stateless
route_class _ _ = RequestRouteClass.stateful

abbrev pub status_implies_response_body : ℕ → Bool
status_implies_response_body code =
    code == 100
    || code == 101
    || code == 215
    || code == 220
    || code == 221
    || code == 222
    || code == 224
    || code == 225
    || code == 230
    || code == 231
    || code == 282
    || code == 288

-- The pairs of `matches!`, with the clause for unknown verbs.
abbrev kind_has_body : RequestKind → ℕ → Bool
kind_has_body RequestKind.article code = code == 220
kind_has_body RequestKind.head code = code == 221
kind_has_body RequestKind.body code = code == 222
kind_has_body RequestKind.list_group code = code == 211
kind_has_body RequestKind.help code = code == 100
kind_has_body RequestKind.capabilities code = code == 101
kind_has_body RequestKind.list code = code == 215
kind_has_body RequestKind.over code = code == 224
kind_has_body RequestKind.xover code = code == 224
kind_has_body RequestKind.hdr code = code == 225
kind_has_body RequestKind.xhdr code = code == 221 || code == 225
kind_has_body RequestKind.new_news code = code == 230
kind_has_body RequestKind.new_groups code = code == 231
kind_has_body RequestKind.unknown code = status_implies_response_body code
kind_has_body _ code = false

unfoldable pub request_kind_has_response_body : RequestKind → StatusCode → Bool
unfolding is_error
request_kind_has_response_body kind status =
    if is_error status then false else kind_has_body kind status.value
