-- ===== src/Protocol/Kind/Bodies.antt =====
-- src/protocol/request.rs: which responses carry a body, and which requests name an article.
use nntp_proxy.Base.{◌≡◌, ◌⊎◌, Bool, true, false, arith}
use nntp_proxy.Protocol.Status.{StatusCode, is_error}
use nntp_proxy.Protocol.Kind.{
  RequestKind, RequestRouteClass, request_kind_has_response_body, route_class,
  status_implies_response_body,
}

-- A response that carries a body is no error. Its code alone announces the body, but for the 211
-- of LISTGROUP, which GROUP answers with no body.
pub has_body_sound :
    (kind : RequestKind) (status : StatusCode)
    → request_kind_has_response_body kind status ≡ true
    → (is_error status ≡ false)
      × ((status_implies_response_body status.value ≡ true)
          ⊎ ((kind ≡ RequestKind.list_group) × (status.value ≡ 211)))
unfolding request_kind_has_response_body
has_body_sound RequestKind.list_group status h = ground arith
has_body_sound _ status h = ground arith

-- The requests that are looked up by message id: ARTICLE, BODY, HEAD and STAT, with a message id.
pub data AddressesArticle : RequestKind → Type 0 where
  article : AddressesArticle RequestKind.article
  body : AddressesArticle RequestKind.body
  head : AddressesArticle RequestKind.head
  stat : AddressesArticle RequestKind.stat

pub article_class :
    (kind : RequestKind) (m : Bool)
    → route_class kind m ≡ RequestRouteClass.article_by_message_id
    → AddressesArticle kind × (m ≡ true)
unfolding route_class
article_class RequestKind.article true h = (article, ground arith)
article_class RequestKind.body true h = (body, ground arith)
article_class RequestKind.head true h = (head, ground arith)
article_class RequestKind.stat true h = (stat, ground arith)
article_class _ _ h = cc

article_class_of :
    {kind : RequestKind}
    → AddressesArticle kind
    → route_class kind true ≡ RequestRouteClass.article_by_message_id
unfolding route_class
article_class_of article = ground arith
article_class_of _ = ground arith
