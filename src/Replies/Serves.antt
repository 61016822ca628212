-- ===== src/Replies/Serves.antt =====
-- src/session/multiline_framing.rs: what a service of the queue of replies is.
use nntp_proxy.Base.{ℕ, suc, ◌+◌, ◌≡◌, List, [], ◌∷◌, ◌++◌, arith, Bytes}
use nntp_proxy.Replies.{OrderedResponse}

-- What one write to the client is.
pub data ClientWrite : Type 0 where
  -- The end of a backend's reply, or all of it.
  reply : Bytes → ClientWrite
  -- A part of a reply that goes on with the next read.
  part : Bytes → ClientWrite
  local_reply : Bytes → ClientWrite

abbrev pub text : ClientWrite → Bytes
text (ClientWrite.reply bs) = bs
text (ClientWrite.part bs) = bs
text (ClientWrite.local_reply bs) = bs

abbrev pub backend_text : List ClientWrite → Bytes
backend_text [] = []
backend_text (ClientWrite.reply bs ∷ ws) = bs ++ backend_text ws
backend_text (ClientWrite.part bs ∷ ws) = bs ++ backend_text ws
backend_text (ClientWrite.local_reply bs ∷ ws) = backend_text ws

-- The writes serve the queue from its front: a backend's entry goes with the end of its reply, and
-- a local reply is written when it has come to the front.
pub data Serves : List OrderedResponse → List ClientWrite → List OrderedResponse → Type 0 where
  rest : (q : List OrderedResponse) → Serves q [] q
  answered :
      (bs : Bytes) {q after : List OrderedResponse} {ws : List ClientWrite}
      → Serves q ws after
      → Serves (OrderedResponse.backend ∷ q) (ClientWrite.reply bs ∷ ws) after
  began :
      (bs : Bytes) {q after : List OrderedResponse} {ws : List ClientWrite}
      → Serves q ws after
      → Serves q (ClientWrite.part bs ∷ ws) after
  deferred :
      (bs : Bytes) {q after : List OrderedResponse} {ws : List ClientWrite}
      → Serves q ws after
      → Serves (OrderedResponse.local bs ∷ q) (ClientWrite.local_reply bs ∷ ws) after

pub Serves-append :
    {q mid after : List OrderedResponse} {ws vs : List ClientWrite}
    → Serves q ws mid
    → Serves mid vs after
    → Serves q (ws ++ vs) after
Serves-append (rest q) t = t
Serves-append (answered bs s) t = answered bs (Serves-append s t)
Serves-append (began bs s) t = began bs (Serves-append s t)
Serves-append (deferred bs s) t = deferred bs (Serves-append s t)

abbrev pub backends : List OrderedResponse → ℕ
backends [] = 0
backends (OrderedResponse.backend ∷ q) = suc (backends q)
backends (OrderedResponse.local r ∷ q) = backends q

pub backends-append : (p q : List OrderedResponse) → backends (p ++ q) ≡ backends p + backends q
backends-append [] q = omega arith
backends-append (OrderedResponse.backend ∷ p) q = omega (arith, backends-append p q)
backends-append (OrderedResponse.local r ∷ p) q = backends-append p q
