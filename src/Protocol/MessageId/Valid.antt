-- ===== src/Protocol/MessageId/Valid.antt =====
-- src/types/protocol.rs: `validate` decides the description of a message id.
use nntp_proxy.Base.{
  ℕ, suc, ◌-◌, ◌≤◌, ◌≡◌, refl, sym, ◌∙◌, ◌↔◌, ◌⊎◌, false, [], ◌∷◌, ◌++◌, some, arith, Bytes, length,
  take, any, All, last?, last?-concat, init-concat, init-append, length-append, length-take,
  take-length-append, length-take, ok, if◌then◌else◌,
}
use nntp_proxy.Protocol.MessageId.{
  MessageId, validate, inner, is_refused, from_borrowed, from_str_or_wrap, without_brackets,
  IsPrintable, IsMessageId, has_angle_brackets,
}

refused_iff : (b : ℕ) → (is_refused b ≡ false) ↔ IsPrintable b
refused_iff b = ground arith

any-refused : (bs : Bytes) → any is_refused bs ≡ false → All IsPrintable bs
any-refused [] h = tt
any-refused (b ∷ bs) h = ground (arith, any-refused bs)

All-refused : (bs : Bytes) → All IsPrintable bs → any is_refused bs ≡ false
All-refused [] h = refl
All-refused (b ∷ bs) h = rw ((refused_iff b).1 h.0) (All-refused bs h.1)

inner_lem : (x : ℕ) (bs : Bytes) → inner (x ∷ bs) ≡ take (length bs - 1) bs
inner_lem x bs = let e : suc (length bs) - 2 ≡ length bs - 1 = omega arith in rw e

pub inner-enclose : (x y : ℕ) (body : Bytes) → inner (x ∷ (body ++ y ∷ [])) ≡ body
inner-enclose x y body =
    let e : length (body ++ y ∷ []) - 1 ≡ length body =
      omega (arith, length-append body (y ∷ [])) in
    inner_lem x (body ++ y ∷ []) ∙ rw e (take-length-append body (y ∷ []))

record Passed (x : ℕ) (bs : Bytes) : Type 0 where
  opens : x ≡ b'<'
  closes : last? bs ≡ some b'>'
  accepted : any is_refused (inner (x ∷ bs)) ≡ false
  long : 2 ≤ length bs
  bounded : length bs ≤ 249

validate-Passed : (x y : ℕ) (ys : Bytes) → validate (x ∷ y ∷ ys) ≡ ok tt → Passed x (y ∷ ys)
unfolding validate
validate-Passed x y ys h = ground arith

validate-IsMessageId : (s : Bytes) → validate s ≡ ok tt → IsMessageId s
validate-IsMessageId (x ∷ y ∷ ys) h = record {
  body = take (length (y ∷ ys) - 1) (y ∷ ys);
  encloses = rw (p.opens, ← init-concat (y ∷ ys) p.closes);
  printable = any-refused _ (rw inner_lem at p.accepted);
  nonempty = omega (arith, p.long, length-take (length (y ∷ ys) - 1) (y ∷ ys));
  short = omega (arith, p.bounded, length-take (length (y ∷ ys) - 1) (y ∷ ys));
}
  where
    p : Passed x (y ∷ ys)
    p = validate-Passed x y ys h
validate-IsMessageId _ h = unfold validate in ground arith

IsMessageId-validate : {s : Bytes} → IsMessageId s → validate s ≡ ok tt
unfolding validate
IsMessageId-validate v = rw v.encloses (
    ground (
      arith,
      last?-concat (b'<' ∷ v.body) b'>',
      length-append v.body (b'>' ∷ []),
      inner-enclose b'<' b'>' v.body,
      All-refused v.body v.printable,
    ))

-- `validate` accepts exactly the texts that the description of a message id covers.
pub validate_iff : (s : Bytes) → (validate s ≡ ok tt) ↔ IsMessageId s
validate_iff s = (validate-IsMessageId s, IsMessageId-validate)

pub from_borrowed-ok :
    (s : Bytes) {id : MessageId} → from_borrowed s ≡ ok id → (validate s ≡ ok tt) × (id.text ≡ s)
unfolding from_borrowed
from_borrowed-ok s h = ground arith

pub from_borrowed-valid : (s : Bytes) → IsMessageId s → from_borrowed s ≡ ok (record { text = s })
unfolding from_borrowed
from_borrowed-valid s v = ground (arith, IsMessageId-validate v)

abbrev wrapped : Bytes → Bytes
wrapped s = if has_angle_brackets s then s else b'<' ∷ (s ++ b'>' ∷ [])

-- A text that `from_str_or_wrap` accepts gives a valid message id: the text itself, or the text
-- between angle brackets.
pub from_str_or_wrap_valid :
    (s : Bytes) {id : MessageId}
    → from_str_or_wrap s ≡ ok id
    → IsMessageId id.text × ((id.text ≡ s) ⊎ (id.text ≡ b'<' ∷ (s ++ b'>' ∷ [])))
unfolding from_str_or_wrap
from_str_or_wrap_valid [] h = cc
from_str_or_wrap_valid (b ∷ bs) {id} h =
    (rw made.1 (validate-IsMessageId _ made.0), ground (arith, made.1))
  where
    made : (validate (wrapped (b ∷ bs)) ≡ ok tt) × (id.text ≡ wrapped (b ∷ bs))
    made = from_borrowed-ok _ h

-- The brackets of a valid message id come off, and put back they give the id again.
pub without_brackets_total :
    (id : MessageId)
    → IsMessageId id.text
    → (body : Bytes) × (without_brackets id ≡ some body) × (b'<' ∷ (body ++ b'>' ∷ []) ≡ id.text)
unfolding without_brackets
without_brackets_total id v = (v.body, rw v.encloses stripped, sym v.encloses)
  where
    stripped : without_brackets (record { text = b'<' ∷ (v.body ++ b'>' ∷ []) }) ≡ some v.body
    stripped = ground (arith, last?-concat v.body b'>', init-append v.body b'>')
