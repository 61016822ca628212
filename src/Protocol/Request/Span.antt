-- ===== src/Protocol/Request/Span.antt =====
-- src/protocol/request.rs: the span that `find_message_id` returns.
use nntp_proxy.Base.{
  ℕ, ◌+◌, ◌-◌, ◌≤◌, ◌≡◌, ◌↔◌, refl, ap, subst₂, sym, ◌∙◌, inl, inr, true, false, [], ◌∷◌, ◌++◌,
  some, arith, Bytes, All, length, length-append, length-take, append_assoc, last?-concat, any,
  take, drop, take-append-drop, position, rposition, position-append, rposition-append,
  position_split, rposition_split, FirstAt, LastAt, FirstAt-take, LastAt-drop, FirstAt-lt,
  LastAt-lt, min, drop-drop, take-length-append, length-drop, drop-length-append, is_utf8,
  is_utf8-cons, is_ascii_whitespace, Result-cases, first?, last?,
}
use nntp_proxy.Protocol.MessageId.{IsMessageId, IsPrintable, from_borrowed}
use nntp_proxy.Protocol.MessageId.Valid.{
  validate_iff, from_borrowed-ok, from_borrowed-valid, inner-enclose,
}
use nntp_proxy.Protocol.Request.{find_message_id, message_id_at, slice, is_not_space}

any-whitespace : (bs : Bytes) → All IsPrintable bs → any is_ascii_whitespace bs ≡ false
any-whitespace [] h = refl
any-whitespace (b ∷ bs) h = ground (arith, any-whitespace bs h.1)

is_utf8-printable : (bs rest : Bytes) → All IsPrintable bs → is_utf8 (bs ++ rest) ≡ is_utf8 rest
is_utf8-printable [] rest h = refl
is_utf8-printable (b ∷ bs) rest h =
    is_utf8-cons b (bs ++ rest) (omega (arith, h.0.below)) ∙ is_utf8-printable bs rest h.1

pub is_utf8-IsMessageId : {id : Bytes} → IsMessageId id → is_utf8 id ≡ true
is_utf8-IsMessageId v = rw v.encloses (
    is_utf8-cons b'<' _ (omega arith)
    ∙ is_utf8-printable v.body _ v.printable
    ∙ is_utf8-cons b'>' [] (omega arith)
    ∙ (unfold is_utf8 in refl))

message_id_at-valid : {id : Bytes} (s e : ℕ) → IsMessageId id → message_id_at id s e ≡ some (s, e)
unfolding message_id_at
message_id_at-valid {id} s e v = ground (
  arith,
  is_utf8-IsMessageId v,
  from_borrowed-valid id v,
  any-whitespace v.body v.printable,
  inner_whitespace,
  opens,
  closes,
)
  where
    inner_whitespace : any is_ascii_whitespace (take (length id - 2) (drop 1 id)) ≡ false
    inner_whitespace =
        rw (v.encloses, inner-enclose b'<' b'>' v.body) (any-whitespace v.body v.printable)

    opens : first? id ≡ some b'<'
    opens = rw v.encloses

    closes : last? id ≡ some b'>'
    closes = rw v.encloses (last?-concat (b'<' ∷ v.body) b'>')

message_id_at_sound :
    (id : Bytes) (s e : ℕ) {a b : ℕ}
    → message_id_at id s e ≡ some (a, b)
    → IsMessageId id × ((s ≡ a) × (e ≡ b))
unfolding message_id_at
message_id_at_sound id s e h = elim (Result-cases (from_borrowed id)) [
  | inl (m, f) ↦ ((validate_iff id).0 (from_borrowed-ok id f).0, ground arith)
  | inr (m, f) ↦ ground arith
]

find_message_id_at :
    (args : Bytes) {s l : ℕ}
    → position is_not_space args ≡ some s
    → rposition is_not_space args ≡ some l
    → find_message_id args ≡ message_id_at (slice args s (l + 1)) s (l + 1)
unfolding find_message_id
find_message_id_at args p q = ground arith

pub slice-append :
    (before id after : Bytes)
    → slice (before ++ (id ++ after)) (length before) (length before + length id) ≡ id
slice-append before id after =
    let e : length before + length id - length before ≡ length id = omega arith in
    rw (e, drop-length-append before (id ++ after)) (take-length-append id after)

-- An argument that is a message id, with white space round it, gives the span of the message id.
pub find_message_id_complete :
    (before id after : Bytes)
    → any is_not_space before ≡ false
    → any is_not_space after ≡ false
    → IsMessageId id
    → find_message_id (before ++ (id ++ after)) ≡ some (length before, length before + length id)
find_message_id_complete before id after p q v =
    find_message_id_at _ starts ends
    ∙ rw (last_is, slice-append before id after)
        (message_id_at-valid (length before) (length before + length id) v)
  where
    starts : position is_not_space (before ++ (id ++ after)) ≡ some (length before)
    starts = rw v.encloses (position-append is_not_space before b'<' _ p refl)

    regroup : before ++ (id ++ after) ≡ (before ++ b'<' ∷ v.body) ++ b'>' ∷ after
    regroup = rw v.encloses (simp append_assoc)

    ends :
        rposition is_not_space (before ++ (id ++ after)) ≡ some (length (before ++ b'<' ∷ v.body))
    ends = rw regroup (rposition-append is_not_space (before ++ b'<' ∷ v.body) b'>' after q refl)

    last_is : length (before ++ b'<' ∷ v.body) + 1 ≡ length before + length id
    last_is = omega (
      arith,
      length-append before (b'<' ∷ v.body),
      ap length v.encloses,
      length-append v.body (b'>' ∷ []),
    )

-- What a span is: it cuts the arguments into white space, a message id, and white space.
pub record IsSpan (args : Bytes) (start end : ℕ) : Type 0 where
  pub before : Bytes
  pub id : Bytes
  pub after : Bytes
  pub splits : args ≡ before ++ (id ++ after)
  pub valid : IsMessageId id
  pub blank_before : any is_not_space before ≡ false
  pub blank_after : any is_not_space after ≡ false
  pub starts : length before ≡ start
  pub ends : length before + length id ≡ end

span :
    (args : Bytes) (s l : ℕ)
    → position is_not_space args ≡ some s
    → rposition is_not_space args ≡ some l
    → IsMessageId (slice args s (l + 1))
    → IsSpan args s (l + 1)
span args s l p q v = record {
  before = take s args;
  id = slice args s (l + 1);
  after = drop (l + 1) args;
  splits = cuts;
  valid = v;
  blank_before = FirstAt-take is_not_space f;
  blank_after = LastAt-drop is_not_space g;
  starts = omega (arith, length-take s args, FirstAt-lt is_not_space f);
  ends = omega (arith, length-take s args, size, proper, LastAt-lt is_not_space g);
}
  where
    f : FirstAt is_not_space args s
    f = position_split is_not_space args p

    g : LastAt is_not_space args l
    g = rposition_split is_not_space args q

    size : length (slice args s (l + 1)) ≡ min (l + 1 - s) (length args - s)
    size = length-take (l + 1 - s) (drop s args) ∙ ap (min (l + 1 - s)) (length-drop s args)

    proper : s ≤ l
    proper = omega (arith, size, ap length v.encloses)

    cuts : args ≡ take s args ++ (slice args s (l + 1) ++ drop (l + 1) args)
    cuts =
        let e : s + (l + 1 - s) ≡ l + 1 = omega (arith, proper) in
        sym (take-append-drop s args)
        ∙ ap (◌++◌ (take s args)) (
            sym (take-append-drop (l + 1 - s) (drop s args))
            ∙ ap (◌++◌ (slice args s (l + 1)))
                (drop-drop s (l + 1 - s) args ∙ ap (λ k. drop k args) e))

find_message_id_inv :
    (args : Bytes) {a b : ℕ}
    → find_message_id args ≡ some (a, b)
    → (s : ℕ) × (l : ℕ) × (position is_not_space args ≡ some s)
      × (rposition is_not_space args ≡ some l)
      × (message_id_at (slice args s (l + 1)) s (l + 1) ≡ some (a, b))
unfolding find_message_id
find_message_id_inv args h = ground arith

-- Every span that is found is the span of a valid message id with only white space round it.
pub find_message_id_sound :
    (args : Bytes) {start end : ℕ}
    → find_message_id args ≡ some (start, end)
    → IsSpan args start end
find_message_id_sound args h =
    let (s, l, p, q, r) = find_message_id_inv args h in
    let (v, (e, f)) = message_id_at_sound (slice args s (l + 1)) s (l + 1) r in
    subst₂ (IsSpan args) e f (span args s l p q v)

-- The arguments hold a message id at a span exactly when the span cuts them into white space, a
-- message id and white space.
pub find_message_id_iff :
    (args : Bytes) (start end : ℕ)
    → find_message_id args ≡ some (start, end) ↔ IsSpan args start end
find_message_id_iff args start end = (
  find_message_id_sound args,
  λ s.
      ap find_message_id s.splits
      ∙ find_message_id_complete s.before s.id s.after s.blank_before s.blank_after s.valid
      ∙ ap some (cc (s.starts, s.ends)),
)
