-- ===== src/Cache/Codec/Local.antt =====
-- src/cache/hybrid_codec.rs: the decoder takes a part of its input and depends on no more.
use nntp_proxy.Base.{
  ℕ, zero, suc, ◌≡◌, ap, sym, subst, ◌∙◌, inl, inr, Bool, true, false, not, ◌||◌, [], ◌∷◌, ◌++◌,
  ltb, ◌==◌, if◌then◌else◌, length, take, drop, length-append, length-take, take-append-drop,
  take-length-append, length-take, drop-length-append, length-take, append-nil, append_assoc, Bytes,
  Result, ok, err, ◌>>=◌, arith, Bool-cases, Result-cases,
}
use mathlib.Core.Path.{fun_ext}
use nntp_proxy.Cache.Payload.{CachedPayload}
use nntp_proxy.Cache.Codec.Words.{CodecError, read_exact, read_word, read_words, from_le_bytes}
use nntp_proxy.Cache.Codec.{
  section_max, magic_v6, magic_v9, max_backends, DiskCachedArticle, encode, read_article_number,
  read_section, decode_kind, decode_payload, has_epoch, has_timestamps, read_status,
  availability_bits_from_wire, decode_entry, decode, replicate,
}
use nntp_proxy.Cache.Codec.Layout.{IsStored}
use nntp_proxy.Cache.Codec.RoundTrip.{decode-encode}

abbrev pub Reader : Type 0 → Type 0
Reader A = Bytes → Result CodecError (A × Bytes)

-- A reader that succeeds takes a front part of its input, and gives the same on that part whatever
-- follows it.
pub record Local {A : Type 0} (f : Reader A) : Type 0 where
  pub runs :
      (bytes : Bytes) (a : A) (rest : Bytes)
      → f bytes ≡ ok (a, rest)
      → (used : Bytes) × (bytes ≡ used ++ rest) × ((more : Bytes) → f (used ++ more) ≡ ok (a, more))

Local-ok : {A : Type 0} (a : A) → Local (λ r. ok (a, r))
Local-ok a = record { runs = λ bytes b rest h. ([], ground (arith, h), λ more. ground (arith, h)) }

Local-err : {A : Type 0} (e : CodecError) → Local {A = A} (λ r. err e)
Local-err e = record { runs = λ bytes b rest h. absurd (cc h) }

Local-bind :
    {A B : Type 0} (f : Reader A) (g : A × Bytes → Result CodecError (B × Bytes))
    → Local f
    → ((a : A) → Local (λ r. g (a, r)))
    → Local (λ r. f r >>= g)
Local-bind f g lf lg = record {
  runs = λ bytes b rest h. elim (Result-cases (f bytes)) [
    | inr (e, i) ↦ absurd (cc (h, i))
    | inl ((a, mid), i) ↦
        let (used, p, q) = lf.runs bytes a mid i in
        let k : g (a, mid) ≡ ok (b, rest) = ap (λ r. r >>= g) (sym i) ∙ h in
        let (used2, p2, q2) = (lg a).runs mid b rest k in
        (
          used ++ used2,
          p ∙ ap (◌++◌ used) p2 ∙ sym (append_assoc used used2 rest),
          λ more.
              ap (λ bs. f bs >>= g) (append_assoc used used2 more)
              ∙ ap (λ r. r >>= g) (q (used2 ++ more))
              ∙ q2 more,
        )
  ];
}

Local-if :
    {A : Type 0} (f g : Reader A) (b : Bool)
    → Local f
    → Local g
    → Local (λ r. if b then f r else g r)
Local-if f g true lf lg = lf
Local-if f g false lf lg = lg

Local-take :
    (n : ℕ)
    → Local (λ r.
      if length (take n r) == n then ok (take n r, drop n r) else err CodecError.unexpected_eof)
Local-take n = record {
  runs = λ bytes a rest h. elim (Bool-cases (length (take n bytes) == n)) [
    | inr e ↦ absurd (ground (arith, h, e))
    | inl e ↦
        let l : length (take n bytes) ≡ n = ground (arith, e) in
        (
          take n bytes,
          sym (take-append-drop n bytes) ∙ ground (arith, h, e),
          λ more.
              let p : take n (take n bytes ++ more) ≡ take n bytes =
                ap (λ k. take k (take n bytes ++ more)) (sym l)
                ∙ take-length-append (take n bytes) more in
              let q : drop n (take n bytes ++ more) ≡ more =
                ap (λ k. drop k (take n bytes ++ more)) (sym l)
                ∙ drop-length-append (take n bytes) more in
              ground (arith, p, q, h, e),
        )
  ];
}

read_exact-take :
    (n : ℕ) (r : Bytes)
    → read_exact n r
      ≡ (if length (take n r) == n then ok (take n r, drop n r) else err CodecError.unexpected_eof)
unfolding read_exact
read_exact-take n r = ground (arith, length-take n r)

Local-read_exact : (n : ℕ) → Local (read_exact n)
Local-read_exact n = subst Local (sym (fun_ext (read_exact-take n))) (Local-take n)

Local-read_word : (n : ℕ) → Local (read_word n)
unfolding read_word
Local-read_word n =
    Local-bind (read_exact n) _ (Local-read_exact n) (λ bytes. Local-ok (from_le_bytes bytes))

Local-read_words : (n : ℕ) → Local (read_words n)
unfolding read_words
Local-read_words zero = Local-ok []
Local-read_words (suc n) =
    Local-bind (read_word 8) _ (Local-read_word 8)
      (λ w. Local-bind (read_words n) _ (Local-read_words n) (λ ws. Local-ok (w ∷ ws)))

Local-read_article_number : Local read_article_number
unfolding read_article_number
Local-read_article_number = Local-bind (read_word 8) _ (Local-read_word 8) (λ raw. Local-ok _)

Local-read_section : Local read_section
unfolding read_section
Local-read_section = Local-bind (read_word 4) _ (Local-read_word 4) (λ len.
    Local-if _ _ (ltb section_max len) (Local-err (CodecError.section_too_large len))
      (Local-take len))

Local-decode_kind : (kind : ℕ) (legacy : Bool) → Local (decode_kind kind legacy)
unfolding decode_kind
Local-decode_kind kind legacy = Local-if _ _ (kind == 0) (Local-ok CachedPayload.missing) (
    Local-if _ _ (kind == 1) (Local-ok CachedPayload.availability_only) (
      Local-if _ _ (kind == 5)
        (Local-bind read_article_number _ Local-read_article_number
          (λ n. Local-ok (CachedPayload.stat n)))
        (Local-if _ _ (kind == 2)
          (Local-bind read_article_number _ Local-read_article_number (λ n.
            Local-bind read_section _ Local-read_section
              (λ h. Local-bind read_section _ Local-read_section (λ b. Local-ok _))))
          (Local-if _ _ (kind == 3)
            (Local-bind read_article_number _ Local-read_article_number
              (λ n. Local-bind read_section _ Local-read_section (λ h. Local-ok _)))
            (Local-if _ _ (kind == 4)
              (Local-bind read_article_number _ Local-read_article_number
                (λ n. Local-bind read_section _ Local-read_section (λ b. Local-ok _)))
              (Local-err (CodecError.invalid_payload_kind kind)))))))

Local-check :
    {A B : Type 0} (m : Result CodecError A) (f : A → Reader B)
    → ((a : A) → Local (f a))
    → Local (λ r. m >>= λ a. f a r)
Local-check (ok a) f lf = lf a
Local-check (err e) f lf = Local-err e

Local-decode_entry : (magic : ℕ) → Local (decode_entry magic)
unfolding decode_entry decode_payload
Local-decode_entry magic = Local-bind (read_word 2) _ (Local-read_word 2) (λ raw.
    Local-check (read_status raw) _ (λ status.
      Local-bind _ _ (Local-if (read_word 8) _ (has_epoch magic) (Local-read_word 8) (Local-ok 0))
        (λ epoch. Local-bind (read_word 8) _ (Local-read_word 8) (λ bits.
          Local-check (availability_bits_from_wire bits) _ (λ missing_bits.
            Local-bind _ _
              (Local-if (read_words max_backends) _ (has_timestamps magic)
                (Local-read_words max_backends) (Local-ok (replicate max_backends 0)))
              (λ stamps. Local-bind (read_word 8) _ (Local-read_word 8) (λ timestamp.
                Local-bind (read_word 1) _ (Local-read_word 1) (λ tier.
                  Local-bind _ _
                    (Local-bind (read_word 1) _ (Local-read_word 1)
                      (λ kind. Local-decode_kind kind (not (magic == magic_v9))))
                    (λ payload. Local-ok _)))))))))

Local-decode : Local decode
unfolding decode
Local-decode = Local-bind (read_word 4) _ (Local-read_word 4) (λ magic.
    Local-if _ _ (magic == magic_v6 || has_epoch magic) (Local-decode_entry magic)
      (Local-err CodecError.old_format))

abbrev reread : DiskCachedArticle → Bytes → Result CodecError (DiskCachedArticle × Bytes)
reread e rest = ok (e, rest)

-- Not all of an encoding is read where some of it was lost.
not_empty :
    {A : Type 0} (e d : DiskCachedArticle) (rest : Bytes) (b : ℕ) (lost : Bytes)
    → reread e [] ≡ reread d (rest ++ b ∷ lost)
    → A
not_empty e d rest b lost h =
    let none_left : [] ≡ rest ++ b ∷ lost = cc in
    absurd (omega (arith, ap length none_left, length-append rest (b ∷ lost)))

-- The encoding of an entry that was cut short, at any place, is refused. For an entry whose fields fit
-- their words and whose article number is not the largest word.
pub decode-cut :
    (e : DiskCachedArticle) (front : Bytes) (b : ℕ) (lost : Bytes)
    → IsStored e
    → encode e ≡ ok (front ++ b ∷ lost)
    → (c : CodecError) × (decode front ≡ err c)
decode-cut e front b lost s h = elim (Result-cases (decode front)) [
  | inr (c, k) ↦ (c, k)
  | inl ((d, rest), k) ↦
      let (used, p, q) = Local-decode.runs front d rest k in
      let whole : (front ++ b ∷ lost) ++ [] ≡ used ++ (rest ++ b ∷ lost) =
        append-nil (front ++ b ∷ lost)
        ∙ ap (λ bs. bs ++ b ∷ lost) p
        ∙ append_assoc used rest (b ∷ lost) in
      let same : reread e [] ≡ reread d (rest ++ b ∷ lost) =
        sym (decode-encode e (front ++ b ∷ lost) [] s h).0
        ∙ ap decode whole
        ∙ q (rest ++ b ∷ lost) in
      not_empty e d rest b lost same
]
