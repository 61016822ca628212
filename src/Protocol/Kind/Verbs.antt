-- ===== src/Protocol/Kind/Verbs.antt =====
-- src/protocol/request.rs: `classify_verb` is the lookup of the upper-cased verb in one table.
use nntp_proxy.Base.{
  ℕ, ◌==◌, ◌≡◌, ◌≢◌, refl, sym, ap, ◌∙◌, ◌↔◌, inl, inr, Bool, true, false, List, [], ◌∷◌, arith,
  if◌then◌else◌, Bool-cases, Bytes, codes, bytes_eq, bytes_eq_iff, length, map, All,
}
use nntp_proxy.Protocol.Kind.{
  RequestKind, ascii_upper, eq_ignore_case_from, eq_ignore_ascii_case_const, classify_in,
  classify_verb, verbs_of_length, verbs_3, verbs_4, verbs_5, verbs_7, verbs_8, verbs_9, verbs_12,
}

abbrev pub upper : Bytes → Bytes
upper = map ascii_upper

-- The verb of each kind, in capitals; an unknown command has none.
abbrev pub keyword : RequestKind → Bytes
keyword RequestKind.article = codes "ARTICLE"
keyword RequestKind.body = codes "BODY"
keyword RequestKind.head = codes "HEAD"
keyword RequestKind.stat = codes "STAT"
keyword RequestKind.group = codes "GROUP"
keyword RequestKind.list_group = codes "LISTGROUP"
keyword RequestKind.last = codes "LAST"
keyword RequestKind.next = codes "NEXT"
keyword RequestKind.list = codes "LIST"
keyword RequestKind.date = codes "DATE"
keyword RequestKind.help = codes "HELP"
keyword RequestKind.capabilities = codes "CAPABILITIES"
keyword RequestKind.mode = codes "MODE"
keyword RequestKind.quit = codes "QUIT"
keyword RequestKind.over = codes "OVER"
keyword RequestKind.xover = codes "XOVER"
keyword RequestKind.hdr = codes "HDR"
keyword RequestKind.xhdr = codes "XHDR"
keyword RequestKind.new_groups = codes "NEWGROUPS"
keyword RequestKind.new_news = codes "NEWNEWS"
keyword RequestKind.post = codes "POST"
keyword RequestKind.ihave = codes "IHAVE"
keyword RequestKind.check = codes "CHECK"
keyword RequestKind.take_this = codes "TAKETHIS"
keyword RequestKind.auth_info = codes "AUTHINFO"
keyword RequestKind.start_tls = codes "STARTTLS"
keyword RequestKind.compress = codes "COMPRESS"
keyword RequestKind.unknown = []

length-upper : (bs : Bytes) → length (upper bs) ≡ length bs
length-upper [] = refl
length-upper (b ∷ bs) = ap ℕ.suc (length-upper bs)

from-upper :
    (l r : Bytes) → length l ≡ length r → eq_ignore_case_from l r ≡ bytes_eq (upper l) (upper r)
unfolding eq_ignore_case_from bytes_eq
from-upper [] [] h = refl
from-upper [] (r ∷ rs) h = absurd (omega arith)
from-upper (l ∷ ls) [] h = absurd (omega arith)
from-upper (l ∷ ls) (r ∷ rs) h = ground (arith, from-upper ls rs)

bytes_eq_of_length : (a b : Bytes) → length a ≢ length b → bytes_eq a b ≡ false
bytes_eq_of_length a b h = elim (Bool-cases (bytes_eq a b)) [
  | inl e ↦ absurd (h (ap length ((bytes_eq_iff a b).0 e)))
  | inr e ↦ e
]

-- The comparison is equality of the upper-cased texts.
pub eq_ignore_ascii_case_const-upper :
    (l r : Bytes) → eq_ignore_ascii_case_const l r ≡ bytes_eq (upper l) (upper r)
unfolding eq_ignore_ascii_case_const
eq_ignore_ascii_case_const-upper l r =
    ground (
      arith,
      from-upper l r,
      bytes_eq_of_length (upper l) (upper r),
      length-upper l,
      length-upper r,
    )

-- The same ladder over an upper-cased verb.
classify_upper : Bytes → List (Bytes × RequestKind) → RequestKind
classify_upper u [] = RequestKind.unknown
classify_upper u ((lit, kind) ∷ rest) =
    if bytes_eq u (upper lit) then kind else classify_upper u rest

classify_in-upper :
    (verb : Bytes) (table : List (Bytes × RequestKind))
    → classify_in verb table ≡ classify_upper (upper verb) table
unfolding classify_in classify_upper
classify_in-upper verb [] = refl
classify_in-upper verb ((lit, kind) ∷ rest) =
    simp (eq_ignore_ascii_case_const-upper, classify_in-upper verb rest)

abbrev Named : Bytes × RequestKind → Type 0
Named row = keyword row.1 ≡ upper row.0

classify_upper_sound :
    (u : Bytes) (table : List (Bytes × RequestKind))
    → All Named table
    → classify_upper u table ≢ RequestKind.unknown
    → u ≡ keyword (classify_upper u table)
unfolding classify_upper
classify_upper_sound u [] named known = absurd (known refl)
classify_upper_sound u ((lit, kind) ∷ rest) named known =
    ground (arith, bytes_eq_iff u (upper lit), classify_upper_sound u rest named.1)

All-if :
    (b : Bool) (xs ys : List (Bytes × RequestKind))
    → All Named xs
    → All Named ys
    → All Named (if b then xs else ys)
All-if true xs ys p q = p
All-if false xs ys p q = q

verbs-Named : (n : ℕ) → All Named (verbs_of_length n)
unfolding ascii_upper
verbs-Named n =
    All-if (n == 3) verbs_3 _ (refl, tt)
      (All-if (n == 4) verbs_4 _
        (
          refl,
          (
            refl,
            (
              refl,
              (refl, (refl, (refl, (refl, (refl, (refl, (refl, (refl, (refl, (refl, tt)))))))))),
            ),
          ),
        )
        (All-if (n == 5) verbs_5 _ (refl, (refl, (refl, (refl, tt))))
          (All-if (n == 7) verbs_7 _ (refl, (refl, tt))
            (All-if (n == 8) verbs_8 _ (refl, (refl, (refl, (refl, tt))))
              (All-if (n == 9) verbs_9 _ (refl, (refl, tt))
                (All-if (n == 12) verbs_12 _ (refl, tt) (tt)))))))

keyword-classified :
    (k : RequestKind)
    → k ≢ RequestKind.unknown
    → classify_upper (keyword k) (verbs_of_length (length (keyword k))) ≡ k
unfolding classify_upper bytes_eq ascii_upper
keyword-classified RequestKind.unknown h = absurd (h refl)
keyword-classified _ h = refl

classify_verb-upper :
    (verb : Bytes)
    → classify_verb verb ≡ classify_upper (upper verb) (verbs_of_length (length (upper verb)))
unfolding classify_verb
classify_verb-upper verb = rw length-upper (classify_in-upper verb (verbs_of_length (length verb)))

-- A verb gets a known kind exactly if it is that kind's keyword in any mix of cases.
pub classify_verb_iff :
    (verb : Bytes) (k : RequestKind)
    → k ≢ RequestKind.unknown
    → (classify_verb verb ≡ k) ↔ (upper verb ≡ keyword k)
classify_verb_iff verb k known = (
  λ e.
      let found = sym (classify_verb-upper verb) ∙ e in
      classify_upper_sound _ _ (verbs-Named (length (upper verb))) (λ u. known (sym found ∙ u))
      ∙ ap keyword found,
  λ e. classify_verb-upper verb ∙ rw e (keyword-classified k known),
)
