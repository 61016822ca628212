-- ===== src/Command/Arguments.antt =====
-- src/command/handler.rs: how the arguments of AUTHINFO are read.
use nntp_proxy.Base.{
  ℕ, ◌+◌, ◌-◌, ◌≡◌, refl, ap, sym, ◌∙◌, Bool, true, false, not, ◌&&◌, [], ◌∷◌, ◌++◌, none, some,
  arith, if◌then◌else◌, Bytes, codes, length, any, position, rposition, is_ascii_whitespace,
  is_utf8, length-append, take-length-append, drop-length-append, append-nil, append_assoc,
  position-append, rposition-append, last?, init, init-concat, last?-append,
}
use nntp_proxy.Protocol.Kind.{eq_ignore_ascii_case_const}
use nntp_proxy.Command.{AuthAction, trim_ascii, strip_authinfo_arg, classify_auth}

abbrev pub is_solid : ℕ → Bool
is_solid b = not (is_ascii_whitespace b)

abbrev pub IsBlank : Bytes → Type 0
IsBlank bs = any is_solid bs ≡ false

-- A text that begins and ends with bytes that are not blank.
pub record IsCore (bs : Bytes) : Type 0 where
  pub first : ℕ
  pub others : Bytes
  pub begins : bs ≡ first ∷ others
  pub first_solid : is_solid first ≡ true
  pub last : ℕ
  pub ends : last? bs ≡ some last
  pub last_solid : is_solid last ≡ true

trim_ascii_at :
    (before core after : Bytes) {n k : ℕ}
    → position is_solid (before ++ (core ++ after)) ≡ some n
    → rposition is_solid (before ++ (core ++ after)) ≡ some k
    → n ≡ length before
    → k + 1 ≡ length before + length core
    → trim_ascii (before ++ (core ++ after)) ≡ core
unfolding trim_ascii
trim_ascii_at before core after {n} {k} p r e f =
    let g : k + 1 - length before ≡ length core = omega (arith, f) in
    rw (p, r, e, drop-length-append before (core ++ after), g, take-length-append core after) refl

-- Blanks around a text are cut off, and nothing else.
pub trim_ascii_core :
    (before core after : Bytes)
    → IsBlank before
    → IsBlank after
    → IsCore core
    → trim_ascii (before ++ (core ++ after)) ≡ core
trim_ascii_core before core after h k c =
    let e : core ≡ init core ++ c.last ∷ [] = init-concat core c.ends in
    trim_ascii_at before core after
      (ap (λ t. position is_solid (before ++ (t ++ after))) c.begins
        ∙ position-append is_solid before c.first (c.others ++ after) h c.first_solid)
      (ap (λ t. rposition is_solid (before ++ (t ++ after))) e
        ∙ ap (λ t. rposition is_solid (before ++ t)) (append_assoc (init core) (c.last ∷ []) after)
        ∙ ap (rposition is_solid) (sym (append_assoc before (init core) (c.last ∷ after)))
        ∙ rposition-append is_solid (before ++ init core) c.last after k c.last_solid)
      refl
      (omega (
        arith,
        ap length e,
        length-append (init core) (c.last ∷ []),
        length-append before (init core),
      ))

-- A line of arguments: a word, blanks and a text, with blanks around them.
pub record Argument : Type 0 where
  pub before : Bytes
  pub word : Bytes
  pub gap : Bytes
  pub value : Bytes
  pub after : Bytes

abbrev pub inner : Argument → Bytes
inner a = a.word ++ (a.gap ++ a.value)

abbrev pub line : Argument → Bytes
line a = a.before ++ (inner a ++ a.after)

pub record IsArgument (a : Argument) : Type 0 where
  pub blank_before : IsBlank a.before
  pub blank_after : IsBlank a.after
  pub blank_gap : IsBlank a.gap
  pub gap_first : ℕ
  pub gap_others : Bytes
  pub gap_begins : a.gap ≡ gap_first ∷ gap_others
  pub gap_blank : is_ascii_whitespace gap_first ≡ true
  pub word_core : IsCore a.word
  pub word_solid : any is_ascii_whitespace a.word ≡ false
  pub value_core : IsCore a.value

inner-IsCore : (a : Argument) → IsArgument a → IsCore (inner a)
inner-IsCore a i = record {
  first = i.word_core.first;
  others = i.word_core.others ++ (a.gap ++ a.value);
  begins = ap (λ t. t ++ (a.gap ++ a.value)) i.word_core.begins;
  first_solid = i.word_core.first_solid;
  last = i.value_core.last;
  ends =
      ap (λ t. last? (a.word ++ (a.gap ++ t))) i.value_core.begins
      ∙ ap last? (sym (append_assoc a.word a.gap (i.value_core.first ∷ i.value_core.others)))
      ∙ last?-append (a.word ++ a.gap) i.value_core.first i.value_core.others
      ∙ sym (ap last? i.value_core.begins)
      ∙ i.value_core.ends;
  last_solid = i.value_core.last_solid;
}

-- The word is compared without regard to case, and the text behind it is what is returned.
pub strip_authinfo_arg_lem :
    (a : Argument) (subcommand : Bytes)
    → IsArgument a
    → strip_authinfo_arg (line a) subcommand ≡ (
        if eq_ignore_ascii_case_const a.word subcommand && is_utf8 a.value
        then some a.value
        else none)
unfolding strip_authinfo_arg
strip_authinfo_arg_lem a subcommand i =
    let trimmed : trim_ascii (line a) ≡ inner a =
      trim_ascii_core a.before (inner a) a.after i.blank_before i.blank_after (inner-IsCore a i) in
    let split : position is_ascii_whitespace (inner a) ≡ some (length a.word) =
      ap (λ g. position is_ascii_whitespace (a.word ++ (g ++ a.value))) i.gap_begins
      ∙ position-append is_ascii_whitespace a.word i.gap_first (i.gap_others ++ a.value)
          i.word_solid i.gap_blank in
    let tail : trim_ascii (a.gap ++ a.value) ≡ a.value =
      ap (λ v. trim_ascii (a.gap ++ v)) (sym (append-nil a.value))
      ∙ trim_ascii_core a.gap a.value [] i.blank_gap refl i.value_core in
    rw
      (
        trimmed,
        split,
        take-length-append a.word (a.gap ++ a.value),
        drop-length-append a.word (a.gap ++ a.value),
        tail,
      )
      refl

-- A word and a text that is valid UTF-8, with blanks between and around them, are read as a user
-- name after USER and as a password after PASS, in either case; every other word is an unknown
-- subcommand.
pub classify_auth_lem :
    (a : Argument)
    → IsArgument a
    → is_utf8 a.value ≡ true
    → classify_auth (line a) ≡ (
        if eq_ignore_ascii_case_const a.word (codes "USER")
        then AuthAction.request_password a.value
        else if eq_ignore_ascii_case_const a.word (codes "PASS")
        then AuthAction.validate_and_respond a.value
        else AuthAction.unknown_subcommand)
unfolding classify_auth
classify_auth_lem a i u =
    ground
      (arith, strip_authinfo_arg_lem a (codes "USER") i, strip_authinfo_arg_lem a (codes "PASS") i)
