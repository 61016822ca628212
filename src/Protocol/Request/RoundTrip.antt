-- ===== src/Protocol/Request/RoundTrip.antt =====
-- src/protocol/request.rs: a request written by `write_wire_to` is parsed back.
use nntp_proxy.Base.{
  ℕ, ◌+◌, ◌≤◌, ◌≡◌, refl, ap, subst, sym, ◌∙◌, Bool, false, ◌||◌, [], ◌∷◌, ◌++◌, Option, none, some,
  arith, ltb, Bytes, codes, length, is_empty, length-append, append_assoc, last?-append, any,
  if◌then◌else◌, take, drop, position, position-none, position-append, position_split, take_of_le,
  take-length-append, drop-length-append_suc, position-any, ◌==◌,
}
use nntp_proxy.Memchr.{Memchr}
use nntp_proxy.Protocol.Request.{
  RequestContext, ends_in_eol, trim_line_end, split_at, unwrap_or, parse, wire, request_wire_len,
  from_verb_args, max_command_line_octets,
}
use nntp_proxy.Protocol.Request.Trim.{trim_line_end-crlf, trim_line_end_done, trim_line_end-Trims}

abbrev pub is_separator : ℕ → Bool
is_separator b = b == b' ' || b == b'\t'

-- The text of a request before its line end.
abbrev pub line_text : Bytes → Bytes → Bytes
line_text verb args = if is_empty args then verb else verb ++ (b' ' ∷ args)

-- A verb and its arguments that the parser can give back: the verb is not empty and holds no
-- separator, and the text ends in no line end.
pub record IsRequest (verb args : Bytes) : Type 0 where
  pub nonempty : is_empty verb ≡ false
  pub solid : any is_separator verb ≡ false
  pub clean : ends_in_eol (line_text verb args) ≡ false

wire_lem :
    (verb args : Bytes) → wire (from_verb_args verb args) ≡ line_text verb args ++ codes "\r\n"
unfolding wire from_verb_args
wire_lem verb [] = refl
wire_lem verb (a ∷ rest) = sym (append_assoc verb (b' ' ∷ a ∷ rest) (codes "\r\n"))

length-wire :
    (verb args : Bytes)
    → length (wire (from_verb_args verb args)) ≡ request_wire_len (from_verb_args verb args)
unfolding wire request_wire_len from_verb_args
length-wire verb [] = omega (arith, length-append verb (codes "\r\n"))
length-wire verb (a ∷ rest) = omega (
  arith,
  length-append verb (b' ' ∷ ((a ∷ rest) ++ codes "\r\n")),
  length-append rest (codes "\r\n"),
)

module _ (m : Memchr) where
  split_at-verb :
      (verb args : Bytes)
      → any is_separator verb ≡ false
      → split_at m (line_text verb args) ≡ length verb
  split_at-verb verb [] h =
      ap (λ o. unwrap_or o (length verb))
        (m.memchr2_lem b' ' b'\t' verb ∙ position-none is_separator verb h)
  split_at-verb verb (a ∷ rest) h =
      ap (λ o. unwrap_or o (length (verb ++ (b' ' ∷ a ∷ rest))))
        (m.memchr2_lem b' ' b'\t' (verb ++ (b' ' ∷ a ∷ rest))
          ∙ position-append is_separator verb b' ' (a ∷ rest) h refl)

  args_of_line :
      (verb args : Bytes)
      → (if ltb (length verb) (length (line_text verb args))
          then drop (length verb + 1) (line_text verb args)
          else [])
        ≡ args
  args_of_line verb [] = ground arith
  args_of_line verb (a ∷ rest) =
      ground
        (arith, length-append verb (b' ' ∷ a ∷ rest), drop-length-append_suc verb b' ' (a ∷ rest))

  take_of_line : (verb args : Bytes) → take (length verb) (line_text verb args) ≡ verb
  take_of_line verb [] = take_of_le (length verb) verb (omega arith)
  take_of_line verb (a ∷ rest) = take-length-append verb (b' ' ∷ a ∷ rest)

  -- Writing a request and parsing the bytes gives the request again, if the verb is not empty and
  -- holds no blank, the text ends in no line end, and the bytes fit the length limit.
  pub parse-wire :
      (verb args : Bytes)
      → IsRequest verb args
      → request_wire_len (from_verb_args verb args) ≤ max_command_line_octets
      → parse m (wire (from_verb_args verb args)) ≡ some (from_verb_args verb args)
  unfolding parse
  parse-wire verb args r h =
      let fits : ltb max_command_line_octets (length (wire (from_verb_args verb args))) ≡ false =
        ground (arith, length-wire verb args) in
      let trimmed : trim_line_end (wire (from_verb_args verb args)) ≡ line_text verb args =
        ap trim_line_end (wire_lem verb args)
        ∙ trim_line_end-crlf (line_text verb args)
        ∙ trim_line_end_done (line_text verb args) r.clean in
      rw
        (
          fits,
          trimmed,
          split_at-verb verb args r.solid,
          args_of_line verb args,
          take_of_line verb args,
          r.nonempty,
        )
        (unfold from_verb_args in refl)

ends_in_eol-append :
    (xs : Bytes) (y z : ℕ) (zs : Bytes) → ends_in_eol (xs ++ y ∷ z ∷ zs) ≡ ends_in_eol (z ∷ zs)
unfolding ends_in_eol
ends_in_eol-append xs y z zs = cc (last?-append xs y (z ∷ zs))

line_text_clean :
    (verb args : Bytes)
    → ends_in_eol verb ≡ false
    → ends_in_eol args ≡ false
    → ends_in_eol (line_text verb args) ≡ false
line_text_clean verb [] v a = v
line_text_clean verb (b ∷ bs) v a = ends_in_eol-append verb b' ' b bs ∙ a

args_clean :
    (xs : Bytes) (y : ℕ) (args : Bytes)
    → ends_in_eol (xs ++ y ∷ args) ≡ false
    → ends_in_eol args ≡ false
args_clean xs y [] h = unfold ends_in_eol in refl
args_clean xs y (z ∷ zs) h = sym (ends_in_eol-append xs y z zs) ∙ h

-- The verb and the arguments that a trimmed line is cut into.
record IsCut (bytes verb args : Bytes) : Type 0 where
  solid : any is_separator verb ≡ false
  clean : ends_in_eol bytes ≡ false → ends_in_eol args ≡ false

abbrev IsCutAt : Bytes → ℕ → Type 0
IsCutAt bytes n =
    IsCut bytes (take n bytes) (if ltb n (length bytes) then drop (n + 1) bytes else [])

IsCut-whole : (bytes : Bytes) → any is_separator bytes ≡ false → IsCutAt bytes (length bytes)
IsCut-whole bytes h = record {
  solid = rw (take_of_le (length bytes) bytes (omega arith)) h;
  clean = λ _. unfold ends_in_eol in ground arith;
}

IsCut-parts :
    (before : Bytes) (sep : ℕ) (after : Bytes)
    → any is_separator before ≡ false
    → IsCutAt (before ++ sep ∷ after) (length before)
IsCut-parts before sep after h = record {
  solid = rw (take-length-append before (sep ∷ after)) h;
  clean = λ e. ground (
    arith,
    length-append before (sep ∷ after),
    drop-length-append_suc before sep after,
    args_clean before sep after e,
  );
}

record Parsed (c : RequestContext) : Type 0 where
  made : c ≡ from_verb_args c.verb c.args
  nonempty : is_empty c.verb ≡ false
  solid : any is_separator c.verb ≡ false
  clean : ends_in_eol c.args ≡ false

module _ (m : Memchr) where
  abbrev verb_of : Bytes → Bytes
  verb_of bytes = take (split_at m bytes) bytes

  abbrev args_of : Bytes → Bytes
  args_of bytes =
      if ltb (split_at m bytes) (length bytes) then drop (split_at m bytes + 1) bytes else []

  verb_of-IsCut :
      (bytes : Bytes) (o : Option ℕ)
      → position is_separator bytes ≡ o
      → (n : ℕ) → split_at m bytes ≡ n
      → n ≡ unwrap_or o (length bytes)
      → IsCutAt bytes n
  verb_of-IsCut bytes none e n f g = rw g (IsCut-whole bytes (position-any is_separator bytes e))
  verb_of-IsCut bytes (some k) e n f g =
      let s = position_split is_separator bytes e in
      rw (g, ← s.at)
        (subst (λ b. IsCutAt b (length s.before)) (sym s.splits)
          (IsCut-parts s.before s.found s.after s.earlier))

  cut : (bytes : Bytes) → IsCut bytes (verb_of bytes) (args_of bytes)
  cut bytes =
      verb_of-IsCut bytes (position is_separator bytes) refl (split_at m bytes) refl
        (ap (λ o. unwrap_or o (length bytes)) (m.memchr2_lem b' ' b'\t' bytes))

  parse-some :
      (line : Bytes) {c : RequestContext}
      → parse m line ≡ some c
      → (c ≡ from_verb_args (verb_of (trim_line_end line)) (args_of (trim_line_end line)))
        × (is_empty c.verb ≡ false)
  unfolding parse from_verb_args
  parse-some line h = ground arith

  parse-Parsed : (line : Bytes) {c : RequestContext} → parse m line ≡ some c → Parsed c
  unfolding from_verb_args
  parse-Parsed line {c} h =
      let (e, f) = parse-some line h in
      let k = cut (trim_line_end line) in
      record {
        made = subst (λ x. x ≡ from_verb_args x.verb x.args) (sym e) refl;
        nonempty = f;
        solid = subst (λ (x : RequestContext). any is_separator x.verb ≡ false) (sym e) k.solid;
        clean =
            subst (λ (x : RequestContext). ends_in_eol x.args ≡ false) (sym e)
              (k.clean (trim_line_end-Trims line).clean);
      }

  pub parse-from_verb_args :
      (line : Bytes) {c : RequestContext} → parse m line ≡ some c → c ≡ from_verb_args c.verb c.args
  parse-from_verb_args line h = (parse-Parsed line h).made

  -- A request that was parsed is written in a form that parses to the same request, if it fits
  -- the length limit and its verb does not end in a carriage return or a line feed.
  pub parse-wire-parse :
      (line : Bytes) {c : RequestContext}
      → parse m line ≡ some c
      → ends_in_eol c.verb ≡ false
      → request_wire_len c ≤ max_command_line_octets
      → parse m (wire c) ≡ some c
  parse-wire-parse line {c} h v len =
      let p = parse-Parsed line h in
      subst (λ x. parse m (wire x) ≡ some x) (sym p.made)
        (parse-wire m c.verb c.args
          (record {
            nonempty = p.nonempty;
            solid = p.solid;
            clean = line_text_clean c.verb c.args v p.clean;
          })
          (subst (λ x. request_wire_len x ≤ max_command_line_octets) p.made len))
