-- ===== src/Cache/Ingest/Lines.antt =====
-- src/session/multiline_framing.rs: where the terminator and the blank line stand behind lines.
use nntp_proxy.Base.{
  ℕ, suc, ◌+◌, ◌≡◌, refl, ap, sym, ◌∙◌, Bool, true, false, ◌&&◌, List, [], ◌∷◌, ◌++◌, Option, none,
  some, ◌==◌, if◌then◌else◌, length, length-append, append_assoc, All, Bytes, bytes_eq, codes,
  arith,
}
use nntp_proxy.Memchr.{find_first}
use nntp_proxy.Framing.{terminator, dot_terminator}
use nntp_proxy.Framing.Scan.{plus}
use nntp_proxy.Framing.Scan.Window.{starts}
use nntp_proxy.Framing.Scan.Find.{find_first-cons}

abbrev pub no_cr : Bytes → Bool
no_cr [] = true
no_cr (b ∷ bs) = (if b == b'\r' then false else true) && no_cr bs

-- A line of a section without its line end: it holds no carriage return, and is not a lone dot.
abbrev pub IsText : Bytes → Type 0
IsText l = (no_cr l ≡ true) × (bytes_eq l (codes ".") ≡ false)

-- A line of the headers is not empty.
abbrev pub IsHeader : Bytes → Type 0
IsHeader [] = ⊥
IsHeader (b ∷ bs) = IsText (b ∷ bs)

abbrev pub unlines : List Bytes → Bytes
unlines [] = []
unlines (l ∷ ls) = l ++ (b'\r' ∷ b'\n' ∷ unlines ls)

plus-plus : (a b : ℕ) (o : Option ℕ) → plus a (plus b o) ≡ plus (a + b) o
plus-plus a b none = refl
plus-plus a b (some n) = ap some (omega arith)

plus_zero : (o : Option ℕ) → plus 0 o ≡ o
plus_zero none = refl
plus_zero (some n) = ap some (omega arith)

-- A needle that opens with a carriage return does not begin inside a text without one.
pub find_first_skip :
    (needle l rest : Bytes)
    → no_cr l ≡ true
    → find_first (b'\r' ∷ needle) (l ++ rest) ≡ plus (length l) (find_first (b'\r' ∷ needle) rest)
find_first_skip needle [] rest h = sym (plus_zero (find_first (b'\r' ∷ needle) rest))
find_first_skip needle (b ∷ l) rest h =
    let e : (b == b'\r') ≡ false = ground (arith, h) in
    let k : no_cr l ≡ true = ground (arith, h) in
    find_first-cons (b'\r' ∷ needle) b (l ++ rest)
    ∙ (rw e refl)
    ∙ ap (plus 1) (find_first_skip needle l rest k)
    ∙ plus-plus 1 (length l) (find_first (b'\r' ∷ needle) rest)
    ∙ ap (λ n. plus n (find_first (b'\r' ∷ needle) rest)) (omega arith)

-- Past a line end at which the needle does not begin.
skip_crlf :
    (needle rest : Bytes)
    → starts (b'\r' ∷ b'\n' ∷ needle) (b'\r' ∷ b'\n' ∷ rest) ≡ false
    → find_first (b'\r' ∷ b'\n' ∷ needle) (b'\r' ∷ b'\n' ∷ rest)
      ≡ plus 2 (find_first (b'\r' ∷ b'\n' ∷ needle) rest)
skip_crlf needle rest h =
    find_first-cons (b'\r' ∷ b'\n' ∷ needle) b'\r' (b'\n' ∷ rest)
    ∙ (rw h refl)
    ∙ ap (plus 1) (find_first-cons (b'\r' ∷ b'\n' ∷ needle) b'\n' rest)
    ∙ plus-plus 1 1 (find_first (b'\r' ∷ b'\n' ∷ needle) rest)

pub hit_crlf :
    (needle rest : Bytes)
    → starts needle rest ≡ true
    → find_first (b'\r' ∷ b'\n' ∷ needle) (b'\r' ∷ b'\n' ∷ rest) ≡ some 0
hit_crlf needle rest h = find_first-cons (b'\r' ∷ b'\n' ∷ needle) b'\r' (b'\n' ∷ rest) ∙ (rw h refl)

not_dot : (l rest : Bytes) → IsText l → starts dot_terminator (l ++ (b'\r' ∷ rest)) ≡ false
unfolding bytes_eq
not_dot [] rest (h, k) = refl
not_dot (b ∷ []) rest (h, k) = ground (arith, h, k)
not_dot (b ∷ c ∷ l) rest (h, k) = ground (arith, h, k)

-- The terminator stands behind the last line.
terminator_behind :
    (ls : List Bytes) (rest : Bytes)
    → All IsText ls
    → find_first terminator (b'\r' ∷ b'\n' ∷ (unlines ls ++ (dot_terminator ++ rest)))
      ≡ some (length (unlines ls))
terminator_behind [] rest h = hit_crlf dot_terminator (dot_terminator ++ rest) refl
terminator_behind (l ∷ ls) rest (h, hs) =
    ap (λ t. find_first terminator (b'\r' ∷ b'\n' ∷ t))
      (append_assoc l (b'\r' ∷ b'\n' ∷ unlines ls) (dot_terminator ++ rest))
    ∙ skip_crlf dot_terminator (l ++ (b'\r' ∷ b'\n' ∷ (unlines ls ++ (dot_terminator ++ rest))))
        (not_dot l (b'\n' ∷ (unlines ls ++ (dot_terminator ++ rest))) h)
    ∙ ap (plus 2) (
        find_first_skip (b'\n' ∷ dot_terminator) l
          (b'\r' ∷ b'\n' ∷ (unlines ls ++ (dot_terminator ++ rest))) h.0
        ∙ ap (plus (length l)) (terminator_behind ls rest hs))
    ∙ ap some (omega (arith, length-append l (b'\r' ∷ b'\n' ∷ unlines ls)))

pub lines_end :
    (l : Bytes) (ls : List Bytes)
    → IsText l
    → All IsText ls
    → find_first terminator (unlines (l ∷ ls) ++ dot_terminator)
      ≡ some (length l + length (unlines ls))
lines_end l ls h hs =
    ap (find_first terminator) (append_assoc l (b'\r' ∷ b'\n' ∷ unlines ls) dot_terminator)
    ∙ find_first_skip (b'\n' ∷ dot_terminator) l (b'\r' ∷ b'\n' ∷ (unlines ls ++ dot_terminator))
        h.0
    ∙ ap (plus (length l)) (terminator_behind ls [] hs)
    ∙ ap some (omega arith)

pub length-wrapped :
    (l : Bytes) (ls : List Bytes)
    → length (unlines (l ∷ ls) ++ dot_terminator) ≡ length l + length (unlines ls) + 5
length-wrapped l ls = omega (
  arith,
  length-append (unlines (l ∷ ls)) dot_terminator,
  length-append l (b'\r' ∷ b'\n' ∷ unlines ls),
)

-- The blank line stands behind the last header.
blank_behind :
    (hs : List Bytes) (text : Bytes)
    → All IsHeader hs
    → find_first (codes "\r\n\r\n") (b'\r' ∷ b'\n' ∷ (unlines hs ++ (codes "\r\n" ++ text)))
      ≡ some (length (unlines hs))
blank_behind [] text h = hit_crlf (codes "\r\n") (codes "\r\n" ++ text) refl
blank_behind ([] ∷ hs) text (h, ks) = absurd h
blank_behind ((b ∷ l) ∷ hs) text (h, ks) =
    let rest = unlines hs ++ (codes "\r\n" ++ text) in
    let e : starts (codes "\r\n") ((b ∷ l) ++ (b'\r' ∷ b'\n' ∷ rest)) ≡ false = ground (arith, h) in
    ap (λ t. find_first (codes "\r\n\r\n") (b'\r' ∷ b'\n' ∷ t))
      (append_assoc (b ∷ l) (b'\r' ∷ b'\n' ∷ unlines hs) (codes "\r\n" ++ text))
    ∙ skip_crlf (codes "\r\n") ((b ∷ l) ++ (b'\r' ∷ b'\n' ∷ rest)) e
    ∙ ap (plus 2) (
        find_first_skip (codes "\n\r\n") (b ∷ l) (b'\r' ∷ b'\n' ∷ rest) h.0
        ∙ ap (plus (suc (length l))) (blank_behind hs text ks))
    ∙ ap some (omega (arith, length-append (b ∷ l) (b'\r' ∷ b'\n' ∷ unlines hs)))

pub headers_end :
    (l : Bytes) (hs : List Bytes) (text : Bytes)
    → IsHeader l
    → All IsHeader hs
    → find_first (codes "\r\n\r\n") (unlines (l ∷ hs) ++ (codes "\r\n" ++ text))
      ≡ some (length l + length (unlines hs))
headers_end [] hs text h ks = absurd h
headers_end (b ∷ l) hs text h ks =
    ap (find_first (codes "\r\n\r\n"))
      (append_assoc (b ∷ l) (b'\r' ∷ b'\n' ∷ unlines hs) (codes "\r\n" ++ text))
    ∙ find_first_skip (codes "\n\r\n") (b ∷ l)
        (b'\r' ∷ b'\n' ∷ (unlines hs ++ (codes "\r\n" ++ text))) h.0
    ∙ ap (plus (suc (length l))) (blank_behind hs text ks)
    ∙ ap some (omega arith)
