-- ===== src/Cache/Ingest/StatusLine.antt =====
-- src/cache/article.rs: the status line of a served response is read back.
use nntp_proxy.Base.{
  ℕ, ◌+◌, ◌<◌, ◌^◌, ◌≡◌, refl, ap, sym, ◌∙◌, true, false, [], ◌∷◌, ◌++◌, Option, none, some, leb,
  ◌==◌, length, length-append, append_assoc, take, drop, take-length-append, drop-length-append,
  drop-length-append_suc, position-append, All, Bytes, codes, arith,
}
use nntp_proxy.Memchr.{Memchr}
use nntp_proxy.Framing.Scan.{plus}
use nntp_proxy.Cache.Serve.{digits_of, push_slice, status_line_new}
use nntp_proxy.Cache.Ingest.{
  parse_article_number, captured_payload_body_for_status, parsed, parse_split, parse_payload,
}
use nntp_proxy.Cache.Ingest.Number.{
  IsDigit, parse_u64-digits_of, digits_of-IsDigit, is_utf8-digits, none_among,
}
use nntp_proxy.Cache.Ingest.Lines.{no_cr, find_first_skip, hit_crlf}

push_some : (line part made : Bytes) → push_slice (some line) part ≡ some made → made ≡ line ++ part
unfolding push_slice
push_some line part made h = ground (arith, h)

push_inv :
    (o : Option Bytes) (part made : Bytes)
    → push_slice o part ≡ some made
    → (line : Bytes) × (o ≡ some line) × (made ≡ line ++ part)
push_inv none part made h = unfold push_slice in absurd (cc h)
push_inv (some line) part made h = (line, refl, push_some line part made h)

-- The text of the line that fits.
pub line_text :
    (code number : ℕ) (message_id line : Bytes)
    → status_line_new code number message_id ≡ some line
    → line
      ≡ digits_of code
        ++ (codes " " ++ (digits_of number ++ (codes " " ++ (message_id ++ codes "\r\n"))))
unfolding status_line_new
line_text code number message_id line h =
    let (l5, h5, e5) = push_inv _ (codes "\r\n") line h in
    let (l4, h4, e4) = push_inv _ message_id l5 h5 in
    let (l3, h3, e3) = push_inv _ (codes " ") l4 h4 in
    let (l2, h2, e2) = push_inv _ (digits_of number) l3 h3 in
    let (l1, h1, e1) = push_inv _ (codes " ") l2 h2 in
    let e0 = push_some [] (digits_of code) l1 h1 in
    let all : line
        ≡ ((((digits_of code ++ codes " ") ++ digits_of number) ++ codes " ") ++ message_id)
          ++ codes "\r\n" =
      e5
      ∙ ap (λ t. t ++ codes "\r\n")
          (e4
            ∙ ap (λ t. t ++ message_id)
                (e3
                  ∙ ap (λ t. t ++ codes " ")
                      (e2 ∙ ap (λ t. t ++ digits_of number) (e1 ∙ ap (λ t. t ++ codes " ") e0)))) in
    all ∙ simp append_assoc

-- The line without its end holds no carriage return.
no_cr-append : (a b : Bytes) → no_cr a ≡ true → no_cr b ≡ true → no_cr (a ++ b) ≡ true
no_cr-append [] b h k = k
no_cr-append (x ∷ a) b h k = ground (arith, h, k, no_cr-append a b)

no_cr-digits : (bs : Bytes) → All IsDigit bs → no_cr bs ≡ true
no_cr-digits [] h = refl
no_cr-digits (b ∷ bs) (h, hs) = ground (arith, h, no_cr-digits bs hs)

abbrev pub line_of : ℕ → ℕ → Bytes → Bytes
line_of code number message_id =
    digits_of code ++ (codes " " ++ (digits_of number ++ (codes " " ++ message_id)))

module _ (m : Memchr) where
  parse_article_number-line :
      (code number : ℕ) (message_id rest : Bytes)
      → length (digits_of code) ≡ 3
      → number < 2 ^ 64
      → parse_article_number m
          (digits_of code ++ (codes " " ++ (digits_of number ++ (codes " " ++ rest))))
        ≡ some number
  unfolding parse_article_number
  parse_article_number-line code number message_id rest c n =
      let text = digits_of number ++ (codes " " ++ rest) in
      let four : 4 ≡ length (digits_of code) + 1 = omega (arith, c) in
      let d : drop 4 (digits_of code ++ (codes " " ++ text)) ≡ text =
        ap (λ k. drop k (digits_of code ++ (codes " " ++ text))) four
        ∙ drop-length-append_suc (digits_of code) b' ' text in
      let p : m.memchr b' ' text ≡ some (length (digits_of number)) =
        m.memchr_lem b' ' text
        ∙ position-append (λ x. x == b' ') (digits_of number) b' ' rest
            (none_among b' ' (digits_of number) (digits_of-IsDigit number) (omega arith)) refl in
      let l : leb 4 (length (digits_of code ++ (codes " " ++ text))) ≡ true =
        ground (arith, c, length-append (digits_of code) (codes " " ++ text)) in
      rw
        (
          l,
          d,
          p,
          take-length-append (digits_of number) (codes " " ++ rest),
          is_utf8-digits (digits_of number) (digits_of-IsDigit number),
        )
        (parse_u64-digits_of number n)

  -- The response is split behind its line, of which the number is read.
  pub parse_payload-line :
      (code number : ℕ) (message_id payload : Bytes)
      → length (digits_of code) ≡ 3
      → (code == 430) ≡ false
      → number < 2 ^ 64
      → no_cr message_id ≡ true
      → parse_payload m
          (record { value = code })
          (line_of code number message_id ++ (codes "\r\n" ++ payload))
        ≡ parsed m code (some number) (captured_payload_body_for_status m code payload)
  unfolding parse_payload parse_split
  parse_payload-line code number message_id payload c k n h =
      let line = line_of code number message_id in
      let clean : no_cr line ≡ true =
        no_cr-append (digits_of code) _ (no_cr-digits (digits_of code) (digits_of-IsDigit code)) (
          no_cr-append (digits_of number) _
            (no_cr-digits (digits_of number) (digits_of-IsDigit number)) h) in
      let buffer = line ++ (codes "\r\n" ++ payload) in
      let f : m.find (codes "\r\n") buffer ≡ some (length line) =
        m.find_lem (codes "\r\n") buffer
        ∙ find_first_skip (codes "\n") line (codes "\r\n" ++ payload) clean
        ∙ ap (plus (length line)) (hit_crlf [] payload refl)
        ∙ ap some (omega arith) in
      let whole : buffer ≡ (line ++ codes "\r\n") ++ payload =
        sym (append_assoc line (codes "\r\n") payload) in
      let l : length line + 2 ≡ length (line ++ codes "\r\n") =
        omega (arith, length-append line (codes "\r\n")) in
      let t : take (length line + 2) buffer ≡ line ++ codes "\r\n" =
        ap (λ i. take i buffer) l
        ∙ ap (take (length (line ++ codes "\r\n"))) whole
        ∙ take-length-append (line ++ codes "\r\n") payload in
      let d : drop (length line + 2) buffer ≡ payload =
        ap (λ i. drop i buffer) l
        ∙ ap (drop (length (line ++ codes "\r\n"))) whole
        ∙ drop-length-append (line ++ codes "\r\n") payload in
      let e : line ++ codes "\r\n"
          ≡ digits_of code
            ++ (codes " " ++ (digits_of number ++ (codes " " ++ (message_id ++ codes "\r\n")))) =
        simp append_assoc in
      let a : parse_article_number m (line ++ codes "\r\n") ≡ some number =
        ap (parse_article_number m) e
        ∙ parse_article_number-line code number message_id (message_id ++ codes "\r\n") c n in
      rw (k, f, t, d, a)
