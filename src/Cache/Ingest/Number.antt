-- ===== src/Cache/Ingest/Number.antt =====
-- src/cache/article.rs: the number of a status line is read back.
use nntp_proxy.Base.{
  ℕ, zero, suc, ◌+◌, ◌-◌, ◌*◌, ◌/◌, ◌%◌, ◌^◌, ◌<◌, ◌≤◌, ◌≡◌, refl, ◌∙◌, inl, inr, true, false, [],
  ◌∷◌, some, ◌==◌, length, any, All, Bytes, is_utf8, is_utf8-cons, arith, Bool-cases,
}
use native.Mathlib.Nat.{pow-suc}
use nntp_proxy.Cache.Serve.{digits_onto, digits_of}
use nntp_proxy.Cache.Ingest.{parse_digits, parse_u64}

abbrev pub IsDigit : ℕ → Type 0
IsDigit b = (48 ≤ b) × (b ≤ 57)

digits_onto-IsDigit : (k n : ℕ) (acc : Bytes) → All IsDigit acc → All IsDigit (digits_onto k n acc)
unfolding digits_onto
digits_onto-IsDigit zero n acc h = h
digits_onto-IsDigit (suc k) n acc h = elim (Bool-cases (n / 10 == 0)) [
  | inl e ↦ rw e ((omega arith, omega arith), h)
  | inr e ↦
      rw e (digits_onto-IsDigit k (n / 10) ((48 + n % 10) ∷ acc) ((omega arith, omega arith), h))
]

length-digits_onto : (k n : ℕ) (acc : Bytes) → length acc ≤ length (digits_onto k n acc)
unfolding digits_onto
length-digits_onto zero n acc = omega arith
length-digits_onto (suc k) n acc = elim (Bool-cases (n / 10 == 0)) [
  | inl e ↦ rw e (omega arith)
  | inr e ↦ rw e (omega (arith, length-digits_onto k (n / 10) ((48 + n % 10) ∷ acc)))
]

last_digit :
    (v n d : ℕ) (acc : Bytes)
    → 10 * v + (48 + d - 48) ≡ n
    → d < 10
    → n < 2 ^ 64
    → parse_digits v ((48 + d) ∷ acc) ≡ parse_digits n acc
unfolding parse_digits
last_digit v n d acc e l w = ground (arith, e, l, w)

-- The digits that are written for a number make the reader go on from that number.
parse_digits-digits_onto :
    (k n : ℕ) (acc : Bytes)
    → n < 10 ^ suc k
    → n < 2 ^ 64
    → parse_digits 0 (digits_onto (suc k) n acc) ≡ parse_digits n acc
unfolding digits_onto parse_digits
parse_digits-digits_onto zero n acc h w =
    let e : (n / 10 == 0) ≡ true = ground (arith, h) in
    let f : 10 * 0 + (48 + n % 10 - 48) ≡ n = omega (arith, h) in
    rw e (last_digit 0 n (n % 10) acc f (omega arith) w)
parse_digits-digits_onto (suc k) n acc h w = elim (Bool-cases (n / 10 == 0)) [
  | inl e ↦
      let f : 10 * 0 + (48 + n % 10 - 48) ≡ n = ground (arith, e) in
      rw e (last_digit 0 n (n % 10) acc f (omega arith) w)
  | inr e ↦
      let p : 10 ^ suc (suc k) ≡ 10 ^ suc k * 10 = pow-suc 10 (suc k) in
      let f : 10 * (n / 10) + (48 + n % 10 - 48) ≡ n = omega arith in
      rw e (
        parse_digits-digits_onto k (n / 10) ((48 + n % 10) ∷ acc) (omega (arith, p, h))
          (omega (arith, w))
        ∙ last_digit (n / 10) n (n % 10) acc f (omega arith) w)
]

pub digits_of-IsDigit : (n : ℕ) → All IsDigit (digits_of n)
unfolding digits_of
digits_of-IsDigit n = digits_onto-IsDigit 20 n [] tt

length-digits_of : (n : ℕ) → 1 ≤ length (digits_of n)
unfolding digits_of digits_onto
length-digits_of n = elim (Bool-cases (n / 10 == 0)) [
  | inl e ↦ rw e (omega arith)
  | inr e ↦ rw e (omega (arith, length-digits_onto 19 (n / 10) ((48 + n % 10) ∷ [])))
]

parse_u64-digits : (bs : Bytes) → 1 ≤ length bs → All IsDigit bs → parse_u64 bs ≡ parse_digits 0 bs
unfolding parse_u64
parse_u64-digits [] l h = absurd (omega (arith, l))
parse_u64-digits (b ∷ bs) l (h, hs) = let e : (b == b'+') ≡ false = ground (arith, h) in rw e

-- A word is read back from its digits.
pub parse_u64-digits_of : (n : ℕ) → n < 2 ^ 64 → parse_u64 (digits_of n) ≡ some n
parse_u64-digits_of n w =
    parse_u64-digits (digits_of n) (length-digits_of n) (digits_of-IsDigit n) ∙ whole n w
  where
    whole : (n : ℕ) → n < 2 ^ 64 → parse_digits 0 (digits_of n) ≡ some n
    whole n w =
        unfold digits_of parse_digits in parse_digits-digits_onto 19 n [] (omega (arith, w)) w

pub is_utf8-digits : (bs : Bytes) → All IsDigit bs → is_utf8 bs ≡ true
unfolding is_utf8
is_utf8-digits [] h = refl
is_utf8-digits (b ∷ bs) (h, hs) = is_utf8-cons b bs (omega (arith, h)) ∙ is_utf8-digits bs hs

pub none_among : (c : ℕ) (bs : Bytes) → All IsDigit bs → c < 48 → any (λ x. x == c) bs ≡ false
none_among c [] h l = refl
none_among c (b ∷ bs) (h, hs) l = ground (arith, h, l, none_among c bs hs l)
