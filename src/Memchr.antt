-- ===== src/Memchr.antt =====
-- The byte searches of the `memchr` crate, which the repository only calls: a parameter of the
-- model, with the documented result of each search (the first place where the needle stands).
use nntp_proxy.Base.{
  ℕ, suc, ◌≡◌, refl, true, ◌||◌, [], ◌∷◌, Option, none, some, ◌==◌, Bytes, length, take, bytes_eq,
  position,
}

-- The reference search for a needle: its first occurrence.
unfoldable pub find_first : Bytes → Bytes → Option ℕ
find_first needle [] = elim (bytes_eq needle []) [ true ↦ some 0 | _ ↦ none ]
find_first needle (b ∷ bs) = elim (bytes_eq (take (length needle) (b ∷ bs)) needle) [
  | true ↦ some 0
  | _ ↦ elim (find_first needle bs) [ none ↦ none | some n ↦ some (suc n) ]
]

pub record Memchr : Type 0 where
  pub memchr : ℕ → Bytes → Option ℕ
  pub memchr2 : ℕ → ℕ → Bytes → Option ℕ
  pub find : Bytes → Bytes → Option ℕ
  pub memchr_lem : (b : ℕ) (bs : Bytes) → memchr b bs ≡ position (λ x. x == b) bs
  pub memchr2_lem : (a b : ℕ) (bs : Bytes) → memchr2 a b bs ≡ position (λ x. x == a || x == b) bs
  pub find_lem : (needle bs : Bytes) → find needle bs ≡ find_first needle bs

-- The plain searches meet the assumptions.
abbrev pub plain : Memchr
plain = record {
  memchr = λ b. position (λ x. x == b);
  memchr2 = λ a b. position (λ x. x == a || x == b);
  find = find_first;
  memchr_lem = λ b bs. refl;
  memchr2_lem = λ a b bs. refl;
  find_lem = λ needle bs. refl;
}
