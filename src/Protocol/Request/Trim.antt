-- ===== src/Protocol/Request/Trim.antt =====
-- src/protocol/request.rs: `trim_line_end` drops the line ends at the end, and nothing else.
use nntp_proxy.Base.{
  ℕ, zero, suc, ◌-◌, ◌≤◌, ◌≡◌, refl, ap, subst, sym, ◌∙◌, inl, inr, true, false, [], ◌∷◌, ◌++◌,
  some, arith, Bool-cases, Bytes, codes, length, length-append, length-take, append_assoc,
  append-nil, last?, last?-concat, init, init-concat, init-append, all,
}
use nntp_proxy.Protocol.Request.{is_eol, ends_in_eol, trim_fuel, trim_line_end}

pub trim_line_end_of_eol :
    (bs : Bytes) (b : ℕ) → is_eol b ≡ true → trim_line_end (bs ++ b ∷ []) ≡ trim_line_end bs
unfolding trim_line_end ends_in_eol
trim_line_end_of_eol bs b e =
    let n : length (bs ++ b ∷ []) ≡ suc (length bs) = omega (arith, length-append bs (b ∷ [])) in
    rw n (ground (arith, last?-concat bs b, init-append bs b))

-- A line end after the text changes nothing.
pub trim_line_end-crlf : (bs : Bytes) → trim_line_end (bs ++ codes "\r\n") ≡ trim_line_end bs
trim_line_end-crlf bs =
    ap trim_line_end (sym (append_assoc bs (b'\r' ∷ []) (b'\n' ∷ [])))
    ∙ trim_line_end_of_eol (bs ++ b'\r' ∷ []) b'\n' refl
    ∙ trim_line_end_of_eol bs b'\r' refl

pub trim_line_end_done : (bs : Bytes) → ends_in_eol bs ≡ false → trim_line_end bs ≡ bs
unfolding trim_line_end ends_in_eol
trim_line_end_done [] h = refl
trim_line_end_done (b ∷ bs) h = ground arith

-- `bs` is `kept` with only line ends behind it, and `kept` ends in none.
pub record Trims (bs kept : Bytes) : Type 0 where
  pub dropped : Bytes
  pub splits : bs ≡ kept ++ dropped
  pub line_ends : all is_eol dropped ≡ true
  pub clean : ends_in_eol kept ≡ false

all-concat :
    (bs : Bytes) (b : ℕ) → all is_eol bs ≡ true → is_eol b ≡ true → all is_eol (bs ++ b ∷ []) ≡ true
all-concat [] b h e = ground arith
all-concat (c ∷ bs) b h e = ground (arith, all-concat bs b)

Trims-concat :
    {bs kept : Bytes} (b : ℕ) → is_eol b ≡ true → Trims bs kept → Trims (bs ++ b ∷ []) kept
Trims-concat {kept} b e t = record {
  dropped = t.dropped ++ b ∷ [];
  splits = rw t.splits (append_assoc kept t.dropped (b ∷ []));
  line_ends = all-concat t.dropped b t.line_ends e;
  clean = t.clean;
}

Trims-self : (bs : Bytes) → ends_in_eol bs ≡ false → Trims bs bs
Trims-self bs h = record { dropped = []; splits = sym (append-nil bs); line_ends = refl; clean = h }

ends_in_eol_last :
    (bs : Bytes) → ends_in_eol bs ≡ true → (b : ℕ) × (last? bs ≡ some b) × (is_eol b ≡ true)
unfolding ends_in_eol
ends_in_eol_last bs h = ground arith

trim_fuel-Trims : (n : ℕ) (bs : Bytes) → length bs ≤ n → Trims bs (trim_fuel n bs)
unfolding trim_fuel
trim_fuel-Trims zero [] h = Trims-self [] (unfold ends_in_eol in refl)
trim_fuel-Trims zero (b ∷ bs) h = absurd (omega arith)
trim_fuel-Trims (suc n) bs h = elim (Bool-cases (ends_in_eol bs)) [
  | inr e ↦ rw e (Trims-self bs e)
  | inl e ↦ rw e (
      let (b, f, g) = ends_in_eol_last bs e in
      subst (λ x. Trims x (trim_fuel n (init bs))) (sym (init-concat bs f))
        (Trims-concat b g
          (trim_fuel-Trims n (init bs) (omega (arith, length-take (length bs - 1) bs)))))
]

-- The loop stops with all line ends at the end of the line dropped, and no other byte.
pub trim_line_end-Trims : (bs : Bytes) → Trims bs (trim_line_end bs)
unfolding trim_line_end
trim_line_end-Trims bs = trim_fuel-Trims (length bs) bs (omega arith)
