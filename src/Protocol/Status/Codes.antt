-- ===== src/Protocol/Status/Codes.antt =====
-- src/protocol/response.rs: what `StatusCode::parse` accepts, and the status classes.
use nntp_proxy.Base.{
  ℕ, ◌+◌, ◌/◌, ◌%◌, ◌≤◌, ◌<◌, ◌≡◌, ◌⊎◌, ◌↔◌, true, false, ◌∷◌, some, arith, Bytes,
}
use nntp_proxy.Protocol.Status.{
  StatusCode, min_status, max_status, parse, is_success, is_error, is_informational,
}

-- The three digits of a code, as they stand on the wire.
abbrev pub digits : ℕ → Bytes → Bytes
digits n rest = (48 + n / 100) ∷ (48 + n / 10 % 10) ∷ (48 + n % 10) ∷ rest

-- Every code in 100..=599 is read back from its three digits, whatever follows them.
pub parse-digits :
    (n : ℕ) (rest : Bytes)
    → min_status ≤ n
    → n ≤ max_status
    → parse (digits n rest) ≡ some (record { value = n })
unfolding parse
parse-digits n rest lo hi = ground arith

-- Whatever `parse` returns lies in 100..=599, and the first three bytes are its decimal digits.
pub parse_sound :
    (a b c : ℕ) (rest : Bytes) {s : StatusCode}
    → a < 256
    → b < 256
    → c < 256
    → parse (a ∷ b ∷ c ∷ rest) ≡ some s
    → (min_status ≤ s.value) × (s.value ≤ max_status) × (a ∷ b ∷ c ∷ rest ≡ digits s.value rest)
unfolding parse
parse_sound a b c rest ha hb hc h = ground arith

-- A status that `parse` returns is no error exactly if it is informational or a success.
pub parse_classes :
    (bs : Bytes) {s : StatusCode}
    → parse bs ≡ some s
    → (is_error s ≡ false) ↔ ((is_informational s ≡ true) ⊎ (is_success s ≡ true))
unfolding parse is_error is_success is_informational
parse_classes (a ∷ b ∷ c ∷ rest) h = ground arith
parse_classes _ h = ground arith
