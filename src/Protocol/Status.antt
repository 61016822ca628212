-- ===== src/Protocol/Status.antt =====
-- src/protocol/response.rs: the three digits that open every NNTP response.
pub mod Codes
use nntp_proxy.Base.{
  ℕ, ◌+◌, ◌*◌, Bool, ◌&&◌, ◌||◌, [], ◌∷◌, Option, none, some, ltb, leb, ◌==◌, if◌then◌else◌, Bytes,
  wrapping_sub,
}

pub record StatusCode : Type 0 where
  pub value : ℕ

-- `StatusCode::MIN` and `StatusCode::MAX`
abbrev pub min_status : ℕ
min_status = 100

abbrev pub max_status : ℕ
max_status = 599

unfoldable pub try_new : ℕ → Option StatusCode
try_new value =
    if leb min_status value && leb value max_status then some (record { value = value }) else none

abbrev pub as_u16 : StatusCode → ℕ
as_u16 s = s.value

unfoldable pub is_success : StatusCode → Bool
is_success s = leb 200 s.value && ltb s.value 400

unfoldable pub is_error : StatusCode → Bool
is_error s = leb 400 s.value && ltb s.value 600

unfoldable pub is_continuation : StatusCode → Bool
is_continuation s = leb 300 s.value && ltb s.value 400

unfoldable pub is_informational : StatusCode → Bool
is_informational s = leb 100 s.value && ltb s.value 200

unfoldable pub is_greeting : StatusCode → Bool
is_greeting s = s.value == 200 || s.value == 201

unfoldable pub requires_auth_credentials : StatusCode → Bool
requires_auth_credentials s = s.value == 381 || s.value == 480

unfoldable pub is_auth_accepted : StatusCode → Bool
is_auth_accepted s = s.value == 281

unfoldable pub is_article_missing : StatusCode → Bool
is_article_missing s = s.value == 430

-- A slice of fewer than three bytes has no status.
unfoldable pub parse : Bytes → Option StatusCode
unfolding try_new
parse (a ∷ b ∷ c ∷ rest) =
    let d0 = wrapping_sub a b'0' in
    let d1 = wrapping_sub b b'0' in
    let d2 = wrapping_sub c b'0' in
    if ltb 9 d0 || ltb 9 d1 || ltb 9 d2 then none else try_new (d0 * 100 + d1 * 10 + d2)
parse _ = none
