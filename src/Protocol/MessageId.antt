-- ===== src/Protocol/MessageId.antt =====
-- src/types/protocol.rs: message ids, and the errors of src/types/validated.rs that they raise.
pub mod Valid
use Prim.Native.String.{String}
use nntp_proxy.Base.{
  ℕ, ◌-◌, ◌≤◌, ◌≢◌, ◌≡◌, Bool, true, false, not, ◌&&◌, ◌||◌, [], ◌∷◌, ◌++◌, Option, none, some,
  ◌==◌, if◌then◌else◌, Bytes, within, length, take, drop, any, All, first?, last?, Result, ok, err,
  ◌>>=◌,
}

pub data ValidationError : Type 0 where
  empty_host_name empty_server_name invalid_port empty_config_path : ValidationError
  empty_username empty_password : ValidationError
  invalid_host_name invalid_message_id : String → ValidationError

-- `MIN_MESSAGE_ID_OCTETS` and `MAX_MESSAGE_ID_OCTETS`
abbrev pub min_octets : ℕ
min_octets = 3

abbrev pub max_octets : ℕ
max_octets = 250

-- `MessageId` over its text. The two wrappers and the choice of an owned or a borrowed text are
-- one record here.
pub record MessageId : Type 0 where
  pub text : Bytes

abbrev pub is_byte : ℕ → Option ℕ → Bool
is_byte b none = false
is_byte b (some c) = c == b

-- `bytes[1..bytes.len() - 1]`
abbrev pub inner : Bytes → Bytes
inner bytes = take (length bytes - 2) (drop 1 bytes)

abbrev pub is_refused : ℕ → Bool
is_refused byte = not (within 0x21 0x7E byte) || byte == b'>'

unfoldable pub validate : Bytes → Result ValidationError (Unit {0})
validate bytes =
    if not (within min_octets max_octets (length bytes))
      || not (is_byte b'<' (first? bytes))
      || not (is_byte b'>' (last? bytes))
    then err (invalid_message_id "must be 3..=250 printable US-ASCII octets enclosed in <...>")
    else if any is_refused (inner bytes)
    then err (invalid_message_id "must contain only printable US-ASCII except >")
    else ok tt

-- `MessageId::new` and `MessageId::from_borrowed`
unfoldable pub from_borrowed : Bytes → Result ValidationError MessageId
from_borrowed s = validate s >>= λ _. ok (record { text = s })

abbrev pub has_angle_brackets : Bytes → Bool
has_angle_brackets s = is_byte b'<' (first? s) && is_byte b'>' (last? s)

unfoldable pub from_str_or_wrap : Bytes → Result ValidationError MessageId
from_str_or_wrap [] = err (invalid_message_id "empty")
from_str_or_wrap (b ∷ bs) =
    from_borrowed (if has_angle_brackets (b ∷ bs) then b ∷ bs else b'<' ∷ ((b ∷ bs) ++ b'>' ∷ []))

abbrev strip_prefix : ℕ → Bytes → Option Bytes
strip_prefix c [] = none
strip_prefix c (b ∷ bs) = if b == c then some bs else none

abbrev strip_suffix : ℕ → Bytes → Option Bytes
strip_suffix c bs = if is_byte c (last? bs) then some (take (length bs - 1) bs) else none

-- `none` is the panic of `expect`.
pub without_brackets : MessageId → Option Bytes
without_brackets id = elim (strip_prefix b'<' id.text) [
  | none ↦ none
  | some value ↦ strip_suffix b'>' value
]

pub record IsPrintable (byte : ℕ) : Type 0 where
  pub above : 0x21 ≤ byte
  pub below : byte ≤ 0x7E
  pub open_ended : byte ≢ b'>'

-- What a message id is: up to 248 printable bytes between angle brackets, none of them `>`.
pub record IsMessageId (s : Bytes) : Type 0 where
  pub body : Bytes
  pub encloses : s ≡ b'<' ∷ (body ++ b'>' ∷ [])
  pub printable : All IsPrintable body
  pub nonempty : 1 ≤ length body
  pub short : length body ≤ 248
