-- ===== src/Protocol/Request.antt =====
-- src/protocol/request.rs: request lines, the message id in them, and the request on the wire.
pub mod Trim
pub mod Span
pub mod RoundTrip
use nntp_proxy.Base.{
  ℕ, zero, suc, ◌+◌, ◌-◌, Bool, true, false, not, ◌&&◌, ◌||◌, List, [], ◌∷◌, ◌++◌, Option, none,
  some, ltb, ◌==◌, if◌then◌else◌, Bytes, codes, length, is_empty, take, drop, any, first?, last?,
  position, rposition, is_ascii_whitespace, is_utf8, ok, err,
}
use nntp_proxy.Memchr.{Memchr}
use nntp_proxy.Protocol.Kind.{RequestKind, classify_verb}
use nntp_proxy.Protocol.Metadata.{CacheStatus, CacheEntryMetadata, Completion}
use nntp_proxy.Protocol.MessageId.{is_byte, from_borrowed}

-- `MAX_COMMAND_LINE_OCTETS`
abbrev pub max_command_line_octets : ℕ
max_command_line_octets = 512

abbrev pub is_eol : ℕ → Bool
is_eol b = b == b'\r' || b == b'\n'

unfoldable pub ends_in_eol : Bytes → Bool
ends_in_eol line = elim (last? line) [ none ↦ false | some b ↦ is_eol b ]

-- Each round of the loop drops a byte, so the line's length is fuel enough.
trim_fuel : ℕ → Bytes → Bytes
trim_fuel zero line = line
trim_fuel (suc fuel) line =
    let shorter = trim_fuel fuel (take (length line - 1) line) in
    if ends_in_eol line then shorter else line

unfoldable pub trim_line_end : Bytes → Bytes
unfolding trim_fuel
trim_line_end line = trim_fuel (length line) line

abbrev pub is_not_space : ℕ → Bool
is_not_space b = not (is_ascii_whitespace b)

-- `args[start..end]`
abbrev pub slice : Bytes → ℕ → ℕ → Bytes
slice bs start end = take (end - start) (drop start bs)

-- The tests on the trimmed argument. A lone `<` fails the second test, before the inner slice.
message_id_at : Bytes → ℕ → ℕ → Option (ℕ × ℕ)
message_id_at trimmed start end =
    if not (is_byte b'<' (first? trimmed))
      || not (is_byte b'>' (last? trimmed))
      || any is_ascii_whitespace (take (length trimmed - 2) (drop 1 trimmed))
    then none
    else if not (is_utf8 trimmed)
    then none
    else elim (from_borrowed trimmed) [ ok _ ↦ some (start, end) | err _ ↦ none ]

unfoldable pub find_message_id : Bytes → Option (ℕ × ℕ)
unfolding message_id_at
find_message_id args = elim (position is_not_space args) [
  | none ↦ none
  | some start ↦ elim (rposition is_not_space args) [
    | none ↦ none
    | some last ↦ message_id_at (slice args start (last + 1)) start (last + 1)
  ]
]

pub record RequestLine : Type 0 where
  pub kind : RequestKind
  pub verb : Bytes
  pub args : Bytes
  pub message_id : Option (ℕ × ℕ)

pub record RequestContext : Type 0 where
  pub kind : RequestKind
  pub verb : Bytes
  pub args : Bytes
  pub message_id : Option (ℕ × ℕ)
  pub cache_status : Option CacheStatus
  pub cache_entry : Option CacheEntryMetadata
  pub completion : Option Completion

unfoldable pub from_parts : RequestKind → Bytes → Bytes → Option (ℕ × ℕ) → RequestContext
from_parts kind verb args message_id = record {
  kind = kind;
  verb = verb;
  args = args;
  message_id = message_id;
  cache_status = none;
  cache_entry = none;
  completion = none;
}

unfoldable pub from_verb_args : Bytes → Bytes → RequestContext
unfolding from_parts
from_verb_args verb args = from_parts (classify_verb verb) verb args (find_message_id args)

abbrev concat : List Bytes → Bytes
concat [] = []
concat (part ∷ parts) = part ++ concat parts

unfoldable pub from_verb_arg_slices : Bytes → List Bytes → RequestContext
unfolding from_parts
from_verb_arg_slices verb args =
    let joined = concat args in from_parts (classify_verb verb) verb joined (find_message_id joined)

abbrev pub unwrap_or : Option ℕ → ℕ → ℕ
unwrap_or none d = d
unwrap_or (some n) d = n

module _ (m : Memchr) where
  abbrev pub split_at : Bytes → ℕ
  split_at bytes = unwrap_or (m.memchr2 b' ' b'\t' bytes) (length bytes)

  -- `RequestLine::parse`
  unfoldable pub parse_line : Bytes → RequestLine
  parse_line line =
      let bytes = trim_line_end line in
      let split = split_at bytes in
      let args = if ltb split (length bytes) then drop (split + 1) bytes else [] in
      record {
        kind = classify_verb (take split bytes);
        verb = take split bytes;
        args = args;
        message_id = find_message_id args;
      }

  abbrev from_request_line : RequestLine → RequestContext
  from_request_line line = from_parts line.kind line.verb line.args line.message_id

  -- `RequestContext::parse`
  unfoldable pub parse : Bytes → Option RequestContext
  unfolding from_parts parse_line
  parse line =
      if ltb max_command_line_octets (length line)
      then none
      else if is_empty (parse_line line).verb
      then none
      else some (from_request_line (parse_line line))

-- The bytes that `write_wire_to` writes.
unfoldable pub wire : RequestContext → Bytes
wire r =
    if is_empty r.args then r.verb ++ codes "\r\n" else r.verb ++ (b' ' ∷ (r.args ++ codes "\r\n"))

unfoldable pub request_wire_len : RequestContext → ℕ
request_wire_len r = length r.verb + (if is_empty r.args then 0 else 1) + length r.args + 2
