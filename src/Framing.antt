-- ===== src/Framing.antt =====
-- src/session/multiline_framing.rs: where a multiline response ends in the bytes of a backend.
pub mod Tail
pub mod Scan
pub mod Chunks
pub mod Policy
use nntp_proxy.Base.{
  ℕ, zero, suc, ◌+◌, ◌-◌, Bool, true, false, ◌&&◌, ◌||◌, List, [], ◌∷◌, ◌++◌, Option, none, some,
  ltb, leb, ◌==◌, if◌then◌else◌, Bytes, bytes_eq, codes, length, is_empty, take, drop, all, within,
  Result, ok, err,
}
use nntp_proxy.Memchr.{Memchr}
use nntp_proxy.Protocol.Status

abbrev pub terminator : Bytes
terminator = codes "\r\n.\r\n"

abbrev pub dot_terminator : Bytes
dot_terminator = codes ".\r\n"

-- `TERMINATOR_TAIL_SIZE`
abbrev pub tail_size : ℕ
tail_size = 4

-- `PackedPendingBytesPolicy`
pub data BytesPolicy : Type 0 where
  reject allow_if_status_prefix : BytesPolicy

pub data FramingError : Type 0 where
  unexpected_trailing_response_bytes invalid_frame_metadata backend_eof io : FramingError
  captured_response_too_large : ℕ → ℕ → FramingError

-- `data` is the array of four bytes, of which the first `len` are in use.
pub record MultilineFramer : Type 0 where
  pub bytes : Bytes
  pub len : ℕ

abbrev pub default_framer : MultilineFramer
default_framer = record { bytes = 0 ∷ 0 ∷ 0 ∷ 0 ∷ []; len = 0 }

-- The bytes in use.
abbrev pub tail : MultilineFramer → Bytes
tail f = take f.len f.bytes

-- `bytes[at..at + source.len()].copy_from_slice(source)`
abbrev pub copy_at : ℕ → Bytes → Bytes → Bytes
copy_at at source bytes = take at bytes ++ (source ++ drop (at + length source) bytes)

-- The branch for a chunk that is shorter than the tail.
update_short : MultilineFramer → Bytes → MultilineFramer
update_short f chunk =
    let combined_len = f.len + length chunk in
    let keep = tail_size - length chunk in
    let moved = copy_at 0 (take keep (drop (f.len - keep) f.bytes)) f.bytes in
    if leb tail_size combined_len
    then record { bytes = copy_at keep chunk moved; len = tail_size }
    else record { bytes = copy_at f.len chunk f.bytes; len = combined_len }

unfoldable pub update : MultilineFramer → Bytes → MultilineFramer
unfolding update_short
update f chunk =
    if leb tail_size (length chunk)
    then record { bytes = drop (length chunk - tail_size) chunk; len = tail_size }
    else if is_empty chunk
    then f
    else update_short f chunk

-- `tail[tail_len - n..tail_len]`
abbrev pub last_bytes : ℕ → Bytes → Bytes
last_bytes n bs = drop (length bs - n) bs

pub find_spanning_terminator : Bytes → Bytes → Option ℕ
find_spanning_terminator tail current =
    if ltb (length tail) 1 || ltb (length current) 1
    then none
    else if leb 4 (length current)
        && bytes_eq (last_bytes 1 tail) (codes "\r")
        && bytes_eq (take 4 current) (codes "\n.\r\n")
    then some 4
    else if leb 2 (length tail)
        && leb 3 (length current)
        && bytes_eq (last_bytes 2 tail) (codes "\r\n")
        && bytes_eq (take 3 current) (codes ".\r\n")
    then some 3
    else if leb 3 (length tail)
        && leb 2 (length current)
        && bytes_eq (last_bytes 3 tail) (codes "\r\n.")
        && bytes_eq (take 2 current) (codes "\r\n")
    then some 2
    else if leb 4 (length tail)
        && bytes_eq (last_bytes 4 tail) (codes "\r\n.\r")
        && bytes_eq (take 1 current) (codes "\n")
    then some 1
    else none

abbrev pub or_else : Option ℕ → Option ℕ → Option ℕ
or_else (some n) other = some n
or_else none other = other

-- The method of the same name; an empty tail has no boundary to span.
unfoldable pub find_spanning : MultilineFramer → Bytes → Option ℕ
unfolding find_spanning_terminator
find_spanning f chunk = if f.len == 0 then none else find_spanning_terminator (tail f) chunk

abbrev pub head? : List ℕ → Option ℕ
head? [] = none
head? (e ∷ es) = some e

-- The ends of the terminators that a search finds one after the other; each round starts behind
-- the last find, so the length of the data is fuel enough.
pub ends_fuel : (Bytes → Option ℕ) → ℕ → ℕ → Bytes → List ℕ
ends_fuel find zero offset remaining = []
ends_fuel find (suc fuel) offset remaining = elim (find remaining) [
  | none ↦ []
  | some start ↦
      (offset + start + length terminator)
      ∷ ends_fuel find fuel (offset + start + length terminator)
          (drop (start + length terminator) remaining)
]

module _ (m : Memchr) where
  pub terminator_ends_in_chunk : Bytes → List ℕ
  unfolding ends_fuel
  terminator_ends_in_chunk bs = ends_fuel (m.find terminator) (suc (length bs)) 0 bs

  unfoldable pub next_terminator_end : MultilineFramer → Bytes → Option ℕ
  unfolding find_spanning terminator_ends_in_chunk
  next_terminator_end f chunk =
      or_else (find_spanning f chunk) (head? (terminator_ends_in_chunk chunk))

  -- The framer is updated on a miss only.
  pub advance_to_next_terminator_end : MultilineFramer → Bytes → MultilineFramer × Option ℕ
  advance_to_next_terminator_end f chunk = elim (next_terminator_end f chunk) [
    | none ↦ (update f chunk, none)
    | some end ↦ (f, some end)
  ]

  pub status_line_len : Bytes → Option ℕ
  status_line_len bs = elim (m.memchr b'\n' bs) [ none ↦ none | some pos ↦ some (pos + 1) ]

  abbrev is_some_status : Option Status.StatusCode → Bool
  is_some_status none = false
  is_some_status (some s) = true

  pub plausible_status_prefix : Bytes → Bool
  unfolding status_line_len
  plausible_status_prefix [] = true
  plausible_status_prefix (b ∷ bs) =
      if within b'1' b'5' b
      then elim (status_line_len (b ∷ bs)) [
        | some end ↦ is_some_status (Status.parse (take end (b ∷ bs)))
        | none ↦ all (within b'0' b'9') (take 3 (b ∷ bs))
      ]
      else false

  abbrev allowed : BytesPolicy → Bytes → Bool
  allowed BytesPolicy.reject suffix = false
  allowed BytesPolicy.allow_if_status_prefix suffix = plausible_status_prefix suffix

  abbrev rejects : BytesPolicy → Bool
  rejects BytesPolicy.reject = true
  rejects BytesPolicy.allow_if_status_prefix = false

  -- The loop over the ends in the chunk; `none` is its fall through.
  pub split_ends : BytesPolicy → Bytes → List ℕ → Option (Result FramingError ℕ)
  unfolding plausible_status_prefix
  split_ends policy chunk [] = none
  split_ends policy chunk (end ∷ ends) =
      let later = split_ends policy chunk ends in
      if end == length chunk
      then some (ok end)
      else if rejects policy
      then some (err unexpected_trailing_response_bytes)
      else if allowed policy (drop end chunk)
      then some (ok end)
      else later

  -- The part before the loop, on what `find_spanning_terminator` returned.
  pub split_spanning : BytesPolicy → Bytes → Option ℕ → Option (Result FramingError ℕ)
  unfolding plausible_status_prefix
  split_spanning policy chunk none = none
  split_spanning policy chunk (some end) =
      if end == length chunk || allowed policy (drop end chunk)
      then some (ok end)
      else if rejects policy
      then some (err unexpected_trailing_response_bytes)
      else none

  abbrev pub first_result :
      Option (Result FramingError ℕ)
      → Option (Result FramingError ℕ)
      → Option (Result FramingError ℕ)
  first_result (some r) other = some r
  first_result none other = other

  -- The bytes that were consumed, or `none` with the framer that waits for more of them.
  pub split_chunk :
      MultilineFramer → Bytes → BytesPolicy → Result FramingError (MultilineFramer × Option ℕ)
  unfolding find_spanning split_spanning split_ends terminator_ends_in_chunk
  split_chunk f chunk policy =
      elim (first_result (split_spanning policy chunk (find_spanning f chunk))
        (split_ends policy chunk (terminator_ends_in_chunk chunk))) [
          | some (ok end) ↦ ok (f, some end)
          | some (err e) ↦ err e
          | none ↦ ok (update f chunk, none)
        ]
