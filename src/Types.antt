-- ===== src/Types.antt =====
-- src/types.rs: backend numbers and their bits in the availability bitmaps.
use nntp_proxy.Base.{ℕ, ◌^◌, Option, none, some, ltb, if◌then◌else◌}

-- `usize::BITS` of a 64-bit target; `BackendId::MAX_COUNT` is the same number.
abbrev pub usize_bits : ℕ
usize_bits = 64

pub record BackendId : Type 0 where
  pub index : ℕ

unfoldable pub try_from_index : ℕ → Option BackendId
try_from_index index = if ltb index usize_bits then some (record { index = index }) else none

-- `1usize << index`, for an index below the width of the word.
abbrev pub availability_bit : BackendId → ℕ
availability_bit id = 2 ^ id.index
