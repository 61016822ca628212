-- ===== src/Router/Bitmap.antt =====
-- src/router/mod.rs, src/cache/availability.rs and src/cache/availability_identity.rs: bitmaps of
-- backends and of provider slots.
pub mod Marks
pub mod Clear
use Prim.Native.Nat.{bit_and, bit_or}
use nntp_proxy.Base.{
  ℕ, ◌-◌, ◌^◌, Bool, not, List, [], ◌∷◌, Option, none, some, ltb, ◌==◌, if◌then◌else◌,
}
use nntp_proxy.Types.{usize_bits}

pub record SuppressedBackends : Type 0 where
  pub bits : ℕ

unfoldable pub suppress : SuppressedBackends → ℕ → SuppressedBackends
suppress s id = record { bits = bit_or s.bits (2 ^ id) }

unfoldable pub contains : SuppressedBackends → ℕ → Bool
contains s id = not (bit_and s.bits (2 ^ id) == 0)

-- `AvailabilitySlot::new`
unfoldable pub slot_new : ℕ → Option ℕ
slot_new index = if ltb index usize_bits then some index else none

-- `AvailabilitySlot::bit`, for a slot below the width of the word.
abbrev pub bit : ℕ → ℕ
bit slot = 2 ^ slot

pub record ArticleAvailability : Type 0 where
  pub missing : ℕ

unfoldable pub record_missing_slot : ArticleAvailability → ℕ → ArticleAvailability
record_missing_slot a slot = record { missing = bit_or a.missing (bit slot) }

unfoldable pub is_missing_slot : ArticleAvailability → ℕ → Bool
is_missing_slot a slot = not (bit_and a.missing (bit slot) == 0)

unfoldable pub should_try_slot : ArticleAvailability → ℕ → Bool
unfolding is_missing_slot
should_try_slot a slot = not (is_missing_slot a slot)

-- `missing_bits &= !slot.bit()` on words of the target.
unfoldable pub clear_slot : ℕ → ℕ → ℕ
clear_slot bits slot = bit_and bits (2 ^ usize_bits - 1 - bit slot)

unfoldable pub all_exhausted : ArticleAvailability → ℕ → Bool
all_exhausted a configured = bit_and a.missing configured == configured

-- `AvailabilityMask::insert` and `AvailabilityMask::from_slots`
unfoldable pub mask_insert : ℕ → ℕ → ℕ
mask_insert mask slot = bit_or mask (bit slot)

from_slots_onto : ℕ → List ℕ → ℕ
unfolding mask_insert
from_slots_onto mask [] = mask
from_slots_onto mask (slot ∷ slots) = from_slots_onto (mask_insert mask slot) slots

unfoldable pub from_slots : List ℕ → ℕ
unfolding from_slots_onto
from_slots slots = from_slots_onto 0 slots
