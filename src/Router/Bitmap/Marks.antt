-- ===== src/Router/Bitmap/Marks.antt =====
-- src/cache/availability.rs and src/router/mod.rs: which slots and backends a bitmap marks.
use Prim.Native.Nat.{bit_and}
use nntp_proxy.Base.{
  ℕ, ◌^◌, ◌≤◌, ◌≡◌, ◌↔◌, refl, ap, ◌∙◌, inl, inr, Bool, true, not, ◌||◌, List, [], ◌∷◌, arith, any,
  ◌==◌, if◌then◌else◌, bit_at, bit_at-bit_or, bit_at-power, bit_at_le, bit_or-power, bit_and-power,
  bit_and_covers, bit_at-nothing, Bool-cases, ==_iff,
}
use nntp_proxy.Router.Bitmap.{
  SuppressedBackends, ArticleAvailability, suppress, contains, record_missing_slot, is_missing_slot,
  should_try_slot, all_exhausted, mask_insert, from_slots_onto, from_slots,
}

-- The calls of `record_missing_slot` and of `suppress`, one after the other.
pub record_all : ArticleAvailability → List ℕ → ArticleAvailability
record_all a [] = a
record_all a (slot ∷ slots) = record_all (record_missing_slot a slot) slots

pub suppress_all : SuppressedBackends → List ℕ → SuppressedBackends
suppress_all s [] = s
suppress_all s (id ∷ ids) = suppress_all (suppress s id) ids

or-step : (p q r : Bool) → q || (p || r) ≡ (p || q) || r
or-step p q r = ground arith

-- After any recordings, a slot is missing exactly if it was before or was recorded, and it may be
-- tried exactly if it is not missing; recording one slot never marks another.
pub record_all-is_missing_slot :
    (slots : List ℕ) (a : ArticleAvailability) (t : ℕ)
    → (is_missing_slot (record_all a slots) t ≡ (any (λ s. s == t) slots || is_missing_slot a t))
      × (should_try_slot (record_all a slots) t ≡ not (is_missing_slot (record_all a slots) t))
unfolding record_all is_missing_slot record_missing_slot
record_all-is_missing_slot [] a t = (refl, unfold should_try_slot in refl)
record_all-is_missing_slot (s ∷ slots) a t =
    let (e, f) = record_all-is_missing_slot slots (record_missing_slot a s) t in
    (
      e
          ∙ ap (λ b. any (λ x. x == t) slots || b) (bit_or-power a.missing s t)
          ∙ or-step (s == t) (any (λ x. x == t) slots) (is_missing_slot a t),
      f,
    )

-- A backend is suppressed exactly if it was before or one of the calls named it.
pub suppress_all-contains :
    (ids : List ℕ) (s : SuppressedBackends) (t : ℕ)
    → contains (suppress_all s ids) t ≡ (any (λ id. id == t) ids || contains s t)
unfolding suppress_all contains suppress
suppress_all-contains [] s t = refl
suppress_all-contains (id ∷ ids) s t =
    suppress_all-contains ids (suppress s id) t
    ∙ ap (λ b. any (λ x. x == t) ids || b) (bit_or-power s.bits id t)
    ∙ or-step (id == t) (any (λ x. x == t) ids) (contains s t)

from_slots_onto-bit_at :
    (slots : List ℕ) (mask k : ℕ)
    → bit_at (from_slots_onto mask slots) k ≡ (if any (λ s. s == k) slots then 1 else bit_at mask k)
unfolding from_slots_onto mask_insert
from_slots_onto-bit_at [] mask k = refl
from_slots_onto-bit_at (s ∷ slots) mask k =
    let e = from_slots_onto-bit_at slots (mask_insert mask s) k in
    let f = bit_at-bit_or k mask (2 ^ s) in
    let g = bit_at-power s k in let h = bit_at_le k mask in ground (arith, e, f, g, h)

missing-bit_at :
    (a : ArticleAvailability) (k : ℕ) → (is_missing_slot a k ≡ true) ↔ (bit_at a.missing k ≡ 1)
unfolding is_missing_slot
missing-bit_at a k =
    let (p, q) = bit_and-power k a.missing in
    let h = bit_at_le k a.missing in ground (arith, p, q, h)

-- The configured slots are exhausted exactly if every one of them is missing, in whatever order
-- and however often the mask names them.
pub all_exhausted-from_slots :
    (a : ArticleAvailability) (slots : List ℕ)
    → (all_exhausted a (from_slots slots) ≡ true)
      ↔ ((k : ℕ) → any (λ s. s == k) slots ≡ true → is_missing_slot a k ≡ true)
unfolding all_exhausted from_slots
all_exhausted-from_slots a slots =
    let mask = from_slots_onto 0 slots in
    let (to, from) = bit_and_covers a.missing mask in
    (
      λ h k m.
          let c = to ((==_iff (bit_and a.missing mask) mask).0 h) k in
          (missing-bit_at a k).1
            (ground (arith, c, m, from_slots_onto-bit_at slots 0 k, bit_at_le k a.missing)),
      λ h. (==_iff (bit_and a.missing mask) mask).1 (from (λ k. cover k (h k))),
    )
  where
    cover :
        (k : ℕ)
        → (any (λ s. s == k) slots ≡ true → is_missing_slot a k ≡ true)
        → bit_at (from_slots_onto 0 slots) k ≤ bit_at a.missing k
    cover k h = elim (Bool-cases (any (λ s. s == k) slots)) [
      | inl e ↦
          let m = (missing-bit_at a k).0 (h e) in
          ground (arith, e, m, from_slots_onto-bit_at slots 0 k)
      | inr e ↦ ground (arith, e, from_slots_onto-bit_at slots 0 k, bit_at-nothing k)
    ]
