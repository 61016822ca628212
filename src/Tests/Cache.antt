-- ===== src/Tests/Cache.antt =====
-- src/cache/ttl.rs, src/session/mode_state.rs and the bitmaps at concrete values.
use nntp_proxy.Base.{ℕ, ◌≡◌, ◌↔◌, refl, true, [], ◌∷◌, any, ◌==◌}
use nntp_proxy.Cache.Ttl.{is_expired}
use nntp_proxy.Router.Bitmap.{
  SuppressedBackends, ArticleAvailability, is_missing_slot, all_exhausted, from_slots,
}
use nntp_proxy.Router.Bitmap.Marks.{all_exhausted-from_slots}

expired : is_expired 9000 1000 1000 2 ≡ true
unfolding is_expired
expired = refl

abbrev fresh_article : ArticleAvailability
fresh_article = record { missing = 0 }

abbrev no_backends : SuppressedBackends
no_backends = record { bits = 0 }

all_exhausted-from_slots_example :
    (all_exhausted (record { missing = 6 }) (from_slots (1 ∷ 2 ∷ 1 ∷ [])) ≡ true) ↔ (
      (k : ℕ)
      → any (λ s. s == k) (1 ∷ 2 ∷ 1 ∷ []) ≡ true
      → is_missing_slot (record { missing = 6 }) k ≡ true)
all_exhausted-from_slots_example =
    all_exhausted-from_slots (record { missing = 6 }) (1 ∷ 2 ∷ 1 ∷ [])
