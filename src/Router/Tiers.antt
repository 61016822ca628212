-- ===== src/Router/Tiers.antt =====
-- src/router/mod.rs: backends are added, and the list of the tiers is kept in order.
pub mod Ranked
pub mod Lowest
use nntp_proxy.Base.{
  ℕ, Bool, true, false, List, [], ◌∷◌, ◌++◌, Option, none, some, ltb, ◌==◌, if◌then◌else◌, any,
  length,
}
use nntp_proxy.Types.{BackendId, try_from_index}
use nntp_proxy.Router.Bitmap.{slot_new, mask_insert}
use nntp_proxy.Router.{BackendInfo, BackendSelector}

-- `sorted_tiers.contains`
abbrev pub contains_tier : ℕ → List ℕ → Bool
contains_tier t ts = any (λ u. u == t) ts

unfoldable pub insert_tier : ℕ → List ℕ → List ℕ
insert_tier t [] = t ∷ []
insert_tier t (u ∷ us) = let rest = insert_tier t us in if ltb t u then t ∷ u ∷ us else u ∷ rest

-- `sort_unstable`
unfoldable pub sort_unstable : List ℕ → List ℕ
unfolding insert_tier
sort_unstable [] = []
sort_unstable (t ∷ ts) = insert_tier t (sort_unstable ts)

-- The arguments of `add_backend`, with the counts of the provider's pool.
pub record NewBackend : Type 0 where
  pub tier : ℕ
  pub size : ℕ
  pub available : ℕ
  pub waiting : ℕ
  pub max_size : ℕ

abbrev pub add_tier : ℕ → List ℕ → List ℕ
add_tier t ts = if contains_tier t ts then ts else sort_unstable (ts ++ t ∷ [])

-- The selector with the new backend at the end. The total weight is not stored: it is the sum of
-- the maximal sizes.
unfoldable pub push_backend : BackendSelector → NewBackend → ℕ → BackendId → BackendSelector
unfolding sort_unstable mask_insert
push_backend s n slot backend_id = record s {
  backends =
      s.backends
      ++ (record {
        id = backend_id.index;
        tier = n.tier;
        availability_slot = slot;
        size = n.size;
        available = n.available;
        waiting = n.waiting;
        max_size = n.max_size;
        pending = 0;
      })
        ∷ [];
  availability_mask = mask_insert s.availability_mask slot;
  sorted_tiers = add_tier n.tier s.sorted_tiers;
}

-- `none` is the panic of `BackendId::from_index`.
unfoldable pub add_backend_with_slot :
    BackendSelector → NewBackend → ℕ → Option (BackendSelector × BackendId)
unfolding try_from_index push_backend
add_backend_with_slot s n slot = elim (try_from_index (length s.backends)) [
  | none ↦ none
  | some backend_id ↦ some (push_backend s n slot backend_id, backend_id)
]

-- `none` is the panic where the count does not fit the bitmap.
unfoldable pub add_backend : BackendSelector → NewBackend → Option (BackendSelector × BackendId)
unfolding slot_new add_backend_with_slot
add_backend s n = elim (slot_new (length s.backends)) [
  | none ↦ none
  | some slot ↦ add_backend_with_slot s n slot
]

-- The calls of `add_backend` for a list of backends, up to a panic.
unfoldable pub add_backends : BackendSelector → List NewBackend → Option BackendSelector
unfolding add_backend
add_backends s [] = some s
add_backends s (n ∷ ns) = elim (add_backend s n) [
  | none ↦ none
  | some added ↦ add_backends added.0 ns
]
