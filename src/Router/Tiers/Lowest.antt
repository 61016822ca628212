-- ===== src/Router/Tiers/Lowest.antt =====
-- src/router/mod.rs: the lowest tier that may have the article is preferred.
use mathlib.Core.List.{Memᴰ}
use mathlib.Core.List.Memᴰ
use nntp_proxy.Base.{
  ℕ, ◌<◌, ◌≡◌, refl, sym, inl, inr, true, false, ◌&&◌, List, [], ◌∷◌, ◌++◌, some, ◌==◌, any, arith,
  All, Bool-cases, subst,
}
use nntp_proxy.Router.Bitmap.{SuppressedBackends, ArticleAvailability, should_try_slot}
use nntp_proxy.Router.{BackendInfo, BackendSelector, SelectedBackend}
use nntp_proxy.Router.Loads.{Ratios}
use nntp_proxy.Router.Selection.{select_backend, tier_is_open}
use nntp_proxy.Router.Selection.Tiers.{select_backend-Chosen}
use nntp_proxy.Router.Tiers.{contains_tier}
use nntp_proxy.Router.Tiers.Ranked.{Ascending, Ranked, contains_tier-All}

-- What holds of every tier before one holds of every listed tier that is below it.
before-All :
    (P : ℕ → Type 0) (before after : List ℕ) (t u : ℕ)
    → Ascending (before ++ t ∷ after)
    → All P before
    → contains_tier u (before ++ t ∷ after) ≡ true
    → u < t
    → P u
before-All P [] after t u (h, hs) a c l =
    let c' : contains_tier u after ≡ true = ground (arith, c, l) in
    let k : t < u = contains_tier-All (λ v. t < v) u after c' h in absurd (omega (arith, k, l))
before-All P (v ∷ before) after t u (h, hs) (a, rest) c l = elim (Bool-cases (v == u)) [
  | inl e ↦ let i : v ≡ u = ground (arith, e) in subst P i a
  | inr e ↦ before-All P before after t u hs rest (ground (arith, c, e)) l
]

All-Mem :
    (P : BackendInfo → Type 0) {b : BackendInfo} (bs : List BackendInfo)
    → All P bs
    → Memᴰ b bs
    → P b
All-Mem P [] h m = absurd (Memᴰ.not-nil m)
All-Mem P (c ∷ bs) (h, hs) m = elim (Memᴰ.cases_cons m) [
  | inl i ↦ subst P (sym i) h
  | inr k ↦ All-Mem P bs hs k
]

closed-missing :
    (a : ArticleAvailability) (t : ℕ) (bs : List BackendInfo)
    → any (λ (b : BackendInfo). b.tier == t && should_try_slot a b.availability_slot) bs ≡ false
    → All (λ (b : BackendInfo). b.tier ≡ t → should_try_slot a b.availability_slot ≡ false) bs
closed-missing a t [] h = tt
closed-missing a t (b ∷ bs) h =
    ((λ e. ground (arith, e, h)), closed-missing a t bs (ground (arith, h)))

module _ (r : Ratios) (a : ArticleAvailability) (x : SuppressedBackends) where
  -- With an availability given, and a list of tiers that is in order and complete as the additions
  -- of backends leave it: every backend of a tier below that of the selected one has answered that
  -- the article is missing.
  pub select_backend_lowest :
      (s : BackendSelector) (sel : SelectedBackend)
      → Ranked s
      → (select_backend r s (some a) x).1 ≡ some sel
      → (b : BackendInfo) → Memᴰ b s.backends
      → b.tier < sel.backend.tier
      → should_try_slot a b.availability_slot ≡ false
  select_backend_lowest s sel h e b m l =
      let c = select_backend-Chosen r (some a) x s sel e in
      let listed : contains_tier b.tier s.sorted_tiers ≡ true =
        All-Mem (λ (b : BackendInfo). contains_tier b.tier s.sorted_tiers ≡ true) s.backends
          h.covers m in
      let closed : tier_is_open r s (some a) b.tier ≡ false =
        before-All (λ t. tier_is_open r s (some a) t ≡ false) c.before c.after sel.backend.tier
          b.tier (subst Ascending c.splits h.ascending) c.tiers_closed
          (subst (λ ts. contains_tier b.tier ts ≡ true) c.splits listed) l in
      All-Mem (λ (d : BackendInfo). d.tier ≡ b.tier → should_try_slot a d.availability_slot ≡ false)
        s.backends (closed-missing a b.tier s.backends closed) m refl
