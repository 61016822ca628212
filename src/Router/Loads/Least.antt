-- ===== src/Router/Loads/Least.antt =====
-- src/router/mod.rs: what the loop for the least loaded backend ends with.
use mathlib.Core.List.{Memᴰ}
use nntp_proxy.Base.{
  ℕ, ◌+◌, ◌≤◌, ◌≡◌, refl, sym, subst, Bool, List, [], ◌∷◌, Option, none, some, arith, ltb, ◌==◌,
  All, if_split, if_intro,
}
use nntp_proxy.Router.{BackendInfo, BackendSelector, SelectedBackend, SelectionStrategy, filter}
use nntp_proxy.Router.Owner.{
  Passing, filter-Passing, Setup, select_round_robin-Passing, select_round_robin-Setup,
}
use nntp_proxy.Router.Loads.{
  select_by, select_weighted, Ratios, Leader, load, consider, consider_all, should_replace_tie,
  select_least_loaded,
}

module _ (r : Ratios) (s : BackendSelector) where
  -- Whom the leader of the loop may be: a backend that was seen, with its load.
  abbrev pub Leads : (BackendInfo → Type 0) → ℕ → Option SelectedBackend → Type 0
  Leads Seen best none = Unit
  Leads Seen best (some sel) = Seen sel.backend × (load r s sel.backend ≡ best)

  consider-Leads :
      (Seen : BackendInfo → Type 0) (l : Leader) (b : BackendInfo)
      → Seen b
      → Leads Seen l.selected_load l.selected
      → Leads Seen (consider r s l b).selected_load (consider r s l b).selected
  unfolding consider
  consider-Leads Seen l b q k =
      if_split (λ (x : Leader). Leads Seen x.selected_load x.selected)
        (ltb (load r s b) l.selected_load) (λ _. (q, refl))
        (λ _.
          if_split (λ (x : Leader). Leads Seen x.selected_load x.selected)
            (load r s b == l.selected_load)
            (λ e.
              if_intro (Leads Seen l.selected_load)
                (should_replace_tie l.tie_breaker (l.ties + 1)).1 (q, ground (arith, e)) k)
            (λ _. k))

  consider-le :
      (l : Leader) (b : BackendInfo)
      → ((consider r s l b).selected_load ≤ l.selected_load)
        × ((consider r s l b).selected_load ≤ load r s b)
  unfolding consider
  consider-le l b = ground arith

  -- The load of the leader is at most the loads that were seen.
  abbrev pub AtLeast : ℕ → List BackendInfo → Type 0
  AtLeast best bs = All (λ b. best ≤ load r s b) bs

  consider_all-Leads :
      (Seen : BackendInfo → Type 0) (l : Leader) (bs : List BackendInfo)
      → ((b : BackendInfo) → Memᴰ b bs → Seen b)
      → Leads Seen l.selected_load l.selected
      → Leads Seen (consider_all r s l bs).selected_load (consider_all r s l bs).selected
  unfolding consider_all
  consider_all-Leads Seen l [] q k = k
  consider_all-Leads Seen l (b ∷ bs) q k =
      consider_all-Leads Seen (consider r s l b) bs (λ c m. q c (Memᴰ.tail m))
        (consider-Leads Seen l b (q b (Memᴰ.head refl)) k)

  consider_all-le :
      (l : Leader) (bs : List BackendInfo)
      → ((consider_all r s l bs).selected_load ≤ l.selected_load)
        × AtLeast (consider_all r s l bs).selected_load bs
  unfolding consider_all
  consider_all-le l [] = (omega arith, tt)
  consider_all-le l (b ∷ bs) =
      let (e, f) = consider-le l b in
      let (g, h) = consider_all-le (consider r s l b) bs in
      (omega (arith, e, g), (omega (arith, f, g), h))

  -- The least loaded backend that is selected passes the test, and no backend that passes has a
  -- smaller load.
  pub select_least_loaded_lem :
      (tie_breaker : ℕ) (p : BackendInfo → Bool) (sel : SelectedBackend)
      → (select_least_loaded r tie_breaker s p).1 ≡ some sel
      → Passing p s.backends sel.backend × AtLeast (load r s sel.backend) (filter p s.backends)
  unfolding select_least_loaded
  select_least_loaded_lem tie_breaker p sel h =
      let start : Leader = record {
        selected = none;
        selected_load = r.max_ratio;
        ties = 0;
        tie_breaker = tie_breaker;
      } in
      let l = consider_all r s start (filter p s.backends) in
      let (q, e) = subst (Leads (Passing p s.backends) l.selected_load) h (
        consider_all-Leads (Passing p s.backends) start (filter p s.backends)
          (λ b m. filter-Passing p s.backends m) tt) in
      (
        q,
        subst (λ best. AtLeast best (filter p s.backends)) (sym e)
            (consider_all-le start (filter p s.backends)).1,
      )

  select_by-Passing :
      (strategy : SelectionStrategy) (p : BackendInfo → Bool) (sel : SelectedBackend)
      → (select_by r strategy s p).1 ≡ some sel
      → Passing p s.backends sel.backend
  unfolding select_by
  select_by-Passing (SelectionStrategy.weighted_round_robin counter) p sel h =
      select_round_robin-Passing s counter p sel h
  select_by-Passing (SelectionStrategy.least_loaded tie_breaker) p sel h =
      (select_least_loaded_lem tie_breaker p sel h).0

  pub select_weighted-Passing :
      (p : BackendInfo → Bool) (sel : SelectedBackend)
      → (select_weighted r s p).1 ≡ some sel
      → Passing p s.backends sel.backend
  unfolding select_weighted
  select_weighted-Passing p sel h = select_by-Passing s.strategy p sel h

  pub select_weighted-Setup : (p : BackendInfo → Bool) → Setup s (select_weighted r s p).0
  unfolding select_weighted select_by select_least_loaded
  select_weighted-Setup p = go s.strategy
    where
      go : (strategy : SelectionStrategy) → Setup s (select_by r strategy s p).0
      go (SelectionStrategy.weighted_round_robin counter) = select_round_robin-Setup s counter p
      go (SelectionStrategy.least_loaded t) = record {
        backends = refl;
        enabled = refl;
        hard = refl;
      }
