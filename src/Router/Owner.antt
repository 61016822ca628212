-- ===== src/Router/Owner.antt =====
-- src/router/mod.rs: the backend that owns a position of the weighted distribution.
use nntp_proxy.Base.{
  ℕ, ◌+◌, ◌%◌, ◌≤◌, ◌<◌, ◌≡◌, refl, ap, subst, ◌∙◌, inl, inr, Bool, true, List, [], ◌∷◌, ◌++◌,
  Option, none, some, arith, ltb, ◌==◌, if_intro, if◌then◌else◌, le_or_lt, lt→ltb, Bool-cases,
}
use mathlib.Core.List.{Memᴰ}
use nntp_proxy.Router.{
  BackendInfo, BackendSelector, SelectedBackend, or_backend, snapshotless, select_capacity_weighted,
  select_round_robin, select_with_weight, filter, find, total_weight, owner, owner_from,
}

-- The owner of a position, with the backends before it, whose weights the position exceeds.
pub record Owns (bs : List BackendInfo) (cumulative position : ℕ) (found : Option BackendInfo)
    : Type 0 where
  pub before : List BackendInfo
  pub chosen : BackendInfo
  pub after : List BackendInfo
  pub splits : bs ≡ before ++ chosen ∷ after
  pub finds : found ≡ some chosen
  pub low : cumulative + total_weight before ≤ position
  pub high : position < cumulative + total_weight before + chosen.max_size

owner_from-Owns :
    (bs : List BackendInfo) (cumulative position : ℕ)
    → cumulative ≤ position
    → position < cumulative + total_weight bs
    → Owns bs cumulative position (owner_from position cumulative bs)
unfolding owner_from
owner_from-Owns [] cumulative position h k = absurd (omega arith)
owner_from-Owns (b ∷ bs) cumulative position h k =
    elim (le_or_lt (cumulative + b.max_size) position) [
      | inr l ↦ record {
        before = [];
        chosen = b;
        after = bs;
        splits = refl;
        finds = rw (lt→ltb position (cumulative + b.max_size) l) refl;
        low = omega arith;
        high = omega arith;
      }
      | inl l ↦
          let o = owner_from-Owns bs (cumulative + b.max_size) position l (omega arith) in
          record {
            before = b ∷ o.before;
            chosen = o.chosen;
            after = o.after;
            splits = ap (◌∷◌ b) o.splits;
            finds = ground (arith, l, o.finds);
            low = omega (arith, o.low);
            high = omega (arith, o.high);
          }
    ]

-- Every position below the total weight has an owner: the weights of the backends before the
-- owner sum to at most the position, and with its own weight they exceed it.
pub owner-Owns :
    (bs : List BackendInfo) (position : ℕ)
    → position < total_weight bs
    → Owns bs 0 position (owner position bs)
unfolding owner
owner-Owns bs position h = owner_from-Owns bs 0 position (omega arith) (omega arith)

-- A backend of a list that passes a test.
abbrev pub Passing : (BackendInfo → Bool) → List BackendInfo → BackendInfo → Type 0
Passing p bs b = Memᴰ b bs × (p b ≡ true)

module _ (p : BackendInfo → Bool) where
  pub find-Passing : (bs : List BackendInfo) {b : BackendInfo} → find p bs ≡ some b → Passing p bs b
  find-Passing [] h = cc
  find-Passing (c ∷ bs) {b} h = elim (Bool-cases (p c)) [
    | inl e ↦ let f : b ≡ c = ground (arith, e, h) in (Memᴰ.head f, ap p f ∙ e)
    | inr e ↦ let (m, q) = find-Passing bs (ground (arith, e, h)) in (Memᴰ.tail m, q)
  ]

  -- A backend of the filtered list is one of the list that passes.
  pub filter-Passing :
      (bs : List BackendInfo) {b : BackendInfo} → Memᴰ b (filter p bs) → Passing p bs b
  filter-Passing [] h = elim h [ ]
  filter-Passing (c ∷ bs) {b} h = elim (Bool-cases (p c)) [
    | inl e ↦
        head_or_tail e (subst (λ t. Memᴰ b (if t then c ∷ filter p bs else filter p bs)) e h)
          (filter-Passing bs)
    | inr e ↦
        let (m, q) =
          filter-Passing bs
            (subst (λ t. Memᴰ b (if t then c ∷ filter p bs else filter p bs)) e h) in
        (Memᴰ.tail m, q)
  ]
    where
      head_or_tail :
          p c ≡ true
          → Memᴰ b (c ∷ filter p bs)
          → (Memᴰ b (filter p bs) → Passing p bs b)
          → Passing p (c ∷ bs) b
      head_or_tail e (Memᴰ.head f) k = (Memᴰ.head f, ap p f ∙ e)
      head_or_tail e (Memᴰ.tail m) k = let (n, q) = k m in (Memᴰ.tail n, q)

pub owner_from-mem :
    (bs : List BackendInfo) (cumulative position : ℕ) {b : BackendInfo}
    → owner_from position cumulative bs ≡ some b
    → Memᴰ b bs
unfolding owner_from
owner_from-mem [] cumulative position h = cc
owner_from-mem (c ∷ bs) cumulative position {b} h =
    elim (Bool-cases (ltb position (cumulative + c.max_size))) [
      | inl e ↦ Memᴰ.head (ground (arith, e, h))
      | inr e ↦
          Memᴰ.tail (owner_from-mem bs (cumulative + c.max_size) position (ground (arith, e, h)))
    ]

pub owner-mem :
    (bs : List BackendInfo) (position : ℕ) {b : BackendInfo}
    → owner position bs ≡ some b
    → Memᴰ b bs
unfolding owner
owner-mem bs position h = owner_from-mem bs 0 position h

-- What a selection leaves as it was; only counters move.
pub record Setup (s t : BackendSelector) : Type 0 where
  pub backends : t.backends ≡ s.backends
  pub enabled : t.queue_backpressure_enabled ≡ s.queue_backpressure_enabled
  pub hard : t.hard_percent ≡ s.hard_percent

pub snapshotless-some :
    (o : Option BackendInfo) {sel : SelectedBackend}
    → snapshotless o ≡ some sel
    → o ≡ some sel.backend
snapshotless-some none h = cc
snapshotless-some (some b) h = ground (arith, h)

module _ (s : BackendSelector) where
  or_backend-Passing :
      (p : BackendInfo → Bool) (position : ℕ) (o : Option BackendInfo) {b : BackendInfo}
      → owner position (filter p s.backends) ≡ o
      → or_backend o (find p s.backends) ≡ some b
      → Passing p s.backends b
  or_backend-Passing p position none e h = find-Passing p s.backends h
  or_backend-Passing p position (some c) e h =
      filter-Passing p s.backends (owner-mem (filter p s.backends) position (e ∙ h))

  pub select_capacity_weighted-Passing :
      (p : BackendInfo → Bool) (b : BackendInfo)
      → (select_capacity_weighted s p).1 ≡ some b
      → Passing p s.backends b
  unfolding select_capacity_weighted
  select_capacity_weighted-Passing p b h =
      elim (Bool-cases (total_weight (filter p s.backends) == 0)) [
        | inl e ↦ ground (arith, e, h)
        | inr e ↦
            let position = s.initial_article_probe_counter % total_weight (filter p s.backends) in
            or_backend-Passing p position (owner position (filter p s.backends)) refl
              (ground (arith, e, h))
      ]

  pub select_capacity_weighted-Setup :
      (p : BackendInfo → Bool) → Setup s (select_capacity_weighted s p).0
  unfolding select_capacity_weighted
  select_capacity_weighted-Setup p =
      if_intro (λ (r : BackendSelector × Option BackendInfo). Setup s r.0)
        (total_weight (filter p s.backends) == 0)
        (record { backends = refl; enabled = refl; hard = refl })
        (record { backends = refl; enabled = refl; hard = refl })

  pub select_round_robin-Passing :
      (counter : ℕ) (p : BackendInfo → Bool) (sel : SelectedBackend)
      → (select_round_robin counter s p).1 ≡ some sel
      → Passing p s.backends sel.backend
  unfolding select_round_robin select_with_weight
  select_round_robin-Passing counter p sel h =
      elim (Bool-cases (total_weight (filter p s.backends) == 0)) [
        | inl e ↦ ground (arith, e, h)
        | inr e ↦
            let position = counter % total_weight (filter p s.backends) in
            or_backend-Passing p position (owner position (filter p s.backends)) refl (
              snapshotless-some
                (or_backend (owner position (filter p s.backends)) (find p s.backends)) {sel = sel}
                (ground (arith, e, h)))
      ]

  pub select_round_robin-Setup :
      (counter : ℕ) (p : BackendInfo → Bool) → Setup s (select_round_robin counter s p).0
  unfolding select_round_robin select_with_weight
  select_round_robin-Setup counter p = elim (Bool-cases (total_weight (filter p s.backends) == 0)) [
    | inl e ↦ record {
      backends = ground (arith, e);
      enabled = ground (arith, e);
      hard = ground (arith, e);
    }
    | inr e ↦ record {
      backends = ground (arith, e);
      enabled = ground (arith, e);
      hard = ground (arith, e);
    }
  ]
