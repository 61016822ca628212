-- ===== src/Router/Routing/Guards.antt =====
-- src/router/mod.rs: the counts of pending requests do not drift.
use nntp_proxy.Base.{
  ℕ, ◌^◌, ◌<◌, ◌≡◌, refl, ap, sym, ◌∙◌, inl, inr, true, false, List, [], ◌∷◌, Option, none, some,
  ◌==◌, arith, All, ok, Option-cases, Bool-cases,
}
use nntp_proxy.Types.{usize_bits}
use nntp_proxy.Router.Bitmap.{SuppressedBackends, ArticleAvailability}
use nntp_proxy.Router.{BackendInfo, BackendSelector, SelectedBackend, tries}
use nntp_proxy.Router.Weights.{wrapping_succ}
use nntp_proxy.Router.Loads.{Ratios}
use nntp_proxy.Router.Selection.{select_backend}
use nntp_proxy.Router.Selection.Tiers.{select_backend-Chosen}
use nntp_proxy.Router.Routing.{
  RouteError, Routed, RouteRound, from_availability_slot, output, at_backend, wrapping_pred,
  complete_command, mark_backend_pending, pending_of, reserve, reserved, route_round, new_guard,
  guard_drop, guard_complete,
}

-- The counts are words.
abbrev pub IsWords : List BackendInfo → Type 0
IsWords bs = All (λ (b : BackendInfo). b.pending < 2 ^ usize_bits) bs

wrapping_pred-wrapping_succ : (n : ℕ) → n < 2 ^ usize_bits → wrapping_pred (wrapping_succ n) ≡ n
wrapping_pred-wrapping_succ n h = omega (arith, h)

at_backend_here :
    (f : ℕ → ℕ) (id : ℕ) (b : BackendInfo) (bs : List BackendInfo)
    → (b.id == id) ≡ true
    → at_backend f id (b ∷ bs) ≡ (record b { pending = f b.pending }) ∷ bs
unfolding at_backend
at_backend_here f id b bs e = rw e refl

at_backend_there :
    (f : ℕ → ℕ) (id : ℕ) (b : BackendInfo) (bs : List BackendInfo)
    → (b.id == id) ≡ false
    → at_backend f id (b ∷ bs) ≡ b ∷ at_backend f id bs
unfolding at_backend
at_backend_there f id b bs e = rw e refl

-- A request that was counted and is given back leaves the counts as they were.
at_backend_back :
    (id : ℕ) (bs : List BackendInfo)
    → IsWords bs
    → at_backend wrapping_pred id (at_backend wrapping_succ id bs) ≡ bs
at_backend_back id [] h = unfold at_backend in refl
at_backend_back id (b ∷ bs) (h, hs) = elim (Bool-cases (b.id == id)) [
  | inl e ↦
      ap (at_backend wrapping_pred id) (at_backend_here wrapping_succ id b bs e)
      ∙ at_backend_here wrapping_pred id (record b { pending = wrapping_succ b.pending }) bs e
      ∙ ap (λ n. (record b { pending = n }) ∷ bs) (wrapping_pred-wrapping_succ b.pending h)
  | inr e ↦
      ap (at_backend wrapping_pred id) (at_backend_there wrapping_succ id b bs e)
      ∙ at_backend_there wrapping_pred id b (at_backend wrapping_succ id bs) e
      ∙ ap (◌∷◌ b) (at_backend_back id bs hs)
]

output_id :
    (o : Option ArticleAvailability) (b : BackendInfo)
    → tries o b ≡ true
    → (out : Routed) × (output o b ≡ ok out) × (out.backend_id ≡ b.id)
unfolding output from_availability_slot
output_id none b h = (record { backend_id = b.id; availability_slot = none }, refl, refl)
output_id (some a) b h = (
  record { backend_id = b.id; availability_slot = some b.availability_slot },
  ground (arith, h),
  refl,
)

-- A reservation that succeeds counts one request at the selected backend.
reserve_success :
    (s : BackendSelector) (sel : SelectedBackend)
    → (reserve s sel).1 ≡ true
    → (reserve s sel).0 ≡ mark_backend_pending s sel.backend.id
unfolding reserve
reserve_success s sel h = ground (
  arith,
  h,
  Option-cases sel.pending_snapshot,
  Option-cases (pending_of sel.backend.id s.backends),
)

given_back :
    (s : BackendSelector) (id : ℕ)
    → IsWords s.backends
    → complete_command (mark_backend_pending s id) id ≡ s
unfolding complete_command mark_backend_pending
given_back s id h = ap (λ bs. record s { backends = bs }) (at_backend_back id s.backends h)

module _ (r : Ratios) where
  -- A routed request goes to the backend that was selected, and however its guard ends, by an
  -- explicit completion or by being dropped, the counts are those from before the reservation.
  pub record Balanced (s changed : BackendSelector) (a : Option ArticleAvailability)
      (x : SuppressedBackends) (next : BackendSelector) (out : Routed) : Type 0 where
    pub selected : SelectedBackend
    pub selects : (select_backend r s a x).1 ≡ some selected
    pub goes_there : out.backend_id ≡ selected.backend.id
    pub after_drop : guard_drop next (new_guard out.backend_id) ≡ changed
    pub after_complete : guard_complete next (new_guard out.backend_id) ≡ changed

  reserved-Balanced :
      (s changed : BackendSelector) (a : Option ArticleAvailability) (x : SuppressedBackends)
      (sel : SelectedBackend) (made out : Routed) (next : BackendSelector)
      → (select_backend r s a x).1 ≡ some sel
      → made.backend_id ≡ sel.backend.id
      → IsWords changed.backends
      → reserved r changed sel made ≡ RouteRound.routed next out
      → Balanced s changed a x next out
  unfolding reserved guard_drop guard_complete new_guard
  reserved-Balanced s changed a x sel made out next e i w h =
      elim (Bool-cases (reserve changed sel).1) [
        | inr f ↦ ground (arith, f, h)
        | inl f ↦
            let g : next ≡ mark_backend_pending changed sel.backend.id =
              sym (ground (arith, f, h)) ∙ reserve_success changed sel f in
            let j : out.backend_id ≡ sel.backend.id = ground (arith, f, h, i) in
            let back : complete_command next out.backend_id ≡ changed =
              ap (λ t. complete_command t out.backend_id) g
              ∙ ap (complete_command (mark_backend_pending changed sel.backend.id)) j
              ∙ given_back changed sel.backend.id w in
            record {
              selected = sel;
              selects = e;
              goes_there = j;
              after_drop = back;
              after_complete = back;
            }
      ]

  -- A round of routing fails only when no backend can be selected. When it succeeds, the request
  -- goes to the backend that was selected, and however its guard ends, the counts of pending
  -- requests are those from before the reservation.
  pub route_round_lem :
      (s changed : BackendSelector) (a : Option ArticleAvailability) (x : SuppressedBackends)
      → IsWords changed.backends
      → ((e : RouteError)
          → route_round r s changed a x ≡ RouteRound.failed e
          → (select_backend r s a x).1 ≡ none)
        × ((next : BackendSelector) (out : Routed)
            → route_round r s changed a x ≡ RouteRound.routed next out
            → Balanced s changed a x next out)
  unfolding route_round
  route_round_lem s changed a x w = elim (Option-cases (select_backend r s a x).1) [
    | inl e ↦ (λ e1 h. e, λ next out h. ground (arith, e, h))
    | inr (sel, e) ↦
        let c = select_backend-Chosen r a x s sel e in
        let (made, f, i) = output_id a sel.backend c.may_have in
        (
          λ e1 h. not_failed sel made e1 (ground (arith, e, f, h)),
          λ next out h.
              reserved-Balanced s changed a x sel made out next e i w (ground (arith, e, f, h)),
        )
  ]
    where
      not_failed :
          (sel : SelectedBackend) (made : Routed) (e1 : RouteError)
          → reserved r changed sel made ≡ RouteRound.failed e1
          → (select_backend r s a x).1 ≡ none
      not_failed sel made e1 h = unfold reserved in ground (arith, h)
