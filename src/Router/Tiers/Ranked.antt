-- ===== src/Router/Tiers/Ranked.antt =====
-- src/router/mod.rs: the list of the tiers is in ascending order and complete.
use nntp_proxy.Base.{
  ℕ, suc, ◌+◌, ◌<◌, ◌≤◌, ◌≡◌, ◌≢◌, ◌↔◌, none, some, length-append, refl, ap, sym, ◌∙◌, inl, inr,
  true, false, ◌||◌, List, [], ◌∷◌, ◌++◌, ltb, ◌==◌, length, arith, All, Bool-cases, subst,
}
use nntp_proxy.Types.{usize_bits, BackendId, try_from_index}
use nntp_proxy.Router.Bitmap.{slot_new}
use nntp_proxy.Router.{BackendInfo, BackendSelector}
use nntp_proxy.Router.Tiers.{
  contains_tier, insert_tier, sort_unstable, NewBackend, add_tier, push_backend,
  add_backend_with_slot, add_backend, add_backends,
}

abbrev pub Ascending : List ℕ → Type 0
Ascending [] = Unit
Ascending (t ∷ ts) = All (λ u. t < u) ts × Ascending ts

abbrev Apart : List ℕ → Type 0
Apart [] = Unit
Apart (t ∷ ts) = All (λ u. t ≢ u) ts × Apart ts

-- The numbers of the backends are their places.
abbrev pub Numbered : ℕ → List BackendInfo → Type 0
Numbered n [] = Unit
Numbered n (b ∷ bs) = (b.id ≡ n) × Numbered (suc n) bs

pub record Ranked (s : BackendSelector) : Type 0 where
  pub ascending : Ascending s.sorted_tiers
  pub covers : All (λ (b : BackendInfo). contains_tier b.tier s.sorted_tiers ≡ true) s.backends
  pub numbered : Numbered 0 s.backends

All-map {ℓ} :
    {A : Type ℓ} (P Q : A → Type 0) (f : (x : A) → P x → Q x) (xs : List A) → All P xs → All Q xs
All-map P Q f [] h = tt
All-map P Q f (x ∷ xs) (h, hs) = (f x h, All-map P Q f xs hs)

All-push {ℓ} :
    {A : Type ℓ} (P : A → Type 0) (xs : List A) (y : A) → All P xs → P y → All P (xs ++ y ∷ [])
All-push P [] y h k = (k, tt)
All-push P (x ∷ xs) y (h, hs) k = (h, All-push P xs y hs k)

insert_tier-All : (P : ℕ → Type 0) (t : ℕ) (ts : List ℕ) → P t → All P ts → All P (insert_tier t ts)
unfolding insert_tier
insert_tier-All P t [] h hs = (h, tt)
insert_tier-All P t (u ∷ us) h (k, ks) = elim (Bool-cases (ltb t u)) [
  | inl e ↦ rw e (h, (k, ks))
  | inr e ↦ rw e (k, insert_tier-All P t us h ks)
]

sort_unstable-All : (P : ℕ → Type 0) (ts : List ℕ) → All P ts → All P (sort_unstable ts)
unfolding sort_unstable
sort_unstable-All P [] hs = tt
sort_unstable-All P (t ∷ ts) (h, hs) =
    insert_tier-All P t (sort_unstable ts) h (sort_unstable-All P ts hs)

insert_tier-Ascending :
    (t : ℕ) (ts : List ℕ) → Ascending ts → All (λ u. t ≢ u) ts → Ascending (insert_tier t ts)
unfolding insert_tier
insert_tier-Ascending t [] h a = (tt, tt)
insert_tier-Ascending t (u ∷ us) (h, hs) (a, rest) = elim (Bool-cases (ltb t u)) [
  | inl e ↦
      let l : t < u = ground (arith, e) in
      rw e ((l, All-map (λ v. u < v) (λ v. t < v) (λ v k. omega (arith, k, l)) us h), (h, hs))
  | inr e ↦
      let l : u < t = ground (arith, e, a) in
      rw e (insert_tier-All (λ v. u < v) t us l h, insert_tier-Ascending t us hs rest)
]

sort_unstable-Ascending : (ts : List ℕ) → Apart ts → Ascending (sort_unstable ts)
unfolding sort_unstable
sort_unstable-Ascending [] a = tt
sort_unstable-Ascending (t ∷ ts) (a, rest) =
    insert_tier-Ascending t (sort_unstable ts) (sort_unstable-Ascending ts rest)
      (sort_unstable-All (λ u. t ≢ u) ts a)

contains-insert_tier :
    (t u : ℕ) (us : List ℕ) → contains_tier t (insert_tier u us) ≡ contains_tier t (u ∷ us)
unfolding insert_tier
contains-insert_tier t u [] = refl
contains-insert_tier t u (v ∷ vs) = ground (arith, contains-insert_tier t u vs)

contains-sort_unstable :
    (t : ℕ) (ts : List ℕ) → contains_tier t (sort_unstable ts) ≡ contains_tier t ts
unfolding sort_unstable
contains-sort_unstable t [] = refl
contains-sort_unstable t (u ∷ us) =
    contains-insert_tier t u (sort_unstable us)
    ∙ ap (λ b. (u == t) || b) (contains-sort_unstable t us)

contains-push :
    (t u : ℕ) (us : List ℕ) → contains_tier t (us ++ u ∷ []) ≡ (contains_tier t us || (u == t))
contains-push t u [] = ground arith
contains-push t u (v ∷ vs) = ground (arith, contains-push t u vs)

pub contains_tier-All :
    (P : ℕ → Type 0) (t : ℕ) (ts : List ℕ) → contains_tier t ts ≡ true → All P ts → P t
contains_tier-All P t [] h hs = absurd (ground (arith, h))
contains_tier-All P t (u ∷ us) h (k, ks) = elim (Bool-cases (u == t)) [
  | inl e ↦ let i : u ≡ t = ground (arith, e) in subst P i k
  | inr e ↦ contains_tier-All P t us (ground (arith, e, h)) ks
]

new-Apart : (t : ℕ) (ts : List ℕ) → contains_tier t ts ≡ false → All (λ u. u ≢ t) ts
new-Apart t [] h = tt
new-Apart t (u ∷ us) h = ((λ i. absurd (ground (arith, h, i))), new-Apart t us (ground (arith, h)))

push-Apart : (ts : List ℕ) (t : ℕ) → Ascending ts → All (λ u. u ≢ t) ts → Apart (ts ++ t ∷ [])
push-Apart [] t h a = (tt, tt)
push-Apart (u ∷ us) t (h, hs) (a, rest) = (
  All-push (λ v. u ≢ v) us t
      (All-map (λ v. u < v) (λ v. u ≢ v) (λ v k i. absurd (omega (arith, k, i))) us h) a,
  push-Apart us t hs rest,
)

add_tier-Ascending : (t : ℕ) (ts : List ℕ) → Ascending ts → Ascending (add_tier t ts)
add_tier-Ascending t ts h = elim (Bool-cases (contains_tier t ts)) [
  | inl e ↦ rw e h
  | inr e ↦ rw e (sort_unstable-Ascending (ts ++ t ∷ []) (push-Apart ts t h (new-Apart t ts e)))
]

contains-add_tier :
    (t u : ℕ) (ts : List ℕ) → contains_tier t (add_tier u ts) ≡ (contains_tier t ts || (u == t))
contains-add_tier t u ts = elim (Bool-cases (contains_tier u ts)) [
  | inl e ↦ rw e (elim (Bool-cases (u == t)) [
    | inl f ↦
        let i : u ≡ t = ground (arith, f) in
        let j : contains_tier t ts ≡ true = ap (λ v. contains_tier v ts) (sym i) ∙ e in
        ground (arith, j)
    | inr f ↦ rw f (ground arith)
  ])
  | inr e ↦ rw e (contains-sort_unstable t (ts ++ u ∷ []) ∙ contains-push t u ts)
]

Numbered-push :
    (n : ℕ) (bs : List BackendInfo) (b : BackendInfo)
    → Numbered n bs
    → b.id ≡ n + length bs
    → Numbered n (bs ++ b ∷ [])
Numbered-push n [] b h e = (omega (arith, e), tt)
Numbered-push n (c ∷ bs) b (h, hs) e = (h, Numbered-push (suc n) bs b hs (omega (arith, e)))

push_backend-Ranked :
    (s : BackendSelector) (n : NewBackend) (slot : ℕ) (id : BackendId)
    → id.index ≡ length s.backends
    → Ranked s
    → Ranked (push_backend s n slot id)
unfolding push_backend
push_backend-Ranked s n slot id i h = record {
  ascending = add_tier-Ascending n.tier s.sorted_tiers h.ascending;
  covers =
      All-push (λ (b : BackendInfo). contains_tier b.tier (add_tier n.tier s.sorted_tiers) ≡ true)
        s.backends _
        (All-map (λ (b : BackendInfo). contains_tier b.tier s.sorted_tiers ≡ true)
          (λ (b : BackendInfo). contains_tier b.tier (add_tier n.tier s.sorted_tiers) ≡ true)
          (λ b k. contains-add_tier b.tier n.tier s.sorted_tiers ∙ ground (arith, k)) s.backends
          h.covers)
        (contains-add_tier n.tier n.tier s.sorted_tiers ∙ ground arith);
  numbered = Numbered-push 0 s.backends _ h.numbered (omega (arith, i));
}

-- While there is room in the bitmap, the new backend's number and slot are its place.
abbrev pushed : BackendSelector → NewBackend → BackendSelector
pushed s n = push_backend s n (length s.backends) (record { index = length s.backends })

length-pushed :
    (s : BackendSelector) (n : NewBackend) → length (pushed s n).backends ≡ length s.backends + 1
unfolding push_backend
length-pushed s n = length-append s.backends _

add_backend-room :
    (s : BackendSelector) (n : NewBackend)
    → ltb (length s.backends) usize_bits ≡ true
    → add_backend s n ≡ some (pushed s n, record { index = length s.backends })
unfolding add_backend add_backend_with_slot slot_new try_from_index
add_backend-room s n h =
    let with_slot : add_backend_with_slot s n (length s.backends)
        ≡ some (pushed s n, record { index = length s.backends }) =
      rw (add_backend_with_slot, try_from_index, h) refl in
    rw (add_backend, slot_new, h) with_slot

add_backend-full :
    (s : BackendSelector) (n : NewBackend)
    → ltb (length s.backends) usize_bits ≡ false
    → add_backend s n ≡ none
unfolding add_backend slot_new
add_backend-full s n h = rw (add_backend, slot_new, h) refl

-- Adding backends panics exactly if there would be more than 64 of them in the end. Without a panic all
-- backends are added, the list of the tiers is strictly ascending and names the tier of every backend,
-- and every backend's number is its place, if that was so before. For a selector that has 64 backends
-- at most.
pub add_backends-Ranked :
    (s : BackendSelector) (ns : List NewBackend)
    → Ranked s
    → length s.backends ≤ usize_bits
    → ((t : BackendSelector)
        → add_backends s ns ≡ some t
        → Ranked t × (length t.backends ≡ length s.backends + length ns))
      × ((add_backends s ns ≡ none) ↔ (usize_bits < length s.backends + length ns))
unfolding add_backends
add_backends-Ranked s [] h l = (
  λ t e. let i : s ≡ t = cc in (subst Ranked i h, ground (arith, i)),
  (λ e. absurd (ground (arith, e)), λ k. absurd (omega (arith, k, l))),
)
add_backends-Ranked s (n ∷ ns) h l = elim (Bool-cases (ltb (length s.backends) usize_bits)) [
  | inl e ↦
      let m = length-pushed s n in
      let (to, panics) =
        add_backends-Ranked (pushed s n) ns (push_backend-Ranked s n _ _ refl h)
          (ground (arith, e, m)) in
      rw (add_backends, add_backend-room s n e)
        (
          λ t f. let (r, c) = to t f in (r, omega (arith, c, m)),
          (λ f. let k = panics.0 f in omega (arith, k, m), λ k. panics.1 (omega (arith, k, m))),
        )
  | inr e ↦
      rw (add_backends, add_backend-full s n e)
        (λ t f. absurd (ground (arith, f)), (λ f. ground (arith, e), λ k. refl))
]
