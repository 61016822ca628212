-- ===== src/Cache/Index/Slots.antt =====
-- src/cache/availability_index.rs: what the slots of a generation store.
use nntp_proxy.Base.{
  ℕ, ◌<◌, ◌≡◌, refl, sym, ap, subst, subst₂, ◌⊎◌, inl, inr, true, ◌&&◌, List, [], ◌∷◌, Option, none,
  some, All, arith, Bytes, bytes_eq_iff, ◌==◌, Bool-cases, Option-cases, bit_at, bit_at-bit_or,
  bit_at_le,
}
use Prim.Native.Nat.{bit_or}
use nntp_proxy.Cache.Index.{
  block_slots, Block, ArticleFingerprint, Generation, empty_generation, key_index, is_key, is_match,
  matching_slots, victim_slot, lookup_slots, exact_slot, free_slot, put, join, insert_generation,
}

pub is_key_lem : (o : Option Bytes) (key : Bytes) → is_key o key ≡ true → o ≡ some key
is_key_lem none key h = absurd (ground (arith, h))
is_key_lem (some k) key h = ap some ((bytes_eq_iff k key).0 h)

pub same_slot :
    (b c s t : ℕ)
    → s < block_slots
    → t < block_slots
    → (key_index b s == key_index c t) ≡ ((b == c) && (s == t))
same_slot b c s t h k = ground (arith, h, k)

pub matching-lt :
    (b : Block) (f : ArticleFingerprint) → All (λ s. s < block_slots) (matching_slots b f)
unfolding matching_slots
matching-lt b f = elim (Bool-cases (is_match b f 0)) [
  | inl e ↦ elim (Bool-cases (is_match b f 1)) [
    | inl h ↦ rw (e, h) (omega arith, (omega arith, tt))
    | inr h ↦ rw (e, h) (omega arith, tt)
  ]
  | inr e ↦ elim (Bool-cases (is_match b f 1)) [
    | inl h ↦ rw (e, h) (omega arith, tt)
    | inr h ↦ rw (e, h) tt
  ]
]

pub free-lt : (b : Block) (hash : ℕ) → free_slot b hash < block_slots
unfolding free_slot victim_slot
free-lt b hash = ground arith

pub exact_slot_lem :
    (g : Generation) (key : Bytes) (block : ℕ) (slots : List ℕ) {slot : ℕ}
    → All (λ s. s < block_slots) slots
    → exact_slot g key block slots ≡ some slot
    → (is_key (g.keys (key_index block slot)) key ≡ true) × (slot < block_slots)
unfolding exact_slot
exact_slot_lem g key block [] a h = absurd (ground (arith, h))
exact_slot_lem g key block (s ∷ slots) {slot} (l, a) h =
    elim (Bool-cases (is_key (g.keys (key_index block s)) key)) [
      | inl e ↦ ground (arith, e, h, l)
      | inr e ↦ exact_slot_lem g key block slots a (ground (arith, e, h))
    ]

pub either : (a b j : ℕ) → bit_at (bit_or a b) j ≡ 1 → (bit_at a j ≡ 1) ⊎ (bit_at b j ≡ 1)
either a b j h =
    let e = bit_at-bit_or j a b in
    let u = bit_at_le j a in let v = bit_at_le j b in ground (arith, e, u, v, h)

-- What holds of every key and every bit that is stored for it.
module _ (P : Bytes → ℕ → Type 0) where
  abbrev pub IsSound : Generation → Type 0
  IsSound g =
      (block slot : ℕ) (key : Bytes) (j : ℕ)
      → slot < block_slots
      → g.keys (key_index block slot) ≡ some key
      → bit_at ((g.blocks block).missing slot) j ≡ 1
      → P key j

  pub empty-IsSound : IsSound empty_generation
  empty-IsSound block slot key j l h k = absurd (ground (arith, h))

  pub lookup_slots-sound :
      (g : Generation) (key : Bytes) (block : ℕ) (slots : List ℕ) (bits j : ℕ)
      → IsSound g
      → All (λ s. s < block_slots) slots
      → (bit_at bits j ≡ 1 → P key j)
      → bit_at (lookup_slots g key block slots bits) j ≡ 1
      → P key j
  unfolding lookup_slots
  lookup_slots-sound g key block [] bits j s a h k = h k
  lookup_slots-sound g key block (slot ∷ slots) bits j s (l, a) h k =
      elim (Bool-cases (is_key (g.keys (key_index block slot)) key)) [
        | inr e ↦ lookup_slots-sound g key block slots bits j s a h (rw e at k)
        | inl e ↦
            lookup_slots-sound g key block slots (bit_or bits ((g.blocks block).missing slot)) j s a
              (λ o. elim (either bits ((g.blocks block).missing slot) j o) [
                | inl x ↦ h x
                | inr y ↦ s block slot key j l (is_key_lem (g.keys (key_index block slot)) key e) y
              ])
              (rw e at k)
      ]

  put-IsSound :
      (g : Generation) (f : ArticleFingerprint) (key : Bytes) (bits block slot : ℕ)
      → slot < block_slots
      → ((j : ℕ) → bit_at bits j ≡ 1 → P key j)
      → IsSound g
      → IsSound (put g f key bits block slot)
  unfolding put
  put-IsSound g f key bits block slot l p s c t k j m h b = elim (Bool-cases (c == block)) [
    | inr e ↦
        let d = same_slot c block t slot m l in s c t k j m (ground (arith, h, d, e)) (rw e at b)
    | inl e ↦ elim (Bool-cases (t == slot)) [
      | inl f ↦
          let d = same_slot c block t slot m l in
          let same : key ≡ k = ground (arith, h, d, e, f) in
          subst (λ x. P x j) same (p j (rw (e, f) at b))
      | inr f ↦
          let d = same_slot c block t slot m l in
          let at : c ≡ block = ground (arith, e) in
          let old : bit_at ((g.blocks block).missing t) j ≡ 1 = rw (e, f) at b in
          s c t k j m (ground (arith, h, d, e, f))
            (subst (λ x. bit_at ((g.blocks x).missing t) j ≡ 1) (sym at) old)
    ]
  ]

  join-IsSound :
      (g : Generation) (key : Bytes) (bits block slot : ℕ)
      → slot < block_slots
      → is_key (g.keys (key_index block slot)) key ≡ true
      → ((j : ℕ) → bit_at bits j ≡ 1 → P key j)
      → IsSound g
      → IsSound (join g bits block slot)
  unfolding join
  join-IsSound g key bits block slot l i p s c t k j m h b = elim (Bool-cases (c == block)) [
    | inr e ↦ s c t k j m h (rw e at b)
    | inl e ↦
        let at : c ≡ block = ground (arith, e) in
        elim (Bool-cases (t == slot)) [
          | inr f ↦
              let old : bit_at ((g.blocks block).missing t) j ≡ 1 = rw (e, f) at b in
              s c t k j m h (subst (λ x. bit_at ((g.blocks x).missing t) j ≡ 1) (sym at) old)
          | inl f ↦
              let stands : t ≡ slot = ground (arith, f) in
              let o = either ((g.blocks block).missing slot) bits j (rw (e, f) at b) in
              let kept : g.keys (key_index block slot) ≡ some k =
                subst₂ (λ x y. g.keys (key_index x y) ≡ some k) at stands h in
              elim o [
                | inl x ↦ s block slot k j l kept x
                | inr y ↦
                    let q = is_key_lem (g.keys (key_index block slot)) key i in
                    let same : key ≡ k = cc in subst (λ x. P x j) same (p j y)
              ]
        ]
  ]

  pub insert_generation-IsSound :
      (g : Generation) (f : ArticleFingerprint) (key : Bytes) (bits block : ℕ)
      → ((j : ℕ) → bit_at bits j ≡ 1 → P key j)
      → IsSound g
      → IsSound (insert_generation g f key bits block).0
  unfolding insert_generation
  insert_generation-IsSound g f key bits block p s =
      elim (Option-cases (exact_slot g key block (matching_slots (g.blocks block) f))) [
        | inl e ↦
            let slot = free_slot (g.blocks block) f.hash in
            let q : (insert_generation g f key bits block).0 ≡ put g f key bits block slot =
              rw (e, insert_generation) refl in
            subst IsSound (sym q)
              (put-IsSound g f key bits block slot (free-lt (g.blocks block) f.hash) p s)
        | inr (slot, e) ↦
            let (i, l) =
              exact_slot_lem g key block (matching_slots (g.blocks block) f)
                (matching-lt (g.blocks block) f) e in
            let q : (insert_generation g f key bits block).0 ≡ join g bits block slot =
              rw (e, insert_generation) refl in
            subst IsSound (sym q) (join-IsSound g key bits block slot l i p s)
      ]
