-- ===== src/Cache/Index/Found.antt =====
-- src/cache/availability_index.rs: what an insertion stores is found in its generation.
use nntp_proxy.Base.{
  ℕ, zero, suc, ◌+◌, ◌<◌, ◌≡◌, refl, sym, ap, ◌∙◌, subst, inl, inr, true, List, [], ◌∷◌, some, any,
  arith, Bytes, bytes_eq_iff, ◌==◌, if◌then◌else◌, if_split, Bool-cases, Option-cases, bit_at,
  bit_at-bit_or, bit_at_le,
}
use Prim.Native.Nat.{bit_or}
use nntp_proxy.Router.Weights.{usize_max}
use nntp_proxy.Cache.Index.{
  block_slots, Block, ArticleFingerprint, Generation, key_index, is_key, is_match, matching_slots,
  lookup_slots, lookup_generation, exact_slot, free_slot, put, join, insert_generation, FilterState,
  active_generation, lookup_active,
}
use nntp_proxy.Cache.Index.Slots.{free-lt}

bit_or-left : (a b j : ℕ) → bit_at a j ≡ 1 → bit_at (bit_or a b) j ≡ 1
bit_or-left a b j h =
    let e = bit_at-bit_or j a b in let v = bit_at_le j b in ground (arith, e, v, h)

pub bit_or-right : (a b j : ℕ) → bit_at b j ≡ 1 → bit_at (bit_or a b) j ≡ 1
bit_or-right a b j h =
    let e = bit_at-bit_or j a b in let v = bit_at_le j a in ground (arith, e, v, h)

-- The loops only add bits.
lookup_slots-keeps :
    (g : Generation) (key : Bytes) (block : ℕ) (slots : List ℕ) (bits j : ℕ)
    → bit_at bits j ≡ 1
    → bit_at (lookup_slots g key block slots bits) j ≡ 1
unfolding lookup_slots
lookup_slots-keeps g key block [] bits j h = h
lookup_slots-keeps g key block (slot ∷ slots) bits j h =
    elim (Bool-cases (is_key (g.keys (key_index block slot)) key)) [
      | inl e ↦ rw e (
          lookup_slots-keeps g key block slots (bit_or bits ((g.blocks block).missing slot)) j
            (bit_or-left bits ((g.blocks block).missing slot) j h))
      | inr e ↦ rw e (lookup_slots-keeps g key block slots bits j h)
    ]

pub lookup_active-keeps :
    (s : FilterState) (f : ArticleFingerprint) (key : Bytes) (block rounds offset bits j : ℕ)
    → bit_at bits j ≡ 1
    → bit_at (lookup_active s f key block rounds offset bits) j ≡ 1
unfolding lookup_active
lookup_active-keeps s f key block zero offset bits j h = h
lookup_active-keeps s f key block (suc rounds) offset bits j h =
    let found =
      bit_or bits (lookup_generation (s.generations (active_generation s offset)) f key block) in
    let k =
      bit_or-left bits (lookup_generation (s.generations (active_generation s offset)) f key block)
        j h in
    if_split (λ n. bit_at n j ≡ 1) (found == usize_max) (λ e. k)
      (λ e. lookup_active-keeps s f key block rounds (offset + 1) found j k)

-- A slot of the list that holds the key is found.
lookup_slots-finds :
    (g : Generation) (key : Bytes) (block slot : ℕ) (slots : List ℕ) (bits j : ℕ)
    → any (λ t. t == slot) slots ≡ true
    → is_key (g.keys (key_index block slot)) key ≡ true
    → bit_at ((g.blocks block).missing slot) j ≡ 1
    → bit_at (lookup_slots g key block slots bits) j ≡ 1
unfolding lookup_slots
lookup_slots-finds g key block slot [] bits j a k h = absurd (ground (arith, a))
lookup_slots-finds g key block slot (t ∷ slots) bits j a k h = elim (Bool-cases (t == slot)) [
  | inr e ↦
      lookup_slots-finds g key block slot slots
        (if is_key (g.keys (key_index block t)) key
          then bit_or bits ((g.blocks block).missing t)
          else bits)
        j (ground (arith, a, e)) k h
  | inl e ↦
      let same : slot ≡ t = ground (arith, e) in
      let k' = subst (λ x. is_key (g.keys (key_index block x)) key ≡ true) same k in
      let h' = subst (λ x. bit_at ((g.blocks block).missing x) j ≡ 1) same h in
      rw k' (
        lookup_slots-keeps g key block slots (bit_or bits ((g.blocks block).missing t)) j
          (bit_or-right bits ((g.blocks block).missing t) j h'))
]

exact_slot-any :
    (g : Generation) (key : Bytes) (block : ℕ) (slots : List ℕ) {slot : ℕ}
    → exact_slot g key block slots ≡ some slot
    → (any (λ t. t == slot) slots ≡ true) × (is_key (g.keys (key_index block slot)) key ≡ true)
unfolding exact_slot
exact_slot-any g key block [] h = absurd (ground (arith, h))
exact_slot-any g key block (s ∷ slots) {slot} h =
    elim (Bool-cases (is_key (g.keys (key_index block s)) key)) [
      | inl e ↦ ground (arith, e, h)
      | inr e ↦
          let r : exact_slot g key block slots ≡ some slot = ground (arith, e, h) in
          let a = exact_slot-any g key block slots r in
          let p : any (λ t. t == slot) slots ≡ true = a.0 in (ground (arith, p), a.1)
    ]

matching-any :
    (b : Block) (f : ArticleFingerprint) (slot : ℕ)
    → slot < block_slots
    → is_match b f slot ≡ true
    → any (λ t. t == slot) (matching_slots b f) ≡ true
unfolding matching_slots
matching-any b f zero l h = rw h refl
matching-any b f (suc zero) l h = elim (Bool-cases (is_match b f 0)) [
  | inl e ↦ rw (e, h) refl
  | inr e ↦ rw (e, h) refl
]
matching-any b f (suc (suc n)) l h = absurd (omega (arith, l))

is_key-some : (key : Bytes) → is_key (some key) key ≡ true
is_key-some key = (bytes_eq_iff key key).1 refl

pub self : (n : ℕ) → (n == n) ≡ true
self n = ground arith

put-finds :
    (g : Generation) (f : ArticleFingerprint) (key : Bytes) (bits block slot j : ℕ)
    → slot < block_slots
    → bit_at bits j ≡ 1
    → bit_at (lookup_generation (put g f key bits block slot) f key block) j ≡ 1
unfolding put lookup_generation
put-finds g f key bits block slot j l h =
    let u = put g f key bits block slot in
    let m : is_match (u.blocks block) f slot ≡ true =
      rw (self block, self slot, self f.hash, self f.tag) refl in
    let k : is_key (u.keys (key_index block slot)) key ≡ true =
      rw (self (key_index block slot)) (is_key-some key) in
    let b : bit_at ((u.blocks block).missing slot) j ≡ 1 = rw (self block, self slot) h in
    lookup_slots-finds u key block slot (matching_slots (u.blocks block) f) 0 j
      (matching-any (u.blocks block) f slot l m) k b

join-finds :
    (g : Generation) (f : ArticleFingerprint) (key : Bytes) (bits block slot j : ℕ)
    → exact_slot g key block (matching_slots (g.blocks block) f) ≡ some slot
    → bit_at bits j ≡ 1
    → bit_at (lookup_generation (join g bits block slot) f key block) j ≡ 1
unfolding join lookup_generation
join-finds g f key bits block slot j e h =
    let u = join g bits block slot in
    let a = exact_slot-any g key block (matching_slots (g.blocks block) f) e in
    let same : matching_slots (u.blocks block) f ≡ matching_slots (g.blocks block) f =
      unfold matching_slots in rw (self block) refl in
    let b : bit_at ((u.blocks block).missing slot) j ≡ 1 =
      rw (self block, self slot) (bit_or-right ((g.blocks block).missing slot) bits j h) in
    lookup_slots-finds u key block slot (matching_slots (u.blocks block) f) 0 j
      (ap (any (λ t. t == slot)) same ∙ a.0) a.1 b

pub insert_generation-finds :
    (g : Generation) (f : ArticleFingerprint) (key : Bytes) (bits block j : ℕ)
    → bit_at bits j ≡ 1
    → bit_at (lookup_generation (insert_generation g f key bits block).0 f key block) j ≡ 1
unfolding insert_generation
insert_generation-finds g f key bits block j h =
    elim (Option-cases (exact_slot g key block (matching_slots (g.blocks block) f))) [
      | inl e ↦
          let slot = free_slot (g.blocks block) f.hash in
          let q : (insert_generation g f key bits block).0 ≡ put g f key bits block slot =
            rw (e, insert_generation) refl in
          subst (λ u. bit_at (lookup_generation u f key block) j ≡ 1) (sym q)
            (put-finds g f key bits block slot j (free-lt (g.blocks block) f.hash) h)
      | inr (slot, e) ↦
          let q : (insert_generation g f key bits block).0 ≡ join g bits block slot =
            rw (e, insert_generation) refl in
          subst (λ u. bit_at (lookup_generation u f key block) j ≡ 1) (sym q)
            (join-finds g f key bits block slot j e h)
    ]
