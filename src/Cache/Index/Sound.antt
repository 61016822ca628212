-- ===== src/Cache/Index/Sound.antt =====
-- src/cache/availability_index.rs: a lookup reports a miss only for the message it was recorded for.
use nntp_proxy.Base.{
  ℕ, ◌≡◌, refl, ◌⊎◌, inl, inr, List, [], ◌∷◌, arith, Bytes, ◌==◌, if_split, Bool-cases, bit_at,
  bit_at-nothing, ◌||◌,
}
use nntp_proxy.Cache.Index.{
  ArticleFingerprint, FilterState, new, rotate_if_needed, lookup_missing_bits, insert_missing_bits,
}
use nntp_proxy.Cache.Index.Restore.{PersistedEntry, reset, restore_entry, finish_restore}
use nntp_proxy.Cache.Index.Slots.{empty-IsSound}
use nntp_proxy.Cache.Index.Preserved.{
  AllSound, rotate_if_needed-AllSound, insert_missing_bits-AllSound, lookup_active-sound,
  restore_entry-AllSound, finish_restore-AllSound,
}

-- The calls of a shard's filter, with their times, fingerprints and buckets. A snapshot is loaded by a
-- reset, the restored entries, and the end of the restoration.
pub data Call : Type 0 where
  restart finish : Call
  restore : PersistedEntry → ℕ → ℕ → ℕ → Call
  insert : ArticleFingerprint → Bytes → ℕ → ℕ → ℕ → Call
  lookup : ArticleFingerprint → Bytes → ℕ → ℕ → Call

abbrev pub perform : FilterState → Call → FilterState
perform s (insert f key bits block now) = (insert_missing_bits s f key bits block now).0
perform s restart = reset s
perform s finish = finish_restore s
perform s (restore e block now ttl) = (restore_entry s e block now ttl).0
perform s (lookup f key block now) = (lookup_missing_bits s f key block now).0

abbrev pub perform_all : FilterState → List Call → FilterState
perform_all s [] = s
perform_all s (c ∷ cs) = perform_all (perform s c) cs

-- One of the calls records the bit for the key.
abbrev pub Recorded : List Call → Bytes → ℕ → Type 0
Recorded [] key j = ⊥
Recorded (insert f k bits block now ∷ cs) key j =
    ((k ≡ key) × (bit_at bits j ≡ 1)) ⊎ Recorded cs key j
Recorded (restore e block now ttl ∷ cs) key j =
    ((e.key ≡ key) × (bit_at e.missing j ≡ 1)) ⊎ Recorded cs key j
Recorded (lookup f k block now ∷ cs) key j = Recorded cs key j
Recorded (restart ∷ cs) key j = Recorded cs key j
Recorded (finish ∷ cs) key j = Recorded cs key j

perform_all-AllSound :
    (P : Bytes → ℕ → Type 0) (s : FilterState) (cs : List Call)
    → ((key : Bytes) (j : ℕ) → Recorded cs key j → P key j)
    → AllSound P s
    → AllSound P (perform_all s cs)
unfolding lookup_missing_bits
perform_all-AllSound P s [] h a = a
perform_all-AllSound P s (insert f k bits block now ∷ cs) h a =
    perform_all-AllSound P (perform s (insert f k bits block now)) cs (λ key j r. h key j (inr r))
      (insert_missing_bits-AllSound P s f k bits block now (λ j b. h k j (inl (refl, b))) a)
perform_all-AllSound P s (restart ∷ cs) h a =
    perform_all-AllSound P (reset s) cs h (unfold reset in (λ i. empty-IsSound P))
perform_all-AllSound P s (finish ∷ cs) h a =
    perform_all-AllSound P (finish_restore s) cs h (finish_restore-AllSound P s a)
perform_all-AllSound P s (restore e block now ttl ∷ cs) h a =
    perform_all-AllSound P (perform s (restore e block now ttl)) cs (λ key j r. h key j (inr r))
      (restore_entry-AllSound P s e block now ttl (λ j b. h e.key j (inl (refl, b))) a)
perform_all-AllSound P s (lookup f k block now ∷ cs) h a =
    perform_all-AllSound P (perform s (lookup f k block now)) cs h (
      if_split (λ (r : FilterState × (ℕ × ℕ)). AllSound P r.0)
        ((rotate_if_needed s now).0.blocks_per_generation == 0
          || (rotate_if_needed s now).0.generation_count == 0)
        (λ e. rotate_if_needed-AllSound P s now a) (λ e. rotate_if_needed-AllSound P s now a))

-- Whatever was inserted, looked up and restored from snapshots before, a lookup reports a backend as missing an article only
-- if that miss was recorded for the same message id: equal fingerprints of different message ids,
-- evictions and rotations never give a wrong miss.
pub lookup_missing_bits-Recorded :
    (blocks count interval : ℕ) (cs : List Call) (f : ArticleFingerprint) (key : Bytes)
    (block now j : ℕ)
    → bit_at
        (lookup_missing_bits (perform_all (new blocks count interval) cs) f key block now).1.0
        j
      ≡ 1
    → Recorded cs key j
unfolding lookup_missing_bits
lookup_missing_bits-Recorded blocks count interval cs f key block now j h =
    let s = perform_all (new blocks count interval) cs in
    let t = (rotate_if_needed s now).0 in
    let a = rotate_if_needed-AllSound (Recorded cs) s now (
      perform_all-AllSound (Recorded cs) (new blocks count interval) cs (λ k i r. r)
        (unfold new in (λ i. empty-IsSound (Recorded cs)))) in
    elim (Bool-cases (t.blocks_per_generation == 0 || t.generation_count == 0)) [
      | inl e ↦ absurd (ground (arith, bit_at-nothing j, rw e at h))
      | inr e ↦
          lookup_active-sound (Recorded cs) t f key block t.live_generations 0 0 j a
            (λ z. absurd (ground (arith, z, bit_at-nothing j))) (rw e at h)
    ]
