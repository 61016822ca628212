-- ===== src/Cache/Index/Preserved.antt =====
-- src/cache/availability_index.rs: what every operation of a filter preserves of its slots.
use nntp_proxy.Base.{
  ℕ, zero, suc, ◌+◌, ◌%◌, ◌≡◌, inl, inr, arith, Bytes, ◌==◌, if_split, Bool-cases, Option-cases,
  leb, if◌then◌else◌, bit_at, bit_at-nothing, ◌||◌, ◌-◌, ◌/◌, min,
}
use nntp_proxy.Router.Weights.{usize_max}
use Prim.Native.Nat.{bit_or}
use nntp_proxy.Cache.Index.{
  insert_generation, ArticleFingerprint, Generation, assign, empty_generation, matching_slots,
  lookup_generation, insert_generation, FilterState, active_generation, advance, rotate,
  rotate_if_needed, ensure_current_generation_started, lookup_active, insert_current,
  insert_missing_bits, is_due, count_inserted,
}
use nntp_proxy.Cache.Index.Restore.{
  PersistedEntry, age, restore_at, restore_entry, youngest, refresh_next_rotation_at,
  reanchor_current_generation, finish_restore,
}
use nntp_proxy.Cache.Index.Slots.{
  matching-lt, either, IsSound, empty-IsSound, lookup_slots-sound, insert_generation-IsSound,
}

module _ (P : Bytes → ℕ → Type 0) where
  -- Every generation is sound.
  abbrev pub AllSound : FilterState → Type 0
  AllSound s = (i : ℕ) → IsSound P (s.generations i)

  assign-AllSound :
      (gs : ℕ → Generation) (i : ℕ) (g : Generation)
      → ((k : ℕ) → IsSound P (gs k))
      → IsSound P g
      → (k : ℕ) → IsSound P (assign gs i g k)
  assign-AllSound gs i g s t k = if_split (IsSound P) (k == i) (λ e. t) (λ e. s k)

  advance-AllSound :
      (rounds : ℕ) (s : FilterState) (evicted : ℕ)
      → AllSound s
      → AllSound (advance rounds s evicted).0
  unfolding advance
  advance-AllSound zero s evicted a = a
  advance-AllSound (suc rounds) s evicted a =
      let next = (s.current_generation + 1) % s.generation_count in
      advance-AllSound rounds
        (record s {
          current_generation = next;
          generations = assign s.generations next empty_generation;
        })
        (evicted + (s.generations next).occupied)
        (assign-AllSound s.generations next empty_generation a (empty-IsSound P))

  pub rotate_if_needed-AllSound :
      (s : FilterState) (now : ℕ) → AllSound s → AllSound (rotate_if_needed s now).0
  unfolding rotate_if_needed rotate
  rotate_if_needed-AllSound s now a =
      if_split (λ (r : FilterState × ℕ). AllSound r.0)
        (s.blocks_per_generation == 0 || s.generation_count == 0) (λ e. a)
        (λ e.
          if_split (λ (r : FilterState × ℕ). AllSound r.0) (s.rotation_interval_millis == 0)
            (λ f i. empty-IsSound P)
            (λ f.
              if_split (λ (r : FilterState × ℕ). AllSound r.0)
                (s.rotation_interval_millis == usize_max) (λ g. a)
                (λ g.
                  if_split (λ (r : FilterState × ℕ). AllSound r.0) (is_due s now)
                    (λ h.
                      advance-AllSound
                        (min (1 + (now - s.next_rotation_at) / s.rotation_interval_millis)
                          s.generation_count)
                        s 0 a)
                    (λ h. a))))

  ensure-AllSound :
      (s : FilterState) (now : ℕ) → AllSound s → AllSound (ensure_current_generation_started s now)
  unfolding ensure_current_generation_started
  ensure-AllSound s now a =
      if_split AllSound ((s.generations s.current_generation).started_at == 0)
        (λ e.
          assign-AllSound s.generations s.current_generation
            (record (s.generations s.current_generation) { started_at = now }) a
            (a s.current_generation))
        (λ e. a)

  insert_current-AllSound :
      (s : FilterState) (f : ArticleFingerprint) (key : Bytes) (bits block : ℕ)
      → ((j : ℕ) → bit_at bits j ≡ 1 → P key j)
      → AllSound s
      → AllSound (insert_current s f key bits block).0
  unfolding insert_current
  insert_current-AllSound s f key bits block p a =
      let g = (insert_generation (s.generations s.current_generation) f key bits block) in
      assign-AllSound s.generations s.current_generation
        (record (g.0) { occupied = count_inserted g.1 g.0.occupied }) a
        (insert_generation-IsSound P (s.generations s.current_generation) f key bits block p
          (a s.current_generation))

  pub insert_missing_bits-AllSound :
      (s : FilterState) (f : ArticleFingerprint) (key : Bytes) (bits block now : ℕ)
      → ((j : ℕ) → bit_at bits j ≡ 1 → P key j)
      → AllSound s
      → AllSound (insert_missing_bits s f key bits block now).0
  unfolding insert_missing_bits
  insert_missing_bits-AllSound s f key bits block now p a =
      let t = (rotate_if_needed s now).0 in
      let b = rotate_if_needed-AllSound s now a in
      if_split (λ (r : FilterState × ℕ). AllSound r.0)
        (t.blocks_per_generation == 0 || bits == 0 || t.rotation_interval_millis == 0) (λ e. b)
        (λ e.
          insert_current-AllSound (ensure_current_generation_started t now) f key bits block p
            (ensure-AllSound t now b))

  pub lookup_active-sound :
      (s : FilterState) (f : ArticleFingerprint) (key : Bytes) (block rounds offset bits j : ℕ)
      → AllSound s
      → (bit_at bits j ≡ 1 → P key j)
      → bit_at (lookup_active s f key block rounds offset bits) j ≡ 1
      → P key j
  unfolding lookup_active lookup_generation
  lookup_active-sound s f key block zero offset bits j a h k = h k
  lookup_active-sound s f key block (suc rounds) offset bits j a h k =
      let g = s.generations (active_generation s offset) in
      let found = bit_or bits (lookup_generation g f key block) in
      let found-sound : bit_at found j ≡ 1 → P key j = λ o.
        elim (either bits (lookup_generation g f key block) j o) [
          | inl x ↦ h x
          | inr y ↦
              lookup_slots-sound P g key block (matching_slots (g.blocks block) f) 0 j
                (a (active_generation s offset)) (matching-lt (g.blocks block) f)
                (λ z. absurd (ground (arith, z, bit_at-nothing j))) y
        ] in
      elim (Bool-cases (found == usize_max)) [
        | inl e ↦ found-sound (rw e at k)
        | inr e ↦
            lookup_active-sound s f key block rounds (offset + 1) found j a found-sound (rw e at k)
      ]

  pub restore_entry-AllSound :
      (s : FilterState) (e : PersistedEntry) (block now ttl : ℕ)
      → ((j : ℕ) → bit_at e.missing j ≡ 1 → P e.key j)
      → AllSound s
      → AllSound (restore_entry s e block now ttl).0
  unfolding restore_entry restore_at
  restore_entry-AllSound s e block now ttl p a =
      let index = active_generation s (age s e now) in
      let g = s.generations index in
      let started = record g {
        started_at = if g.started_at == 0 then e.inserted_at else min g.started_at e.inserted_at;
      } in
      let h =
        insert_generation started (record { hash = e.hash; tag = e.tag }) e.key e.missing block in
      if_split (λ (x : FilterState × ℕ). AllSound x.0)
        (s.blocks_per_generation == 0
          || e.hash == 0
          || e.missing == 0
          || leb ttl (now - e.inserted_at))
        (λ c. a)
        (λ c.
          assign-AllSound s.generations index
            (record (h.0) { occupied = count_inserted h.1 h.0.occupied }) a
            (insert_generation-IsSound P started (record { hash = e.hash; tag = e.tag }) e.key
              e.missing block p (a index)))

  pub finish_restore-AllSound : (s : FilterState) → AllSound s → AllSound (finish_restore s)
  unfolding finish_restore reanchor_current_generation refresh_next_rotation_at
  finish_restore-AllSound s a =
      if_split AllSound (s.live_generations == 0) (λ e. a)
        (λ e. elim (Option-cases (youngest s s.generation_count)) [
          | inl y ↦ rw (y, reanchor_current_generation) a
          | inr (index, y) ↦ rw (y, reanchor_current_generation) a
        ])
