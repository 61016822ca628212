-- ===== src/Cache/Index/Ready.antt =====
-- src/cache/availability_index.rs: the current generation, and when it is among the active ones.
use native.Mathlib.Nat.{mod-lt}
use nntp_proxy.Base.{
  leb, ℕ, zero, suc, ◌+◌, ◌-◌, ◌/◌, ◌%◌, ◌<◌, ◌≡◌, refl, ap, ◌∙◌, inl, inr, min, false, ◌||◌, some,
  arith, ◌==◌, if_split, Bool-cases, Option-cases,
}
use nntp_proxy.Router.Weights.{usize_max}
use nntp_proxy.Cache.Index.{
  assign, empty_generation, FilterState, new, advance, is_due, rotate, rotate_if_needed,
  ensure_current_generation_started,
}
use nntp_proxy.Cache.Index.Restore.{
  PersistedEntry, reset, age, restore_at, restore_entry, youngest, refresh_next_rotation_at,
  reanchor_current_generation, finish_restore,
}

-- The current generation exists, and when it has started it is active.
pub record IsReady (s : FilterState) : Type 0 where
  pub some_block : 0 < s.blocks_per_generation
  pub limited : (s.rotation_interval_millis == 0) ≡ false
  pub some_generation : 0 < s.generation_count
  pub current : s.current_generation < s.generation_count
  pub active :
      ((s.generations s.current_generation).started_at == 0) ≡ false → 0 < s.live_generations

pub new-IsReady :
    (blocks count interval : ℕ)
    → 0 < blocks
    → (interval == 0) ≡ false
    → IsReady (new blocks count interval)
unfolding new
new-IsReady blocks count interval b i = record {
  some_block = b;
  limited = i;
  some_generation = omega arith;
  current = omega arith;
  active = λ h. absurd (ground (arith, h));
}

-- After some rounds the current generation is empty.
advance_lem :
    (rounds : ℕ) (s : FilterState) (evicted : ℕ)
    → 0 < s.generation_count
    → ((advance (suc rounds) s evicted).0.generation_count ≡ s.generation_count)
      × ((advance (suc rounds) s evicted).0.current_generation < s.generation_count)
      × ((advance (suc rounds) s evicted).0.blocks_per_generation ≡ s.blocks_per_generation)
      × ((advance (suc rounds) s evicted).0.rotation_interval_millis ≡ s.rotation_interval_millis)
      × (((advance (suc rounds) s evicted).0.generations
            (advance (suc rounds) s evicted).0.current_generation).started_at
          ≡ 0)
unfolding advance
advance_lem zero s evicted h =
    let next = (s.current_generation + 1) % s.generation_count in
    (refl, mod-lt (s.current_generation + 1) h, refl, refl, ground arith)
advance_lem (suc rounds) s evicted h =
    let next = (s.current_generation + 1) % s.generation_count in
    advance_lem rounds
      (record s {
        current_generation = next;
        generations = assign s.generations next empty_generation;
      })
      (evicted + (s.generations next).occupied) h

advance-some :
    (rounds : ℕ) (s : FilterState)
    → 0 < rounds
    → IsReady s
    → let t = (advance rounds s 0).0 in
      (t.generation_count ≡ s.generation_count)
      × (t.current_generation < s.generation_count)
      × (t.blocks_per_generation ≡ s.blocks_per_generation)
      × (t.rotation_interval_millis ≡ s.rotation_interval_millis)
      × ((t.generations t.current_generation).started_at ≡ 0)
advance-some zero s h r = absurd (omega (arith, h))
advance-some (suc rounds) s h r = advance_lem rounds s 0 r.some_generation

rotate-IsReady : (s : FilterState) (now : ℕ) → IsReady s → IsReady (rotate s now).0
unfolding rotate
rotate-IsReady s now r =
    let rounds =
      min (1 + (now - s.next_rotation_at) / s.rotation_interval_millis) s.generation_count in
    let (p, q, b, i, e) = advance-some rounds s (omega (arith, r.some_generation)) r in
    record {
      some_block = omega (arith, b, r.some_block);
      limited = ap (λ n. n == 0) i ∙ r.limited;
      some_generation = omega (arith, p, r.some_generation);
      current = omega (arith, p, q);
      active = λ h. absurd (ground (arith, h, e));
    }

pub rotate_if_needed-IsReady :
    (s : FilterState) (now : ℕ) → IsReady s → IsReady (rotate_if_needed s now).0
unfolding rotate_if_needed
rotate_if_needed-IsReady s now r =
    if_split (λ (x : FilterState × ℕ). IsReady x.0)
      (s.blocks_per_generation == 0 || s.generation_count == 0) (λ e. r)
      (λ e.
        if_split (λ (x : FilterState × ℕ). IsReady x.0) (s.rotation_interval_millis == 0)
          (λ f. absurd (ground (arith, f, r.limited)))
          (λ f.
            if_split (λ (x : FilterState × ℕ). IsReady x.0)
              (s.rotation_interval_millis == usize_max) (λ g. r)
              (λ g.
                if_split (λ (x : FilterState × ℕ). IsReady x.0) (is_due s now)
                  (λ h. rotate-IsReady s now r) (λ h. r))))

-- A filter with a started generation that is not due to rotate stays as it is.
pub rotate_if_needed-same :
    (s : FilterState) (now : ℕ) → IsReady s → is_due s now ≡ false → (rotate_if_needed s now).0 ≡ s
unfolding rotate_if_needed
rotate_if_needed-same s now r h =
    let a : (s.blocks_per_generation == 0 || s.generation_count == 0) ≡ false =
      ground (arith, r.some_block, r.some_generation) in
    elim (Bool-cases (s.rotation_interval_millis == usize_max)) [
      | inl e ↦ rw (a, r.limited, e) refl
      | inr e ↦ rw (a, r.limited, e, h) refl
    ]

-- Where the current generation has started.
pub ensure_lem :
    (s : FilterState) (now : ℕ)
    → IsReady s
    → IsReady (ensure_current_generation_started s now)
      × (0 < (ensure_current_generation_started s now).live_generations)
unfolding ensure_current_generation_started
ensure_lem s now r =
    if_split (λ t. IsReady t × (0 < t.live_generations))
      ((s.generations s.current_generation).started_at == 0)
      (λ e. (
        record {
          some_block = r.some_block;
          limited = r.limited;
          some_generation = r.some_generation;
          current = r.current;
          active = λ h. omega arith;
        },
        omega arith,
      ))
      (λ e. (r, r.active e))

pub reset-IsReady : (s : FilterState) → IsReady s → IsReady (reset s)
unfolding reset
reset-IsReady s r = record {
  some_block = r.some_block;
  limited = r.limited;
  some_generation = r.some_generation;
  current = r.some_generation;
  active = λ h. absurd (ground (arith, h));
}

restore_at-IsReady :
    (s : FilterState) (e : PersistedEntry) (block offset : ℕ)
    → IsReady s
    → IsReady (restore_at s e block offset).0
unfolding restore_at
restore_at-IsReady s e block offset r = record {
  some_block = r.some_block;
  limited = r.limited;
  some_generation = r.some_generation;
  current = r.current;
  active = λ h. omega arith;
}

pub restore_entry-IsReady :
    (s : FilterState) (e : PersistedEntry) (block now ttl : ℕ)
    → IsReady s
    → IsReady (restore_entry s e block now ttl).0
unfolding restore_entry
restore_entry-IsReady s e block now ttl r =
    if_split (λ (x : FilterState × ℕ). IsReady x.0)
      (s.blocks_per_generation == 0
        || e.hash == 0
        || e.missing == 0
        || leb ttl (now - e.inserted_at))
      (λ c. r) (λ c. restore_at-IsReady s e block (age s e now) r)

youngest-lt : (s : FilterState) (n : ℕ) {k : ℕ} → youngest s n ≡ some k → k < n
unfolding youngest
youngest-lt s zero h = absurd (ground (arith, h))
youngest-lt s (suc n) {k} h = elim (Option-cases (youngest s n)) [
  | inl e ↦ ground (arith, h, e)
  | inr (i, e) ↦ let l : i < n = youngest-lt s n e in ground (arith, h, e, l)
]

pub finish_restore-IsReady : (s : FilterState) → IsReady s → IsReady (finish_restore s)
unfolding finish_restore reanchor_current_generation refresh_next_rotation_at
finish_restore-IsReady s r =
    if_split IsReady (s.live_generations == 0) (λ e. r)
      (λ e. elim (Option-cases (youngest s s.generation_count)) [
        | inl y ↦ rw (y, reanchor_current_generation) r
        | inr (index, y) ↦
            let l : index < s.generation_count = youngest-lt s s.generation_count y in
            rw (y, reanchor_current_generation)
              (record {
                some_block = r.some_block;
                limited = r.limited;
                some_generation = r.some_generation;
                current = l;
                active = λ h. ground (arith, e);
              })
      ])
