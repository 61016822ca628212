-- ===== src/Cache/Index/Retained.antt =====
-- src/cache/availability_index.rs: an insertion and the lookups that follow it.
use native.Mathlib.Nat.{add-mod_right, mod-eq_of_lt}
use nntp_proxy.Base.{
  ℕ, zero, suc, ◌%◌, ◌<◌, ◌≡◌, refl, sym, ap, ◌∙◌, subst, false, ◌||◌, List, [], ◌∷◌, arith, Bytes,
  ◌==◌, if_split, bit_at, bit_at-nothing,
}
use Prim.Native.Nat.{bit_or}
use nntp_proxy.Router.Weights.{usize_max}
use nntp_proxy.Cache.Index.{
  ArticleFingerprint, lookup_generation, FilterState, new, active_generation, is_due,
  rotate_if_needed, ensure_current_generation_started, lookup_active, lookup_missing_bits,
  insert_current, insert_missing_bits,
}
use nntp_proxy.Cache.Index.Restore.{reset, restore_entry, finish_restore}
use nntp_proxy.Cache.Index.Ready.{
  IsReady, new-IsReady, rotate_if_needed-IsReady, rotate_if_needed-same, ensure_lem, reset-IsReady,
  restore_entry-IsReady, finish_restore-IsReady,
}
use nntp_proxy.Cache.Index.Sound.{Call, perform, perform_all}
use nntp_proxy.Cache.Index.Found.{bit_or-right, lookup_active-keeps, self, insert_generation-finds}

insert_current-IsReady :
    (s : FilterState) (f : ArticleFingerprint) (key : Bytes) (bits block : ℕ)
    → IsReady s
    → 0 < s.live_generations
    → IsReady (insert_current s f key bits block).0
unfolding insert_current
insert_current-IsReady s f key bits block r l = record {
  some_block = r.some_block;
  limited = r.limited;
  some_generation = r.some_generation;
  current = r.current;
  active = λ h. l;
}

insert_missing_bits-some :
    (s : FilterState) (f : ArticleFingerprint) (key : Bytes) (bits block now : ℕ)
    → IsReady s
    → (bits == 0) ≡ false
    → (insert_missing_bits s f key bits block now).0
      ≡ (insert_current
          (ensure_current_generation_started (rotate_if_needed s now).0 now)
          f
          key
          bits
          block).0
unfolding insert_missing_bits
insert_missing_bits-some s f key bits block now r n =
    let q = rotate_if_needed-IsReady s now r in
    let b : ((rotate_if_needed s now).0.blocks_per_generation == 0) ≡ false =
      ground (arith, q.some_block) in
    rw (b, n, q.limited) refl

insert_missing_bits-IsReady :
    (s : FilterState) (f : ArticleFingerprint) (key : Bytes) (bits block now : ℕ)
    → IsReady s
    → IsReady (insert_missing_bits s f key bits block now).0
unfolding insert_missing_bits
insert_missing_bits-IsReady s f key bits block now r =
    let q = rotate_if_needed-IsReady s now r in
    let t = (rotate_if_needed s now).0 in
    let (p, l) = ensure_lem t now q in
    if_split (λ (x : FilterState × ℕ). IsReady x.0)
      (t.blocks_per_generation == 0 || bits == 0 || t.rotation_interval_millis == 0) (λ e. q)
      (λ e. insert_current-IsReady (ensure_current_generation_started t now) f key bits block p l)

perform_all-IsReady : (s : FilterState) (cs : List Call) → IsReady s → IsReady (perform_all s cs)
unfolding lookup_missing_bits
perform_all-IsReady s [] r = r
perform_all-IsReady s (Call.insert f key bits block now ∷ cs) r =
    perform_all-IsReady (insert_missing_bits s f key bits block now).0 cs
      (insert_missing_bits-IsReady s f key bits block now r)
perform_all-IsReady s (Call.restart ∷ cs) r = perform_all-IsReady (reset s) cs (reset-IsReady s r)
perform_all-IsReady s (Call.finish ∷ cs) r =
    perform_all-IsReady (finish_restore s) cs (finish_restore-IsReady s r)
perform_all-IsReady s (Call.restore e block now ttl ∷ cs) r =
    perform_all-IsReady (restore_entry s e block now ttl).0 cs
      (restore_entry-IsReady s e block now ttl r)
perform_all-IsReady s (Call.lookup f key block now ∷ cs) r =
    let q = rotate_if_needed-IsReady s now r in
    perform_all-IsReady (lookup_missing_bits s f key block now).0 cs (
      if_split (λ (x : FilterState × (ℕ × ℕ)). IsReady x.0)
        ((rotate_if_needed s now).0.blocks_per_generation == 0
          || (rotate_if_needed s now).0.generation_count == 0)
        (λ e. q) (λ e. q))

lookup_active-current :
    (s : FilterState) (f : ArticleFingerprint) (key : Bytes) (block rounds j : ℕ)
    → 0 < rounds
    → IsReady s
    → bit_at (lookup_generation (s.generations s.current_generation) f key block) j ≡ 1
    → bit_at (lookup_active s f key block rounds 0 0) j ≡ 1
unfolding lookup_active active_generation
lookup_active-current s f key block zero j l r h = absurd (omega (arith, l))
lookup_active-current s f key block (suc rounds) j l r h =
    let at : active_generation s 0 ≡ s.current_generation =
      ap (λ n. n % s.generation_count) (omega arith)
      ∙ add-mod_right s.current_generation s.generation_count
      ∙ mod-eq_of_lt r.current in
    let b = lookup_generation (s.generations (active_generation s 0)) f key block in
    let found = bit_or 0 b in
    let k : bit_at found j ≡ 1 =
      bit_or-right 0 b j
        (subst (λ i. bit_at (lookup_generation (s.generations i) f key block) j ≡ 1) (sym at) h) in
    if_split (λ n. bit_at n j ≡ 1) (found == usize_max) (λ e. k)
      (λ e. lookup_active-keeps s f key block rounds 1 found j k)

insert_current-finds :
    (s : FilterState) (f : ArticleFingerprint) (key : Bytes) (bits block j : ℕ)
    → bit_at bits j ≡ 1
    → let t = (insert_current s f key bits block).0 in
      bit_at (lookup_generation (t.generations t.current_generation) f key block) j ≡ 1
unfolding insert_current lookup_generation
insert_current-finds s f key bits block j h =
    rw (self s.current_generation)
      (insert_generation-finds (s.generations s.current_generation) f key bits block j h)

not_zero : (bits j : ℕ) → bit_at bits j ≡ 1 → (bits == 0) ≡ false
not_zero zero j h = absurd (ground (arith, bit_at-nothing j, h))
not_zero (suc bits) j h = ground arith

lookup-finds :
    (s : FilterState) (f : ArticleFingerprint) (key : Bytes) (block later j : ℕ)
    → IsReady s
    → 0 < s.live_generations
    → is_due s later ≡ false
    → bit_at (lookup_generation (s.generations s.current_generation) f key block) j ≡ 1
    → bit_at (lookup_missing_bits s f key block later).1.0 j ≡ 1
unfolding lookup_missing_bits
lookup-finds s f key block later j r l d h =
    let t = (rotate_if_needed s later).0 in
    let q = rotate_if_needed-IsReady s later r in
    let found =
      subst (λ x. bit_at (lookup_active x f key block x.live_generations 0 0) j ≡ 1)
        (sym (rotate_if_needed-same s later r d))
        (lookup_active-current s f key block s.live_generations j l r h) in
    if_split (λ (x : FilterState × (ℕ × ℕ)). bit_at x.1.0 j ≡ 1)
      (t.blocks_per_generation == 0 || t.generation_count == 0)
      (λ e. absurd (ground (arith, e, q.some_block, q.some_generation))) (λ e. found)

-- The calls are lookups, each made before a rotation is due.
abbrev pub OnlyLookups : FilterState → List Call → Type 0
OnlyLookups s [] = Unit
OnlyLookups s (Call.lookup f key block now ∷ cs) = (is_due s now ≡ false) × OnlyLookups s cs
OnlyLookups s (_ ∷ cs) = ⊥

lookup-same :
    (s : FilterState) (f : ArticleFingerprint) (key : Bytes) (block now : ℕ)
    → IsReady s
    → is_due s now ≡ false
    → (lookup_missing_bits s f key block now).0 ≡ s
unfolding lookup_missing_bits
lookup-same s f key block now r d =
    let e = rotate_if_needed-same s now r d in
    if_split (λ (x : FilterState × (ℕ × ℕ)). x.0 ≡ s)
      ((rotate_if_needed s now).0.blocks_per_generation == 0
        || (rotate_if_needed s now).0.generation_count == 0)
      (λ h. e) (λ h. e)

perform_all-OnlyLookups :
    (s : FilterState) (cs : List Call) → IsReady s → OnlyLookups s cs → perform_all s cs ≡ s
perform_all-OnlyLookups s [] r h = refl
perform_all-OnlyLookups s (Call.lookup f key block now ∷ cs) r (d, h) =
    ap (λ t. perform_all t cs) (lookup-same s f key block now r d)
    ∙ perform_all-OnlyLookups s cs r h
perform_all-OnlyLookups s (Call.insert f key bits block now ∷ cs) r h = absurd h
perform_all-OnlyLookups s (Call.restore e block now ttl ∷ cs) r h = absurd h
perform_all-OnlyLookups s (Call.restart ∷ cs) r h = absurd h
perform_all-OnlyLookups s (Call.finish ∷ cs) r h = absurd h

-- The state of a new shard after the calls and then the insertion.
abbrev pub after_insert :
    ℕ → ℕ → ℕ → List Call → ArticleFingerprint → Bytes → ℕ → ℕ → ℕ → FilterState
after_insert blocks count interval cs f key bits block now =
    perform (perform_all (new blocks count interval) cs) (Call.insert f key bits block now)

-- A miss that is recorded is found by every lookup that follows with no calls but lookups in between,
-- all of them before the next rotation is due, whatever was inserted, looked up and restored before;
-- a later insertion may take its place. For an index with blocks whose lifetime is not zero.
pub lookup_missing_bits-insert :
    (blocks count interval : ℕ) (cs between : List Call) (f : ArticleFingerprint) (key : Bytes)
    (bits block now later j : ℕ)
    → 0 < blocks
    → (interval == 0) ≡ false
    → bit_at bits j ≡ 1
    → OnlyLookups (after_insert blocks count interval cs f key bits block now) between
    → is_due (after_insert blocks count interval cs f key bits block now) later ≡ false
    → bit_at
        (lookup_missing_bits
          (perform_all (after_insert blocks count interval cs f key bits block now) between)
          f
          key
          block
          later).1.0
        j
      ≡ 1
lookup_missing_bits-insert blocks count interval cs between f key bits block now later j b i h o d =
    let s = perform_all (new blocks count interval) cs in
    let r =
      perform_all-IsReady (new blocks count interval) cs (new-IsReady blocks count interval b i) in
    let v = ensure_current_generation_started (rotate_if_needed s now).0 now in
    let (p, l) = ensure_lem (rotate_if_needed s now).0 now (rotate_if_needed-IsReady s now r) in
    let u = (insert_current v f key bits block).0 in
    let n : (bits == 0) ≡ false = not_zero bits j h in
    let e = insert_missing_bits-some s f key bits block now r n in
    let ready = insert_current-IsReady v f key bits block p l in
    let quiet =
      perform_all-OnlyLookups (after_insert blocks count interval cs f key bits block now) between
        (insert_missing_bits-IsReady s f key bits block now r) o in
    subst (λ x. bit_at (lookup_missing_bits x f key block later).1.0 j ≡ 1) (sym (quiet ∙ e))
      (lookup-finds (insert_current v f key bits block).0 f key block later j ready
        (unfold insert_current in l) (ap (λ x. is_due x later) (sym e) ∙ d)
        (insert_current-finds v f key bits block j h))
