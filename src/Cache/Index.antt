-- ===== src/Cache/Index.antt =====
-- src/cache/availability_index.rs: the index of known misses, one shard at a time, and the way from a
-- hash to its bucket. The time of a call is an argument.
pub mod Storage
unfoldable pub use Storage.*
pub mod Restore
pub mod Slots
pub mod Preserved
pub mod Sound
pub mod Ready
pub mod Found
pub mod Retained
pub mod Shards
use nntp_proxy.Base.{
  ℕ, zero, suc, ◌+◌, ◌-◌, ◌*◌, ◌/◌, ◌%◌, ◌^◌, min, max, Bool, true, false, not, ◌&&◌, ◌||◌, List,
  [], ◌∷◌, Option, none, some, ltb, leb, ◌==◌, if◌then◌else◌, Bytes, bytes_eq,
}
use Prim.Native.Nat.{bit_or, bit_xor}
use nntp_proxy.Router.Weights.{usize_max, saturating_add, saturating_mul}

pub record FilterState : Type 0 where
  pub generations : ℕ → Generation
  pub generation_count : ℕ
  pub current_generation : ℕ
  pub blocks_per_generation : ℕ
  pub live_generations : ℕ
  pub rotation_interval_millis : ℕ
  pub next_rotation_at : ℕ

unfoldable pub new : ℕ → ℕ → ℕ → FilterState
new blocks_per_generation generation_count rotation_interval_millis = record {
  generations = λ i. empty_generation;
  generation_count = max generation_count 1;
  current_generation = 0;
  blocks_per_generation = blocks_per_generation;
  live_generations = 0;
  rotation_interval_millis = rotation_interval_millis;
  next_rotation_at = 0;
}

unfoldable pub active_generation : FilterState → ℕ → ℕ
active_generation s offset =
    (s.current_generation + s.generation_count - offset) % s.generation_count

-- The sum over the first generations.
unfoldable pub occupied_in : FilterState → ℕ → ℕ
occupied_in s zero = 0
occupied_in s (suc n) = occupied_in s n + (s.generations n).occupied

-- The body of the rotation's loop, so many times.
unfoldable pub advance : ℕ → FilterState → ℕ → FilterState × ℕ
advance zero s evicted = (s, evicted)
advance (suc rounds) s evicted =
    let next = (s.current_generation + 1) % s.generation_count in
    advance rounds
      (record s {
        current_generation = next;
        generations = assign s.generations next empty_generation;
      })
      (evicted + (s.generations next).occupied)

-- `0 | u64::MAX` for an interval.
abbrev pub is_unlimited : ℕ → Bool
is_unlimited interval = interval == 0 || interval == usize_max

unfoldable pub is_due : FilterState → ℕ → Bool
is_due s now =
    not (s.live_generations == 0 || s.next_rotation_at == 0 || ltb now s.next_rotation_at)

unfoldable pub rotate : FilterState → ℕ → FilterState × ℕ
rotate s now =
    let rotations =
      min (1 + (now - s.next_rotation_at) / s.rotation_interval_millis) s.generation_count in
    let (t, evicted) = advance rotations s 0 in
    (
      record t {
        live_generations = min (s.live_generations + rotations) s.generation_count;
        next_rotation_at =
            saturating_add s.next_rotation_at (saturating_mul rotations s.rotation_interval_millis);
      },
      evicted,
    )

unfoldable pub rotate_if_needed : FilterState → ℕ → FilterState × ℕ
unfolding occupied_in rotate
rotate_if_needed s now =
    if s.blocks_per_generation == 0 || s.generation_count == 0
    then (s, 0)
    else if s.rotation_interval_millis == 0
    then (
      record s {
        generations = λ i. empty_generation;
        current_generation = 0;
        live_generations = 0;
        next_rotation_at = 0;
      },
      occupied_in s s.generation_count,
    )
    else if s.rotation_interval_millis == usize_max
    then (s, 0)
    else if is_due s now
    then rotate s now
    else (s, 0)

unfoldable pub ensure_current_generation_started : FilterState → ℕ → FilterState
ensure_current_generation_started s now =
    let g = s.generations s.current_generation in
    if g.started_at == 0
    then record s {
      generations = assign s.generations s.current_generation (record g { started_at = now });
      live_generations = max s.live_generations 1;
      next_rotation_at =
          if is_unlimited s.rotation_interval_millis
          then 0
          else saturating_add now s.rotation_interval_millis;
    }
    else s

-- The loop over the active generations from an offset on, which stops when all bits are set.
unfoldable pub lookup_active : FilterState → ArticleFingerprint → Bytes → ℕ → ℕ → ℕ → ℕ → ℕ
lookup_active s f key block zero offset bits = bits
lookup_active s f key block (suc rounds) offset bits =
    let found =
      bit_or bits (lookup_generation (s.generations (active_generation s offset)) f key block) in
    let rest = lookup_active s f key block rounds (offset + 1) found in
    if found == usize_max then found else rest

-- `FilterState::lookup_missing_bits`, with the evictions.
unfoldable pub lookup_missing_bits :
    FilterState → ArticleFingerprint → Bytes → ℕ → ℕ → FilterState × (ℕ × ℕ)
unfolding lookup_active
lookup_missing_bits s f key block now =
    let (t, evicted) = rotate_if_needed s now in
    if t.blocks_per_generation == 0 || t.generation_count == 0
    then (t, (0, evicted))
    else (t, (lookup_active t f key block t.live_generations 0 0, evicted))

abbrev pub count_inserted : InsertOutcome → ℕ → ℕ
count_inserted InsertOutcome.inserted occupied = occupied + 1
count_inserted _ occupied = occupied

abbrev pub count_replaced : InsertOutcome → ℕ → ℕ
count_replaced InsertOutcome.replaced evicted = saturating_add evicted 1
count_replaced _ evicted = evicted

-- The insertion into the current generation.
unfoldable pub insert_current :
    FilterState → ArticleFingerprint → Bytes → ℕ → ℕ → FilterState × InsertOutcome
insert_current s f key bits block =
    let (g, outcome) = insert_generation (s.generations s.current_generation) f key bits block in
    (
      record s {
        generations =
            assign s.generations s.current_generation
              (record g { occupied = count_inserted outcome g.occupied });
      },
      outcome,
    )

-- `FilterState::insert_missing_bits`, with the evictions.
unfoldable pub insert_missing_bits :
    FilterState → ArticleFingerprint → Bytes → ℕ → ℕ → ℕ → FilterState × ℕ
unfolding ensure_current_generation_started insert_current
insert_missing_bits s f key bits block now =
    let (t, evicted) = rotate_if_needed s now in
    if t.blocks_per_generation == 0 || bits == 0 || t.rotation_interval_millis == 0
    then (t, evicted)
    else (let (u, outcome) =
          insert_current (ensure_current_generation_started t now) f key bits block in
        (u, count_replaced outcome evicted))

unfoldable pub block_index : ℕ → ℕ → ℕ
block_index hash block_count = bit_xor (hash / 2 ^ 32) hash % block_count

-- `locate_hash`: the shard and the bucket in it.
unfoldable pub locate_hash : ℕ → ℕ → ℕ → ℕ × ℕ
unfolding block_index
locate_hash shards blocks_per_generation hash =
    let global = if blocks_per_generation == 0 then 0 else block_index hash blocks_per_generation in
    (global % shards, global / shards)

-- The blocks of a shard's generation in `with_geometry`.
abbrev pub blocks_of_shard : ℕ → ℕ → ℕ → ℕ
blocks_of_shard shards blocks_per_generation shard =
    blocks_per_generation / shards + (if ltb shard (blocks_per_generation % shards) then 1 else 0)
