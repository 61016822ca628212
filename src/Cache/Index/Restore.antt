-- ===== src/Cache/Index/Restore.antt =====
-- src/cache/availability_index.rs: the restoration of a snapshot into the filter of a shard.
use nntp_proxy.Base.{
  ℕ, zero, suc, ◌+◌, ◌-◌, ◌/◌, min, max, ◌||◌, Option, none, some, leb, ◌==◌, if◌then◌else◌, Bytes,
}
use nntp_proxy.Router.Weights.{saturating_add}
use nntp_proxy.Cache.Index.{
  FilterState, active_generation, is_unlimited, count_inserted, count_replaced, assign,
  empty_generation, insert_generation,
}

pub record PersistedEntry : Type 0 where
  pub hash : ℕ
  pub tag : ℕ
  pub key : Bytes
  pub missing : ℕ
  pub inserted_at : ℕ

unfoldable pub reset : FilterState → FilterState
reset s = record s {
  generations = λ i. empty_generation;
  current_generation = 0;
  live_generations = 0;
  next_rotation_at = 0;
}

-- How many generations ago an entry was inserted.
unfoldable pub age : FilterState → PersistedEntry → ℕ → ℕ
age s e now =
    min
      (if is_unlimited s.rotation_interval_millis
        then 0
        else (now - e.inserted_at) / s.rotation_interval_millis)
      (s.generation_count - 1)

-- The insertion of an entry into the generation of its age.
unfoldable pub restore_at : FilterState → PersistedEntry → ℕ → ℕ → FilterState × ℕ
unfolding active_generation
restore_at s e block offset =
    let index = active_generation s offset in
    let g = s.generations index in
    let started = if g.started_at == 0 then e.inserted_at else min g.started_at e.inserted_at in
    let (h, outcome) =
      insert_generation (record g { started_at = started }) (record { hash = e.hash; tag = e.tag })
        e.key e.missing block in
    (
      record s {
        generations =
            assign s.generations index (record h { occupied = count_inserted outcome h.occupied });
        live_generations = max s.live_generations (offset + 1);
      },
      count_replaced outcome 0,
    )

unfoldable pub restore_entry : FilterState → PersistedEntry → ℕ → ℕ → ℕ → FilterState × ℕ
unfolding restore_at age
restore_entry s e block now ttl_millis =
    if s.blocks_per_generation == 0
      || e.hash == 0
      || e.missing == 0
      || leb ttl_millis (now - e.inserted_at)
    then (s, 0)
    else restore_at s e block (age s e now)

-- The generation that started last, the highest of several.
unfoldable pub youngest : FilterState → ℕ → Option ℕ
youngest s zero = none
youngest s (suc n) =
    let rest = youngest s n in
    if (s.generations n).started_at == 0 then rest else elim rest [
      | none ↦ some n
      | some k ↦
          if leb (s.generations k).started_at (s.generations n).started_at then some n else some k
    ]

unfoldable pub refresh_next_rotation_at : FilterState → FilterState
refresh_next_rotation_at s = record s {
  next_rotation_at =
      if is_unlimited s.rotation_interval_millis
      then 0
      else saturating_add (s.generations s.current_generation).started_at
          s.rotation_interval_millis;
}

unfoldable pub reanchor_current_generation : FilterState → FilterState
unfolding youngest refresh_next_rotation_at
reanchor_current_generation s = elim (youngest s s.generation_count) [
  | none ↦ s
  | some index ↦ refresh_next_rotation_at (record s { current_generation = index })
]

-- The last step of `restore_into` for a shard.
unfoldable pub finish_restore : FilterState → FilterState
unfolding reanchor_current_generation
finish_restore s = if s.live_generations == 0 then s else reanchor_current_generation s
