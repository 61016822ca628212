-- ===== src/Router/Slots.antt =====
-- src/router/backend_info.rs and src/router/mod.rs: the slots of stateful sessions on a backend,
-- which many tasks take and give back at once.
use nntp_proxy.Base.{
  ℕ, ◌+◌, ◌-◌, ◌≤◌, ◌<◌, ◌≡◌, refl, Bool, false, not, ◌&&◌, List, [], ◌∷◌, ◌++◌, Option, none, some,
  arith, leb, ◌==◌, if◌then◌else◌,
}

-- How one round of the compare-exchange loop ends.
pub data Round : Type 0 where
  refused acquired : Round
  again : ℕ → Round

-- One round of `StatefulCount::try_acquire` from the value that was read; the weak exchange may
-- fail although the value is unchanged.
unfoldable pub try_acquire_round : ℕ → ℕ → Bool → ℕ → Round × ℕ
try_acquire_round max_stateful current spurious count =
    if leb max_stateful current
    then (Round.refused, count)
    else if count == current && not spurious
    then (Round.acquired, count + 1)
    else (Round.again count, count)

-- `StatefulCount::release`, with the previous value if a slot was given back.
pub release : ℕ → ℕ × Option ℕ
release count = if count == 0 then (count, none) else (count - 1, some count)

-- `try_acquire_stateful` leaves one connection to the per-command routing.
abbrev pub max_stateful : ℕ → ℕ
max_stateful max_connections = max_connections - 1

-- Where a task is: outside, in the loop with the value it read, or in a stateful session.
pub data Task : Type 0 where
  outside holding : Task
  trying : ℕ → Task

pub record Slots : Type 0 where
  pub count : ℕ
  pub tasks : List Task

abbrev pub after_round : Round → Task
after_round Round.refused = Task.outside
after_round Round.acquired = Task.holding
after_round (Round.again actual) = Task.trying actual

-- One task takes one atomic step: it reads the count, goes through one round, or leaves.
pub data Step (max_connections : ℕ) : Slots → Slots → Type 0 where
  reads :
      (count : ℕ) (before after : List Task)
      → Step max_connections
          (record { count = count; tasks = before ++ Task.outside ∷ after })
          (record { count = count; tasks = before ++ Task.trying count ∷ after })
  tries :
      (count current : ℕ) (spurious : Bool) (before after : List Task)
      → Step max_connections
          (record { count = count; tasks = before ++ Task.trying current ∷ after })
          (record {
            count = (try_acquire_round (max_stateful max_connections) current spurious count).1;
            tasks =
                before
                ++ after_round
                    (try_acquire_round (max_stateful max_connections) current spurious count).0
                  ∷ after;
          })
  leaves :
      (count : ℕ) (before after : List Task)
      → Step max_connections
          (record { count = count; tasks = before ++ Task.holding ∷ after })
          (record { count = (release count).0; tasks = before ++ Task.outside ∷ after })

pub data Steps (max_connections : ℕ) : Slots → Slots → Type 0 where
  done : (s : Slots) → Steps max_connections s s
  step :
      {s t u : Slots}
      → Step max_connections s t
      → Steps max_connections t u
      → Steps max_connections s u

abbrev pub holds : Task → ℕ
holds Task.outside = 0
holds Task.holding = 1
holds (Task.trying n) = 0

abbrev pub holders : List Task → ℕ
holders [] = 0
holders (t ∷ ts) = holds t + holders ts

-- The count is the number of tasks in a stateful session, and within the limit.
pub record IsCounted (max_connections : ℕ) (s : Slots) : Type 0 where
  pub exact : s.count ≡ holders s.tasks
  pub bounded : s.count ≤ max_stateful max_connections

holders-middle :
    (before : List Task) (t : Task) (after : List Task)
    → holders (before ++ t ∷ after) ≡ holds t + holders (before ++ after)
holders-middle [] t after = refl
holders-middle (b ∷ before) t after = omega (arith, holders-middle before t after)

try_acquire_round_lem :
    (max current count : ℕ) (spurious : Bool)
    → ((try_acquire_round max current spurious count).1
        ≡ count + holds (after_round (try_acquire_round max current spurious count).0))
      × (count ≤ max → (try_acquire_round max current spurious count).1 ≤ max)
unfolding try_acquire_round
try_acquire_round_lem max current count spurious = ground arith

Step-IsCounted :
    {max_connections : ℕ} {s t : Slots}
    → Step max_connections s t
    → IsCounted max_connections s
    → IsCounted max_connections t
unfolding release
Step-IsCounted (Step.reads count before after) k = record {
  exact = omega (
    arith,
    k.exact,
    holders-middle before Task.outside after,
    holders-middle before (Task.trying count) after,
  );
  bounded = k.bounded;
}
Step-IsCounted {max_connections} (Step.tries count current spurious before after) k =
    let (e, f) = try_acquire_round_lem (max_stateful max_connections) current count spurious in
    let next =
      after_round (try_acquire_round (max_stateful max_connections) current spurious count).0 in
    record {
      exact = omega (
        arith,
        k.exact,
        e,
        holders-middle before (Task.trying current) after,
        holders-middle before next after,
      );
      bounded = f k.bounded;
    }
Step-IsCounted (Step.leaves count before after) k =
    let e = holders-middle before Task.holding after in
    let f = holders-middle before Task.outside after in
    record { exact = ground (arith, k.exact, e, f); bounded = ground (arith, k.bounded) }

-- However the steps of the tasks interleave, the count is the number of tasks in a stateful
-- session, and a pool that has a connection keeps one for the per-command routing.
pub Steps-IsCounted :
    (max_connections : ℕ) {s t : Slots}
    → Steps max_connections s t
    → IsCounted max_connections s
    → IsCounted max_connections t × (0 < max_connections → holders t.tasks < max_connections)
Steps-IsCounted max_connections (Steps.done s) k = (k, λ h. omega (arith, k.exact, k.bounded))
Steps-IsCounted max_connections (Steps.step a rest) k =
    Steps-IsCounted max_connections rest (Step-IsCounted a k)

-- A task that is alone is let in by its first round exactly when the limit is not reached, and a
-- slot that is given back restores the count.
pub release-try_acquire_round :
    (max count : ℕ)
    → ((try_acquire_round max count false count).0 ≡ Round.acquired
        → (release (try_acquire_round max count false count).1).0 ≡ count)
      × (count < max → (try_acquire_round max count false count).0 ≡ Round.acquired)
      × (max ≤ count → (try_acquire_round max count false count).0 ≡ Round.refused)
unfolding try_acquire_round release
release-try_acquire_round max count = ground arith
