-- ===== src/Session/State/Reported.antt =====
-- src/session/state.rs: what the flushes of a session report.
use nntp_proxy.Base.{
  ℕ, zero, suc, ◌+◌, ◌/◌, ◌^◌, ◌≤◌, ◌<◌, ◌≡◌, Bool, leb, if◌then◌else◌, if_split, List, [], ◌∷◌,
  arith, Bytes, inl, inr, Bool-cases,
}
use nntp_proxy.Memchr.{Memchr}
use nntp_proxy.Protocol.Kind.{RequestKind}
use nntp_proxy.Session.State.{
  SessionLoopState, AuthHandlerResult, bytes_written, should_skip_further_checks,
  from_initial_bytes, with_initial_bytes, check_and_maybe_flush_metrics, add_client_to_backend,
  add_backend_to_client, flush_byte_deltas, mark_authenticated, apply_auth_result,
  mark_backend_request_sent, push_deferred, client_writes, take_ready, into_metrics,
  metrics_flush_interval,
}

-- What happens in a session loop.
pub data Event : Type 0 where
  sent : ℕ → Event
  received : ℕ → Event
  replied : AuthHandlerResult → Event
  forwarded : RequestKind → Event
  deferred : Bytes → Event
  read : Memchr → Bytes → Event
  drained : Event
  flushed : Event

abbrev pub step : SessionLoopState → Event → SessionLoopState × (ℕ × ℕ)
step s (sent n) = (add_client_to_backend s n, (0, 0))
step s (received n) = (add_backend_to_client s n, (0, 0))
step s (replied r) = ((apply_auth_result s r).0, (0, 0))
step s (forwarded kind) = (mark_backend_request_sent s kind, (0, 0))
step s (deferred reply) = (push_deferred s reply, (0, 0))
step s (read m bytes) = ((client_writes m s bytes).0, (0, 0))
step s drained = ((take_ready s).0, (0, 0))
step s flushed = flush_byte_deltas s

-- The state and the sums of what was reported.
abbrev pub run : SessionLoopState → List Event → SessionLoopState × (ℕ × ℕ)
run s [] = (s, (0, 0))
run s (e ∷ es) = let (t, (c, b)) = step s e in let (u, (cs, bs)) = run t es in (u, (c + cs, b + bs))

abbrev pub sent_in : List Event → ℕ
sent_in [] = 0
sent_in (sent n ∷ es) = n + sent_in es
sent_in (_ ∷ es) = sent_in es

abbrev pub received_in : List Event → ℕ
received_in [] = 0
received_in (received n ∷ es) = n + received_in es
received_in (replied r ∷ es) = bytes_written r + received_in es
received_in (_ ∷ es) = received_in es

-- How a run goes on from a state: the counters hold all bytes, and what was reported is what the
-- watermarks have moved.
pub record Follows (s : SessionLoopState) (es : List Event) (u : SessionLoopState) (cs bs : ℕ)
    : Type 0 where
  pub sent_all : u.client_to_backend ≡ s.client_to_backend + sent_in es
  pub received_all : u.backend_to_client ≡ s.backend_to_client + received_in es
  pub reported_c2b : s.last_reported_c2b + cs ≡ u.last_reported_c2b
  pub reported_b2c : s.last_reported_b2c + bs ≡ u.last_reported_b2c
  pub behind_c2b : u.last_reported_c2b ≤ u.client_to_backend
  pub behind_b2c : u.last_reported_b2c ≤ u.backend_to_client

replied-Follows :
    (s : SessionLoopState) (r : AuthHandlerResult)
    → s.last_reported_c2b ≤ s.client_to_backend
    → s.last_reported_b2c ≤ s.backend_to_client
    → s.backend_to_client + bytes_written r < 2 ^ 64
    → Follows s (replied r ∷ []) (apply_auth_result s r).0 0 0
unfolding apply_auth_result add_backend_to_client mark_authenticated
replied-Follows s r a b h =
    if_split (λ u. Follows s (replied r ∷ []) u 0 0) (should_skip_further_checks r)
      (λ e. record {
        sent_all = omega arith;
        received_all = omega (arith, h);
        reported_c2b = omega arith;
        reported_b2c = omega arith;
        behind_c2b = a;
        behind_b2c = omega (arith, h, b);
      })
      (λ e. record {
        sent_all = omega arith;
        received_all = omega (arith, h);
        reported_c2b = omega arith;
        reported_b2c = omega arith;
        behind_c2b = a;
        behind_b2c = omega (arith, h, b);
      })

step-Follows :
    (s : SessionLoopState) (e : Event)
    → s.last_reported_c2b ≤ s.client_to_backend
    → s.last_reported_b2c ≤ s.backend_to_client
    → s.client_to_backend + sent_in (e ∷ []) < 2 ^ 64
    → s.backend_to_client + received_in (e ∷ []) < 2 ^ 64
    → Follows s (e ∷ []) (step s e).0 (step s e).1.0 (step s e).1.1
unfolding add_client_to_backend add_backend_to_client flush_byte_deltas mark_backend_request_sent
    push_deferred client_writes take_ready
step-Follows s (sent n) a b h k = record {
  sent_all = omega (arith, h);
  received_all = omega arith;
  reported_c2b = omega arith;
  reported_b2c = omega arith;
  behind_c2b = omega (arith, h, a);
  behind_b2c = b;
}
step-Follows s (received n) a b h k = record {
  sent_all = omega arith;
  received_all = omega (arith, k);
  reported_c2b = omega arith;
  reported_b2c = omega arith;
  behind_c2b = a;
  behind_b2c = omega (arith, k, b);
}
step-Follows s (replied r) a b h k = replied-Follows s r a b (omega (arith, k))
step-Follows s flushed a b h k = record {
  sent_all = omega arith;
  received_all = omega arith;
  reported_c2b = omega (arith, a);
  reported_b2c = omega (arith, b);
  behind_c2b = omega arith;
  behind_b2c = omega arith;
}
step-Follows s _ a b h k = record {
  sent_all = omega arith;
  received_all = omega arith;
  reported_c2b = omega arith;
  reported_b2c = omega arith;
  behind_c2b = a;
  behind_b2c = b;
}

sent_in-cons : (e : Event) (es : List Event) → sent_in (e ∷ es) ≡ sent_in (e ∷ []) + sent_in es
sent_in-cons (sent n) es = omega arith
sent_in-cons _ es = omega arith

received_in-cons :
    (e : Event) (es : List Event) → received_in (e ∷ es) ≡ received_in (e ∷ []) + received_in es
received_in-cons (received n) es = omega arith
received_in-cons (replied r) es = omega arith
received_in-cons _ es = omega arith

run-Follows :
    (s : SessionLoopState) (es : List Event)
    → s.last_reported_c2b ≤ s.client_to_backend
    → s.last_reported_b2c ≤ s.backend_to_client
    → s.client_to_backend + sent_in es < 2 ^ 64
    → s.backend_to_client + received_in es < 2 ^ 64
    → Follows s es (run s es).0 (run s es).1.0 (run s es).1.1
run-Follows s [] a b h k = record {
  sent_all = omega arith;
  received_all = omega arith;
  reported_c2b = omega arith;
  reported_b2c = omega arith;
  behind_c2b = a;
  behind_b2c = b;
}
run-Follows s (e ∷ es) a b h k =
    let u = sent_in-cons e es in
    let v = received_in-cons e es in
    let f = step-Follows s e a b (omega (arith, h, u)) (omega (arith, k, v)) in
    let g =
      run-Follows (step s e).0 es f.behind_c2b f.behind_b2c (omega (arith, h, u, f.sent_all))
        (omega (arith, k, v, f.received_all)) in
    record {
      sent_all = omega (arith, u, f.sent_all, g.sent_all);
      received_all = omega (arith, v, f.received_all, g.received_all);
      reported_c2b = omega (arith, f.reported_c2b, g.reported_c2b);
      reported_b2c = omega (arith, f.reported_b2c, g.reported_b2c);
      behind_c2b = g.behind_c2b;
      behind_b2c = g.behind_b2c;
    }

-- The flushes of a session, with a last one at its end, report every byte exactly once, and the final
-- counters are the initial ones with all bytes added. For totals that fit in a word.
pub flush_byte_deltas_lem :
    (c2b b2c : ℕ) (auth_enabled : Bool) (es : List Event)
    → c2b + sent_in es < 2 ^ 64
    → b2c + received_in es < 2 ^ 64
    → let (u, (cs, bs)) = run (from_initial_bytes c2b b2c auth_enabled) es in
      (cs + (flush_byte_deltas u).1.0 ≡ sent_in es)
      × (bs + (flush_byte_deltas u).1.1 ≡ received_in es)
      × (into_metrics u ≡ (c2b + sent_in es, b2c + received_in es))
unfolding flush_byte_deltas into_metrics from_initial_bytes with_initial_bytes
flush_byte_deltas_lem c2b b2c auth_enabled es h k =
    let f =
      run-Follows (from_initial_bytes c2b b2c auth_enabled) es (omega arith) (omega arith) h k in
    (
      omega (arith, f.sent_all, f.reported_c2b, f.behind_c2b),
      omega (arith, f.received_all, f.reported_b2c, f.behind_b2c),
      cc (f.sent_all, f.received_all),
    )

-- The flushes that so many rounds of the loop ask for.
abbrev pub rounds : ℕ → SessionLoopState → ℕ
rounds zero s = 0
rounds (suc n) s =
    let (t, flush) = check_and_maybe_flush_metrics s in (if flush then 1 else 0) + rounds n t

-- The loop flushes once in so many rounds, wherever its counter stands.
pub rounds_lem :
    (n : ℕ) (s : SessionLoopState)
    → s.iteration_count < metrics_flush_interval
    → rounds n s ≡ (s.iteration_count + n) / metrics_flush_interval
unfolding check_and_maybe_flush_metrics
rounds_lem zero s h = omega (arith, h)
rounds_lem (suc n) s h = elim (Bool-cases (leb metrics_flush_interval (s.iteration_count + 1))) [
  | inl e ↦
      let full : s.iteration_count ≡ 99 = ground (arith, e, h) in
      let r = rounds_lem n (record s { iteration_count = 0 }) (omega arith) in
      rw e (omega (arith, full, r))
  | inr e ↦
      let more : s.iteration_count + 1 < 100 = ground (arith, e) in
      let r = rounds_lem n (record s { iteration_count = s.iteration_count + 1 }) more in
      rw e (omega (arith, r))
]
