-- ===== src/Router/Weights.antt =====
-- Arithmetic of `usize` as the router uses it.
use nntp_proxy.Base.{ℕ, ◌+◌, ◌-◌, ◌*◌, ◌%◌, ◌^◌, min}
use nntp_proxy.Types.{usize_bits}

abbrev pub usize_max : ℕ
usize_max = 2 ^ usize_bits - 1

abbrev pub saturating_add : ℕ → ℕ → ℕ
saturating_add a b = min (a + b) usize_max

abbrev pub saturating_mul : ℕ → ℕ → ℕ
saturating_mul a b = min (a * b) usize_max

-- `fetch_add(1)` wraps.
abbrev pub wrapping_succ : ℕ → ℕ
wrapping_succ n = (n + 1) % 2 ^ usize_bits

abbrev pub wrapping_mul : ℕ → ℕ → ℕ
wrapping_mul a b = (a * b) % 2 ^ usize_bits
