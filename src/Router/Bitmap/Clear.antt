-- ===== src/Router/Bitmap/Clear.antt =====
-- src/cache/availability.rs: a cleared bit is gone, and the others stay.
use native.Mathlib.Nat.{pow-le-pow_right}
use nntp_proxy.Base.{
  ℕ, zero, suc, ◌-◌, ◌/◌, ◌^◌, ◌≤◌, ◌<◌, ◌≡◌, ap, ◌∙◌, not, ◌&&◌, ◌==◌, arith, bit_at, bit_at_le,
  bit_at-bit_and, bit_at-power, bit_and-power, power_suc,
}
use Prim.Native.Nat.{bit_and}
use nntp_proxy.Types.{usize_bits}
use nntp_proxy.Router.Bitmap.{is_missing_slot, clear_slot}

-- The complement in words of any width.
bit_at-complement : (w x k : ℕ) → x < 2 ^ w → k < w → bit_at (2 ^ w - 1 - x) k ≡ 1 - bit_at x k
bit_at-complement zero x k h l = absurd (omega (arith, l))
bit_at-complement (suc w) x zero h l = omega (arith, power_suc w, h)
bit_at-complement (suc w) x (suc k) h l =
    let e : (2 ^ suc w - 1 - x) / 2 ≡ 2 ^ w - 1 - x / 2 = omega (arith, power_suc w, h) in
    ap (λ n. bit_at n k) e
    ∙ bit_at-complement w (x / 2) k (omega (arith, power_suc w, h)) (omega (arith, l))

power-lt-word : (s : ℕ) → s < usize_bits → 2 ^ s < 2 ^ usize_bits
power-lt-word s h =
    let p : 2 ^ s ≤ 2 ^ 63 = pow-le-pow_right {n = 2} (omega arith) {j = 63} (omega (arith, h)) in
    omega (arith, p)

pub is_missing_slot-clear_slot :
    (bits s k : ℕ)
    → s < usize_bits
    → k < usize_bits
    → is_missing_slot (record { missing = clear_slot bits s }) k
      ≡ (not (s == k) && is_missing_slot (record { missing = bits }) k)
unfolding is_missing_slot clear_slot
is_missing_slot-clear_slot bits s k h l =
    let m = 2 ^ usize_bits - 1 - 2 ^ s in
    let (p, q) = bit_and-power k (bit_and bits m) in
    let (u, v) = bit_and-power k bits in
    let e = bit_at-bit_and k bits m in
    let c = bit_at-complement usize_bits (2 ^ s) k (power-lt-word s h) l in
    let f = bit_at-power s k in let b = bit_at_le k bits in ground (arith, p, q, u, v, e, c, f, b)
