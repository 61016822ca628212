-- ===== src/Base/Bits.antt =====
-- Bits of native numbers: the binary operations of words, one digit after the other.
use Prim.Native.Nat.{
  ℕ, zero, suc, ◌+◌, ◌*◌, ◌/◌, ◌%◌, ◌^◌, ◌≤◌, min, max, bit_and, bit_or, digits, bitwise,
  bit_and-bitwise, bit_or-bitwise,
}
use mathlib.Core.Path.{◌≡◌, refl, ap, ◌∙◌}
use mathlib.Core.Logic.{◌↔◌}
use mathlib.Core.Bool.{true, false, not, ◌||◌}
use native.Mathlib.Omega.{arith}
use native.Mathlib.Nat.{pow-suc}
use nntp_proxy.Base.Tests.{◌==◌}

digits_fuel :
    (z : ℕ → ℕ) (f : ℕ → ℕ → ℕ) (n m a b : ℕ) → a ≤ n → a ≤ m → digits z f n a b ≡ digits z f m a b
digits_fuel z f zero zero a b p q = refl
digits_fuel z f (suc n) (suc m) zero b p q = refl
digits_fuel z f (suc n) zero zero b p q = refl
digits_fuel z f zero (suc m) zero b p q = refl
digits_fuel z f zero (suc m) (suc a) b p q = absurd (omega arith)
digits_fuel z f (suc n) zero (suc a) b p q = absurd (omega arith)
digits_fuel z f (suc n) (suc m) (suc a) b p q =
    ap (λ x. x * 2 + f (suc a % 2) (b % 2))
      (digits_fuel z f n m (suc a / 2) (b / 2) (omega arith) (omega arith))

bitwise_step :
    (z : ℕ → ℕ) (f : ℕ → ℕ → ℕ) (a b : ℕ)
    → z b ≡ z (b / 2) * 2 + f 0 (b % 2)
    → bitwise z f a b ≡ bitwise z f (a / 2) (b / 2) * 2 + f (a % 2) (b % 2)
bitwise_step z f zero b h = h
bitwise_step z f (suc a) b h =
    ap (λ x. x * 2 + f (suc a % 2) (b % 2))
      (digits_fuel z f a (suc a / 2) (suc a / 2) (b / 2) (omega arith) (omega arith))

bit_and-halves : (a b : ℕ) → bit_and a b ≡ bit_and (a / 2) (b / 2) * 2 + min (a % 2) (b % 2)
bit_and-halves a b = omega (
  arith,
  bit_and-bitwise a b,
  bit_and-bitwise (a / 2) (b / 2),
  bitwise_step (λ b. zero) min a b (omega arith),
)

bit_or-halves : (a b : ℕ) → bit_or a b ≡ bit_or (a / 2) (b / 2) * 2 + max (a % 2) (b % 2)
bit_or-halves a b = omega (
  arith,
  bit_or-bitwise a b,
  bit_or-bitwise (a / 2) (b / 2),
  bitwise_step (λ b. b) max a b (omega arith),
)

-- The digit at a place, lowest first.
abbrev pub bit_at : ℕ → ℕ → ℕ
bit_at n zero = n % 2
bit_at n (suc k) = bit_at (n / 2) k

pub bit_at-bit_or : (k a b : ℕ) → bit_at (bit_or a b) k ≡ max (bit_at a k) (bit_at b k)
bit_at-bit_or zero a b = omega (arith, bit_or-halves a b)
bit_at-bit_or (suc k) a b =
    let e : bit_or a b / 2 ≡ bit_or (a / 2) (b / 2) = omega (arith, bit_or-halves a b) in
    ap (λ n. bit_at n k) e ∙ bit_at-bit_or k (a / 2) (b / 2)

pub power_suc : (k : ℕ) → 2 ^ suc k ≡ 2 ^ k * 2
power_suc k = pow-suc 2 k

pub bit_at-nothing : (k : ℕ) → bit_at 0 k ≡ 0
bit_at-nothing zero = refl
bit_at-nothing (suc k) = bit_at-nothing k

-- The bits of a power of two.
pub bit_at-power : (s k : ℕ) → bit_at (2 ^ s) k ≡ elim (s == k) [ true ↦ 1 | false ↦ 0 ]
bit_at-power zero zero = refl
bit_at-power zero (suc k) = bit_at-nothing k ∙ ground arith
bit_at-power (suc s) zero = ground (arith, power_suc s)
bit_at-power (suc s) (suc k) =
    let e : 2 ^ suc s / 2 ≡ 2 ^ s = omega (arith, power_suc s) in
    ap (λ n. bit_at n k) e ∙ bit_at-power s k ∙ ground arith

digits_with_zero : (n a : ℕ) → digits (λ b. zero) min n a 0 ≡ 0
digits_with_zero zero a = refl
digits_with_zero (suc n) zero = refl
digits_with_zero (suc n) (suc a) = omega (arith, digits_with_zero n (suc a / 2))

bit_and-zero : (a : ℕ) → bit_and a 0 ≡ 0
bit_and-zero a = bit_and-bitwise a 0 ∙ digits_with_zero a a

-- A number meets a power of two exactly in the digit at its place.
pub bit_and-power : (k a : ℕ) → (bit_and a (2 ^ k) ≡ 0) ↔ (bit_at a k ≡ 0)
bit_and-power zero a =
    let e = bit_and-halves a 1 in
    let f = bit_and-zero (a / 2) in (λ h. omega (arith, e, f, h), λ h. omega (arith, e, f, h))
bit_and-power (suc k) a =
    let e : 2 ^ suc k / 2 ≡ 2 ^ k = omega (arith, power_suc k) in
    let f : 2 ^ suc k % 2 ≡ 0 = omega (arith, power_suc k) in
    let (to, from) = bit_and-power k (a / 2) in
    let h : bit_and a (2 ^ suc k) ≡ bit_and (a / 2) (2 ^ k) * 2 =
      bit_and-halves a (2 ^ suc k)
      ∙ ap (λ n. bit_and (a / 2) n * 2 + min (a % 2) (2 ^ suc k % 2)) e
      ∙ omega (arith, f) in
    (λ x. to (omega (arith, h, x)), λ x. omega (arith, h, from x))

-- Setting a bit sets that bit and keeps the others.
pub bit_or-power :
    (a s t : ℕ)
    → not (bit_and (bit_or a (2 ^ s)) (2 ^ t) == 0) ≡ ((s == t) || not (bit_and a (2 ^ t) == 0))
bit_or-power a s t =
    let (p, q) = bit_and-power t (bit_or a (2 ^ s)) in
    let (u, v) = bit_and-power t a in
    let e = bit_at-bit_or t a (2 ^ s) in
    let f = bit_at-power s t in ground (arith, p, q, u, v, e, f)

pub bit_at-bit_and : (k a b : ℕ) → bit_at (bit_and a b) k ≡ min (bit_at a k) (bit_at b k)
bit_at-bit_and zero a b = omega (arith, bit_and-halves a b)
bit_at-bit_and (suc k) a b =
    let e : bit_and a b / 2 ≡ bit_and (a / 2) (b / 2) = omega (arith, bit_and-halves a b) in
    ap (λ n. bit_at n k) e ∙ bit_at-bit_and k (a / 2) (b / 2)

pub bit_at_le : (k a : ℕ) → bit_at a k ≤ 1
bit_at_le zero a = omega arith
bit_at_le (suc k) a = bit_at_le k (a / 2)

-- Numbers with the same digits are the same.
bit_at_ext : (fuel n m : ℕ) → n ≤ fuel → m ≤ fuel → ((k : ℕ) → bit_at n k ≡ bit_at m k) → n ≡ m
bit_at_ext zero n m p q h = omega (arith, p, q)
bit_at_ext (suc fuel) n m p q h =
    let e = bit_at_ext fuel (n / 2) (m / 2) (omega arith) (omega arith) (λ k. h (suc k)) in
    omega (arith, e, h 0)

-- A mask is covered exactly when each of its digits is.
pub bit_and_covers : (a mask : ℕ) → (bit_and a mask ≡ mask) ↔ ((k : ℕ) → bit_at mask k ≤ bit_at a k)
bit_and_covers a mask = (
  λ h k. omega (arith, bit_at-bit_and k a mask, ap (λ n. bit_at n k) h),
  λ h.
      bit_at_ext (bit_and a mask + mask) (bit_and a mask) mask (omega arith) (omega arith)
        (λ k. omega (arith, bit_at-bit_and k a mask, h k)),
)
