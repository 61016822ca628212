-- ===== src/Base/Octets.antt =====
-- Bytes as numbers, and the operations of the standard library on byte slices that the source calls.
use Prim.Native.Nat.{ℕ, zero, suc, ◌+◌, ◌-◌, ◌%◌, ◌<◌}
use Prim.Native.Char.{code}
use Prim.Native.String.{String}
use mathlib.Core.Path.{◌≡◌, refl, ap}
use mathlib.Core.Logic.{◌↔◌}
use mathlib.Core.Bool.{Bool, true, false, ◌&&◌, ◌||◌}
use mathlib.Core.List.{List, [], ◌∷◌, ◌++◌}
use mathlib.Core.Option.{Option, none, some}
use native.Mathlib.Omega.{arith}
use nntp_proxy.Base.Lists.{length, take, length-append, take-length-append}
use nntp_proxy.Base.Tests.{◌==◌, leb, if◌then◌else◌}

abbrev pub Bytes : Type 0
Bytes = List ℕ

-- The bytes of an ASCII literal.
abbrev pub codes : String → Bytes
codes String.[] = []
codes (String.◌∷◌ c s) = code c ∷ codes s

abbrev pub within : ℕ → ℕ → ℕ → Bool
within lo hi b = leb lo b && leb b hi

-- `u8::is_ascii_whitespace`
abbrev pub is_ascii_whitespace : ℕ → Bool
is_ascii_whitespace b = b == b' ' || b == b'\t' || b == b'\n' || b == 12 || b == b'\r'

-- `u8::wrapping_sub`
abbrev pub wrapping_sub : ℕ → ℕ → ℕ
wrapping_sub a b = (a + 256 - b) % 256

-- `==` of byte slices.
unfoldable pub bytes_eq : Bytes → Bytes → Bool
bytes_eq [] [] = true
bytes_eq (x ∷ xs) (y ∷ ys) = x == y && bytes_eq xs ys
bytes_eq _ _ = false

pub bytes_eq_iff : (a b : Bytes) → (bytes_eq a b ≡ true) ↔ (a ≡ b)
unfolding bytes_eq
bytes_eq_iff (x ∷ a) (y ∷ b) = ground (arith, bytes_eq_iff a b)
bytes_eq_iff _ _ = ground arith

-- `<[u8]>::first` and `<[u8]>::last`
abbrev pub first? : Bytes → Option ℕ
first? [] = none
first? (x ∷ xs) = some x

abbrev pub last? : Bytes → Option ℕ
last? [] = none
last? (x ∷ []) = some x
last? (x ∷ y ∷ ys) = last? (y ∷ ys)

pub last?-concat : (xs : Bytes) (x : ℕ) → last? (xs ++ x ∷ []) ≡ some x
last?-concat [] x = refl
last?-concat (y ∷ []) x = refl
last?-concat (y ∷ z ∷ zs) x = last?-concat (z ∷ zs) x

pub last?-append : (xs : Bytes) (y : ℕ) (ys : Bytes) → last? (xs ++ y ∷ ys) ≡ last? (y ∷ ys)
last?-append [] y ys = refl
last?-append (x ∷ []) y ys = refl
last?-append (x ∷ z ∷ zs) y ys = last?-append (z ∷ zs) y ys

-- A slice without its last byte.
abbrev pub init : Bytes → Bytes
init bs = take (length bs - 1) bs

pub init-concat : (bs : Bytes) {b : ℕ} → last? bs ≡ some b → bs ≡ init bs ++ b ∷ []
init-concat [] h = cc
init-concat (x ∷ []) h = ground arith
init-concat (x ∷ y ∷ ys) {b} h =
    let e : suc (suc (length ys)) - 1 ≡ suc (suc (length ys) - 1) = omega arith in
    rw e (ap (◌∷◌ x) (init-concat (y ∷ ys) h))

pub init-append : (bs : Bytes) (b : ℕ) → init (bs ++ b ∷ []) ≡ bs
init-append bs b =
    let e : length (bs ++ b ∷ []) - 1 ≡ length bs = omega (arith, length-append bs (b ∷ [])) in
    rw e (take-length-append bs (b ∷ []))

-- How many continuation bytes a UTF-8 lead byte asks for, and the range of the first of them.
abbrev utf8_lead : ℕ → Option (ℕ × ℕ × ℕ)
utf8_lead b =
    if leb b 0x7F
    then some (0, 0x80, 0xBF)
    else if within 0xC2 0xDF b
    then some (1, 0x80, 0xBF)
    else if b == 0xE0
    then some (2, 0xA0, 0xBF)
    else if b == 0xED
    then some (2, 0x80, 0x9F)
    else if within 0xE1 0xEF b
    then some (2, 0x80, 0xBF)
    else if b == 0xF0
    then some (3, 0x90, 0xBF)
    else if within 0xF1 0xF3 b
    then some (3, 0x80, 0xBF)
    else if b == 0xF4
    then some (3, 0x80, 0x8F)
    else none

utf8_run : ℕ → ℕ → ℕ → Bytes → Bool
utf8_run zero lo hi [] = true
utf8_run (suc k) lo hi [] = false
utf8_run zero lo hi (b ∷ bs) = elim (utf8_lead b) [
  | none ↦ false
  | some (k, l, h) ↦ utf8_run k l h bs
]
utf8_run (suc k) lo hi (b ∷ bs) = within lo hi b && utf8_run k 0x80 0xBF bs

-- `std::str::from_utf8(bytes).is_ok()`
unfoldable pub is_utf8 : Bytes → Bool
unfolding utf8_run
is_utf8 = utf8_run 0 0x80 0xBF

-- Every ASCII text is valid UTF-8.
pub is_utf8-cons : (b : ℕ) (bs : Bytes) → b < 128 → is_utf8 (b ∷ bs) ≡ is_utf8 bs
unfolding is_utf8
is_utf8-cons b bs h = ground arith
