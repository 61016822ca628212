-- ===== src/Framing/Scan/Find.antt =====
-- The scan with nothing before it is the search for the terminator.
use nntp_proxy.Base.{
  ℕ, ◌≡◌, refl, ap, Bool, true, false, ◌&&◌, [], ◌∷◌, Option, none, some, arith, ◌==◌,
  if◌then◌else◌, Bytes, bytes_eq, codes, length, take,
}
use nntp_proxy.Memchr.{find_first}
use nntp_proxy.Framing.{terminator}
use nntp_proxy.Framing.Scan.{scan, plus}
use nntp_proxy.Framing.Scan.Window.{starts, scan_first}

pub bytes_eq-take : (x bs : Bytes) → bytes_eq (take (length x) bs) x ≡ starts x bs
unfolding bytes_eq
bytes_eq-take [] bs = refl
bytes_eq-take (x ∷ xs) [] = refl
bytes_eq-take (x ∷ xs) (b ∷ bs) = ground (arith, bytes_eq-take xs bs)

pub find_first-cons :
    (needle : Bytes) (b : ℕ) (bs : Bytes)
    → find_first needle (b ∷ bs)
      ≡ (if starts needle (b ∷ bs) then some 0 else plus 1 (find_first needle bs))
unfolding find_first
find_first-cons needle b bs = ground (arith, bytes_eq-take needle (b ∷ bs))

scan-cons :
    (b : ℕ) (bs : Bytes)
    → scan [] (b ∷ bs) ≡ (if starts terminator (b ∷ bs) then some 5 else plus 1 (scan [] bs))
unfolding scan
scan-cons b bs = rw (scan_first b bs) (step (b == b'\r') (starts (codes "\n.\r\n") bs) (scan [] bs))
  where
    step :
        (p q : Bool) (o : Option ℕ)
        → plus 1 (if p && q then some 4 else o) ≡ (if p && q then some 5 else plus 1 o)
    step false q o = refl
    step true false o = refl
    step true true o = refl

plus-plus : (o : Option ℕ) → plus 1 (plus 5 o) ≡ plus 5 (plus 1 o)
plus-plus none = refl
plus-plus (some n) = ap some (omega arith)

plus_choice :
    (p : Bool) (o : Option ℕ)
    → (if p then some 5 else plus 1 (plus 5 o)) ≡ plus 5 (if p then some 0 else plus 1 o)
plus_choice false o = plus-plus o
plus_choice true o = refl

-- The first terminator in a stream, found by its start or by its end, is the same.
pub scan-find_first : (bs : Bytes) → scan [] bs ≡ plus 5 (find_first terminator bs)
unfolding scan find_first bytes_eq
scan-find_first [] = refl
scan-find_first (b ∷ bs) =
    rw (scan-cons b bs, find_first-cons terminator b bs, scan-find_first bs)
      (plus_choice (starts terminator (b ∷ bs)) (find_first terminator bs))
