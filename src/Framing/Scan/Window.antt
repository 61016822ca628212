-- ===== src/Framing/Scan/Window.antt =====
-- Only the last four bytes that went before matter, and each of them for one place.
use nntp_proxy.Base.{
  ℕ, ◌≡◌, refl, ap, Bool, true, false, ◌&&◌, [], ◌∷◌, some, arith, ◌==◌, if◌then◌else◌, Bytes,
  codes,
}
use nntp_proxy.Framing.Scan.{scan, ends_terminator, plus}

pub scan_window :
    (p q r s : ℕ) (x y bs : Bytes) → scan (p ∷ q ∷ r ∷ s ∷ x) bs ≡ scan (p ∷ q ∷ r ∷ s ∷ y) bs
unfolding scan
scan_window p q r s x y [] = refl
scan_window p q r s x y (b ∷ bs) =
    ap (λ o. if ends_terminator (b ∷ p ∷ q ∷ r ∷ s ∷ x) then some 1 else plus 1 o)
      (scan_window b p q r (s ∷ x) (s ∷ y) bs)

abbrev pub starts : Bytes → Bytes → Bool
starts [] bs = true
starts (x ∷ xs) [] = false
starts (x ∷ xs) (b ∷ bs) = b == x && starts xs bs

-- The fourth byte back ends a terminator with the next byte, and does nothing else.
pub scan_fourth :
    (d c b a : ℕ) (bs : Bytes)
    → scan (d ∷ c ∷ b ∷ a ∷ []) bs ≡ (
        if a == b'\r' && b == b'\n' && c == b'.' && d == b'\r' && starts (b'\n' ∷ []) bs
        then some 1
        else scan (d ∷ c ∷ b ∷ []) bs)
unfolding scan
scan_fourth d c b a [] = ground arith
scan_fourth d c b a (x ∷ bs) = ground (arith, scan_window x d c b (a ∷ []) [] bs)

pub scan_third :
    (d c b : ℕ) (bs : Bytes)
    → scan (d ∷ c ∷ b ∷ []) bs ≡ (
        if b == b'\r' && c == b'\n' && d == b'.' && starts (codes "\r\n") bs
        then some 2
        else scan (d ∷ c ∷ []) bs)
unfolding scan
scan_third d c b [] = ground arith
scan_third d c b (x ∷ []) = ground arith
scan_third d c b (x ∷ y ∷ bs) = ground (arith, scan_window y x d c (b ∷ []) [] bs)

pub scan_second :
    (d c : ℕ) (bs : Bytes)
    → scan (d ∷ c ∷ []) bs
      ≡ (if c == b'\r' && d == b'\n' && starts (codes ".\r\n") bs then some 3 else scan (d ∷ []) bs)
unfolding scan
scan_second d c [] = ground arith
scan_second d c (x ∷ []) = ground arith
scan_second d c (x ∷ y ∷ []) = ground arith
scan_second d c (x ∷ y ∷ z ∷ bs) = ground (arith, scan_window z y x d (c ∷ []) [] bs)

pub scan_first :
    (d : ℕ) (bs : Bytes)
    → scan (d ∷ []) bs ≡ (if d == b'\r' && starts (codes "\n.\r\n") bs then some 4 else scan [] bs)
unfolding scan
scan_first d [] = ground arith
scan_first d (x ∷ []) = ground arith
scan_first d (x ∷ y ∷ []) = ground arith
scan_first d (x ∷ y ∷ z ∷ []) = ground arith
scan_first d (x ∷ y ∷ z ∷ w ∷ bs) = ground (arith, scan_window w z y x (d ∷ []) [] bs)
