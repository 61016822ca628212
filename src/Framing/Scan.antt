-- ===== src/Framing/Scan.antt =====
-- The end of the first terminator, byte by byte: what the searches of the framer are held against.
pub mod Window
pub mod Find
use nntp_proxy.Base.{
  ℕ, ◌+◌, [], ◌∷◌, Option, none, some, ◌==◌, ◌&&◌, if◌then◌else◌, Bytes, Bool, true, false,
}

-- The text before the place, last byte first, ends in a terminator.
abbrev pub ends_terminator : Bytes → Bool
ends_terminator (e ∷ d ∷ c ∷ b ∷ a ∷ rest) =
    a == b'\r' && b == b'\n' && c == b'.' && d == b'\r' && e == b'\n'
ends_terminator _ = false

abbrev pub plus : ℕ → Option ℕ → Option ℕ
plus k none = none
plus k (some n) = some (n + k)

-- How many bytes end the first terminator in a stream of which `seen` went before, last byte first.
unfoldable pub scan : Bytes → Bytes → Option ℕ
scan seen [] = none
scan seen (b ∷ bs) = if ends_terminator (b ∷ seen) then some 1 else plus 1 (scan (b ∷ seen) bs)

-- The tail, last byte first.
abbrev pub backwards : Bytes → Bytes → Bytes
backwards [] seen = seen
backwards (b ∷ bs) seen = backwards bs (b ∷ seen)
