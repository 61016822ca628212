-- ===== src/Cache/Codec/Words.antt =====
-- src/cache/hybrid_codec.rs: `to_le_bytes`, `from_le_bytes` and `read_exact` of the standard library.
use native.Mathlib.Nat.{pow-suc}
use nntp_proxy.Base.{
  ℕ, zero, suc, ◌+◌, ◌*◌, ◌/◌, ◌%◌, ◌^◌, ◌<◌, ◌≡◌, refl, ap, sym, ◌∙◌, List, [], ◌∷◌, ◌++◌, arith,
  ltb, if◌then◌else◌, length, take, drop, length-append, take-length-append, drop-length-append,
  append_assoc, Bytes, All, Result, ok, err, ◌>>=◌,
}

pub data CodecError : Type 0 where
  unexpected_eof old_format bitmap_too_wide : CodecError
  invalid_status section_too_large invalid_payload_kind : ℕ → CodecError

unfoldable pub to_le_bytes : ℕ → ℕ → Bytes
to_le_bytes zero v = []
to_le_bytes (suc k) v = (v % 256) ∷ to_le_bytes k (v / 256)

unfoldable pub from_le_bytes : Bytes → ℕ
from_le_bytes [] = 0
from_le_bytes (b ∷ bs) = b + 256 * from_le_bytes bs

unfoldable pub read_exact : ℕ → Bytes → Result CodecError (Bytes × Bytes)
read_exact n reader =
    if ltb (length reader) n
    then err CodecError.unexpected_eof
    else ok (take n reader, drop n reader)

unfoldable pub read_word : ℕ → Bytes → Result CodecError (ℕ × Bytes)
read_word k reader = do (bytes, rest) ← read_exact k reader; ok (from_le_bytes bytes, rest)

-- So many words of eight bytes.
unfoldable pub read_words : ℕ → Bytes → Result CodecError (List ℕ × Bytes)
read_words zero reader = ok ([], reader)
read_words (suc n) reader = do
  (w, rest) ← read_word 8 reader
  (ws, rest) ← read_words n rest
  ok (w ∷ ws, rest)

unfoldable pub words_to_le_bytes : List ℕ → Bytes
words_to_le_bytes [] = []
words_to_le_bytes (w ∷ ws) = to_le_bytes 8 w ++ words_to_le_bytes ws

pub length-to_le_bytes : (k v : ℕ) → length (to_le_bytes k v) ≡ k
unfolding to_le_bytes
length-to_le_bytes zero v = refl
length-to_le_bytes (suc k) v = ap suc (length-to_le_bytes k (v / 256))

pub from_le_bytes-to_le_bytes : (k v : ℕ) → v < 256 ^ k → from_le_bytes (to_le_bytes k v) ≡ v
unfolding to_le_bytes from_le_bytes
from_le_bytes-to_le_bytes zero v h = omega (arith, h)
from_le_bytes-to_le_bytes (suc k) v h =
    let e : 256 ^ suc k ≡ 256 ^ k * 256 = pow-suc 256 k in
    omega (arith, from_le_bytes-to_le_bytes k (v / 256) (omega (arith, e, h)))

pub read_exact-append : (xs rest : Bytes) → read_exact (length xs) (xs ++ rest) ≡ ok (xs, rest)
unfolding read_exact
read_exact-append xs rest =
    ground (arith, length-append xs rest, take-length-append xs rest, drop-length-append xs rest)

-- A word is read back, whatever follows it.
pub read_word-to_le_bytes :
    (k v : ℕ) (rest : Bytes) → v < 256 ^ k → read_word k (to_le_bytes k v ++ rest) ≡ ok (v, rest)
unfolding read_word
read_word-to_le_bytes k v rest h =
    let e : read_exact k (to_le_bytes k v ++ rest) ≡ ok (to_le_bytes k v, rest) =
      ap (λ n. read_exact n (to_le_bytes k v ++ rest)) (sym (length-to_le_bytes k v))
      ∙ read_exact-append (to_le_bytes k v) rest in
    rw e (ap (λ n. ok (n, rest)) (from_le_bytes-to_le_bytes k v h))

pub length-words_to_le_bytes : (ws : List ℕ) → length (words_to_le_bytes ws) ≡ 8 * length ws
unfolding words_to_le_bytes
length-words_to_le_bytes [] = refl
length-words_to_le_bytes (w ∷ ws) = omega (
  arith,
  length-append (to_le_bytes 8 w) (words_to_le_bytes ws),
  length-to_le_bytes 8 w,
  length-words_to_le_bytes ws,
)

pub read_words-words_to_le_bytes :
    (ws : List ℕ) (rest : Bytes)
    → All (λ w. w < 2 ^ 64) ws
    → read_words (length ws) (words_to_le_bytes ws ++ rest) ≡ ok (ws, rest)
unfolding read_words words_to_le_bytes
read_words-words_to_le_bytes [] rest h = refl
read_words-words_to_le_bytes (w ∷ ws) rest (h, hs) = rw (
  append_assoc (to_le_bytes 8 w) (words_to_le_bytes ws) rest,
  read_word-to_le_bytes 8 w (words_to_le_bytes ws ++ rest) h,
  read_words-words_to_le_bytes ws rest hs,
)
