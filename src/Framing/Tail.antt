-- ===== src/Framing/Tail.antt =====
-- src/session/multiline_framing.rs: the framer keeps the last four bytes of the stream.
use nntp_proxy.Base.{
  ℕ, zero, suc, ◌+◌, ◌-◌, ◌≤◌, ◌≡◌, refl, ap, sym, subst, ◌∙◌, [], ◌∷◌, ◌++◌, arith, Bytes, length,
  take, drop, length-append, length-drop, take_of_le, drop-length-append, drop-drop, inl, inr,
  le_or_lt, append_assoc, take-append-drop, le→leb,
}
use nntp_proxy.Framing.{MultilineFramer, default_framer, tail_size, tail, last_bytes, update}

pub record IsFramer (f : MultilineFramer) : Type 0 where
  pub size : length f.bytes ≡ tail_size
  pub used : f.len ≤ tail_size

pub IsFramer-default : IsFramer default_framer
IsFramer-default = record { size = refl; used = omega arith }

-- A framer after a stream: its cells are in order, and it holds the end of the stream.
pub record Follows (f : MultilineFramer) (stream : Bytes) : Type 0 where
  pub framer : IsFramer f
  pub holds : tail f ≡ last_bytes tail_size stream

drop-append_of_le : (n : ℕ) (xs ys : Bytes) → drop (length xs + n) (xs ++ ys) ≡ drop n ys
drop-append_of_le n xs ys =
    sym (drop-drop (length xs) n (xs ++ ys)) ∙ ap (drop n) (drop-length-append xs ys)

-- The last bytes of a text whose end is long enough are those of the end.
last_bytes-append :
    (n : ℕ) (xs ys : Bytes) → n ≤ length ys → last_bytes n (xs ++ ys) ≡ last_bytes n ys
last_bytes-append n xs ys h =
    let e : length (xs ++ ys) - n ≡ length xs + (length ys - n) =
      omega (arith, length-append xs ys) in
    rw e (drop-append_of_le (length ys - n) xs ys)

length-last_bytes : (n : ℕ) (xs : Bytes) → n ≤ length xs → length (last_bytes n xs) ≡ n
length-last_bytes n xs h = omega (arith, length-drop (length xs - n) xs)

abbrev Updated : Bytes → ℕ → Bytes → Type 0
Updated bytes len chunk =
    let f : MultilineFramer = record { bytes = bytes; len = len } in
    (tail (update f chunk) ≡ last_bytes tail_size (tail f ++ chunk))
    × (length (update f chunk).bytes ≡ tail_size)
    × ((update f chunk).len ≤ tail_size)

update_of_long :
    (f : MultilineFramer) (chunk : Bytes)
    → tail_size ≤ length chunk
    → update f chunk ≡ record { bytes = last_bytes tail_size chunk; len = tail_size }
unfolding update
update_of_long f chunk h = rw (le→leb tail_size (length chunk) h) refl

update_long :
    (bytes : Bytes) (len : ℕ) (chunk : Bytes) → tail_size ≤ length chunk → Updated bytes len chunk
update_long bytes len chunk h =
    let size = length-last_bytes tail_size chunk h in
    rw (update_of_long (record { bytes = bytes; len = len }) chunk h) (
      take_of_le tail_size (last_bytes tail_size chunk) (omega (arith, size))
          ∙ sym (last_bytes-append tail_size (take len bytes) chunk h),
      size,
      omega arith,
    )

update_cells :
    (a b c d len : ℕ) (chunk : Bytes) → len ≤ tail_size → Updated (a ∷ b ∷ c ∷ d ∷ []) len chunk
unfolding update
update_cells a b c d zero [] h = (refl, refl, omega arith)
update_cells a b c d zero (p ∷ []) h = (refl, refl, omega arith)
update_cells a b c d zero (p ∷ q ∷ []) h = (refl, refl, omega arith)
update_cells a b c d zero (p ∷ q ∷ r ∷ []) h = (refl, refl, omega arith)
update_cells a b c d (suc zero) [] h = (refl, refl, omega arith)
update_cells a b c d (suc zero) (p ∷ []) h = (refl, refl, omega arith)
update_cells a b c d (suc zero) (p ∷ q ∷ []) h = (refl, refl, omega arith)
update_cells a b c d (suc zero) (p ∷ q ∷ r ∷ []) h = (refl, refl, omega arith)
update_cells a b c d (suc (suc zero)) [] h = (refl, refl, omega arith)
update_cells a b c d (suc (suc zero)) (p ∷ []) h = (refl, refl, omega arith)
update_cells a b c d (suc (suc zero)) (p ∷ q ∷ []) h = (refl, refl, omega arith)
update_cells a b c d (suc (suc zero)) (p ∷ q ∷ r ∷ []) h = (refl, refl, omega arith)
update_cells a b c d (suc (suc (suc zero))) [] h = (refl, refl, omega arith)
update_cells a b c d (suc (suc (suc zero))) (p ∷ []) h = (refl, refl, omega arith)
update_cells a b c d (suc (suc (suc zero))) (p ∷ q ∷ []) h = (refl, refl, omega arith)
update_cells a b c d (suc (suc (suc zero))) (p ∷ q ∷ r ∷ []) h = (refl, refl, omega arith)
update_cells a b c d (suc (suc (suc (suc zero)))) [] h = (refl, refl, omega arith)
update_cells a b c d (suc (suc (suc (suc zero)))) (p ∷ []) h = (refl, refl, omega arith)
update_cells a b c d (suc (suc (suc (suc zero)))) (p ∷ q ∷ []) h = (refl, refl, omega arith)
update_cells a b c d (suc (suc (suc (suc zero)))) (p ∷ q ∷ r ∷ []) h = (refl, refl, omega arith)
update_cells a b c d (suc (suc (suc (suc (suc len))))) [] h = absurd (omega arith)
update_cells a b c d (suc (suc (suc (suc (suc len))))) (p ∷ []) h = absurd (omega arith)
update_cells a b c d (suc (suc (suc (suc (suc len))))) (p ∷ q ∷ []) h = absurd (omega arith)
update_cells a b c d (suc (suc (suc (suc (suc len))))) (p ∷ q ∷ r ∷ []) h = absurd (omega arith)
update_cells a b c d len (p ∷ q ∷ r ∷ s ∷ rest) h =
    update_long (a ∷ b ∷ c ∷ d ∷ []) len (p ∷ q ∷ r ∷ s ∷ rest) (omega arith)

update_framer : (f : MultilineFramer) (chunk : Bytes) → IsFramer f → Updated f.bytes f.len chunk
update_framer f chunk i =
    let (a, b, c, d, e) = four f.bytes i.size in
    subst (λ bytes. Updated bytes f.len chunk) (sym e) (update_cells a b c d f.len chunk i.used)
  where
    four :
        (bs : Bytes)
        → length bs ≡ tail_size
        → (a : ℕ) × (b : ℕ) × (c : ℕ) × (d : ℕ) × (bs ≡ a ∷ b ∷ c ∷ d ∷ [])
    four (a ∷ b ∷ c ∷ d ∷ []) h = (a, b, c, d, refl)
    four (a ∷ b ∷ c ∷ d ∷ e ∷ bs) h = absurd (omega arith)
    four [] h = absurd (omega arith)
    four (a ∷ []) h = absurd (omega arith)
    four (a ∷ b ∷ []) h = absurd (omega arith)
    four (a ∷ b ∷ c ∷ []) h = absurd (omega arith)

-- The end of a text that goes on is the end of its own end going on.
last_bytes-concat :
    (n : ℕ) (xs ys : Bytes) → last_bytes n (last_bytes n xs ++ ys) ≡ last_bytes n (xs ++ ys)
last_bytes-concat n xs ys = elim (le_or_lt n (length xs)) [
  | inr h ↦ let e : length xs - n ≡ 0 = omega arith in ap (λ k. last_bytes n (drop k xs ++ ys)) e
  | inl h ↦
      let k = length xs - n in
      sym (
        last_bytes-append n (take k xs) (last_bytes n xs ++ ys)
          (omega (arith, length-append (last_bytes n xs) ys, length-last_bytes n xs h)))
      ∙ ap (last_bytes n) (
          sym (append_assoc (take k xs) (drop k xs) ys)
          ∙ ap (λ zs. zs ++ ys) (take-append-drop k xs))
]

-- A framer that holds the last four bytes of a stream, or all of a shorter one, holds those of
-- the stream with the chunk behind it after `update`.
pub update-Follows :
    (f : MultilineFramer) (stream chunk : Bytes)
    → Follows f stream
    → Follows (update f chunk) (stream ++ chunk)
update-Follows f stream chunk g =
    let (e, s, u) = update_framer f chunk g.framer in
    record {
      framer = record { size = s; used = u };
      holds =
          e
          ∙ ap (λ t. last_bytes tail_size (t ++ chunk)) g.holds
          ∙ last_bytes-concat tail_size stream chunk;
    }

pub Follows-default : Follows default_framer []
Follows-default = record { framer = IsFramer-default; holds = refl }
