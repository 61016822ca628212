-- ===== src/Framing/Policy.antt =====
-- src/session/multiline_framing.rs: what a chunk may hold behind the terminator.
use nntp_proxy.Base.{
  ℕ, ◌≡◌, ◌⊎◌, ◌≢◌, refl, true, List, [], ◌∷◌, Option, none, some, arith, ◌==◌, if◌then◌else◌,
  Bytes, length, drop, Result, ok, err, any, inl, inr, sym, ◌∙◌, Option-cases,
}
use nntp_proxy.Memchr.{Memchr}
use nntp_proxy.Framing.{
  MultilineFramer, BytesPolicy, FramingError, update, find_spanning, next_terminator_end,
  terminator_ends_in_chunk, plausible_status_prefix, split_ends, split_spanning, split_chunk, head?,
  first_result,
}

module _ (m : Memchr) where
  split_ends_reject :
      (chunk : Bytes) (ends : List ℕ)
      → split_ends m BytesPolicy.reject chunk ends ≡ elim (head? ends) [
        | none ↦ none
        | some end ↦ some (
            if end == length chunk
            then ok end
            else err FramingError.unexpected_trailing_response_bytes)
      ]
  unfolding split_ends
  split_ends_reject chunk [] = refl
  split_ends_reject chunk (end ∷ ends) = ground arith

  -- Without room for later responses, a chunk completes the response exactly when the first
  -- terminator ends with the chunk; bytes behind it are an error, and without a terminator the
  -- framer takes the chunk in and waits.
  pub split_chunk_reject :
      (f : MultilineFramer) (chunk : Bytes)
      → split_chunk m f chunk BytesPolicy.reject ≡ elim (next_terminator_end m f chunk) [
        | none ↦ ok (update f chunk, none)
        | some end ↦
            if end == length chunk
            then ok (f, some end)
            else err FramingError.unexpected_trailing_response_bytes
      ]
  unfolding split_chunk split_spanning next_terminator_end
  split_chunk_reject f chunk =
      ground (arith, split_ends_reject chunk (terminator_ends_in_chunk m chunk))

  -- What may follow a response that was split off: nothing, or the start of a status line.
  abbrev pub IsFollowed : Bytes → ℕ → Type 0
  IsFollowed chunk end = (end ≡ length chunk) ⊎ (plausible_status_prefix m (drop end chunk) ≡ true)

  split_ends_allow :
      (chunk : Bytes) (ends : List ℕ) {end : ℕ}
      → split_ends m BytesPolicy.allow_if_status_prefix chunk ends ≡ some (ok end)
      → (any (λ e. e == end) ends ≡ true) × IsFollowed chunk end
  unfolding split_ends
  split_ends_allow chunk [] h = cc
  split_ends_allow chunk (e ∷ ends) {end} h =
      ground (arith, split_ends_allow chunk ends {end = end})

  split_ends_allow_ok :
      (chunk : Bytes) (ends : List ℕ) (e : FramingError)
      → split_ends m BytesPolicy.allow_if_status_prefix chunk ends ≢ some (err e)
  unfolding split_ends
  split_ends_allow_ok chunk [] e h = cc
  split_ends_allow_ok chunk (x ∷ ends) e h = ground (arith, split_ends_allow_ok chunk ends e)

  split_spanning_allow :
      (chunk : Bytes) (o : Option ℕ) {end : ℕ}
      → split_spanning m BytesPolicy.allow_if_status_prefix chunk o ≡ some (ok end)
      → (o ≡ some end) × IsFollowed chunk end
  unfolding split_spanning
  split_spanning_allow chunk none h = cc
  split_spanning_allow chunk (some n) {end} h = ground arith

  split_spanning_allow_ok :
      (chunk : Bytes) (o : Option ℕ) (e : FramingError)
      → split_spanning m BytesPolicy.allow_if_status_prefix chunk o ≢ some (err e)
  unfolding split_spanning
  split_spanning_allow_ok chunk none e h = cc
  split_spanning_allow_ok chunk (some n) e h = ground arith

  -- What the two parts of `split_chunk` return together.
  abbrev outcome : MultilineFramer → Bytes → Option (Result FramingError ℕ)
  outcome f chunk =
      first_result m
        (split_spanning m BytesPolicy.allow_if_status_prefix chunk (find_spanning f chunk))
        (split_ends m BytesPolicy.allow_if_status_prefix chunk (terminator_ends_in_chunk m chunk))

  split_chunk-outcome :
      (f : MultilineFramer) (chunk : Bytes)
      → split_chunk m f chunk BytesPolicy.allow_if_status_prefix ≡ elim (outcome f chunk) [
        | some (ok end) ↦ ok (f, some end)
        | some (err e) ↦ err e
        | none ↦ ok (update f chunk, none)
      ]
  unfolding split_chunk
  split_chunk-outcome f chunk = refl

  first_result_cases :
      (p q : Option (Result FramingError ℕ)) → (first_result m p q ≡ p) ⊎ (first_result m p q ≡ q)
  first_result_cases none q = inr refl
  first_result_cases (some r) q = inl refl

  outcome_ok :
      (f : MultilineFramer) (chunk : Bytes) {end : ℕ}
      → outcome f chunk ≡ some (ok end)
      → ((find_spanning f chunk ≡ some end)
          ⊎ (any (λ e. e == end) (terminator_ends_in_chunk m chunk) ≡ true))
        × IsFollowed chunk end
  outcome_ok f chunk h =
      elim (first_result_cases
        (split_spanning m BytesPolicy.allow_if_status_prefix chunk (find_spanning f chunk))
        (split_ends m BytesPolicy.allow_if_status_prefix chunk
          (terminator_ends_in_chunk m chunk))) [
            | inl e ↦
                let (a, b) = split_spanning_allow chunk (find_spanning f chunk) (sym e ∙ h) in
                (inl a, b)
            | inr e ↦
                let (a, b) =
                  split_ends_allow chunk (terminator_ends_in_chunk m chunk) (sym e ∙ h) in
                (inr a, b)
          ]

  outcome_err :
      (f : MultilineFramer) (chunk : Bytes) (e : FramingError) → outcome f chunk ≢ some (err e)
  outcome_err f chunk e h =
      elim (first_result_cases
        (split_spanning m BytesPolicy.allow_if_status_prefix chunk (find_spanning f chunk))
        (split_ends m BytesPolicy.allow_if_status_prefix chunk
          (terminator_ends_in_chunk m chunk))) [
            | inl d ↦ split_spanning_allow_ok chunk (find_spanning f chunk) e (sym d ∙ h)
            | inr d ↦ split_ends_allow_ok chunk (terminator_ends_in_chunk m chunk) e (sym d ∙ h)
          ]

  -- With room for later responses, a chunk is never an error; a response that is split off ends
  -- where a terminator ends, at the boundary or in the chunk, with nothing or the start of a status
  -- line behind it, and the framer is left as it was.
  pub split_chunk_allow :
      (f g : MultilineFramer) (chunk : Bytes) (end : ℕ) (e : FramingError)
      → (split_chunk m f chunk BytesPolicy.allow_if_status_prefix ≢ err e)
        × (split_chunk m f chunk BytesPolicy.allow_if_status_prefix ≡ ok (g, some end)
            → (g ≡ f)
              × ((find_spanning f chunk ≡ some end)
                  ⊎ (any (λ e. e == end) (terminator_ends_in_chunk m chunk) ≡ true))
              × IsFollowed chunk end)
  split_chunk_allow f g chunk end e = elim (Option-cases (outcome f chunk)) [
    | inl d ↦ let k = split_chunk-outcome f chunk in ground (arith, k, d)
    | inr (err x, d) ↦ absurd (outcome_err f chunk x d)
    | inr (ok n, d) ↦
        let k = split_chunk-outcome f chunk in
        let (a, b) = outcome_ok f chunk {end = n} d in ground (arith, k, d, a, b)
  ]
