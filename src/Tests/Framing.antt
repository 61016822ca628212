-- ===== src/Tests/Framing.antt =====
-- src/session/multiline_framing.rs at concrete chunks.
use nntp_proxy.Base.{
  ◌≡◌, ◌⊎◌, ◌≢◌, refl, true, List, [], ◌∷◌, ◌++◌, some, Bytes, codes, ok, err, bytes_eq, any, ◌==◌,
}
use nntp_proxy.Memchr.{plain, find_first}
use nntp_proxy.Framing.{
  BytesPolicy, FramingError, default_framer, terminator, update, find_spanning_terminator,
  find_spanning, terminator_ends_in_chunk, split_chunk,
}
use nntp_proxy.Framing.Scan.{scan, plus, backwards}
use nntp_proxy.Framing.Chunks.{find_spanning_terminator_late}
use nntp_proxy.Framing.Chunks.Stream.{advance_chunks, advance_chunks_lem, IsApart, concat}
use nntp_proxy.Framing.Policy.{IsFollowed, split_chunk_allow}

-- The terminator arrives in three pieces, and a part of the next response behind it.
abbrev pieces : List Bytes
pieces = codes "222 body\r\nx\r" ∷ codes "\n.\r" ∷ codes "\n430 no" ∷ []

pieces-IsApart : IsApart default_framer pieces
unfolding update bytes_eq
pieces-IsApart = (refl, (refl, (refl, tt)))

advance_chunks_lem_example :
    advance_chunks plain default_framer pieces ≡ plus 5 (find_first terminator (concat pieces))
advance_chunks_lem_example = advance_chunks_lem plain pieces pieces-IsApart

pieces_end : advance_chunks plain default_framer pieces ≡ some 16
unfolding find_first bytes_eq
pieces_end = advance_chunks_lem_example

find_spanning_terminator_late_example :
    (find_spanning_terminator (codes "\r\n.\r") (codes "\n.\r\n" ++ codes "x") ≡ some 4)
    × (scan (backwards (codes "\r\n.\r") []) (codes "\n.\r\n" ++ codes "x") ≡ some 1)
find_spanning_terminator_late_example =
    find_spanning_terminator_late (codes "\r\n.\r") (codes "x") refl

split_chunk_allow_example :
    (split_chunk plain default_framer (codes "a\r\n.\r\n2") BytesPolicy.allow_if_status_prefix
      ≢ err FramingError.io)
    × (split_chunk plain default_framer (codes "a\r\n.\r\n2") BytesPolicy.allow_if_status_prefix
          ≡ ok (default_framer, some 6)
        → (default_framer ≡ default_framer)
          × ((find_spanning default_framer (codes "a\r\n.\r\n2") ≡ some 6)
              ⊎ (any (λ e. e == 6) (terminator_ends_in_chunk plain (codes "a\r\n.\r\n2")) ≡ true))
          × IsFollowed plain (codes "a\r\n.\r\n2") 6)
split_chunk_allow_example =
    split_chunk_allow plain default_framer default_framer (codes "a\r\n.\r\n2") 6 FramingError.io
