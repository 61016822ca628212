-- ===== src/Tests/Index.antt =====
-- src/cache/availability_index.rs at concrete values.
use nntp_proxy.Base.{
  false, ◌+◌, ◌*◌, ◌<◌, ◌≡◌, refl, List, [], ◌∷◌, Bytes, codes, arith, bit_at, bytes_eq,
}
use nntp_proxy.Cache.Index.{
  ArticleFingerprint, FilterState, new, lookup_missing_bits, insert_missing_bits, is_due,
  block_index, locate_hash, blocks_of_shard, matching_slots, lookup_generation, insert_generation,
  rotate_if_needed, active_generation, advance,
}
use nntp_proxy.Cache.Index.Shards.{locate_hash_lem}
use nntp_proxy.Cache.Index.Sound.{
  Call, perform, perform_all, Recorded, lookup_missing_bits-Recorded,
}
use nntp_proxy.Cache.Index.Retained.{after_insert, lookup_missing_bits-insert}

-- Two message ids with the same fingerprint.
abbrev print : ArticleFingerprint
print = record { hash = 9; tag = 4 }

abbrev first : Bytes
first = codes "a@b"

abbrev calls : List Call
calls = Call.insert print first 2 3 1000 ∷ Call.insert print (codes "c@d") 4 3 1200 ∷ []

abbrev filled : FilterState
filled = perform_all (new 4 2 1000) calls

found : bit_at (lookup_missing_bits filled print first 3 1500).1.0 1 ≡ 1
unfolding lookup_missing_bits insert_missing_bits new bytes_eq rotate_if_needed is_due
    insert_generation matching_slots lookup_generation active_generation
found = refl

lookup_missing_bits-Recorded_example : Recorded calls first 1
lookup_missing_bits-Recorded_example =
    lookup_missing_bits-Recorded 4 2 1000 calls print first 3 1500 1 found

not_due : is_due (perform filled (Call.insert print first 8 3 1600)) 1900 ≡ false
unfolding lookup_missing_bits insert_missing_bits new bytes_eq rotate_if_needed is_due
    insert_generation matching_slots lookup_generation active_generation
not_due = refl

not_due_before : is_due (perform filled (Call.insert print first 8 3 1600)) 1700 ≡ false
unfolding lookup_missing_bits insert_missing_bits new bytes_eq rotate_if_needed is_due
    insert_generation matching_slots lookup_generation active_generation
not_due_before = refl

lookup_missing_bits-insert_example :
    bit_at
      (lookup_missing_bits
        (perform_all
          (after_insert 4 2 1000 calls print first 8 3 1600)
          (Call.lookup print (codes "c@d") 3 1700 ∷ []))
        print
        first
        3
        1900).1.0
      3
    ≡ 1
lookup_missing_bits-insert_example =
    lookup_missing_bits-insert 4 2 1000 calls (Call.lookup print (codes "c@d") 3 1700 ∷ []) print
      first 8 3 1600 1900 3 (omega arith) refl refl (not_due_before, tt) not_due

locate_hash_lem_example :
    ((locate_hash 3 7 12345).0 < 3)
    × ((locate_hash 3 7 12345).1 < blocks_of_shard 3 7 (locate_hash 3 7 12345).0)
    × (3 * (locate_hash 3 7 12345).1 + (locate_hash 3 7 12345).0 ≡ block_index 12345 7)
    × (block_index 12345 7 < 7)
locate_hash_lem_example = locate_hash_lem 3 7 12345 (omega arith) (omega arith)

-- With two generations of 1000 ms for a lifetime of 2000 ms, a miss is still reported after 2998 ms.
outlives :
    (lookup_missing_bits
      (perform_all
        (new 4 2 1000)
        (Call.insert print first 2 3 1000 ∷ Call.insert print (codes "c@d") 4 3 2999 ∷ []))
      print
      first
      3
      3998).1.0
    ≡ 2
unfolding lookup_missing_bits insert_missing_bits new bytes_eq rotate_if_needed is_due advance
    lookup_generation matching_slots active_generation insert_generation
outlives = refl
