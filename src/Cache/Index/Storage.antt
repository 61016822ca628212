-- ===== src/Cache/Index/Storage.antt =====
-- src/cache/availability_index.rs: the blocks of a generation. An array is a function of its index;
-- every index that is used is in range, since a bucket is below the number of blocks. Keys are
-- message ids without brackets, and the hash of a key is an argument.
use nntp_proxy.Base.{
  ℕ, ◌+◌, ◌*◌, ◌/◌, ◌%◌, ◌^◌, Bool, false, ◌&&◌, List, [], ◌∷◌, Option, none, some, ◌==◌,
  if◌then◌else◌, Bytes, bytes_eq,
}
use Prim.Native.Nat.{bit_or}

abbrev pub block_slots : ℕ
block_slots = 2

-- A slot is occupied when its hash is not zero.
pub record Block : Type 0 where
  pub hashes : ℕ → ℕ
  pub tags : ℕ → ℕ
  pub missing : ℕ → ℕ

pub record ArticleFingerprint : Type 0 where
  pub hash : ℕ
  pub tag : ℕ

pub data InsertOutcome : Type 0 where
  inserted updated replaced : InsertOutcome

pub record Generation : Type 0 where
  pub started_at : ℕ
  pub occupied : ℕ
  pub blocks : ℕ → Block
  pub keys : ℕ → Option Bytes

-- An assignment to an element of an array.
abbrev pub assign : {A : Type 0} → (ℕ → A) → ℕ → A → ℕ → A
assign f i a j = if j == i then a else f j

abbrev pub empty_block : Block
empty_block = record { hashes = λ s. 0; tags = λ s. 0; missing = λ s. 0 }

-- `Generation::new`, and what `clear` leaves.
abbrev pub empty_generation : Generation
empty_generation = record {
  started_at = 0;
  occupied = 0;
  blocks = λ b. empty_block;
  keys = λ i. none;
}

abbrev pub key_index : ℕ → ℕ → ℕ
key_index block slot = block * block_slots + slot

-- `self.key(block, slot) == Some(key)`
abbrev pub is_key : Option Bytes → Bytes → Bool
is_key none key = false
is_key (some k) key = bytes_eq k key

abbrev pub is_match : Block → ArticleFingerprint → ℕ → Bool
is_match b f slot = b.hashes slot == f.hash && b.tags slot == f.tag

-- The slots of the mask, from the lowest bit on.
unfoldable pub matching_slots : Block → ArticleFingerprint → List ℕ
matching_slots b f =
    if is_match b f 0
    then 0 ∷ (if is_match b f 1 then 1 ∷ [] else [])
    else if is_match b f 1
    then 1 ∷ []
    else []

unfoldable pub victim_slot : ℕ → ℕ
victim_slot hash = (hash / 2 ^ 48) % block_slots

-- The loop over the candidates of a lookup.
unfoldable pub lookup_slots : Generation → Bytes → ℕ → List ℕ → ℕ → ℕ
lookup_slots g key block [] bits = bits
lookup_slots g key block (slot ∷ slots) bits = lookup_slots g key block slots (
    if is_key (g.keys (key_index block slot)) key
    then bit_or bits ((g.blocks block).missing slot)
    else bits)

-- `Generation::lookup_missing_bits`
unfoldable pub lookup_generation : Generation → ArticleFingerprint → Bytes → ℕ → ℕ
unfolding lookup_slots
lookup_generation g f key block = lookup_slots g key block (matching_slots (g.blocks block) f) 0

-- The loop over the candidates of an insertion.
unfoldable pub exact_slot : Generation → Bytes → ℕ → List ℕ → Option ℕ
exact_slot g key block [] = none
exact_slot g key block (slot ∷ slots) =
    let rest = exact_slot g key block slots in
    if is_key (g.keys (key_index block slot)) key then some slot else rest

unfoldable pub free_slot : Block → ℕ → ℕ
unfolding victim_slot
free_slot b hash = if b.hashes 0 == 0 then 0 else if b.hashes 1 == 0 then 1 else victim_slot hash

unfoldable pub put : Generation → ArticleFingerprint → Bytes → ℕ → ℕ → ℕ → Generation
put g f key bits block slot =
    let b = g.blocks block in
    record g {
      blocks = assign g.blocks block (record {
        hashes = assign b.hashes slot f.hash;
        tags = assign b.tags slot f.tag;
        missing = assign b.missing slot bits;
      });
      keys = assign g.keys (key_index block slot) (some key);
    }

unfoldable pub join : Generation → ℕ → ℕ → ℕ → Generation
join g bits block slot =
    let b = g.blocks block in
    record g {
      blocks =
          assign g.blocks block
            (record b { missing = assign b.missing slot (bit_or (b.missing slot) bits) });
    }

-- `Generation::insert_missing_bits`
unfoldable pub insert_generation :
    Generation → ArticleFingerprint → Bytes → ℕ → ℕ → Generation × InsertOutcome
unfolding exact_slot join put free_slot
insert_generation g f key bits block =
    let b = g.blocks block in
    elim (exact_slot g key block (matching_slots b f)) [
      | some slot ↦ (join g bits block slot, InsertOutcome.updated)
      | none ↦
          let slot = free_slot b f.hash in
          (
            put g f key bits block slot,
            if b.hashes slot == 0 then InsertOutcome.inserted else InsertOutcome.replaced,
          )
    ]
